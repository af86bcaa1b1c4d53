-- ===== src/Dm/Session.antt =====
-- dm/src/greeter_proc.c, session.c and dm.c: the greeter's process, the user's session and its lock. The
-- switch of virtual terminals is left out.
use isde.Common.{ℕ, ◌==◌, ◌||◌, not, true, false, Option, none, some, Str, if◌then◌else◌, is_some}
use isde.Common.Int.{pos}
use isde.Dm.State.{
  session_started, session_ended, locked_signal, unlocked_signal, greeter_started, greeter_stopped,
  Os, Dm, note,
}

-- `dm_greeter_stop`; a connection is closed with it
unfoldable pub greeter_stop : Dm → Dm
greeter_stop dm =
    if dm.greeter_pid == 0
    then dm
    else if dm.connected
    then note greeter_stopped
        (record dm { greeter_pid = 0; connected = false; ipc_buf_len = pos 0 })
    else note greeter_stopped (record dm { greeter_pid = 0 })

-- `dm_unlock_session`
unfoldable pub unlock_session : Dm → Dm
unlock_session dm =
    if dm.locked then note unlocked_signal (greeter_stop (record dm { locked = false })) else dm

module _ (os : Os) where
  unfoldable pub forked_greeter : Option ℕ → Dm → Dm
  forked_greeter none dm = dm
  forked_greeter (some pid) dm = note greeter_started (record dm { greeter_pid = pid })

  -- `dm_greeter_start`
  unfoldable pub greeter_start : Dm → Dm
  greeter_start dm = if dm.greeter_pid == 0 then forked_greeter (os.fork_greeter dm.log) dm else dm

  -- `dm_lock_session`
  unfoldable pub lock_session : Dm → Dm
  lock_session dm =
      if dm.locked
      then dm
      else if (dm.session_pid == 0) || not (is_some dm.session_user)
      then dm
      else note locked_signal (greeter_start (record dm { locked = true }))

  unfoldable pub forked_session : (username desktop : Str) → Option ℕ → Dm → Dm
  forked_session username desktop none dm = dm
  forked_session username desktop (some pid) dm =
      note (session_started username desktop) (record dm {
        session_pid = pid;
        session_user = some username;
        session_desktop = some desktop;
      })

  -- `dm_session_start`, in the parent
  unfoldable pub session_start : (username desktop : Str) → Dm → Dm
  session_start username desktop dm =
      if os.getpwnam dm.log username
      then (if os.find_session_exec dm.log desktop
          then forked_session username desktop (os.fork_session dm.log) dm
          else dm)
      else dm

  -- `dm_session_cleanup`
  unfoldable pub session_cleanup : Dm → Dm
  session_cleanup dm =
      greeter_start
        (record (note session_ended dm) { session_pid = 0; locked = false; session_user = none })

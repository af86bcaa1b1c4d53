-- ===== src/Dm/Ipc/Login.antt =====
-- Over every history, a session starts only for a user who was authenticated before, and the greeter's
-- power commands are obeyed only where the configuration allows them.
use isde.Common.{
  ℕ, ◌≡◌, refl, Bool, true, false, List, [], ◌∷◌, ◌++◌, Option, none, some, is_some, not, Str,
  codes, str_eq_refl, length, arith,
}
use isde.Common.Int.{pos}
use isde.Dm.State.{authenticated, Os, Dm, note}
use isde.Dm.Session.{
  greeter_stop, unlock_session, forked_greeter, greeter_start, lock_session, forked_session,
  session_start, session_cleanup,
}
use isde.Dm.Ipc.{
  ipc_send, ipc_accept, or_default, unlock_for, log_in, let_in, welcome, checked, check, at_space,
  split_auth, handle_auth, command, session_or_command, auth_or_other, dispatch_message,
  dispatch_line, drain, dropped, Read, bytes, ended, interrupted, kept, received, ipc_read,
  ipc_handle, Wakeup, accept, readable, lock, greeter_exited, session_exited, serve, serve_all,
  after_prefix,
}
use isde.Dm.Ipc.Allowed.{was_authenticated, IsAllowedLog, IsSafe}

module _ (os : Os) (cfg : Dm) where
  greeter_stop-IsSafe : (dm : Dm) → IsSafe os cfg dm → IsSafe os cfg (greeter_stop dm)
  unfolding greeter_stop note
  greeter_stop-IsSafe dm v = ground arith

  unlock_session-IsSafe : (dm : Dm) → IsSafe os cfg dm → IsSafe os cfg (unlock_session dm)
  unfolding unlock_session greeter_stop note
  unlock_session-IsSafe dm v = ground arith

  ipc_send-IsSafe : (m : Str) (dm : Dm) → IsSafe os cfg dm → IsSafe os cfg (ipc_send m dm)
  unfolding ipc_send note
  ipc_send-IsSafe m dm v = ground arith

  unlock_for-IsSafe :
      (u : Str) (o : Option Str) (dm : Dm) → IsSafe os cfg dm → IsSafe os cfg (unlock_for u o dm)
  unfolding unlock_for
  unlock_for-IsSafe u none dm v = v
  unlock_for-IsSafe u (some user) dm v = ground (arith, unlock_session-IsSafe dm v)

  greeter_start-IsSafe : (dm : Dm) → IsSafe os cfg dm → IsSafe os cfg (greeter_start os dm)
  unfolding greeter_start forked_greeter note
  greeter_start-IsSafe dm v = ground arith

  lock_session-IsSafe : (dm : Dm) → IsSafe os cfg dm → IsSafe os cfg (lock_session os dm)
  unfolding lock_session greeter_start forked_greeter note
  lock_session-IsSafe dm v = ground arith

  session_cleanup-IsSafe : (dm : Dm) → IsSafe os cfg dm → IsSafe os cfg (session_cleanup os dm)
  unfolding session_cleanup greeter_start forked_greeter note
  session_cleanup-IsSafe dm v = ground arith

  session_start-IsSafe :
      (u d : Str) (dm : Dm)
      → was_authenticated u dm.log ≡ true
      → IsSafe os cfg dm
      → IsSafe os cfg (session_start os u d dm)
  unfolding session_start forked_session note
  session_start-IsSafe u d dm known v = ground arith

  -- The user stays authenticated through the reply and the end of the greeter.
  known_after :
      (u m : Str) (dm : Dm)
      → was_authenticated u dm.log ≡ true
      → was_authenticated u (greeter_stop (ipc_send m dm)).log ≡ true
  unfolding greeter_stop ipc_send note
  known_after u m dm known = ground (arith, known)

  log_in-IsSafe :
      (u : Str) (o : Option Str) (dm : Dm)
      → was_authenticated u (greeter_stop dm).log ≡ true
      → IsSafe os cfg dm
      → IsSafe os cfg (log_in os u o dm)
  unfolding log_in
  log_in-IsSafe u none dm known v = ipc_send-IsSafe _ dm v
  log_in-IsSafe u (some desktop) dm known v =
      session_start-IsSafe u desktop (greeter_stop dm) known (greeter_stop-IsSafe dm v)

  let_in-IsSafe :
      (b : Bool) (u : Str) (dm : Dm)
      → was_authenticated u (greeter_stop dm).log ≡ true
      → IsSafe os cfg dm
      → IsSafe os cfg (let_in os b u dm)
  unfolding let_in
  let_in-IsSafe true u dm known v = unlock_for-IsSafe u dm.session_user dm v
  let_in-IsSafe false u dm known v =
      log_in-IsSafe u (or_default dm.session_desktop dm.default_session) dm known v

  welcome-IsSafe :
      (u : Str) (dm : Dm)
      → was_authenticated u dm.log ≡ true
      → IsSafe os cfg dm
      → IsSafe os cfg (welcome os u dm)
  unfolding welcome
  welcome-IsSafe u dm known v =
      let_in-IsSafe _ u _ (known_after u (codes "AUTH_OK") dm known)
        (ipc_send-IsSafe (codes "AUTH_OK") dm v)

  checked-IsSafe :
      (u p : Str) (o : Option Str) (dm : Dm)
      → os.auth_check dm.log u p ≡ o
      → IsSafe os cfg dm
      → IsSafe os cfg (checked os u o (note (authenticated u (not (is_some o))) dm))
  unfolding checked note
  checked-IsSafe u p none dm e v =
      welcome-IsSafe u (record dm { log = authenticated u true ∷ dm.log })
        (ground (arith, str_eq_refl u))
        (record {
          shutdown_same = v.shutdown_same;
          reboot_same = v.reboot_same;
          suspend_same = v.suspend_same;
          safe_log = ((p, e), v.safe_log);
        })
  checked-IsSafe u p (some message) dm e v =
      ipc_send-IsSafe _ (record dm { log = authenticated u false ∷ dm.log })
        (record {
          shutdown_same = v.shutdown_same;
          reboot_same = v.reboot_same;
          suspend_same = v.suspend_same;
          safe_log = (tt, v.safe_log);
        })

  check-IsSafe : (u p : Str) (dm : Dm) → IsSafe os cfg dm → IsSafe os cfg (check os u p dm)
  unfolding check
  check-IsSafe u p dm v = ground (
    arith,
    ipc_send-IsSafe (codes "AUTH_FAIL Username too long") dm v,
    ipc_send-IsSafe (codes "AUTH_FAIL Password too long") dm v,
    checked-IsSafe u p (os.auth_check dm.log u p) dm refl v,
  )

  handle_auth-IsSafe :
      (args : Str) (dm : Dm) → IsSafe os cfg dm → IsSafe os cfg (handle_auth os args dm)
  unfolding handle_auth split_auth
  handle_auth-IsSafe args dm v = rewritten (at_space [] args)
    where
      rewritten : (o : Option (Str × Str)) → IsSafe os cfg (split_auth os dm o)
      rewritten none = ipc_send-IsSafe _ dm v
      rewritten (some (u, p)) = check-IsSafe u p dm v

  command-IsSafe : (line : Str) (dm : Dm) → IsSafe os cfg dm → IsSafe os cfg (command os line dm)
  unfolding command note
  command-IsSafe line dm v = ground (arith, unlock_session-IsSafe dm v)

  session_or_command-IsSafe :
      (line : Str) (o : Option Str) (dm : Dm)
      → IsSafe os cfg dm
      → IsSafe os cfg (session_or_command os line o dm)
  unfolding session_or_command
  session_or_command-IsSafe line none dm v = command-IsSafe line dm v
  session_or_command-IsSafe line (some desktop) dm v = ground arith

  auth_or_other-IsSafe :
      (line : Str) (o : Option Str) (dm : Dm)
      → IsSafe os cfg dm
      → IsSafe os cfg (auth_or_other os line o dm)
  unfolding auth_or_other
  auth_or_other-IsSafe line none dm v = session_or_command-IsSafe line _ dm v
  auth_or_other-IsSafe line (some args) dm v = handle_auth-IsSafe args dm v

  dispatch_line-IsSafe :
      (line : Str) (dm : Dm) → IsSafe os cfg dm → IsSafe os cfg (dispatch_line os line dm)
  unfolding dispatch_line dispatch_message
  dispatch_line-IsSafe line dm v =
      ground (arith, auth_or_other-IsSafe line (after_prefix (codes "AUTH ") line) dm v)

  drain-IsSafe :
      (line start rest : List ℕ) (dm : Dm)
      → IsSafe os cfg dm
      → IsSafe os cfg (drain os line start rest dm).0
  unfolding drain
  drain-IsSafe line start [] dm v = v
  drain-IsSafe line start (c ∷ rest) dm v = ground (
    arith,
    drain-IsSafe [] rest rest (dispatch_line os line dm) (dispatch_line-IsSafe line dm v),
    drain-IsSafe (line ++ c ∷ []) start rest dm v,
  )

  received-IsSafe : (new : List ℕ) (dm : Dm) → IsSafe os cfg dm → IsSafe os cfg (received os new dm)
  unfolding received kept
  received-IsSafe new dm v =
      let all = dm.ipc_buf ++ new in
      let w =
        drain-IsSafe [] all all (record dm { ipc_buf = all; ipc_buf_len = pos (length all) })
          (record {
            shutdown_same = v.shutdown_same;
            reboot_same = v.reboot_same;
            suspend_same = v.suspend_same;
            safe_log = v.safe_log;
          }) in
      record {
        shutdown_same = w.shutdown_same;
        reboot_same = w.reboot_same;
        suspend_same = w.suspend_same;
        safe_log = w.safe_log;
      }

  dropped-IsSafe : (dm : Dm) → IsSafe os cfg dm → IsSafe os cfg (dropped os dm)
  unfolding dropped
  dropped-IsSafe dm v = ground arith

  ipc_read-IsSafe : (r : Read) (dm : Dm) → IsSafe os cfg dm → IsSafe os cfg (ipc_read os r dm)
  unfolding ipc_read
  ipc_read-IsSafe (bytes new) dm v = received-IsSafe _ dm v
  ipc_read-IsSafe ended dm v = dropped-IsSafe dm v
  ipc_read-IsSafe interrupted dm v = v

  serve-IsSafe : (i : Wakeup) (dm : Dm) → IsSafe os cfg dm → IsSafe os cfg (serve os i dm)
  unfolding serve ipc_accept ipc_handle
  serve-IsSafe (accept true) dm v = ground arith
  serve-IsSafe (accept false) dm v = v
  serve-IsSafe (readable r) dm v = ground (arith, ipc_read-IsSafe r dm v, dropped-IsSafe dm v)
  serve-IsSafe lock dm v = lock_session-IsSafe dm v
  serve-IsSafe greeter_exited dm v = ground arith
  serve-IsSafe session_exited dm v = session_cleanup-IsSafe dm v

  serve_all-IsSafe :
      (is : List Wakeup) (dm : Dm) → IsSafe os cfg dm → IsSafe os cfg (serve_all os is dm)
  unfolding serve_all
  serve_all-IsSafe [] dm v = v
  serve_all-IsSafe (i ∷ is) dm v = serve_all-IsSafe is (serve os i dm) (serve-IsSafe i dm v)

-- From a start with an empty log, whatever bytes the greeter sends, however they are cut into reads, and
-- whatever locks and session ends come between: a session starts only for a user for whom an
-- authentication succeeded before, which is only where PAM answered so for a password, and each shutdown, reboot and suspend is one that the
-- configuration allows.
pub serve_all-IsAllowedLog :
    (os : Os) (is : List Wakeup) (dm : Dm)
    → dm.log ≡ []
    → IsAllowedLog os dm (serve_all os is dm).log
serve_all-IsAllowedLog os is dm fresh =
    (serve_all-IsSafe os dm is dm (record {
      shutdown_same = refl;
      reboot_same = refl;
      suspend_same = refl;
      safe_log = rw fresh tt;
    })).safe_log

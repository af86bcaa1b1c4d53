-- ===== src/Dm/Ipc.antt =====
-- dm/src/ipc.c: the greeter's messages, a line each. Listing the sessions only sends a reply, which is left
-- out, as is a reply that cannot be written.
pub mod Allowed
pub mod Login
pub mod Length
pub mod Buffer
use isde.Common.{
  ℕ, zero, suc, ◌+◌, ◌-◌, ◌==◌, ◌&&◌, ◌||◌, not, ltb, leb, Bool, true, false, List, [], ◌∷◌, ◌++◌,
  Option, none, some, is_some, Str, codes, str_eq, is_empty, length, take, fit, if◌then◌else◌,
}
use isde.Common.Int.{ℤ, pos, ◌-ℤ◌, ltb_ℤ, pos_part}
use isde.Dm.State.{
  Event, authenticated, sent, shutdown, reboot, suspend, Os, Dm, ipc_max_msg, ipc_max_user,
  ipc_max_pass, note,
}
use isde.Dm.Session.{
  greeter_stop, greeter_start, unlock_session, lock_session, session_start, session_cleanup,
}

-- strncmp(line, s, strlen(s)) == 0: what follows the prefix.
pub after_prefix : Str → (line : Str) → Option Str
after_prefix [] line = some line
after_prefix (c ∷ s) [] = none
after_prefix (c ∷ s) (d ∷ line) = if c == d then after_prefix s line else none

-- The bytes before the first space and the bytes behind it.
pub at_space : (front args : Str) → Option (Str × Str)
at_space front [] = none
at_space front (c ∷ s) = if c == b' ' then some (front, s) else at_space (front ++ c ∷ []) s

-- `dm_ipc_send`
pub ipc_send : Str → Dm → Dm
ipc_send msg dm = if dm.connected && ltb (length msg) ipc_max_msg then note (sent msg) dm else dm

-- `dm_ipc_accept`: a new connection takes the place of the old one.
pub ipc_accept : (accepted : Bool) → Dm → Dm
ipc_accept accepted dm =
    if accepted then record dm { connected = true; ipc_buf = []; ipc_buf_len = pos 0 } else dm

pub or_default : Option Str → Option Str → Option Str
or_default none d = d
or_default (some s) d = some s

-- The lock screen takes only the user of the session.
pub unlock_for : (username : Str) → Option Str → Dm → Dm
unlock_for username none dm = dm
unlock_for username (some user) dm = if str_eq username user then unlock_session dm else dm

-- How read(2) ends: one byte or more, the end of the stream or an error, EAGAIN or EINTR.
pub data Read : Type 0 where
  bytes : List ℕ → Read
  ended interrupted : Read

-- What the main loop calls: the socket, Lock on the system bus, the end of the greeter or of the session.
pub data Wakeup : Type 0 where
  accept : Bool → Wakeup
  readable : Read → Wakeup
  lock greeter_exited session_exited : Wakeup

module _ (os : Os) where
  pub log_in : (username : Str) → Option Str → Dm → Dm
  log_in username none dm = ipc_send (codes "AUTH_FAIL no session configured") dm
  log_in username (some desktop) dm = session_start os username desktop (greeter_stop dm)

  -- A locked session is unlocked; otherwise a session starts.
  pub let_in : (locked : Bool) (username : Str) → Dm → Dm
  unfolding or_default
  let_in true username dm = unlock_for username dm.session_user dm
  let_in false username dm = log_in username (or_default dm.session_desktop dm.default_session) dm

  -- What follows a successful `dm_auth_check`.
  pub welcome : (username : Str) → Dm → Dm
  welcome username dm = let v = ipc_send (codes "AUTH_OK") dm in let_in v.locked username v

  pub checked : (username : Str) → Option Str → Dm → Dm
  checked username none dm = welcome username dm
  checked username (some message) dm = ipc_send (fit 512 (codes "AUTH_FAIL " ++ message)) dm

  -- The call of `dm_auth_check`: what it answers, and the log with the call.
  abbrev pub dm_auth_check : (username password : Str) → Dm → Option Str × Dm
  dm_auth_check username password dm =
      let answer = os.auth_check dm.log username password in
      (answer, note (authenticated username (not (is_some answer))) dm)

  pub check : (username password : Str) → Dm → Dm
  check username password dm =
      if leb ipc_max_user (length username)
      then ipc_send (codes "AUTH_FAIL Username too long") dm
      else if leb ipc_max_pass (length password)
      then ipc_send (codes "AUTH_FAIL Password too long") dm
      else let (answer, v) = dm_auth_check username password dm in checked username answer v

  pub split_auth : Dm → Option (Str × Str) → Dm
  split_auth dm none = ipc_send (codes "AUTH_FAIL Invalid request") dm
  split_auth dm (some (username, password)) = check username password dm

  -- `handle_auth`
  pub handle_auth : (args : Str) → Dm → Dm
  handle_auth args dm = split_auth dm (at_space [] args)

  -- The messages without arguments.
  pub command : (line : Str) → Dm → Dm
  command line dm =
      if str_eq line (codes "LIST_SESSIONS")
      then dm
      else if str_eq line (codes "SHUTDOWN")
      then (if dm.allow_shutdown then note shutdown dm else dm)
      else if str_eq line (codes "REBOOT")
      then (if dm.allow_reboot then note reboot dm else dm)
      else if str_eq line (codes "SUSPEND")
      then (if dm.allow_suspend then note suspend dm else dm)
      else if str_eq line (codes "CANCEL_LOCK")
      then unlock_session dm
      else dm

  -- `handle_session` where the line has that prefix
  pub session_or_command : (line : Str) → Option Str → Dm → Dm
  session_or_command line none dm = command line dm
  session_or_command line (some desktop) dm = record dm { session_desktop = some desktop }

  pub auth_or_other : (line : Str) → Option Str → Dm → Dm
  auth_or_other line none dm = session_or_command line (after_prefix (codes "SESSION ") line) dm
  auth_or_other line (some args) dm = handle_auth args dm

  -- `dispatch_message`
  pub dispatch_message : (line : Str) → Dm → Dm
  dispatch_message line dm = auth_or_other line (after_prefix (codes "AUTH ") line) dm

  pub dispatch_line : (line : Str) → Dm → Dm
  dispatch_line line dm = if is_empty line then dm else dispatch_message line dm

  -- The loop of `dm_ipc_handle`: `line` was read since `start`. It ends at the first zero byte or behind
  -- the last byte, and what is left in the buffer begins at `start`.
  pub drain : (line start rest : List ℕ) → Dm → Dm × List ℕ
  drain line start [] dm = (dm, start)
  drain line start (c ∷ rest) dm = elim (c == 0) [
    | true ↦ (dm, start)
    | false ↦ elim (c == 10) [
      | true ↦ drain [] rest rest (dispatch_line line dm)
      | false ↦ drain (line ++ c ∷ []) start rest dm
    ]
  ]

  pub dropped : Dm → Dm
  dropped dm = record dm { connected = false; ipc_buf_len = pos 0 }

  -- What is left moves to the front: its number is what `ipc_buf_len` is by then, less what was read.
  pub kept : (all : List ℕ) → Dm × List ℕ → Dm
  kept all (dm, start) = record dm {
    ipc_buf = start;
    ipc_buf_len = dm.ipc_buf_len -ℤ pos (length all - length start);
  }

  pub received : List ℕ → Dm → Dm
  received new dm =
      let all = dm.ipc_buf ++ new in
      kept all (drain [] all all (record dm { ipc_buf = all; ipc_buf_len = pos (length all) }))

  -- read(2) gives at most the bytes there is space for.
  pub ipc_read : Read → Dm → Dm
  ipc_read (bytes new) dm = received (take (ipc_max_msg - length dm.ipc_buf - 1) new) dm
  ipc_read ended dm = dropped dm
  ipc_read interrupted dm = dm

  -- `dm_ipc_handle`
  pub ipc_handle : Read → Dm → Dm
  ipc_handle r dm =
      if dm.connected
      then (if ltb_ℤ dm.ipc_buf_len (pos 4095) then ipc_read r dm else dropped dm)
      else dm

  pub serve : Wakeup → Dm → Dm
  serve (accept accepted) dm = ipc_accept accepted dm
  serve (readable r) dm = ipc_handle r dm
  serve lock dm = lock_session os dm
  serve greeter_exited dm = record dm { greeter_pid = 0 }
  serve session_exited dm = session_cleanup os dm

  pub serve_all : List Wakeup → Dm → Dm
  serve_all [] dm = dm
  serve_all (i ∷ is) dm = serve_all is (serve i dm)

-- ===== src/Dm/Tests.antt =====
-- The theorems on the display manager at concrete inputs.
use isde.Common.{refl, true, false, List, [], ◌∷◌, ◌++◌, none, some, codes, str_eq, if◌then◌else◌}
use isde.Common.Int.{pos}
use isde.Dm.State.{Os, Dm}
use isde.Dm.Ipc.{Wakeup, accept, readable, lock, session_exited, bytes, ended, serve_all}
use isde.Dm.Ipc.Allowed.{IsAllowedLog}
use isde.Dm.Ipc.Login.{serve_all-IsAllowedLog}
use isde.Dm.Ipc.Buffer.{FitsBuffer, serve_all-FitsBuffer}

-- Only ann, with her password.
abbrev calm : Os
calm = record {
  auth_check = λ es user password.
      if str_eq user (codes "ann")
      then (if str_eq password (codes "pw") then none else some (codes "no"))
      else some (codes "no");
  getpwnam = λ es user. true;
  find_session_exec = λ es desktop. true;
  fork_session = λ es. some 70;
  fork_greeter = λ es. some 71;
}

abbrev idle : Dm
idle = record {
  default_session = some (codes "isde.desktop");
  allow_shutdown = true;
  allow_reboot = false;
  allow_suspend = false;
  greeter_pid = 50;
  session_pid = 0;
  session_user = none;
  session_desktop = none;
  locked = false;
  connected = false;
  ipc_buf = [];
  ipc_buf_len = pos 0;
  log = [];
}

abbrev history : List Wakeup
history =
    accept true
    ∷ readable (bytes (codes "AUTH ann no"))
    ∷ readable (bytes (10 ∷ codes "AUTH ann pw" ++ 10 ∷ []))
    ∷ lock
    ∷ accept true
    ∷ readable (bytes (codes "REBOOT" ++ 10 ∷ []))
    ∷ session_exited
    ∷ readable ended
    ∷ []

serve_all-IsAllowedLog_example : IsAllowedLog calm idle (serve_all calm history idle).log
serve_all-IsAllowedLog_example = serve_all-IsAllowedLog calm history idle refl

serve_all-FitsBuffer_example : FitsBuffer (serve_all calm history idle)
serve_all-FitsBuffer_example = serve_all-FitsBuffer calm history idle tt

abbrev locked_session : Dm
locked_session = record idle {
  session_pid = 70;
  session_user = some (codes "ann");
  locked = true;
  connected = true;
}

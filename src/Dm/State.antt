-- ===== src/Dm/State.antt =====
-- dm/src/dm.h: the display manager's state, with a log of what it did, and the answers of what is not part
-- of it. An answer may depend on all that was done before.
use isde.Common.{ℕ, Bool, List, ◌∷◌, Option, Str}
use isde.Common.Int.{ℤ}

pub data Event : Type 0 where
  -- `dm_auth_check` of a user, and whether it succeeded
  authenticated : Str → Bool → Event
  sent : Str → Event
  session_started : (user desktop : Str) → Event
  session_ended locked_signal unlocked_signal : Event
  shutdown reboot suspend : Event
  greeter_started greeter_stopped : Event

-- PAM, fork(2), the user database and the list of sessions.
pub record Os : Type 0 where
  -- the message of a failure, of less than 256 bytes
  pub auth_check : List Event → (username password : Str) → Option Str
  pub getpwnam : List Event → Str → Bool
  pub find_session_exec : List Event → Str → Bool
  pub fork_session : List Event → Option ℕ
  pub fork_greeter : List Event → Option ℕ

-- `struct Dm`: a pid is 0 where no process runs, and `connected` stands for ipc_client_fd >= 0. `ipc_buf`
-- holds the bytes received so far, whose number is `ipc_buf_len` while there is a connection.
pub record Dm : Type 0 where
  pub default_session : Option Str
  pub allow_shutdown : Bool
  pub allow_reboot : Bool
  pub allow_suspend : Bool
  pub greeter_pid : ℕ
  pub session_pid : ℕ
  pub session_user : Option Str
  pub session_desktop : Option Str
  pub locked : Bool
  pub connected : Bool
  pub ipc_buf : List ℕ
  pub ipc_buf_len : ℤ
  pub log : List Event

-- DM_IPC_MAX_MSG, DM_IPC_MAX_USER and DM_IPC_MAX_PASS
abbrev pub ipc_max_msg : ℕ
ipc_max_msg = 4096

abbrev pub ipc_max_user : ℕ
ipc_max_user = 256

abbrev pub ipc_max_pass : ℕ
ipc_max_pass = 1024

unfoldable pub note : Event → Dm → Dm
note e dm = record dm { log = e ∷ dm.log }

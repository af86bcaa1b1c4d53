-- ===== src/Dm/Ipc/Allowed.antt =====
-- What the log of the display manager may hold: who was authenticated, and what the configuration allows.
use isde.Common.{◌||◌, ◌≡◌, Bool, true, false, List, [], ◌∷◌, none, Str, str_eq}
use isde.Dm.State.{
  Event, authenticated, sent, session_started, session_ended, locked_signal, unlocked_signal,
  shutdown, reboot, suspend, greeter_started, greeter_stopped, Os, Dm,
}

abbrev pub was_authenticated : Str → List Event → Bool
was_authenticated user [] = false
was_authenticated user (authenticated u true ∷ es) = str_eq u user || was_authenticated user es
was_authenticated user (authenticated u false ∷ es) = was_authenticated user es
was_authenticated user (sent m ∷ es) = was_authenticated user es
was_authenticated user (session_started u d ∷ es) = was_authenticated user es
was_authenticated user (session_ended ∷ es) = was_authenticated user es
was_authenticated user (locked_signal ∷ es) = was_authenticated user es
was_authenticated user (unlocked_signal ∷ es) = was_authenticated user es
was_authenticated user (shutdown ∷ es) = was_authenticated user es
was_authenticated user (reboot ∷ es) = was_authenticated user es
was_authenticated user (suspend ∷ es) = was_authenticated user es
was_authenticated user (greeter_started ∷ es) = was_authenticated user es
was_authenticated user (greeter_stopped ∷ es) = was_authenticated user es

-- What may be done after `es`: an authentication is noted as successful only where PAM answered so for a password.
abbrev pub IsAllowed : Os → Dm → Event → List Event → Type 0
IsAllowed os dm (session_started u d) es = was_authenticated u es ≡ true
IsAllowed os dm shutdown es = dm.allow_shutdown ≡ true
IsAllowed os dm reboot es = dm.allow_reboot ≡ true
IsAllowed os dm suspend es = dm.allow_suspend ≡ true
IsAllowed os dm (authenticated u true) es = (password : Str) × (os.auth_check es u password ≡ none)
IsAllowed os dm (authenticated u false) es = Unit {0}
IsAllowed os dm (sent m) es = Unit {0}
IsAllowed os dm session_ended es = Unit {0}
IsAllowed os dm locked_signal es = Unit {0}
IsAllowed os dm unlocked_signal es = Unit {0}
IsAllowed os dm greeter_started es = Unit {0}
IsAllowed os dm greeter_stopped es = Unit {0}

-- Each event was allowed by those before it.
abbrev pub IsAllowedLog : Os → Dm → List Event → Type 0
IsAllowedLog os dm [] = Unit {0}
IsAllowedLog os dm (e ∷ es) = IsAllowed os dm e es × IsAllowedLog os dm es

-- The configuration is `cfg`'s, and the log is allowed under it.
pub record IsSafe (os : Os) (cfg dm : Dm) : Type 0 where
  pub shutdown_same : dm.allow_shutdown ≡ cfg.allow_shutdown
  pub reboot_same : dm.allow_reboot ≡ cfg.allow_reboot
  pub suspend_same : dm.allow_suspend ≡ cfg.allow_suspend
  pub safe_log : IsAllowedLog os cfg dm.log

-- ===== src/Dm/Ipc/Length.antt =====
-- What a message does to the connection and to the length of the receive buffer.
use isde.Common.{
  ℕ, ◌≤◌, ◌≡◌, Bool, true, false, List, [], ◌∷◌, ◌++◌, Option, none, some, is_some, not, Str, codes,
  length, arith,
}
use isde.Common.Int.{ℤ}
use isde.Dm.State.{Event, authenticated, Os, Dm, note}
use isde.Dm.Session.{greeter_stop, unlock_session, forked_session, session_start}
use isde.Dm.Ipc.{
  ipc_send, or_default, unlock_for, log_in, let_in, welcome, checked, check, at_space, split_auth,
  handle_auth, command, session_or_command, auth_or_other, dispatch_message, dispatch_line, drain,
  after_prefix,
}

-- A message closes the connection or leaves the length as it was.
abbrev pub Same : ℤ → (connected : Bool) → ℤ → Type 0
Same n false len = Unit {0}
Same n true len = len ≡ n

abbrev pub SameLen : ℤ → Dm → Type 0
SameLen n dm = Same n dm.connected dm.ipc_buf_len

module _ (n : ℤ) where
  note-SameLen : (e : Event) (dm : Dm) → SameLen n dm → SameLen n (note e dm)
  unfolding note
  note-SameLen e dm v = v

  greeter_stop-SameLen : (dm : Dm) → SameLen n dm → SameLen n (greeter_stop dm)
  unfolding greeter_stop note
  greeter_stop-SameLen dm v = ground arith

  unlock_session-SameLen : (dm : Dm) → SameLen n dm → SameLen n (unlock_session dm)
  unfolding unlock_session greeter_stop note
  unlock_session-SameLen dm v = ground arith

  ipc_send-SameLen : (m : Str) (dm : Dm) → SameLen n dm → SameLen n (ipc_send m dm)
  unfolding ipc_send note
  ipc_send-SameLen m dm v = ground arith

  unlock_for-SameLen :
      (u : Str) (o : Option Str) (dm : Dm) → SameLen n dm → SameLen n (unlock_for u o dm)
  unfolding unlock_for
  unlock_for-SameLen u none dm v = v
  unlock_for-SameLen u (some user) dm v = ground (arith, unlock_session-SameLen dm v)

  module _ (os : Os) where
    session_start-SameLen :
        (u d : Str) (dm : Dm) → SameLen n dm → SameLen n (session_start os u d dm)
    unfolding session_start forked_session note
    session_start-SameLen u d dm v = ground arith

    log_in-SameLen :
        (u : Str) (o : Option Str) (dm : Dm) → SameLen n dm → SameLen n (log_in os u o dm)
    unfolding log_in
    log_in-SameLen u none dm v = ipc_send-SameLen _ dm v
    log_in-SameLen u (some desktop) dm v =
        session_start-SameLen u desktop (greeter_stop dm) (greeter_stop-SameLen dm v)

    let_in-SameLen : (b : Bool) (u : Str) (dm : Dm) → SameLen n dm → SameLen n (let_in os b u dm)
    unfolding let_in
    let_in-SameLen true u dm v = unlock_for-SameLen u dm.session_user dm v
    let_in-SameLen false u dm v =
        log_in-SameLen u (or_default dm.session_desktop dm.default_session) dm v

    welcome-SameLen : (u : Str) (dm : Dm) → SameLen n dm → SameLen n (welcome os u dm)
    unfolding welcome
    welcome-SameLen u dm v =
        let v' = ipc_send (codes "AUTH_OK") dm in
        let_in-SameLen v'.locked u v' (ipc_send-SameLen (codes "AUTH_OK") dm v)

    checked-SameLen :
        (u : Str) (o : Option Str) (dm : Dm) → SameLen n dm → SameLen n (checked os u o dm)
    unfolding checked note
    checked-SameLen u none dm v = welcome-SameLen u dm v
    checked-SameLen u (some message) dm v = ipc_send-SameLen _ _ v

    check-SameLen : (u p : Str) (dm : Dm) → SameLen n dm → SameLen n (check os u p dm)
    unfolding check
    check-SameLen u p dm v = ground (
      arith,
      ipc_send-SameLen (codes "AUTH_FAIL Username too long") dm v,
      ipc_send-SameLen (codes "AUTH_FAIL Password too long") dm v,
      checked-SameLen u (os.auth_check dm.log u p)
          (note (authenticated u (not (is_some (os.auth_check dm.log u p)))) dm)
          (note-SameLen (authenticated u (not (is_some (os.auth_check dm.log u p)))) dm v),
    )

    split_auth-SameLen :
        (dm : Dm) (o : Option (Str × Str)) → SameLen n dm → SameLen n (split_auth os dm o)
    unfolding split_auth
    split_auth-SameLen dm none v = ipc_send-SameLen _ dm v
    split_auth-SameLen dm (some (u, p)) v = check-SameLen u p dm v

    command-SameLen : (line : Str) (dm : Dm) → SameLen n dm → SameLen n (command os line dm)
    unfolding command note
    command-SameLen line dm v = ground (arith, unlock_session-SameLen dm v)

    session_or_command-SameLen :
        (line : Str) (o : Option Str) (dm : Dm)
        → SameLen n dm
        → SameLen n (session_or_command os line o dm)
    unfolding session_or_command
    session_or_command-SameLen line none dm v = command-SameLen line dm v
    session_or_command-SameLen line (some desktop) dm v = v

    auth_or_other-SameLen :
        (line : Str) (o : Option Str) (dm : Dm)
        → SameLen n dm
        → SameLen n (auth_or_other os line o dm)
    unfolding auth_or_other handle_auth
    auth_or_other-SameLen line none dm v = session_or_command-SameLen line _ dm v
    auth_or_other-SameLen line (some args) dm v = split_auth-SameLen dm (at_space [] args) v

    dispatch_line-SameLen :
        (line : Str) (dm : Dm) → SameLen n dm → SameLen n (dispatch_line os line dm)
    unfolding dispatch_line dispatch_message
    dispatch_line-SameLen line dm v =
        ground (arith, auth_or_other-SameLen line (after_prefix (codes "AUTH ") line) dm v)

    pub drain-SameLen :
        (line start rest : List ℕ) (dm : Dm)
        → SameLen n dm
        → length rest ≤ length start
        → SameLen n (drain os line start rest dm).0
          × (length (drain os line start rest dm).1 ≤ length start)
    unfolding drain
    drain-SameLen line start [] dm v h = (v, omega arith)
    drain-SameLen line start (c ∷ rest) dm v h = ground (
      arith,
      drain-SameLen [] rest rest (dispatch_line os line dm) (dispatch_line-SameLen line dm v)
          (omega arith),
      drain-SameLen (line ++ c ∷ []) start rest dm v (omega arith),
    )

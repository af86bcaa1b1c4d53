-- ===== src/Session/Deadline.antt =====
-- The deadline that the main loop sleeps until is that of the next respawn.
use isde.Common.{
  ap, sym, ◌∙◌, ℕ, ◌+◌, ◌≤◌, ◌<◌, ◌≡◌, refl, ltb, Bool, true, ◌&&◌, List, [], ◌∷◌, ◌⊎◌, none, some,
  length, all, if◌then◌else◌, Bool-cases, inl, inr, arith,
}
use isde.Session.{
  Fork, no_fork, no_memory, forked, Forks, PendingRespawn, Session, child_spawn, unanswered,
  spawn_pending, kept_waiting, process_pending, child_process_pending_respawns, earliest,
  child_next_respawn_deadline,
}

-- Not due yet.
abbrev pub undue : ℕ → List PendingRespawn → Bool
undue now prs = all (λ pr. ltb now pr.deadline_ms) prs

undue-earliest :
    (now e d : ℕ) (prs : List PendingRespawn)
    → earliest (some e) prs ≡ some d
    → ltb now d ≡ (ltb now e && undue now prs)
undue-earliest now e d [] h = ground arith
undue-earliest now e d (pr ∷ prs) h = elim (Bool-cases (ltb pr.deadline_ms e)) [
  | inl l ↦ let ih = undue-earliest now pr.deadline_ms d prs (rw l at h) in ground (arith, ih)
  | inr l ↦ let ih = undue-earliest now e d prs (rw l at h) in ground (arith, ih)
]

undue-deadline :
    (now d : ℕ) (prs : List PendingRespawn) → earliest none prs ≡ some d → ltb now d ≡ undue now prs
undue-deadline now d [] h = cc
undue-deadline now d (pr ∷ prs) h = undue-earliest now pr.deadline_ms d prs h

pending-spawn_pending :
    (a : Fork × ℕ) (pr : PendingRespawn) (s : Session)
    → (spawn_pending a pr s).pending_respawns ≡ s.pending_respawns
unfolding child_spawn
pending-spawn_pending (no_fork, now) pr s = refl
pending-spawn_pending (no_memory pid, now) pr s = refl
pending-spawn_pending (forked pid, now) pr s = refl

-- When nothing is due, all is put back.
process_pending-undue :
    (now : ℕ) (forks : Forks) (prs : List PendingRespawn) (s : Session)
    → s.pending_respawns ≡ []
    → undue now prs ≡ true
    → process_pending now forks prs s ≡ record s { pending_respawns = prs }
unfolding process_pending
process_pending-undue now forks [] s e h = ground (arith, e)
process_pending-undue now forks (pr ∷ prs) s e h =
    let due : ltb now pr.deadline_ms ≡ true = ground arith in
    rw due (ap (kept_waiting pr) (process_pending-undue now forks prs s e (ground arith)))

-- What stays is not due, and is less than before if anything was due.
pending-process_pending :
    (now : ℕ) (forks : Forks) (prs : List PendingRespawn) (s : Session)
    → s.pending_respawns ≡ []
    → (length (process_pending now forks prs s).pending_respawns + (if undue now prs then 0 else 1)
        ≤ length prs)
      × (undue now (process_pending now forks prs s).pending_respawns ≡ true)
unfolding process_pending
pending-process_pending now forks [] s e = (omega (arith, ap length e), rw e refl)
pending-process_pending now forks (pr ∷ prs) s e = elim (Bool-cases (ltb now pr.deadline_ms)) [
  | inl h ↦
      let (l, u) = pending-process_pending now forks prs s e in
      rw h (omega (arith, l), ground (arith, u))
  | inr h ↦
      let a = forks 0 in
      let (l, u) =
        pending-process_pending now (unanswered forks) prs (spawn_pending a pr s)
          (pending-spawn_pending a pr s ∙ e) in
      rw h (ground arith, u)
]

-- At any time before the deadline nothing changes. At any time from the deadline on, respawns are taken off the
-- list, one at least, and none that is left is due.
pub process-deadline :
    (now d : ℕ) (forks : Forks) (s : Session)
    → child_next_respawn_deadline s ≡ some d
    → (now < d) × (child_process_pending_respawns now forks s ≡ s)
      ⊎ (d ≤ now)
        × (length (child_process_pending_respawns now forks s).pending_respawns
            < length s.pending_respawns)
        × (undue now (child_process_pending_respawns now forks s).pending_respawns ≡ true)
unfolding child_next_respawn_deadline child_process_pending_respawns
process-deadline now d forks s e =
    let prs = s.pending_respawns in
    let same = undue-deadline now d prs e in
    elim (Bool-cases (ltb now d)) [
      | inl h ↦ inl (
        ground arith,
        process_pending-undue now forks prs (record s { pending_respawns = [] }) refl
            (sym same ∙ h),
      )
      | inr h ↦
          let (l, u) =
            pending-process_pending now forks prs (record s { pending_respawns = [] }) refl in
          inr (ground arith, ground (arith, same, l), u)
    ]

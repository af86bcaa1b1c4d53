-- ===== src/Session/Balance.antt =====
-- No command that is to be started again is forgotten while the session runs.
use isde.Common.{
  sym, ◌∙◌, ℕ, ◌+◌, ◌-◌, ◌≡◌, refl, ◌==◌, ltb, leb, Bool, true, false, ◌&&◌, List, [], ◌∷◌, Option,
  suc, all, none, some, Str, str_eq, if◌then◌else◌, Bool-cases, Option-cases, inl, inr, arith,
}
use isde.Session.{
  Child, PendingRespawn, Report, gave_up, fork_error, Fork, no_fork, no_memory, forked, Forks,
  Session, child_spawn, find_pid, remove_pid, Reaped, crashes_of, respawned, reap, child_reap,
  unanswered, spawn_pending, process_pending, child_process_pending_respawns, show_confirmation,
  confirm_reap, sigchld_dispatch, Input, spawned, sigchld, timer, confirm, handle, run_inputs,
  max_rapid_crashes,
}

abbrev pub one : Bool → ℕ
one b = if b then 1 else 0

-- No fork and no calloc fails.
abbrev pub is_started : Fork → Bool
is_started no_fork = false
is_started (no_memory pid) = false
is_started (forked pid) = true

abbrev pub Starts : Input → Type 0
Starts (spawned fork now command respawn is_wm is_panel) = is_started fork ≡ true
Starts (sigchld report rs) = all (λ r. is_started r.fork) rs ≡ true
Starts (timer now forks) = (i : ℕ) → is_started (forks i).0 ≡ true
Starts (confirm fork action) = Unit {0}

abbrev pub AllStart : List Input → Type 0
AllStart [] = Unit {0}
AllStart (i ∷ is) = Starts i × AllStart is

module _ (command : Str) where
  -- How often a command that is to be started again is in the lists.
  abbrev pub in_children : List Child → ℕ
  in_children [] = 0
  in_children (c ∷ cs) = one (c.respawn && str_eq c.command command) + in_children cs

  abbrev pub in_pending : List PendingRespawn → ℕ
  in_pending [] = 0
  in_pending (pr ∷ prs) = one (str_eq pr.command command) + in_pending prs

  abbrev pub is_about : Report → Bool
  is_about (gave_up c) = str_eq c command
  is_about fork_error = false

  abbrev pub reported : List Report → ℕ
  reported [] = 0
  reported (m ∷ ms) = one (is_about m) + reported ms

  -- Running, waiting for its respawn, or reported as given up.
  abbrev pub accounted : Session → ℕ
  accounted s = in_children s.children + in_pending s.pending_respawns + reported s.stderr

  -- How often it is started by the inputs.
  abbrev pub started_by : Input → ℕ
  started_by (spawned fork now c respawn is_wm is_panel) = one (respawn && str_eq c command)
  started_by (sigchld reaped_child rs) = 0
  started_by (timer now forks) = 0
  started_by (confirm fork action) = 0

  abbrev pub times_started : List Input → ℕ
  times_started [] = 0
  times_started (i ∷ is) = started_by i + times_started is

  in_children-remove_pid :
      (pid : ℕ) (cs : List Child) (c : Child)
      → find_pid pid cs ≡ some c
      → in_children (remove_pid pid cs) + one (c.respawn && str_eq c.command command)
        ≡ in_children cs
  unfolding find_pid remove_pid
  in_children-remove_pid pid [] c e = cc
  in_children-remove_pid pid (x ∷ cs) c e = elim (Bool-cases (x.pid == pid)) [
    | inl h ↦ let same : some x ≡ some c = rw h at e in ground (arith, h, same)
    | inr h ↦ let ih = in_children-remove_pid pid cs c (rw h at e) in ground (arith, h, ih)
  ]

  accounted-child_spawn :
      (fork : Fork) (now : ℕ) (c : Str) (respawn is_wm is_panel : Bool) (n : ℕ) (s : Session)
      → is_started fork ≡ true
      → accounted (child_spawn fork now c respawn is_wm is_panel n s)
        ≡ accounted s + one (respawn && str_eq c command)
  unfolding child_spawn
  accounted-child_spawn no_fork now c respawn is_wm is_panel n s h = cc
  accounted-child_spawn (no_memory pid) now c respawn is_wm is_panel n s h = cc
  accounted-child_spawn (forked pid) now c respawn is_wm is_panel n s h = omega arith

  -- A child that is started again, waits or is given up: never is it lost.
  accounted-respawned :
      (r : Reaped) (c : Child) (s : Session)
      → find_pid r.pid s.children ≡ some c
      → c.respawn ≡ true
      → is_started r.fork ≡ true
      → accounted (respawned r c s) ≡ accounted s
  unfolding respawned
  accounted-respawned r c s e again starts =
      let crashes = crashes_of (r.now - c.start_ms) c.rapid_crashes in
      let s' = record s { children = remove_pid r.pid s.children } in
      let gone = in_children-remove_pid r.pid s.children c e in
      let spawned =
        accounted-child_spawn r.fork r.clock c.command true c.is_wm c.is_panel 0 s' starts in
      elim (Bool-cases (leb max_rapid_crashes crashes)) [
        | inl h ↦ rw h (ground (arith, gone, again))
        | inr h ↦ elim (Bool-cases (ltb 0 crashes)) [
          | inl h' ↦ rw (h, h') (ground (arith, gone, again))
          | inr h' ↦ rw (h, h') (ground (arith, gone, again, spawned))
        ]
      ]

  accounted-reap :
      (r : Reaped) (s : Session)
      → s.running ≡ true
      → is_started r.fork ≡ true
      → accounted (reap r s) ≡ accounted s
  unfolding reap
  accounted-reap r s up starts = elim (Option-cases (find_pid r.pid s.children)) [
    | inl e ↦ rw (e, reap) refl
    | inr (c, e) ↦ elim (Bool-cases (c.respawn && s.running)) [
      | inl h ↦ rw (e, reap, h) (accounted-respawned r c s e (ground arith) starts)
      | inr h ↦
          let off : c.respawn ≡ false = ground (arith, up) in
          let gone = in_children-remove_pid r.pid s.children c e in
          rw (e, reap, h) (ground (arith, gone, off))
    ]
  ]

  accounted-process_pending :
      (now : ℕ) (forks : Forks) (prs : List PendingRespawn) (s : Session)
      → ((i : ℕ) → is_started (forks i).0 ≡ true)
      → accounted (process_pending now forks prs s) ≡ accounted s + in_pending prs
  unfolding process_pending
  accounted-process_pending now forks [] s start = omega arith
  accounted-process_pending now forks (pr ∷ prs) s start =
      elim (Bool-cases (ltb now pr.deadline_ms)) [
        | inl h ↦
            let ih = accounted-process_pending now forks prs s start in rw h (omega (arith, ih))
        | inr h ↦
            let a = forks 0 in
            let s' = spawn_pending a pr s in
            let ih = accounted-process_pending now (unanswered forks) prs s' (λ i. start (suc i)) in
            let new =
              accounted-child_spawn a.0 a.1 pr.command true pr.is_wm pr.is_panel pr.rapid_crashes s
                (start 0) in
            rw h (ground (arith, ih, new))
      ]

-- The session runs on through all but the confirmed logout.
running-child_spawn :
    (fork : Fork) (now : ℕ) (c : Str) (respawn is_wm is_panel : Bool) (n : ℕ) (s : Session)
    → (child_spawn fork now c respawn is_wm is_panel n s).running ≡ s.running
unfolding child_spawn
running-child_spawn no_fork now c respawn is_wm is_panel n s = refl
running-child_spawn (no_memory pid) now c respawn is_wm is_panel n s = refl
running-child_spawn (forked pid) now c respawn is_wm is_panel n s = refl

running-reap : (r : Reaped) (s : Session) → (reap r s).running ≡ s.running
unfolding reap respawned
running-reap r s = elim (Option-cases (find_pid r.pid s.children)) [
  | inl e ↦ rw (e, reap) refl
  | inr (c, e) ↦
      let s' = record s { children = remove_pid r.pid s.children } in
      rw (e, reap)
        (ground (arith, running-child_spawn r.fork r.clock c.command true c.is_wm c.is_panel 0 s'))
]

running-child_reap : (rs : List Reaped) (s : Session) → (child_reap rs s).running ≡ s.running
unfolding child_reap
running-child_reap [] s = refl
running-child_reap (r ∷ rs) s = running-child_reap rs (reap r s) ∙ running-reap r s

running-process_pending :
    (now : ℕ) (forks : Forks) (prs : List PendingRespawn) (s : Session)
    → (process_pending now forks prs s).running ≡ s.running
unfolding process_pending
running-process_pending now forks [] s = refl
running-process_pending now forks (pr ∷ prs) s = elim (Bool-cases (ltb now pr.deadline_ms)) [
  | inl h ↦ rw h (running-process_pending now forks prs s)
  | inr h ↦
      let a = forks 0 in
      rw h (
        running-process_pending now (unanswered forks) prs (spawn_pending a pr s)
        ∙ running-child_spawn a.0 a.1 pr.command true pr.is_wm pr.is_panel pr.rapid_crashes s)
]

running-handle : (i : Input) (s : Session) → (handle i s).running ≡ true → s.running ≡ true
unfolding handle sigchld_dispatch confirm_reap child_process_pending_respawns show_confirmation
running-handle (spawned fork now c respawn is_wm is_panel) s h =
    sym (running-child_spawn fork now c respawn is_wm is_panel 0 s) ∙ h
running-handle (sigchld reaped_child rs) s h =
    let h' = sym (running-child_reap rs (confirm_reap reaped_child s)) ∙ h in
    before_logout reaped_child s h'
  where
    before_logout :
        (reaped_child : Option Bool) (s : Session)
        → (confirm_reap reaped_child s).running ≡ true
        → s.running ≡ true
    before_logout none s h = ground arith
    before_logout (some accepted) s h = ground arith
running-handle (timer now forks) s h =
    sym (running-process_pending now forks s.pending_respawns (record s { pending_respawns = [] }))
    ∙ h
running-handle (confirm fork action) s h = ground arith

module _ (command : Str) where
  accounted-child_reap :
      (rs : List Reaped) (s : Session)
      → s.running ≡ true
      → all (λ r. is_started r.fork) rs ≡ true
      → accounted command (child_reap rs s) ≡ accounted command s
  unfolding child_reap
  accounted-child_reap [] s up starts = refl
  accounted-child_reap (r ∷ rs) s up starts =
      accounted-child_reap rs (reap r s) (running-reap r s ∙ up) (ground arith)
      ∙ accounted-reap command r s up (ground arith)

  accounted-confirm_reap :
      (reaped_child : Option Bool) (s : Session)
      → accounted command (confirm_reap reaped_child s) ≡ accounted command s
  unfolding confirm_reap
  accounted-confirm_reap none s = ground arith
  accounted-confirm_reap (some accepted) s = ground arith

  accounted-handle :
      (i : Input) (s : Session)
      → (handle i s).running ≡ true
      → Starts i
      → accounted command (handle i s) ≡ accounted command s + started_by command i
  unfolding handle sigchld_dispatch child_process_pending_respawns show_confirmation
  accounted-handle (spawned fork now c respawn is_wm is_panel) s up starts =
      accounted-child_spawn command fork now c respawn is_wm is_panel 0 s starts
  accounted-handle (sigchld reaped_child rs) s up starts =
      let s' = confirm_reap reaped_child s in
      let up' : s'.running ≡ true = sym (running-child_reap rs s') ∙ up in
      omega (arith, accounted-child_reap rs s' up' starts, accounted-confirm_reap reaped_child s)
  accounted-handle (timer now forks) s up starts = omega (
    arith,
    accounted-process_pending command now forks s.pending_respawns
        (record s { pending_respawns = [] }) starts,
  )
  accounted-handle (confirm fork action) s up starts = ground arith

  running-run_inputs :
      (is : List Input) (s : Session) → (run_inputs is s).running ≡ true → s.running ≡ true
  unfolding run_inputs
  running-run_inputs [] s h = h
  running-run_inputs (i ∷ is) s h = running-handle i s (running-run_inputs is (handle i s) h)

  -- Whatever is started, ends and is confirmed, and whenever: while the session runs and no fork or calloc of
  -- `child_spawn` fails, a command is running as a child to be started again, waiting for its respawn, or reported as
  -- given up as often, in all, as it was at first and the inputs started it.
  pub run_inputs-accounted :
      (is : List Input) (s : Session)
      → (run_inputs is s).running ≡ true
      → AllStart is
      → accounted command (run_inputs is s) ≡ accounted command s + times_started command is
  unfolding run_inputs
  run_inputs-accounted [] s up starts = omega arith
  run_inputs-accounted (i ∷ is) s up starts = omega (
    arith,
    run_inputs-accounted is (handle i s) up starts.1,
    accounted-handle i s (running-run_inputs is (handle i s) up) starts.0,
  )

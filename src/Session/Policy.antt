-- ===== src/Session/Policy.antt =====
-- A command that always ends is given up behind five short runs in a row, and only then.
use mathlib.Core.Path.{subst}
use isde.Common.{
  ap, sym, ◌∙◌, ℕ, zero, suc, ◌+◌, ◌-◌, ◌≤◌, ◌<◌, ◌≡◌, refl, ltb, leb, Bool, true, false, not, ◌&&◌,
  ◌||◌, List, [], ◌∷◌, none, some, Str, length, if◌then◌else◌, Bool-cases, inl, inr, arith,
}
use isde.Session.{
  forked, Child, gave_up, Session, child_spawn, find_pid, remove_pid, Reaped, reaped_child,
  crashes_of, retry_delay, respawned, reap, child_reap, process_pending,
  child_process_pending_respawns, child_next_respawn_deadline,
}

-- The main loop behind an end: at the deadline, if there is one.
unfoldable pub resumed : (pid : ℕ) → Session → Session
resumed pid s = elim (child_next_respawn_deadline s) [
  | none ↦ s
  | some d ↦ child_process_pending_respawns d (λ i. (forked pid, d)) s
]

abbrev pub started_at : List Child → ℕ
started_at [] = 0
started_at (c ∷ cs) = c.start_ms

-- The child of that pid ends behind an uptime, and its command is started again when the loop does it.
unfoldable pub life : (pid uptime : ℕ) → Session → Session
life pid uptime s =
    let end = started_at s.children + uptime in
    resumed pid
      (child_reap (record { pid = pid; now = end; clock = end; fork = forked pid } ∷ []) s)

unfoldable pub lives : (pid : ℕ) → (uptimes : List ℕ) → Session → Session
lives pid [] s = s
lives pid (u ∷ us) s = lives pid us (life pid u s)

-- The first n runs are there and short.
abbrev pub prefix_rapid : ℕ → List ℕ → Bool
prefix_rapid zero us = true
prefix_rapid (suc n) [] = false
prefix_rapid (suc n) (u ∷ us) = ltb u 5000 && prefix_rapid n us

-- Somewhere five runs in a row are short.
abbrev pub five_rapid : List ℕ → Bool
five_rapid [] = false
five_rapid (u ∷ us) = prefix_rapid 5 (u ∷ us) || five_rapid us

prefix_rapid-le :
    (m n : ℕ) (us : List ℕ) → m ≤ n → (not (prefix_rapid n us) || prefix_rapid m us) ≡ true
prefix_rapid-le zero n us h = ground arith
prefix_rapid-le (suc m) zero us h = absurd (omega arith)
prefix_rapid-le (suc m) (suc n) [] h = refl
prefix_rapid-le (suc m) (suc n) (u ∷ us) h = ground (arith, prefix_rapid-le m n us (omega arith))

five_rapid-prefix : (us : List ℕ) → (not (prefix_rapid 5 us) || five_rapid us) ≡ true
five_rapid-prefix [] = refl
five_rapid-prefix (u ∷ us) = ground arith

module _ (pid : ℕ) (command : Str) (is_wm is_panel : Bool) where
  -- The command runs as the only child.
  abbrev pub alive : (rapid_crashes start : ℕ) → Session
  alive n start = record {
    children =
        record {
          pid = pid;
          command = command;
          respawn = true;
          is_wm = is_wm;
          is_panel = is_panel;
          start_ms = start;
          rapid_crashes = n;
        }
        ∷ [];
    pending_respawns = [];
    running = true;
    confirm_pid = none;
    confirm_action = [];
    stderr = [];
    dm_calls = [];
  }

  abbrev given_up : Session
  given_up = record (alive 0 0) { children = []; stderr = gave_up command ∷ [] }

  crashes_of-uptime :
      (start u n : ℕ) → crashes_of (start + u - start) n ≡ (if ltb u 5000 then suc n else 0)
  unfolding crashes_of
  crashes_of-uptime start u n = let e : start + u - start ≡ u = omega arith in rw e refl

  abbrev child : (rapid_crashes start : ℕ) → Child
  child n start = record {
    pid = pid;
    command = command;
    respawn = true;
    is_wm = is_wm;
    is_panel = is_panel;
    start_ms = start;
    rapid_crashes = n;
  }

  abbrev end_of : (start u : ℕ) → Reaped
  end_of start u = record { pid = pid; now = start + u; clock = start + u; fork = forked pid }

  remove_pid_self : (n start : ℕ) → remove_pid pid (child n start ∷ []) ≡ []
  unfolding remove_pid
  remove_pid_self n start = ground arith

  life-respawned :
      (n start u : ℕ)
      → life pid u (alive n start)
        ≡ resumed pid (respawned (end_of start u) (child n start) (alive n start))
  unfolding life child_reap reap find_pid
  life-respawned n start u =
      let itself : find_pid pid (child n start ∷ []) ≡ some (child n start) = ground arith in
      ap (λ o. resumed pid (reaped_child (end_of start u) (alive n start) o)) itself

  life-gives_up :
      (n start u : ℕ) → ltb u 5000 ≡ true → 4 ≤ n → life pid u (alive n start) ≡ given_up
  unfolding respawned resumed child_next_respawn_deadline
  life-gives_up n start u h l =
      let much : leb 5 (suc n) ≡ true = ground arith in
      life-respawned n start u
      ∙ rw (respawned, crashes_of-uptime start u n, h, much, remove_pid_self n start) refl

  abbrev waits : (n deadline : ℕ) → Session
  waits n d = record (alive 0 0) {
    children = [];
    pending_respawns =
        record {
          command = command;
          is_wm = is_wm;
          is_panel = is_panel;
          rapid_crashes = n;
          deadline_ms = d;
        }
        ∷ [];
  }

  resumed-waits : (n d : ℕ) → resumed pid (waits n d) ≡ alive n d
  unfolding resumed child_next_respawn_deadline child_process_pending_respawns process_pending
      child_spawn
  resumed-waits n d = let due : ltb d d ≡ false = ground arith in rw due refl

  life-waits :
      (n start u : ℕ)
      → ltb u 5000 ≡ true
      → n < 4
      → life pid u (alive n start) ≡ alive (suc n) (start + u + retry_delay (suc n))
  unfolding respawned
  life-waits n start u h l =
      let few : leb 5 (suc n) ≡ false = ground arith in
      let some_crashes : ltb 0 (suc n) ≡ true = ground arith in
      let d = start + u + retry_delay (suc n) in
      life-respawned n start u
      ∙ rw (respawned, crashes_of-uptime start u n, h, few, some_crashes, remove_pid_self n start)
          (resumed-waits (suc n) d)

  life-respawns :
      (n start u : ℕ) → ltb u 5000 ≡ false → life pid u (alive n start) ≡ alive 0 (start + u)
  unfolding respawned resumed child_next_respawn_deadline child_spawn
  life-respawns n start u h =
      life-respawned n start u
      ∙ rw (respawned, crashes_of-uptime start u n, h, remove_pid_self n start) refl

  lives-given_up : (us : List ℕ) → lives pid us given_up ≡ given_up
  unfolding lives life child_reap reap find_pid resumed child_next_respawn_deadline
  lives-given_up [] = refl
  lives-given_up (u ∷ us) = lives-given_up us

  abbrev pub Outcome : Bool → Session → Type 0
  Outcome b s =
      (s.stderr ≡ (if b then gave_up command ∷ [] else []))
      × (length s.children ≡ (if b then 0 else 1))

  Outcome-eq : (b b' : Bool) (s s' : Session) → b ≡ b' → s ≡ s' → Outcome b s → Outcome b' s'
  Outcome-eq b b' s s' e e' o = subst (λ x. Outcome x s') e (subst (Outcome b) e' o)

  lives-Outcome :
      (us : List ℕ) (n m start : ℕ)
      → n + suc m ≡ 5
      → Outcome (prefix_rapid (suc m) us || five_rapid us) (lives pid us (alive n start))
  unfolding lives
  lives-Outcome [] n m start e = (refl, refl)
  lives-Outcome (u ∷ us) n zero start e = elim (Bool-cases (ltb u 5000)) [
    | inl h ↦
        Outcome-eq true _ given_up _ (ground (arith, h))
          (sym (ap (lives pid us) (life-gives_up n start u h (omega arith)) ∙ lives-given_up us))
          (refl, refl)
    | inr h ↦
        Outcome-eq (prefix_rapid 5 us || five_rapid us) _ _ _
          (ground (arith, five_rapid-prefix us, h))
          (sym (ap (lives pid us) (life-respawns n start u h)))
          (lives-Outcome us 0 4 (start + u) refl)
  ]
  lives-Outcome (u ∷ us) n (suc m) start e = elim (Bool-cases (ltb u 5000)) [
    | inl h ↦
        let start' = start + u + retry_delay (suc n) in
        Outcome-eq (prefix_rapid (suc m) us || five_rapid us) _ _ _
          (ground (arith, prefix_rapid-le (suc m) 4 us (omega arith), h))
          (sym (ap (lives pid us) (life-waits n start u h (omega arith))))
          (lives-Outcome us (suc n) m start' (omega arith))
    | inr h ↦
        Outcome-eq (prefix_rapid 5 us || five_rapid us) _ _ _
          (ground (arith, five_rapid-prefix us, h))
          (sym (ap (lives pid us) (life-respawns n start u h)))
          (lives-Outcome us 0 4 (start + u) refl)
  ]

  -- Any run of any command: with as many lives as there are uptimes, the command is given up, and then runs no more,
  -- exactly when somewhere in the list five uptimes in a row are below five seconds. Otherwise it runs.
  pub lives-five_rapid :
      (us : List ℕ) (start : ℕ) → Outcome (five_rapid us) (lives pid us (alive 0 start))
  lives-five_rapid us start =
      subst (λ b. Outcome b (lives pid us (alive 0 start))) (ground (arith, five_rapid-prefix us))
        (lives-Outcome us 0 4 start refl)

-- ===== src/Session/Tests.antt =====
-- A session with a panel that crashes.
use isde.Common.{
  ◌+◌, ◌≡◌, ◌≤◌, ◌<◌, ◌⊎◌, refl, true, false, List, [], ◌∷◌, none, some, Str, str_eq, codes, length,
}
use isde.Session.{
  Session, forked, Input, spawned, sigchld, timer, confirm, handle, run_inputs, child_spawn,
  find_pid, remove_pid, crashes_of, retry_delay, respawned, reap, child_reap, process_pending,
  child_process_pending_respawns, child_next_respawn_deadline, show_confirmation, confirm_reap,
  sigchld_dispatch,
}
use isde.Session.Balance.{accounted, times_started, run_inputs-accounted}
use isde.Session.Deadline.{undue, process-deadline}
use isde.Session.Policy.{lives, life, resumed, alive, five_rapid, Outcome, lives-five_rapid}

abbrev empty : Session
empty = record {
  children = [];
  pending_respawns = [];
  running = true;
  confirm_pid = none;
  confirm_action = [];
  stderr = [];
  dm_calls = [];
}

abbrev panel : Str
panel = codes "isde-panel"

program : Unit {0}
unfolding handle run_inputs child_spawn find_pid remove_pid crashes_of retry_delay respawned reap
    child_reap process_pending child_process_pending_respawns child_next_respawn_deadline
    show_confirmation confirm_reap sigchld_dispatch str_eq lives life resumed
program = tt

-- The panel ends after 2 seconds, waits for one, and runs again, while an editor without '@' ends for good.
abbrev inputs : List Input
inputs =
    spawned (forked 7) 100 panel true false true
    ∷ spawned (forked 8) 100 (codes "editor") false false false
    ∷ sigchld none (
        record { pid = 7; now = 2100; clock = 2101; fork = forked 9 }
        ∷ record { pid = 8; now = 2102; clock = 2102; fork = forked 9 }
        ∷ [])
    ∷ timer 2500 (λ i. (forked 9, 2500))
    ∷ timer 3101 (λ i. (forked 9, 3102))
    ∷ []

runs_again :
    (run_inputs inputs empty).children
    ≡ record {
      pid = 9;
      command = panel;
      respawn = true;
      is_wm = false;
      is_panel = true;
      start_ms = 3102;
      rapid_crashes = 1;
    }
      ∷ []
unfolding program
runs_again = refl

logs_out :
    (run_inputs (confirm (some 5) (codes "logout") ∷ sigchld (some true) [] ∷ []) empty).running
    ≡ false
unfolding program
logs_out = refl

run_inputs-accounted_example :
    accounted panel (run_inputs inputs empty) ≡ accounted panel empty + times_started panel inputs
unfolding program
run_inputs-accounted_example =
    run_inputs-accounted panel inputs empty refl
      (refl, (refl, (refl, ((λ i. refl), ((λ i. refl), tt)))))

abbrev crashed : Session
crashed =
    run_inputs
      (spawned (forked 7) 100 panel true false true
        ∷ sigchld none (record { pid = 7; now = 2100; clock = 2101; fork = forked 9 } ∷ [])
        ∷ [])
      empty

process-deadline_example :
    (3200 < 3101) × (child_process_pending_respawns 3200 (λ i. (forked 9, 3200)) crashed ≡ crashed)
    ⊎ (3101 ≤ 3200)
      × (length
            (child_process_pending_respawns 3200 (λ i. (forked 9, 3200)) crashed).pending_respawns
          < length crashed.pending_respawns)
      × (undue 3200
            (child_process_pending_respawns 3200 (λ i. (forked 9, 3200)) crashed).pending_respawns
          ≡ true)
unfolding program
process-deadline_example = process-deadline 3200 3101 (λ i. (forked 9, 3200)) crashed refl

lives-five_rapid_example :
    Outcome 7 panel false true
      (five_rapid (9000 ∷ 1 ∷ 2 ∷ 3 ∷ 4 ∷ 5 ∷ []))
      (lives 7 (9000 ∷ 1 ∷ 2 ∷ 3 ∷ 4 ∷ 5 ∷ []) (alive 7 panel false true 0 100))
lives-five_rapid_example = lives-five_rapid 7 panel false true (9000 ∷ 1 ∷ 2 ∷ 3 ∷ 4 ∷ 5 ∷ []) 100

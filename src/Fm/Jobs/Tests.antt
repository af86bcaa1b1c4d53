-- ===== src/Fm/Jobs/Tests.antt =====
-- The job queue on a file system that counts the operations, where the second one fails.
use isde.Common.{
  ℕ, suc, ◌<◌, ◌==◌, ◌≡◌, refl, true, false, List, [], ◌∷◌, ◌++◌, Option, none, some, is_some, Str,
  codes, Bool,
}
use isde.Fm.Jobs.{copy, trash, new_job, enqueue_pending, take_head, enqueue_done, drain_done}
use isde.Fm.Jobs.Exec.{
  Answer, FileOps, exec, exec_copy, exec_move, exec_delete, exec_trash, exec_empty_trash,
}
use isde.Fm.Jobs.Exec.Sources.{until_cancelled, TrashDone, exec-TrashDone}
use isde.Fm.Jobs.Run.{
  asleep, idle, App, Event, submits, cancels, shuts_down, worker_goes, main_goes, jobqueue_init,
  submit, dequeue_pending, worker_step, main_step, stop_and_free, cancel_job, take_step, run_events,
}
use isde.Fm.Jobs.Chain.{Chain, last_of}
use isde.Fm.Jobs.Order.{run_events-is_some, run_events-order}
use isde.Fm.Jobs.Ran.{Ran}
use isde.Fm.Jobs.Asleep.{run_events-asleep}
use isde.Fm.Jobs.Wake.{is_notifying, run_events-pipe}

abbrev answer : ℕ → Answer × ℕ
answer w = (record { failed = w == 1; errno = 13; counted = 1 }, suc w)

abbrev ops : FileOps ℕ
ops = record {
  count_files = λ p w. 1;
  copy_progress = λ p q w. answer w;
  rename = λ p q w. answer w;
  delete_path = λ p w. answer w;
  delete_progress = λ p w. answer w;
  trash_path = λ p w. answer w;
  empty_all = λ w. answer w;
}

abbrev never : ℕ → Bool
never i = false

abbrev files : List Str
files = codes "/a/b" ∷ codes "/a/c" ∷ codes "/a/d" ∷ []

abbrev goes : Event
goes = worker_goes never

-- Two jobs, of which the worker finishes the first.
abbrev busy : List Event
busy =
    submits trash files [] 7
    ∷ submits copy files (codes "/x") 8
    ∷ cancels 8
    ∷ goes
    ∷ goes
    ∷ goes
    ∷ goes
    ∷ []

abbrev ending : List Event
ending =
    shuts_down ∷ goes ∷ goes ∷ goes ∷ goes ∷ goes ∷ main_goes ∷ main_goes ∷ main_goes ∷ main_goes
    ∷ main_goes ∷ []

program : Unit {0}
unfolding run_events take_step worker_step main_step dequeue_pending submit cancel_job stop_and_free
    jobqueue_init enqueue_pending take_head enqueue_done drain_done exec exec_copy exec_move
    exec_delete exec_trash exec_empty_trash
program = tt

abbrev or_init : Option (App ℕ) → App ℕ
or_init none = jobqueue_init 0
or_init (some a) = a

abbrev at_work : App ℕ
at_work = or_init (run_events ops busy (jobqueue_init 0))

reaches_work : run_events ops busy (jobqueue_init 0) ≡ some at_work
unfolding program
reaches_work = refl

abbrev end : App ℕ
end = or_init (run_events ops (busy ++ ending) (jobqueue_init 0))

run_events-is_some_example : is_some (run_events ops (busy ++ ending) (jobqueue_init 0)) ≡ true
run_events-is_some_example = run_events-is_some ops (busy ++ ending) 0

run_events-order_example :
    (pending : List ℕ) × (at_work.submitted ≡ at_work.taken ++ pending)
    × Chain at_work.lists.heap at_work.lists.job_head pending
    × (at_work.lists.job_tail ≡ last_of pending)
run_events-order_example = run_events-order ops busy 0 reaches_work

-- The worker finds no job and sleeps.
abbrev resting : App ℕ
resting = or_init (run_events ops (goes ∷ []) (jobqueue_init 0))

reaches_resting : run_events ops (goes ∷ []) (jobqueue_init 0) ≡ some resting
unfolding program
reaches_resting = refl

sleeps : resting.worker ≡ asleep
unfolding program
sleeps = refl

run_events-asleep_example : (resting.lists.job_head ≡ none) × (resting.worker_running ≡ true)
run_events-asleep_example = run_events-asleep ops (goes ∷ []) 0 reaches_resting sleeps

in_loop : at_work.main ≡ idle
unfolding program
in_loop = refl

quiet : is_notifying at_work.worker ≡ false
unfolding program
quiet = refl

has_done : is_some at_work.lists.done_head ≡ true
unfolding program
has_done = refl

run_events-pipe_example : 0 < at_work.pipe
run_events-pipe_example = run_events-pipe ops busy 0 reaches_work in_loop quiet has_done

abbrev third : ℕ → Bool
third i = i == 2

exec-TrashDone_example :
    TrashDone ops third
      (until_cancelled third 0 files)
      3
      0
      (exec ops third (new_job trash files []) 0)
exec-TrashDone_example = exec-TrashDone ops third files [] 0

-- The second source is refused with EACCES, and the third load cancels.
trash_runs : (exec ops third (new_job trash files []) 0).0.error ≡ 13
unfolding program
trash_runs = refl

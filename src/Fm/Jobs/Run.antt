-- ===== src/Fm/Jobs/Run.antt =====
-- The two threads of the job queue as steps, one for each section under the mutex. A run is a list of the steps
-- that the scheduler and the user take; a step that its thread cannot take at its point changes nothing.
use isde.Common.{
  ℕ, suc, ◌-◌, ◌==◌, Bool, true, false, not, ◌&&◌, List, [], ◌∷◌, ◌++◌, Option, none, some, Str,
  is_some, if◌then◌else◌, ◌>>=◌,
}
use isde.Common.Distinct.{mem}
use isde.Fm.Jobs.{
  JobType, Job, Heap, Lists, load, put, update, new_job, job_free, enqueue_pending, take_head,
  enqueue_done, drain_done,
}
use isde.Fm.Jobs.Exec.{FileOps, exec}

-- Where `worker_func` is: at the loop of `dequeue_pending`, in pthread_cond_wait, at the switch, before
-- `enqueue_done`, before the write to the pipe, behind the loop.
pub data Worker : Type 0 where
  waiting : Worker
  asleep : Worker
  executing : ℕ → Worker
  storing : ℕ → Worker
  notifying : Worker
  exited : Worker

-- Where the main thread is: in the event loop; in `notify_cb` behind the read, and in its loop with the rest of
-- the list; in `jobqueue_shutdown` at the join, in its two loops, and behind it.
pub data Main : Type 0 where
  idle : Main
  draining : Main
  freeing : Option ℕ → Main
  joining : Main
  free_pending : Option ℕ → Main
  free_done : Option ℕ → Main
  closed : Main

-- What pthread_cond_signal does to the worker.
abbrev pub woken : Worker → Worker
woken asleep = waiting
woken w = w

-- How many bytes the pipe holds; a write(2) to a full pipe blocks.
abbrev pub pipe_capacity : ℕ
pipe_capacity = 65536

abbrev pub is_idle : Main → Bool
is_idle idle = true
is_idle _ = false

-- The logs hold the addresses of the jobs that were submitted, and that the worker took.
pub record App (W : Type 0) : Type 0 where
  pub lists : Lists
  pub worker_running : Bool
  pub pipe : ℕ
  pub worker : Worker
  pub main : Main
  pub dialogs : List ℕ
  pub world : W
  pub submitted : List ℕ
  pub taken : List ℕ

abbrev pub empty_lists : Lists
empty_lists = record {
  heap = record { cell = λ p. none };
  job_head = none;
  job_tail = none;
  done_head = none;
}

-- `jobqueue_init`
unfoldable pub jobqueue_init : {W : Type 0} → W → App W
jobqueue_init w = record {
  lists = empty_lists;
  worker_running = true;
  pipe = 0;
  worker = waiting;
  main = idle;
  dialogs = [];
  world = w;
  submitted = [];
  taken = [];
}

abbrev pub without : ℕ → List ℕ → List ℕ
without p [] = []
without p (x ∷ xs) = let rest = without p xs in if p == x then rest else x ∷ rest

module _ {W : Type 0} where
  abbrev pub with_lists : Lists → App W → App W
  with_lists l a = record a { lists = l }

  abbrev pub with_heap : Heap → App W → App W
  with_heap h a = record a { lists = record a.lists { heap = h } }

  -- pthread_cond_signal
  abbrev pub signal : App W → App W
  signal a = record a { worker = woken a.worker }

  -- The functions `jobqueue_submit_...`, when calloc gives the address p: the job is queued, the worker woken and
  -- the progress dialog opened.
  unfoldable pub submit : JobType → List Str → Str → ℕ → App W → Option (App W)
  submit type srcs dst p a = do
    l ←
        enqueue_pending p
          (record a.lists { heap = put p (some (new_job type srcs dst)) a.lists.heap })
    some (
        signal (record a { lists = l; dialogs = p ∷ a.dialogs; submitted = a.submitted ++ p ∷ [] }))

  -- One round of the loop of `dequeue_pending`: the worker waits for a signal unless there is a job or the queue is
  -- shut down.
  unfoldable pub dequeue_pending : App W → Option (App W)
  dequeue_pending a = elim a.lists.job_head [
    | none ↦ some (record a { worker = if a.worker_running then asleep else exited })
    | some p ↦ do
      l ← take_head p a.lists
      some (record a { lists = l; worker = executing p; taken = a.taken ++ p ∷ [] })
  ]

  abbrev pub executed : ℕ → Job × W → App W → App W
  executed p (j, w) a = record (with_heap (put p (some j) a.lists.heap) a) {
    world = w;
    worker = storing p;
  }

  abbrev pub execute : FileOps W → (ℕ → Bool) → ℕ → App W → Option (App W)
  execute ops cancelled_at p a = do
    j ← load p a.lists.heap
    some (executed p (exec ops cancelled_at j a.world) a)

  unfoldable pub worker_step : FileOps W → (ℕ → Bool) → App W → Option (App W)
  worker_step ops cancelled_at a = elim a.worker [
    | waiting ↦ dequeue_pending a
    | asleep ↦ some a
    | executing p ↦ execute ops cancelled_at p a
    | storing p ↦ do l ← enqueue_done p a.lists; some (record a { lists = l; worker = notifying })
    | notifying ↦
        some
          (if a.pipe == pipe_capacity then a else record a { pipe = suc a.pipe; worker = waiting })
    | exited ↦ some a
  ]

  -- progress_stop(job); ... job_free(job), for the job at the head of a list.
  unfoldable pub stop_and_free : ℕ → App W → Option (Option ℕ × App W)
  stop_and_free p a = do
    j ← load p a.lists.heap
    h ← job_free p a.lists.heap
    some (j.next, record (with_heap h a) { dialogs = without p a.dialogs })

  abbrev pub at_main : Main → App W → App W
  at_main m a = record a { main = m }

  -- The next step of `notify_cb` or of `jobqueue_shutdown`. In the event loop, `notify_cb` is called when there
  -- is a byte to read, and it reads up to 64.
  unfoldable pub main_step : App W → Option (App W)
  main_step a = elim a.main [
    | idle ↦ some (if a.pipe == 0 then a else record a { pipe = a.pipe - 64; main = draining })
    | draining ↦
        some (record a { lists = (drain_done a.lists).1; main = freeing (drain_done a.lists).0 })
    | freeing none ↦ some (at_main idle a)
    | freeing (some p) ↦ do r ← stop_and_free p a; some (at_main (freeing r.0) r.1)
    | joining ↦ elim a.worker [
      | exited ↦ some (at_main (free_pending a.lists.job_head) a)
      | _ ↦ some a
    ]
    | free_pending none ↦ some (record a {
      lists = record a.lists { job_head = none; job_tail = none };
      main = free_done a.lists.done_head;
    })
    | free_pending (some p) ↦ do r ← stop_and_free p a; some (at_main (free_pending r.0) r.1)
    | free_done none ↦
        some (record a { lists = record a.lists { done_head = none }; main = closed })
    | free_done (some p) ↦ do r ← stop_and_free p a; some (at_main (free_done r.0) r.1)
    | closed ↦ some a
  ]

  -- `cancel_cb` of the dialog of a job
  unfoldable pub cancel_job : ℕ → App W → Option (App W)
  cancel_job p a = do
    h ← update p (λ j. record j { cancelled = true }) a.lists.heap
    some (with_heap h a)

-- The user submits a job at an address that calloc gives, cancels one, and closes the application; a thread
-- goes on, the worker with what the loads of the cancelled flag give; or pthread_cond_wait returns without a signal.
pub data Event : Type 0 where
  submits : JobType → List Str → Str → ℕ → Event
  cancels : ℕ → Event
  shuts_down : Event
  worker_goes : (ℕ → Bool) → Event
  main_goes : Event
  wakes : Event

module _ {W : Type 0} (ops : FileOps W) where
  -- calloc gives no address that is in use, a dialog is there to be cancelled, and both happen in the event
  -- loop.
  unfoldable pub take_step : Event → App W → Option (App W)
  take_step (submits type srcs dst p) a =
      if is_idle a.main && not (is_some (load p a.lists.heap))
      then submit type srcs dst p a
      else some a
  take_step (cancels p) a = if is_idle a.main && mem p a.dialogs then cancel_job p a else some a
  take_step shuts_down a =
      some
        (if is_idle a.main then signal (record a { worker_running = false; main = joining }) else a)
  take_step (worker_goes cancelled_at) a = worker_step ops cancelled_at a
  take_step main_goes a = main_step a
  take_step wakes a = some (signal a)

  unfoldable pub run_events : List Event → App W → Option (App W)
  run_events [] a = some a
  run_events (e ∷ es) a = do a' ← take_step e a; run_events es a'

-- ===== src/Fm/Jobs/Wake.antt =====
-- The pipe between the threads: a job that is done is never forgotten.
use isde.Common.{
  ap, ℕ, ◌<◌, ◌≡◌, refl, Str, Bool, true, false, not, ltb, ◌||◌, ◌&&◌, List, [], ◌∷◌, Option, none,
  some, is_some, Bool-cases, Option-cases, arith, inl, inr,
}
use isde.Common.Distinct.{mem}
use isde.Fm.Jobs.{
  JobType, load, put, link_tail, enqueue_pending, take_head, enqueue_done, drain_done, new_job,
}
use isde.Fm.Jobs.Exec.{FileOps}
use isde.Fm.Jobs.Run.{
  Worker, waiting, asleep, woken, executing, storing, notifying, exited, Main, idle, draining,
  freeing, joining, free_pending, free_done, closed, App, jobqueue_init, is_idle, submit,
  cancel_job, Event, submits, cancels, shuts_down, worker_goes, main_goes, wakes, worker_step,
  main_step, dequeue_pending, stop_and_free, take_step, run_events,
}
use isde.Fm.Jobs.Safety.{is_open}

abbrev pub is_notifying : Worker → Bool
is_notifying notifying = true
is_notifying _ = false

is_notifying-woken : (w : Worker) → is_notifying (woken w) ≡ is_notifying w
is_notifying-woken asleep = refl
is_notifying-woken waiting = refl
is_notifying-woken (executing p) = refl
is_notifying-woken (storing p) = refl
is_notifying-woken notifying = refl
is_notifying-woken exited = refl

abbrev is_draining : Main → Bool
is_draining draining = true
is_draining _ = false

-- Unless the queue is shut down, a job on the done list comes with a byte in the pipe, or the worker is about
-- to write one, or the main thread is about to take the list.
abbrev awake : {W : Type 0} → App W → Bool
awake a =
    not (is_open a.main)
    || (not (is_some a.lists.done_head)
        || (ltb 0 a.pipe || (is_notifying a.worker || is_draining a.main)))

abbrev Awake : {W : Type 0} → Option (App W) → Type 0
Awake none = Unit {0}
Awake (some a) = awake a ≡ true

join-Awake :
    {W : Type 0} (a : App W) (w : Worker)
    → Awake (main_step (record a { main = joining; worker = w }))
unfolding main_step
join-Awake a exited = refl
join-Awake a waiting = refl
join-Awake a asleep = refl
join-Awake a (executing p) = refl
join-Awake a (storing p) = refl
join-Awake a notifying = refl

module _ {W : Type 0} (ops : FileOps W) where
  worker_step-Awake :
      (cs : ℕ → Bool) (a : App W) (w : Worker)
      → awake (record a { worker = w }) ≡ true
      → Awake (worker_step ops cs (record a { worker = w }))
  unfolding worker_step dequeue_pending take_head enqueue_done
  worker_step-Awake cs a waiting h = elim (Option-cases a.lists.job_head) [
    | inl none_at ↦ rw none_at (ground arith)
    | inr (p, at) ↦ elim (Option-cases (load p a.lists.heap)) [
      | inl e ↦ rw (at, e) tt
      | inr (j, e) ↦ rw (at, e) (ground arith)
    ]
  ]
  worker_step-Awake cs a asleep h = h
  worker_step-Awake cs a (executing p) h = elim (Option-cases (load p a.lists.heap)) [
    | inl e ↦ rw e tt
    | inr (j, e) ↦ rw e (ground arith)
  ]
  worker_step-Awake cs a (storing p) h = elim (Option-cases (load p a.lists.heap)) [
    | inl e ↦ rw e tt
    | inr (j, e) ↦ rw e (ground arith)
  ]
  worker_step-Awake cs a notifying h = ground arith
  worker_step-Awake cs a exited h = h

  main_step-Awake :
      (a : App W) (m : Main)
      → awake (record a { main = m }) ≡ true
      → Awake (main_step (record a { main = m }))
  unfolding main_step drain_done stop_and_free
  main_step-Awake a idle h = ground arith
  main_step-Awake a draining h = refl
  main_step-Awake a (freeing none) h = ground arith
  main_step-Awake a (freeing (some p)) h = elim (Option-cases (load p a.lists.heap)) [
    | inl e ↦ rw e tt
    | inr (j, e) ↦ rw e (ground arith)
  ]
  main_step-Awake a joining h = join-Awake a a.worker
  main_step-Awake a (free_pending none) h = refl
  main_step-Awake a (free_pending (some p)) h = elim (Option-cases (load p a.lists.heap)) [
    | inl e ↦ rw e tt
    | inr (j, e) ↦ rw e refl
  ]
  main_step-Awake a (free_done none) h = refl
  main_step-Awake a (free_done (some p)) h = elim (Option-cases (load p a.lists.heap)) [
    | inl e ↦ rw e tt
    | inr (j, e) ↦ rw e refl
  ]
  main_step-Awake a closed h = refl

  submit-Awake :
      (a : App W) (type : JobType) (srcs : List Str) (dst : Str) (p : ℕ)
      → awake a ≡ true
      → Awake (submit type srcs dst p a)
  unfolding submit enqueue_pending
  submit-Awake a type srcs dst p h =
      elim (Option-cases
        (link_tail a.lists.job_tail p (put p (some (new_job type srcs dst)) a.lists.heap))) [
          | inl e ↦ rw e tt
          | inr (h', e) ↦ rw (e, is_notifying-woken a.worker) h
        ]

  cancel_job-Awake : (a : App W) (p : ℕ) → awake a ≡ true → Awake (cancel_job p a)
  unfolding cancel_job
  cancel_job-Awake a p h = elim (Option-cases (load p a.lists.heap)) [
    | inl e ↦ rw e tt
    | inr (j, e) ↦ rw e h
  ]

  take_step-Awake : (e : Event) (a : App W) → awake a ≡ true → Awake (take_step ops e a)
  unfolding take_step
  take_step-Awake (submits type srcs dst p) a h =
      elim (Bool-cases (is_idle a.main && not (is_some (load p a.lists.heap)))) [
        | inl e ↦ rw e (submit-Awake a type srcs dst p h)
        | inr e ↦ rw e h
      ]
  take_step-Awake (cancels p) a h = elim (Bool-cases (is_idle a.main && mem p a.dialogs)) [
    | inl e ↦ rw e (cancel_job-Awake a p h)
    | inr e ↦ rw e h
  ]
  take_step-Awake shuts_down a h = elim (Bool-cases (is_idle a.main)) [
    | inl e ↦ rw e refl
    | inr e ↦ rw e h
  ]
  take_step-Awake wakes a h = rw (is_notifying-woken a.worker) h
  take_step-Awake (worker_goes cs) a h = worker_step-Awake cs a a.worker h
  take_step-Awake main_goes a h = main_step-Awake a a.main h

  run_events-Awake : (es : List Event) (a : App W) → awake a ≡ true → Awake (run_events ops es a)
  unfolding run_events
  run_events-Awake [] a h = h
  run_events-Awake (e ∷ es) a h = elim (Option-cases (take_step ops e a)) [
    | inl e' ↦ rw e' tt
    | inr (a', e') ↦
        let h' = take_step-Awake e a h in
        let h'' = rw e' at h' in rw e' (run_events-Awake es a' h'')
  ]

  -- In every state that is reached where the main thread is in its event loop and the worker is not about to
  -- write to the pipe, there is a byte to read when a job is on the done list.
  pub run_events-pipe :
      (es : List Event) (w : W) {a : App W}
      → run_events ops es (jobqueue_init w) ≡ some a
      → a.main ≡ idle
      → is_notifying a.worker ≡ false
      → is_some a.lists.done_head ≡ true
      → 0 < a.pipe
  unfolding jobqueue_init
  run_events-pipe es w {a} e at quiet some_done =
      let h = run_events-Awake es (jobqueue_init w) refl in
      let h' = rw e at h in
      let closing = ap is_open at in
      let taking = ap is_draining at in ground (arith, h', closing, taking, quiet, some_done)

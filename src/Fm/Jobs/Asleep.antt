-- ===== src/Fm/Jobs/Asleep.antt =====
-- No wakeup of the worker is lost.
use isde.Common.{
  ap, ◌≡◌, refl, Bool, true, false, not, ◌||◌, ◌&&◌, List, [], ◌∷◌, Option, none, some, is_some,
  Str, ℕ, Bool-cases, Option-cases, inl, inr, arith,
}
use isde.Common.Distinct.{mem}
use isde.Fm.Jobs.{
  JobType, load, put, link_tail, enqueue_pending, take_head, enqueue_done, drain_done, new_job,
}
use isde.Fm.Jobs.Exec.{FileOps}
use isde.Fm.Jobs.Run.{
  Worker, waiting, asleep, executing, storing, notifying, exited, woken, Main, idle, draining,
  freeing, joining, free_pending, free_done, closed, App, jobqueue_init, is_idle, submit,
  cancel_job, Event, submits, cancels, shuts_down, worker_goes, main_goes, wakes, worker_step,
  main_step, dequeue_pending, stop_and_free, take_step, run_events,
}

abbrev pub is_asleep : Worker → Bool
is_asleep asleep = true
is_asleep _ = false

is_asleep-woken : (w : Worker) → is_asleep (woken w) ≡ false
is_asleep-woken asleep = refl
is_asleep-woken waiting = refl
is_asleep-woken (executing p) = refl
is_asleep-woken (storing p) = refl
is_asleep-woken notifying = refl
is_asleep-woken exited = refl

-- The worker sleeps only while there is no job and the queue is not shut down.
abbrev rested : {W : Type 0} → App W → Bool
rested a = not (is_asleep a.worker) || (a.worker_running && not (is_some a.lists.job_head))

abbrev Rested : {W : Type 0} → Option (App W) → Type 0
Rested none = Unit {0}
Rested (some a) = rested a ≡ true

join-Rested :
    {W : Type 0} (a : App W) (w : Worker)
    → rested (record a { main = joining; worker = w }) ≡ true
    → Rested (main_step (record a { main = joining; worker = w }))
unfolding main_step
join-Rested a exited h = refl
join-Rested a waiting h = refl
join-Rested a asleep h = h
join-Rested a (executing p) h = refl
join-Rested a (storing p) h = refl
join-Rested a notifying h = refl

module _ {W : Type 0} (ops : FileOps W) where
  worker_step-Rested :
      (cs : ℕ → Bool) (a : App W) (w : Worker)
      → rested (record a { worker = w }) ≡ true
      → Rested (worker_step ops cs (record a { worker = w }))
  unfolding worker_step dequeue_pending take_head enqueue_done
  worker_step-Rested cs a waiting h = elim (Option-cases a.lists.job_head) [
    | inl none_at ↦ rw none_at (ground arith)
    | inr (p, at) ↦ elim (Option-cases (load p a.lists.heap)) [
      | inl e ↦ rw (at, e) tt
      | inr (j, e) ↦ rw (at, e) refl
    ]
  ]
  worker_step-Rested cs a asleep h = h
  worker_step-Rested cs a (executing p) h = elim (Option-cases (load p a.lists.heap)) [
    | inl e ↦ rw e tt
    | inr (j, e) ↦ rw e refl
  ]
  worker_step-Rested cs a (storing p) h = elim (Option-cases (load p a.lists.heap)) [
    | inl e ↦ rw e tt
    | inr (j, e) ↦ rw e refl
  ]
  worker_step-Rested cs a notifying h = ground arith
  worker_step-Rested cs a exited h = h

  main_step-Rested :
      (a : App W) (m : Main)
      → rested (record a { main = m }) ≡ true
      → Rested (main_step (record a { main = m }))
  unfolding main_step drain_done stop_and_free
  main_step-Rested a idle h = ground arith
  main_step-Rested a draining h = h
  main_step-Rested a (freeing none) h = h
  main_step-Rested a (freeing (some p)) h = elim (Option-cases (load p a.lists.heap)) [
    | inl e ↦ rw e tt
    | inr (j, e) ↦ rw e h
  ]
  main_step-Rested a joining h = join-Rested a a.worker h
  main_step-Rested a (free_pending none) h = ground arith
  main_step-Rested a (free_pending (some p)) h = elim (Option-cases (load p a.lists.heap)) [
    | inl e ↦ rw e tt
    | inr (j, e) ↦ rw e h
  ]
  main_step-Rested a (free_done none) h = h
  main_step-Rested a (free_done (some p)) h = elim (Option-cases (load p a.lists.heap)) [
    | inl e ↦ rw e tt
    | inr (j, e) ↦ rw e h
  ]
  main_step-Rested a closed h = h

  submit-Rested :
      (a : App W) (type : JobType) (srcs : List Str) (dst : Str) (p : ℕ)
      → Rested (submit type srcs dst p a)
  unfolding submit enqueue_pending
  submit-Rested a type srcs dst p =
      elim (Option-cases
        (link_tail a.lists.job_tail p (put p (some (new_job type srcs dst)) a.lists.heap))) [
          | inl e ↦ rw e tt
          | inr (h', e) ↦ rw (e, is_asleep-woken a.worker) refl
        ]

  cancel_job-Rested : (a : App W) (p : ℕ) → rested a ≡ true → Rested (cancel_job p a)
  unfolding cancel_job
  cancel_job-Rested a p h = elim (Option-cases (load p a.lists.heap)) [
    | inl e ↦ rw e tt
    | inr (j, e) ↦ rw e h
  ]

  take_step-Rested : (e : Event) (a : App W) → rested a ≡ true → Rested (take_step ops e a)
  unfolding take_step
  take_step-Rested (submits type srcs dst p) a h =
      elim (Bool-cases (is_idle a.main && not (is_some (load p a.lists.heap)))) [
        | inl e ↦ rw e (submit-Rested a type srcs dst p)
        | inr e ↦ rw e h
      ]
  take_step-Rested (cancels p) a h = elim (Bool-cases (is_idle a.main && mem p a.dialogs)) [
    | inl e ↦ rw e (cancel_job-Rested a p h)
    | inr e ↦ rw e h
  ]
  take_step-Rested shuts_down a h = elim (Bool-cases (is_idle a.main)) [
    | inl e ↦ rw (e, is_asleep-woken a.worker) refl
    | inr e ↦ rw e h
  ]
  take_step-Rested (worker_goes cs) a h = worker_step-Rested cs a a.worker h
  take_step-Rested main_goes a h = main_step-Rested a a.main h
  take_step-Rested wakes a h = rw (is_asleep-woken a.worker) refl

  run_events-Rested : (es : List Event) (a : App W) → rested a ≡ true → Rested (run_events ops es a)
  unfolding run_events
  run_events-Rested [] a h = h
  run_events-Rested (e ∷ es) a h = elim (Option-cases (take_step ops e a)) [
    | inl e' ↦ rw e' tt
    | inr (a', e') ↦
        let h' = take_step-Rested e a h in
        let h'' = rw e' at h' in rw e' (run_events-Rested es a' h'')
  ]

  -- In every state that is reached with the worker in pthread_cond_wait, no job is pending and the queue is not shut
  -- down: no signal is missed, whatever the order of the steps and also without spurious wakeups.
  pub run_events-asleep :
      (es : List Event) (w : W) {a : App W}
      → run_events ops es (jobqueue_init w) ≡ some a
      → a.worker ≡ asleep
      → (a.lists.job_head ≡ none) × (a.worker_running ≡ true)
  unfolding jobqueue_init
  run_events-asleep es w {a} e at =
      let h = run_events-Rested es (jobqueue_init w) refl in
      let h' = rw e at h in let sleeping = ap is_asleep at in ground (arith, h', sleeping)

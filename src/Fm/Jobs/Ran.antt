-- ===== src/Fm/Jobs/Ran.antt =====
-- What the worker has done to the file system: it has executed each job that it took, once and in order.
use mathlib.Core.List.{append-nil}
use isde.Common.{
  ap, sym, ◌∙◌, ◌≡◌, refl, Bool, true, false, not, ◌&&◌, List, [], ◌∷◌, ◌++◌, Option, none, some,
  is_some, Str, ℕ, ◌==◌, Bool-cases, Option-cases, inl, inr, if◌then◌else◌,
}
use isde.Common.Distinct.{mem}
use isde.Fm.Jobs.{
  Job, JobType, load, put, link_tail, enqueue_pending, take_head, enqueue_done, drain_done, new_job,
}
use isde.Fm.Jobs.Exec.{FileOps, exec}
use isde.Fm.Jobs.Run.{
  Worker, waiting, asleep, executing, storing, notifying, exited, woken, pipe_capacity, Main, idle,
  draining, freeing, joining, free_pending, free_done, closed, App, jobqueue_init, is_idle, submit,
  cancel_job, Event, submits, cancels, shuts_down, worker_goes, main_goes, wakes, worker_step,
  main_step, dequeue_pending, stop_and_free, take_step, run_events,
}

-- The states that are reached.
pub data Reached {W : Type 0} (ops : FileOps W) (before : W) : App W → Type 0 where
  at_start : Reached ops before (jobqueue_init before)
  by_step :
      {a a' : App W} (e : Event)
      → Reached ops before a
      → take_step ops e a ≡ some a'
      → Reached ops before a'

-- From `before`, the jobs at these addresses were executed one behind the other, each as its memory was in a reached
-- state with the worker at its execution, and on the file system that the jobs before it had left.
pub data Ran {W : Type 0} (ops : FileOps W) (before : W) : List ℕ → W → Type 0 where
  ran_none : Ran ops before [] before
  ran_more :
      {ps : List ℕ} (p : ℕ) (j : Job) (cancelled_at : ℕ → Bool) (a : App W)
      → Reached ops before a
      → a.worker ≡ executing p
      → load p a.lists.heap ≡ some j
      → Ran ops before ps a.world
      → Ran ops before (ps ++ p ∷ []) (exec ops cancelled_at j a.world).1

-- The job that is taken and not executed yet.
abbrev pub unexecuted : Worker → List ℕ
unexecuted (executing p) = p ∷ []
unexecuted _ = []

unexecuted-woken : (w : Worker) → unexecuted (woken w) ≡ unexecuted w
unexecuted-woken asleep = refl
unexecuted-woken waiting = refl
unexecuted-woken (executing p) = refl
unexecuted-woken (storing p) = refl
unexecuted-woken notifying = refl
unexecuted-woken exited = refl

pub record IsThrough {W : Type 0} (ops : FileOps W) (before : W) (taken : List ℕ) (w : Worker)
    (world : W) : Type 0 where
  pub finished : List ℕ
  pub split : taken ≡ finished ++ unexecuted w
  pub ran : Ran ops before finished world

module _ {W : Type 0} (ops : FileOps W) (before : W) where
  abbrev pub Through : App W → Type 0
  Through a = IsThrough ops before a.taken a.worker a.world

  abbrev pub ThroughIn : Option (App W) → Type 0
  ThroughIn none = Unit {0}
  ThroughIn (some a) = Through a

  woken-Through :
      (taken : List ℕ) (w : Worker) (x : W)
      → IsThrough ops before taken w x
      → IsThrough ops before taken (woken w) x
  woken-Through taken w x h = record {
    finished = h.finished;
    split = rw (unexecuted-woken w) h.split;
    ran = h.ran;
  }

  -- Nothing is executed in a step between two points without a job to execute.
  same-Through :
      (taken : List ℕ) (w w' : Worker) (x : W)
      → unexecuted w' ≡ unexecuted w
      → IsThrough ops before taken w x
      → IsThrough ops before taken w' x
  same-Through taken w w' x e h = record {
    finished = h.finished;
    split = rw e h.split;
    ran = h.ran;
  }

  join-Through :
      (a : App W) (w : Worker)
      → Through (record a { main = joining; worker = w })
      → ThroughIn (main_step (record a { main = joining; worker = w }))
  unfolding main_step
  join-Through a exited h = h
  join-Through a waiting h = h
  join-Through a asleep h = h
  join-Through a (executing p) h = h
  join-Through a (storing p) h = h
  join-Through a notifying h = h

  dequeued :
      (a : App W) (b : Bool)
      → Through (record a { worker = waiting })
      → Through (record a { worker = if b then asleep else exited })
  dequeued a true h = same-Through a.taken waiting asleep a.world refl h
  dequeued a false h = same-Through a.taken waiting exited a.world refl h

  worker_step-Through :
      (cs : ℕ → Bool) (a : App W) (w : Worker)
      → Reached ops before (record a { worker = w })
      → Through (record a { worker = w })
      → ThroughIn (worker_step ops cs (record a { worker = w }))
  unfolding worker_step dequeue_pending take_head enqueue_done
  worker_step-Through cs a waiting r h = elim (Option-cases a.lists.job_head) [
    | inl none_at ↦ rw none_at (dequeued a a.worker_running h)
    | inr (p, at) ↦ elim (Option-cases (load p a.lists.heap)) [
      | inl e ↦ rw (at, e) tt
      | inr (j, e) ↦
          rw (at, e)
            (record {
              finished = h.finished;
              split = ap (λ ps. ps ++ p ∷ []) (h.split ∙ append-nil h.finished);
              ran = h.ran;
            })
    ]
  ]
  worker_step-Through cs a asleep r h = h
  worker_step-Through cs a (executing p) r h = elim (Option-cases (load p a.lists.heap)) [
    | inl e ↦ rw e tt
    | inr (j, e) ↦ rw e (record {
      finished = h.finished ++ p ∷ [];
      split = h.split ∙ sym (append-nil (h.finished ++ p ∷ []));
      ran = ran_more p j cs (record a { worker = executing p }) r refl e h.ran;
    })
  ]
  worker_step-Through cs a (storing p) r h = elim (Option-cases (load p a.lists.heap)) [
    | inl e ↦ rw e tt
    | inr (j, e) ↦ rw e (same-Through a.taken (storing p) notifying a.world refl h)
  ]
  worker_step-Through cs a notifying r h = elim (Bool-cases (a.pipe == pipe_capacity)) [
    | inl full ↦ rw full h
    | inr room ↦ rw room (same-Through a.taken notifying waiting a.world refl h)
  ]
  worker_step-Through cs a exited r h = h

  main_step-Through :
      (a : App W) (m : Main)
      → Through (record a { main = m })
      → ThroughIn (main_step (record a { main = m }))
  unfolding main_step drain_done stop_and_free
  main_step-Through a idle h = elim (Bool-cases (a.pipe == 0)) [ inl e ↦ rw e h | inr e ↦ rw e h ]
  main_step-Through a draining h = h
  main_step-Through a (freeing none) h = h
  main_step-Through a (freeing (some p)) h = elim (Option-cases (load p a.lists.heap)) [
    | inl e ↦ rw e tt
    | inr (j, e) ↦ rw e h
  ]
  main_step-Through a joining h = join-Through a a.worker h
  main_step-Through a (free_pending none) h = h
  main_step-Through a (free_pending (some p)) h = elim (Option-cases (load p a.lists.heap)) [
    | inl e ↦ rw e tt
    | inr (j, e) ↦ rw e h
  ]
  main_step-Through a (free_done none) h = h
  main_step-Through a (free_done (some p)) h = elim (Option-cases (load p a.lists.heap)) [
    | inl e ↦ rw e tt
    | inr (j, e) ↦ rw e h
  ]
  main_step-Through a closed h = h

  submit-Through :
      (a : App W) (type : JobType) (srcs : List Str) (dst : Str) (p : ℕ)
      → Through a
      → ThroughIn (submit type srcs dst p a)
  unfolding submit enqueue_pending
  submit-Through a type srcs dst p h =
      elim (Option-cases
        (link_tail a.lists.job_tail p (put p (some (new_job type srcs dst)) a.lists.heap))) [
          | inl e ↦ rw e tt
          | inr (h', e) ↦ rw e (woken-Through a.taken a.worker a.world h)
        ]

  cancel_job-Through : (a : App W) (p : ℕ) → Through a → ThroughIn (cancel_job p a)
  unfolding cancel_job
  cancel_job-Through a p h = elim (Option-cases (load p a.lists.heap)) [
    | inl e ↦ rw e tt
    | inr (j, e) ↦ rw e h
  ]

  take_step-Through :
      (e : Event) (a : App W) → Reached ops before a → Through a → ThroughIn (take_step ops e a)
  unfolding take_step
  take_step-Through (submits type srcs dst p) a r h =
      elim (Bool-cases (is_idle a.main && not (is_some (load p a.lists.heap)))) [
        | inl e ↦ rw e (submit-Through a type srcs dst p h)
        | inr e ↦ rw e h
      ]
  take_step-Through (cancels p) a r h = elim (Bool-cases (is_idle a.main && mem p a.dialogs)) [
    | inl e ↦ rw e (cancel_job-Through a p h)
    | inr e ↦ rw e h
  ]
  take_step-Through shuts_down a r h = elim (Bool-cases (is_idle a.main)) [
    | inl e ↦ rw e (woken-Through a.taken a.worker a.world h)
    | inr e ↦ rw e h
  ]
  take_step-Through (worker_goes cs) a r h = worker_step-Through cs a a.worker r h
  take_step-Through main_goes a r h = main_step-Through a a.main h
  take_step-Through wakes a r h = woken-Through a.taken a.worker a.world h

  run_events-Through :
      (es : List Event) (a : App W)
      → Reached ops before a
      → Through a
      → ThroughIn (run_events ops es a)
  unfolding run_events
  run_events-Through [] a r h = h
  run_events-Through (e ∷ es) a r h = elim (Option-cases (take_step ops e a)) [
    | inl e' ↦ rw e' tt
    | inr (a', e') ↦
        let h' = take_step-Through e a r h in
        let h'' = rw e' at h' in rw e' (run_events-Through es a' (by_step e r e') h'')
  ]

pub reached-IsThrough :
    {W : Type 0} (ops : FileOps W) (es : List Event) (before : W) {a : App W}
    → run_events ops es (jobqueue_init before) ≡ some a
    → IsThrough ops before a.taken a.worker a.world
unfolding jobqueue_init
reached-IsThrough ops es before {a} e =
    let init : IsThrough ops before [] waiting before = record {
      finished = [];
      split = refl;
      ran = ran_none;
    } in
    let h = run_events-Through ops before es (jobqueue_init before) at_start init in rw e at h

pub exited-finished :
    {W : Type 0} (ops : FileOps W) (before : W) (taken : List ℕ) (w : Worker) (x : W)
    → unexecuted w ≡ []
    → IsThrough ops before taken w x
    → Ran ops before taken x
exited-finished ops before taken w x e h =
    let whole : taken ≡ h.finished =
      h.split ∙ ap (λ ps. h.finished ++ ps) e ∙ append-nil h.finished in
    rw whole (h.ran)

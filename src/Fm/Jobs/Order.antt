-- ===== src/Fm/Jobs/Order.antt =====
-- What holds over every interleaving of the two threads.
use mathlib.Core.List.{append_assoc}
use isde.Common.{
  sym, ap, ◌∙◌, ℕ, ◌≡◌, refl, true, false, not, ◌&&◌, List, [], ◌∷◌, ◌++◌, none, some, is_some,
  Bool-cases, arith, inl, inr, Str,
}
use isde.Common.Distinct.{mem, mem-append}
use isde.Fm.Jobs.{JobType, load, enqueue_pending, new_job}
use isde.Fm.Jobs.Exec.{FileOps}
use isde.Fm.Jobs.Run.{
  Main, idle, joining, App, jobqueue_init, is_idle, submit, cancel_job, Event, submits, cancels,
  shuts_down, worker_goes, main_goes, wakes, signal, take_step, run_events,
}
use isde.Fm.Jobs.Chain.{Chain, last_of}
use isde.Fm.Jobs.Represents.{jobs, load-some, mem-all}
use isde.Fm.Jobs.Ops.{Shape-keep}
use isde.Fm.Jobs.Submit.{Shape-submit}
use isde.Fm.Jobs.Safety.{Rep, Good, good, init-Rep, Rep-woken, held, is_open, live_done, rest_of}
use isde.Fm.Jobs.Ran.{Ran}
use isde.Fm.Jobs.WorkerSafety.{worker_step-Good}
use isde.Fm.Jobs.MainSafety.{main_step-Good}

is_idle-idle : (m : Main) → is_idle m ≡ true → m ≡ idle
is_idle-idle idle e = refl
is_idle-idle _ e = absurd (ground (arith, e))

some-injective : {A : Type 0} {x y : A} → some x ≡ some y → x ≡ y
some-injective e = ground (arith, e)

module _ {W : Type 0} where
  submit-Good :
      (type : JobType) (srcs : List Str) (dst : Str) (p : ℕ) (a : App W)
      {pending done drained : List ℕ}
      → is_some (load p a.lists.heap) ≡ false
      → a.main ≡ idle
      → Rep a pending done drained
      → Good (submit type srcs dst p a)
  unfolding submit enqueue_pending
  submit-Good type srcs dst p a {pending} {done} {drained} unused at v =
      let (h, e, sh) =
        Shape-submit p (new_job type srcs dst) refl unused a.lists.job_tail pending v.shape in
      let on = v.running ∙ ap is_open at in
      let queued : App W = record a {
        lists = record {
          heap = h;
          job_head = elim a.lists.job_tail [ none ↦ some p | some tail ↦ a.lists.job_head ];
          job_tail = some p;
          done_head = a.lists.done_head;
        };
        dialogs = p ∷ a.dialogs;
        submitted = a.submitted ++ p ∷ [];
      } in
      rw e (
        good {pending = pending ++ p ∷ []} {done = done} {drained = drained} (
          Rep-woken queued a.worker (record {
            shape = sh;
            order = rw (v.order, append_assoc) refl;
            dialogs = λ q. ground (
              arith,
              v.dialogs q,
              sh.allocated q,
              v.shape.allocated q,
              mem-all q (jobs (held a.worker) pending done drained),
              mem-all q (jobs (held a.worker) (pending ++ p ∷ []) done drained),
              mem-append q pending (p ∷ []),
            );
            running = v.running;
            left = ground (arith, on, v.left);
            joined = v.joined;
          })))

  cancel_job-Good :
      (p : ℕ) (a : App W) {pending done drained : List ℕ}
      → mem p a.dialogs ≡ true
      → Rep a pending done drained
      → Good (cancel_job p a)
  unfolding cancel_job
  cancel_job-Good p a {pending} {done} {drained} open_dialog v =
      let (j, at) = load-some p a.lists.heap (ground (arith, v.dialogs p)) in
      rw at (
        good {pending = pending} {done = done} {drained = drained} (record {
          shape = Shape-keep p j _ at refl v.shape;
          order = v.order;
          dialogs = λ q. ground (arith, v.dialogs q);
          running = v.running;
          left = v.left;
          joined = v.joined;
        }))

  shut_down-Good :
      (a : App W) {pending done drained : List ℕ}
      → a.main ≡ idle
      → Rep a pending done drained
      → Good (some (signal (record a { worker_running = false; main = joining })))
  shut_down-Good a {pending} {done} {drained} at v =
      let on = v.running ∙ ap is_open at in
      let live : live_done a.main a.lists.done_head ≡ a.lists.done_head =
        ap (λ m. live_done m a.lists.done_head) at in
      let sh = v.shape in
      good {pending = pending} {done = done} {drained = drained} (
        Rep-woken (record a { worker_running = false; main = joining }) a.worker
          (record {
            shape = record {
              pending = sh.pending;
              tail = sh.tail;
              done = rw live at (sh.done);
              drained = rw (ap rest_of at) at (sh.drained);
              distinct = sh.distinct;
              allocated = sh.allocated;
            };
            order = v.order;
            dialogs = v.dialogs;
            running = refl;
            left = ground (arith, on, v.left);
            joined = refl;
          }))

  module _ (ops : FileOps W) where
    pub take_step-Good :
        (e : Event) (a : App W) {pending done drained : List ℕ}
        → Rep a pending done drained
        → Good (take_step ops e a)
    unfolding take_step
    take_step-Good (submits type srcs dst p) a v =
        elim (Bool-cases (is_idle a.main && not (is_some (load p a.lists.heap)))) [
          | inl e ↦
              let unused : is_some (load p a.lists.heap) ≡ false = ground arith in
              rw e (submit-Good type srcs dst p a unused (is_idle-idle a.main (ground arith)) v)
          | inr e ↦ rw e (good v)
        ]
    take_step-Good (cancels p) a v = elim (Bool-cases (is_idle a.main && mem p a.dialogs)) [
      | inl e ↦ rw e (cancel_job-Good p a (ground arith) v)
      | inr e ↦ rw e (good v)
    ]
    take_step-Good shuts_down a v = elim (Bool-cases (is_idle a.main)) [
      | inl e ↦ rw e (shut_down-Good a (is_idle-idle a.main e) v)
      | inr e ↦ rw e (good v)
    ]
    take_step-Good (worker_goes cs) a v = worker_step-Good ops cs a v
    take_step-Good main_goes a v = main_step-Good a v
    take_step-Good wakes a v = good (Rep-woken a a.worker v)

    pub run_events-Good :
        (es : List Event) (a : App W) {pending done drained : List ℕ}
        → Rep a pending done drained
        → Good (run_events ops es a)
    unfolding run_events
    run_events-Good [] a v = good v
    run_events-Good (e ∷ es) a v =
        let g = take_step-Good e a v in rw (g.result) (run_events-Good es g.app g.rep)

  -- No interleaving of the two threads, of submissions, cancellations and the shutdown reads or writes a job
  -- that is freed or was never allocated.
  pub run_events-is_some :
      (ops : FileOps W) (es : List Event) (w : W)
      → is_some (run_events ops es (jobqueue_init w)) ≡ true
  run_events-is_some ops es w =
      let g = run_events-Good ops es (jobqueue_init w) (init-Rep w) in rw (g.result) refl

  pub reached :
      (ops : FileOps W) (es : List Event) (w : W) {a : App W}
      → run_events ops es (jobqueue_init w) ≡ some a
      → (pending done drained : List ℕ) × Rep a pending done drained
  reached ops es w e =
      let g = run_events-Good ops es (jobqueue_init w) (init-Rep w) in
      let same = some-injective (sym (g.result) ∙ e) in
      (g.pending, g.done, g.drained, rw same at (g.rep))

  -- In every state that is reached, the linked list from `job_head` to `job_tail` holds the jobs that the worker
  -- has not taken, and the worker has taken the others in the order of their submission.
  pub run_events-order :
      (ops : FileOps W) (es : List Event) (w : W) {a : App W}
      → run_events ops es (jobqueue_init w) ≡ some a
      → (pending : List ℕ) × (a.submitted ≡ a.taken ++ pending)
        × Chain a.lists.heap a.lists.job_head pending
        × (a.lists.job_tail ≡ last_of pending)
  run_events-order ops es w e =
      let (pending, _, _, v) = reached ops es w e in
      (pending, v.order, v.shape.pending, v.shape.tail)

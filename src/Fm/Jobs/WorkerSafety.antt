-- ===== src/Fm/Jobs/WorkerSafety.antt =====
-- The worker's steps keep the invariant.
use mathlib.Core.List.{append_assoc}
use isde.Common.{
  ℕ, ◌≡◌, refl, Bool, true, false, List, [], ◌∷◌, Option, none, some, ◌>>=◌, ◌==◌, Bool-cases, inl,
  inr, arith,
}
use isde.Fm.Jobs.{Heap, take_head, enqueue_done}
use isde.Fm.Jobs.Exec.{FileOps}
use isde.Fm.Jobs.Run.{
  Worker, waiting, asleep, pipe_capacity, executing, storing, notifying, exited, Main, free_done,
  closed, App, dequeue_pending, execute, worker_step,
}
use isde.Fm.Jobs.Represents.{load-some}
use isde.Fm.Jobs.Ops.{Shape-write, Shape-store, Shape-take}
use isde.Fm.Jobs.Safety.{live_done, is_joined, Rep, Good, good, app, lists}

live_done-open : (m : Main) (p : Option ℕ) → is_joined m ≡ false → live_done m p ≡ p
live_done-open (free_done q) p e = absurd (ground (arith, e))
live_done-open closed p e = absurd (ground (arith, e))
live_done-open _ p e = refl

module _ {W : Type 0} (h : Heap) (tail done_p : Option ℕ) (n : ℕ) (m : Main) (ds : List ℕ) (x : W)
    (sub tk : List ℕ) where
  wait-Good :
      (r : Bool) (pending done drained : List ℕ)
      → Rep (app (lists h none tail done_p) r n waiting m ds x sub tk) pending done drained
      → Good (dequeue_pending (app (lists h none tail done_p) r n waiting m ds x sub tk))
  unfolding dequeue_pending
  wait-Good true pending done drained v = good (record {
    shape = v.shape;
    order = v.order;
    dialogs = v.dialogs;
    running = v.running;
    left = refl;
    joined = v.joined;
  })
  wait-Good false [] done drained v = good (record {
    shape = v.shape;
    order = v.order;
    dialogs = v.dialogs;
    running = v.running;
    left = refl;
    joined = ground arith;
  })
  wait-Good false (p ∷ pending) done drained v = absurd (ground (arith, v.shape.pending.0))

  took-Good :
      (r : Bool) (p : ℕ) (pending done drained : List ℕ)
      → Rep
          (app (lists h (some p) tail done_p) r n waiting m ds x sub tk)
          (p ∷ pending)
          done
          drained
      → Good (dequeue_pending (app (lists h (some p) tail done_p) r n waiting m ds x sub tk))
  unfolding dequeue_pending take_head
  took-Good r p pending done drained v =
      let (j, at) = load-some p h (ground (arith, v.shape.allocated p)) in
      rw at (
        good (record {
          shape = Shape-take p j at v.shape;
          order = rw append_assoc v.order;
          dialogs = λ q. ground (arith, v.dialogs q);
          running = v.running;
          left = refl;
          joined = v.joined;
        }))

  dequeue-Good :
      (r : Bool) (head : Option ℕ) (pending done drained : List ℕ)
      → Rep (app (lists h head tail done_p) r n waiting m ds x sub tk) pending done drained
      → Good (dequeue_pending (app (lists h head tail done_p) r n waiting m ds x sub tk))
  dequeue-Good r none pending done drained v = wait-Good r pending done drained v
  dequeue-Good r (some p) [] done drained v = absurd (ground (arith, v.shape.pending))
  dequeue-Good r (some p) (q ∷ pending) done drained v =
      let e : q ≡ p = ground (arith, v.shape.pending.0) in
      took-Good r p pending done drained (rw e at v)

  execute-Good :
      (r : Bool) (head : Option ℕ) (ops : FileOps W) (cs : ℕ → Bool) (p : ℕ)
      (pending done drained : List ℕ)
      → Rep (app (lists h head tail done_p) r n (executing p) m ds x sub tk) pending done drained
      → Good (execute ops cs p (app (lists h head tail done_p) r n (executing p) m ds x sub tk))
  execute-Good r head ops cs p pending done drained v =
      let (j, at) = load-some p h (ground (arith, v.shape.allocated p)) in
      rw at (
        good (record {
          shape = Shape-write p _ (ground arith) v.shape;
          order = v.order;
          dialogs = λ q. ground (arith, v.dialogs q);
          running = v.running;
          left = refl;
          joined = v.joined;
        }))

  store-Good :
      (r : Bool) (head : Option ℕ) (p : ℕ) (pending done drained : List ℕ)
      → is_joined m ≡ false
      → Rep (app (lists h head tail done_p) r n (storing p) m ds x sub tk) pending done drained
      → Good (do
        l ← enqueue_done p (lists h head tail done_p)
        some (app l r n notifying m ds x sub tk))
  unfolding enqueue_done
  store-Good r head p pending done drained e v =
      let (j, at) = load-some p h (ground (arith, v.shape.allocated p)) in
      let sh = rw (live_done-open m done_p e) at v.shape in
      rw at (
        good {pending = pending} {done = p ∷ done} {drained = drained} (record {
          shape = rw (live_done-open m (some p) e) (Shape-store p j sh);
          order = v.order;
          dialogs = λ q. ground (arith, v.dialogs q);
          running = v.running;
          left = refl;
          joined = v.joined;
        }))

  -- The worker's section of a step.
  worker-Good :
      (ops : FileOps W) (cs : ℕ → Bool) (r : Bool) (head : Option ℕ) (w : Worker)
      (pending done drained : List ℕ)
      → Rep (app (lists h head tail done_p) r n w m ds x sub tk) pending done drained
      → Good (worker_step ops cs (app (lists h head tail done_p) r n w m ds x sub tk))
  unfolding worker_step
  worker-Good ops cs r head waiting pending done drained v =
      dequeue-Good r head pending done drained v
  worker-Good ops cs r head asleep pending done drained v = good v
  worker-Good ops cs r head (executing p) pending done drained v =
      execute-Good r head ops cs p pending done drained v
  worker-Good ops cs r head (storing p) pending done drained v =
      store-Good r head p pending done drained (ground (arith, v.joined)) v
  worker-Good ops cs r head notifying pending done drained v =
      elim (Bool-cases (n == pipe_capacity)) [
        | inl full ↦ rw full (good v)
        | inr room ↦ rw room (
            good (record {
              shape = v.shape;
              order = v.order;
              dialogs = v.dialogs;
              running = v.running;
              left = refl;
              joined = v.joined;
            }))
      ]
  worker-Good ops cs r head exited pending done drained v = good v

pub worker_step-Good :
    {W : Type 0} (ops : FileOps W) (cs : ℕ → Bool) (a : App W) {pending done drained : List ℕ}
    → Rep a pending done drained
    → Good (worker_step ops cs a)
worker_step-Good ops cs a v =
    worker-Good a.lists.heap a.lists.job_tail a.lists.done_head a.pipe a.main a.dialogs a.world
      a.submitted a.taken ops cs a.worker_running a.lists.job_head a.worker _ _ _ v

-- ===== src/Fm/Jobs/MainSafety.antt =====
-- The main thread's steps keep the invariant.
use isde.Common.{
  ℕ, ◌==◌, ◌≡◌, refl, Bool, false, not, ◌&&◌, List, [], ◌∷◌, Option, none, some, is_some,
  Bool-cases, arith, inl, inr,
}
use isde.Common.Distinct.{mem}
use isde.Fm.Jobs.{Job, Heap, load, put, drain_done}
use isde.Fm.Jobs.Run.{
  Worker, waiting, asleep, executing, storing, notifying, exited, Main, idle, draining, freeing,
  joining, free_pending, free_done, closed, App, without, stop_and_free, main_step,
}
use isde.Fm.Jobs.Represents.{jobs, roots, Shape, load-some, mem-all, Shape-drain}
use isde.Fm.Jobs.Ops.{Shape-free}
use isde.Fm.Jobs.Safety.{held, Rep, Good, good, app, lists}

mem-without : (p q : ℕ) (xs : List ℕ) → mem q (without p xs) ≡ (not (p == q) && mem q xs)
mem-without p q [] = ground arith
mem-without p q (x ∷ xs) = ground (arith, mem-without p q xs)

dialogs-without :
    (p q : ℕ) (ds : List ℕ) (h : Heap)
    → (mem q ds && not (is_some (load q h))) ≡ false
    → (mem q (without p ds) && not (is_some (load q (put p none h)))) ≡ false
dialogs-without p q ds h e = ground (arith, mem-without p q ds)

-- The job that is freed next, and the lists without it.
freed :
    (h : Heap) (head tail done_p : Option ℕ) (cur pending done : List ℕ) (p : ℕ) (drained : List ℕ)
    → Shape h (roots head tail done_p (some p)) (jobs cur pending done drained)
    → (j : Job) × (left : List ℕ) × (load p h ≡ some j)
      × Shape (put p none h) (roots head tail done_p j.next) (jobs cur pending done left)
freed h head tail done_p cur pending done p [] sh = absurd (ground (arith, sh.drained))
freed h head tail done_p cur pending done p (q ∷ drained) sh =
    let e : q ≡ p = ground (arith, sh.drained.0) in
    let sh' = rw e at sh in
    let (j, at) =
      load-some p h
        (ground (arith, sh'.allocated p, mem-all p (jobs cur pending done (p ∷ drained)))) in
    (j, drained, at, Shape-free p j at sh')

module _ {W : Type 0} (h : Heap) (head tail done_p : Option ℕ) (r : Bool) (n : ℕ) (w : Worker)
    (ds : List ℕ) (x : W) (sub tk : List ℕ) where
  abbrev at_point : Main → App W
  at_point m = app (lists h head tail done_p) r n w m ds x sub tk

  idle-Good :
      (pending done drained : List ℕ)
      → Rep (at_point idle) pending done drained
      → Good (main_step (at_point idle))
  unfolding main_step
  idle-Good pending done drained v = elim (Bool-cases (n == 0)) [
    | inl e ↦ rw e (good v)
    | inr e ↦ rw e (
        good record {
          shape = v.shape;
          order = v.order;
          dialogs = v.dialogs;
          running = v.running;
          left = v.left;
          joined = v.joined;
        })
  ]

  draining-Good :
      (pending done drained : List ℕ)
      → Rep (at_point draining) pending done drained
      → Good (main_step (at_point draining))
  unfolding main_step drain_done
  draining-Good pending done [] v = good (record {
    shape = Shape-drain v.shape;
    order = v.order;
    dialogs = v.dialogs;
    running = v.running;
    left = v.left;
    joined = v.joined;
  })
  draining-Good pending done (p ∷ drained) v = absurd (ground (arith, v.shape.drained.0))

  freeing-Good :
      (p : ℕ) (pending done drained : List ℕ)
      → Rep (at_point (freeing (some p))) pending done drained
      → Good (main_step (at_point (freeing (some p))))
  unfolding main_step stop_and_free
  freeing-Good p pending done drained v =
      let (j, left, at, sh) = freed h head tail done_p (held w) pending done p drained v.shape in
      rw at (
        good {pending = pending} {done = done} {drained = left} (record {
          shape = sh;
          order = v.order;
          dialogs = λ q. dialogs-without p q ds h (v.dialogs q);
          running = v.running;
          left = v.left;
          joined = v.joined;
        }))

  pending_freed-Good :
      (p : ℕ) (pending done drained : List ℕ)
      → Rep (at_point (free_pending (some p))) pending done drained
      → Good (main_step (at_point (free_pending (some p))))
  unfolding main_step stop_and_free
  pending_freed-Good p pending done drained v =
      let (j, left, at, sh) = freed h head tail done_p (held w) pending done p drained v.shape in
      rw at (
        good {pending = pending} {done = done} {drained = left} (record {
          shape = sh;
          order = v.order;
          dialogs = λ q. dialogs-without p q ds h (v.dialogs q);
          running = v.running;
          left = v.left;
          joined = v.joined;
        }))

  done_freed-Good :
      (p : ℕ) (pending done drained : List ℕ)
      → Rep (at_point (free_done (some p))) pending done drained
      → Good (main_step (at_point (free_done (some p))))
  unfolding main_step stop_and_free
  done_freed-Good p pending done drained v =
      let (j, left, at, sh) = freed h head tail none (held w) pending done p drained v.shape in
      rw at (
        good {pending = pending} {done = done} {drained = left} (record {
          shape = sh;
          order = v.order;
          dialogs = λ q. dialogs-without p q ds h (v.dialogs q);
          running = v.running;
          left = v.left;
          joined = v.joined;
        }))

  end_pending-Good :
      (pending done drained : List ℕ)
      → Rep (at_point (free_pending none)) pending done drained
      → Good (main_step (at_point (free_pending none)))
  unfolding main_step
  end_pending-Good [] done [] v =
      let sh = Shape-drain v.shape in
      record {
        app = _;
        pending = [];
        done = [];
        drained = done;
        result = refl;
        rep = record {
          shape = record {
            pending = refl;
            tail = refl;
            done = sh.done;
            drained = sh.drained;
            distinct = sh.distinct;
            allocated = sh.allocated;
          };
          order = v.order;
          dialogs = v.dialogs;
          running = v.running;
          left = v.left;
          joined = v.joined;
        };
      }
  end_pending-Good [] done (p ∷ drained) v = absurd (ground (arith, v.shape.drained.0))
  end_pending-Good (p ∷ pending) done drained v = absurd (ground (arith, v.left, v.joined))

  end_done-Good :
      (pending done drained : List ℕ)
      → Rep (at_point (free_done none)) pending done drained
      → Good (main_step (at_point (free_done none)))
  unfolding main_step
  end_done-Good pending done drained v = good (record {
    shape = v.shape;
    order = v.order;
    dialogs = v.dialogs;
    running = v.running;
    left = v.left;
    joined = v.joined;
  })

module _ {W : Type 0} (h : Heap) (head tail done_p : Option ℕ) (r : Bool) (n : ℕ) (ds : List ℕ)
    (x : W) (sub tk : List ℕ) where
  join-Good :
      (w : Worker) (pending done drained : List ℕ)
      → Rep (app (lists h head tail done_p) r n w joining ds x sub tk) pending done drained
      → Good (main_step (app (lists h head tail done_p) r n w joining ds x sub tk))
  unfolding main_step
  join-Good exited [] done [] v = good (record {
    shape = record {
      pending = v.shape.pending;
      tail = v.shape.tail;
      done = v.shape.done;
      drained = v.shape.pending;
      distinct = v.shape.distinct;
      allocated = v.shape.allocated;
    };
    order = v.order;
    dialogs = v.dialogs;
    running = v.running;
    left = v.left;
    joined = refl;
  })
  join-Good exited [] done (p ∷ drained) v = absurd (ground (arith, v.shape.drained.0))
  join-Good exited (p ∷ pending) done drained v = absurd (ground (arith, v.left))
  join-Good waiting pending done drained v = good v
  join-Good asleep pending done drained v = good v
  join-Good (executing p) pending done drained v = good v
  join-Good (storing p) pending done drained v = good v
  join-Good notifying pending done drained v = good v

  main-Good :
      (w : Worker) (m : Main) (pending done drained : List ℕ)
      → Rep (app (lists h head tail done_p) r n w m ds x sub tk) pending done drained
      → Good (main_step (app (lists h head tail done_p) r n w m ds x sub tk))
  unfolding main_step
  main-Good w idle ps es fs v = idle-Good h head tail done_p r n w ds x sub tk ps es fs v
  main-Good w draining ps es fs v = draining-Good h head tail done_p r n w ds x sub tk ps es fs v
  main-Good w (freeing none) ps es fs v = good (record {
    shape = v.shape;
    order = v.order;
    dialogs = v.dialogs;
    running = v.running;
    left = v.left;
    joined = v.joined;
  })
  main-Good w (freeing (some p)) ps es fs v =
      freeing-Good h head tail done_p r n w ds x sub tk p ps es fs v
  main-Good w joining ps es fs v = join-Good w ps es fs v
  main-Good w (free_pending none) ps es fs v =
      end_pending-Good h head tail done_p r n w ds x sub tk ps es fs v
  main-Good w (free_pending (some p)) ps es fs v =
      pending_freed-Good h head tail done_p r n w ds x sub tk p ps es fs v
  main-Good w (free_done none) ps es fs v =
      end_done-Good h head tail done_p r n w ds x sub tk ps es fs v
  main-Good w (free_done (some p)) ps es fs v =
      done_freed-Good h head tail done_p r n w ds x sub tk p ps es fs v
  main-Good w closed ps es fs v = good v

pub main_step-Good :
    {W : Type 0} (a : App W) {pending done drained : List ℕ}
    → Rep a pending done drained
    → Good (main_step a)
main_step-Good a v =
    main-Good a.lists.heap a.lists.job_head a.lists.job_tail a.lists.done_head a.worker_running
      a.pipe a.dialogs a.world a.submitted a.taken a.worker a.main _ _ _ v

-- ===== src/Fm/Jobs/Safety.antt =====
-- The invariant of the two threads.
use isde.Common.{
  ℕ, ◌≡◌, refl, Bool, true, false, not, ◌||◌, ◌&&◌, List, [], ◌∷◌, ◌++◌, Option, none, some,
  is_some, arith,
}
use isde.Common.Distinct.{mem}
use isde.Fm.Jobs.{Heap, Lists, load}
use isde.Fm.Jobs.Run.{
  Worker, waiting, asleep, notifying, woken, executing, storing, exited, Main, idle, draining,
  freeing, free_pending, free_done, closed, App, jobqueue_init,
}
use isde.Fm.Jobs.Chain.{Chain}
use isde.Fm.Jobs.Represents.{jobs, roots, Shape}

abbrev pub held : Worker → List ℕ
held (executing p) = p ∷ []
held (storing p) = p ∷ []
held _ = []

abbrev pub rest_of : Main → Option ℕ
rest_of (freeing p) = p
rest_of (free_pending p) = p
rest_of (free_done p) = p
rest_of _ = none

-- In the last loop `done_head` points to a job that is freed, and behind it the list is empty.
abbrev pub live_done : Main → Option ℕ → Option ℕ
live_done (free_done _) p = none
live_done closed p = none
live_done _ p = p

abbrev pub is_open : Main → Bool
is_open idle = true
is_open draining = true
is_open (freeing p) = true
is_open _ = false

abbrev pub is_joined : Main → Bool
is_joined (free_pending p) = true
is_joined (free_done p) = true
is_joined closed = true
is_joined _ = false

abbrev pub is_exited : Worker → Bool
is_exited exited = true
is_exited _ = false

abbrev pub is_nil : List ℕ → Bool
is_nil [] = true
is_nil (x ∷ xs) = false

Chain-nil : (xs : List ℕ) (h : Heap) → Chain h none xs → xs ≡ []
Chain-nil [] h s = refl
Chain-nil (x ∷ xs) h (e, _) = absurd (ground (arith, e))

abbrev pub lists : Heap → (head tail done_p : Option ℕ) → Lists
lists h head tail done_p = record { heap = h; job_head = head; job_tail = tail; done_head = done_p }

module _ {W : Type 0} where
  pub record Rep (a : App W) (pending done drained : List ℕ) : Type 0 where
    pub shape :
        Shape a.lists.heap
          (roots a.lists.job_head a.lists.job_tail
            (live_done a.main a.lists.done_head)
            (rest_of a.main))
          (jobs (held a.worker) pending done drained)
    pub order : a.submitted ≡ a.taken ++ pending
    pub dialogs : (p : ℕ) → (mem p a.dialogs && not (is_some (load p a.lists.heap))) ≡ false
    pub running : a.worker_running ≡ is_open a.main
    pub left : (is_exited a.worker && (a.worker_running || not (is_nil pending))) ≡ false
    pub joined : (is_joined a.main && not (is_exited a.worker)) ≡ false

  -- A signal changes nothing of it.
  pub Rep-woken :
      (a : App W) (w : Worker) {pending done drained : List ℕ}
      → Rep (record a { worker = w }) pending done drained
      → Rep (record a { worker = woken w }) pending done drained
  Rep-woken a asleep v = record {
    shape = v.shape;
    order = v.order;
    dialogs = v.dialogs;
    running = v.running;
    left = v.left;
    joined = v.joined;
  }
  Rep-woken a waiting v = v
  Rep-woken a (executing p) v = v
  Rep-woken a (storing p) v = v
  Rep-woken a notifying v = v
  Rep-woken a exited v = v

  -- The step succeeds, and the invariant holds behind it.
  pub record Good (o : Option (App W)) : Type 0 where
    pub app : App W
    pub pending : List ℕ
    pub done : List ℕ
    pub drained : List ℕ
    pub result : o ≡ some app
    pub rep : Rep app pending done drained

  pub good :
      {a : App W} {pending done drained : List ℕ} → Rep a pending done drained → Good (some a)
  good {a} {pending} {done} {drained} v = record {
    app = a;
    pending = pending;
    done = done;
    drained = drained;
    result = refl;
    rep = v;
  }

  abbrev pub app : Lists → Bool → ℕ → Worker → Main → List ℕ → W → List ℕ → List ℕ → App W
  app l r n w m ds x sub tk = record {
    lists = l;
    worker_running = r;
    pipe = n;
    worker = w;
    main = m;
    dialogs = ds;
    world = x;
    submitted = sub;
    taken = tk;
  }

  pub init-Rep : (x : W) → Rep (jobqueue_init x) [] [] []
  unfolding jobqueue_init
  init-Rep x = record {
    shape = record {
      pending = refl;
      tail = refl;
      done = refl;
      drained = refl;
      distinct = tt;
      allocated = λ p. refl;
    };
    order = refl;
    dialogs = λ p. refl;
    running = refl;
    left = refl;
    joined = refl;
  }

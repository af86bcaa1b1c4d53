-- ===== src/Fm/Jobs/Represents.antt =====
-- What the store holds at each step: four lists of jobs, of which no two share one, and nothing else.
use mathlib.Core.List.{append-nil}
use isde.Common.{
  ℕ, ◌≡◌, refl, true, false, ◌||◌, List, [], ◌++◌, Option, none, some, is_some, Option-cases, arith,
  inl, inr,
}
use isde.Common.Distinct.{mem, IsDistinct, mem-append, IsDistinct-apart, IsDistinct-right}
use isde.Fm.Jobs.{Job, Heap, load}
use isde.Fm.Jobs.Chain.{Chain, last_of}

-- The jobs that the worker holds, that wait, that are done, and that the main thread is freeing.
pub record Jobs : Type 0 where
  pub cur : List ℕ
  pub pending : List ℕ
  pub done : List ℕ
  pub drained : List ℕ

abbrev pub jobs : (cur pending done drained : List ℕ) → Jobs
jobs cur pending done drained = record {
  cur = cur;
  pending = pending;
  done = done;
  drained = drained;
}

abbrev pub all_of : Jobs → List ℕ
all_of s = s.cur ++ (s.pending ++ (s.done ++ s.drained))

-- The pointers to the last three: what is left of the list that is being freed is `rest`.
pub record Roots : Type 0 where
  pub head : Option ℕ
  pub tail : Option ℕ
  pub done : Option ℕ
  pub rest : Option ℕ

abbrev pub roots : (head tail done rest : Option ℕ) → Roots
roots head tail done rest = record { head = head; tail = tail; done = done; rest = rest }

pub record Shape (h : Heap) (r : Roots) (s : Jobs) : Type 0 where
  pub pending : Chain h r.head s.pending
  pub tail : r.tail ≡ last_of s.pending
  pub done : Chain h r.done s.done
  pub drained : Chain h r.rest s.drained
  pub distinct : IsDistinct (all_of s)
  pub allocated : (p : ℕ) → is_some (load p h) ≡ mem p (all_of s)

pub load-some : (p : ℕ) (h : Heap) → is_some (load p h) ≡ true → (j : Job) × (load p h ≡ some j)
load-some p h e = elim (Option-cases (load p h)) [
  | inl none_at ↦ absurd (ground arith)
  | inr (j, at) ↦ (j, at)
]

pub mem-all :
    (p : ℕ) (s : Jobs)
    → mem p (all_of s) ≡ (mem p s.cur || (mem p s.pending || (mem p s.done || mem p s.drained)))
mem-all p s = ground (
  arith,
  mem-append p s.cur (s.pending ++ (s.done ++ s.drained)),
  mem-append p s.pending (s.done ++ s.drained),
  mem-append p s.done s.drained,
)

-- A job that is on one of the lists is on no other.
module _ (p : ℕ) (s : Jobs) (d : IsDistinct (all_of s)) where
  pub outside_cur :
      mem p s.cur ≡ true
      → (mem p s.pending ≡ false) × (mem p s.done ≡ false) × (mem p s.drained ≡ false)
  outside_cur i =
      let out = IsDistinct-apart p s.cur (s.pending ++ (s.done ++ s.drained)) d i in
      ground
        (arith, out, mem-append p s.pending (s.done ++ s.drained), mem-append p s.done s.drained)

  pub outside_pending : mem p s.pending ≡ true → (mem p s.done ≡ false) × (mem p s.drained ≡ false)
  outside_pending i =
      let right = IsDistinct-right s.cur (s.pending ++ (s.done ++ s.drained)) d in
      let out = IsDistinct-apart p s.pending (s.done ++ s.drained) right i in
      ground (arith, out, mem-append p s.done s.drained)

module _ {h : Heap} {head tail done_p : Option ℕ} {cur pending done : List ℕ} where
  -- `drain_done`
  pub Shape-drain :
      Shape h (roots head tail done_p none) (jobs cur pending done [])
      → Shape h (roots head tail none done_p) (jobs cur pending [] done)
  Shape-drain sh = record {
    pending = sh.pending;
    tail = sh.tail;
    done = refl;
    drained = sh.done;
    distinct = let d = sh.distinct in rw append-nil at d;
    allocated = λ p. let a = sh.allocated p in rw append-nil at a;
  }

-- ===== src/Fm/Jobs/Ops.antt =====
-- The queue's operations, on the lists that the store holds.
use mathlib.Core.List.{append_assoc}
use isde.Common.{sym, ◌∙◌, ℕ, ◌≡◌, refl, true, List, [], ◌∷◌, ◌++◌, Option, none, some, arith}
use isde.Common.Distinct.{mem, mem-append, mem-insert, IsDistinct-insert, IsDistinct-take_out}
use isde.Fm.Jobs.{Job, Heap, load, put, unlinked}
use isde.Fm.Jobs.Chain.{next_of, Chain, last_of, Chain-put}
use isde.Fm.Jobs.Represents.{Jobs, jobs, roots, Roots, Shape, mem-all, outside_cur}

-- The worker's job is on no list: its fields can be written.
pub Shape-write :
    {h : Heap} {r : Roots} {s : Jobs} (p : ℕ) (c : Job)
    → mem p s.cur ≡ true
    → Shape h r s
    → Shape (put p (some c) h) r s
Shape-write {h} {r} {s} p c e sh =
    let (out, out_done, out_drained) = outside_cur p s sh.distinct e in
    record {
      pending = Chain-put s.pending p (some c) h r.head out sh.pending;
      tail = sh.tail;
      done = Chain-put s.done p (some c) h r.done out_done sh.done;
      drained = Chain-put s.drained p (some c) h r.rest out_drained sh.drained;
      distinct = sh.distinct;
      allocated = λ q. ground (arith, sh.allocated q, mem-all p s);
    }

-- A job on any list is cancelled: the lists stay.
next_of-put :
    (p q : ℕ) (j c : Job) (h : Heap)
    → load p h ≡ some j
    → c.next ≡ j.next
    → next_of q (put p (some c) h) ≡ next_of q h
next_of-put p q j c h at same = ground arith

Chain-keep :
    (xs : List ℕ) (p : ℕ) (j c : Job) (h : Heap) (first : Option ℕ)
    → load p h ≡ some j
    → c.next ≡ j.next
    → Chain h first xs
    → Chain (put p (some c) h) first xs
Chain-keep [] p j c h first at same s = s
Chain-keep (x ∷ xs) p j c h first at same (e, s) =
    (e, rw (next_of-put p x j c h at same) (Chain-keep xs p j c h _ at same s))

pub Shape-keep :
    {h : Heap} {r : Roots} {s : Jobs} (p : ℕ) (j c : Job)
    → load p h ≡ some j
    → c.next ≡ j.next
    → Shape h r s
    → Shape (put p (some c) h) r s
Shape-keep {h} {r} {s} p j c at same sh = record {
  pending = Chain-keep s.pending p j c h r.head at same sh.pending;
  tail = sh.tail;
  done = Chain-keep s.done p j c h r.done at same sh.done;
  drained = Chain-keep s.drained p j c h r.rest at same sh.drained;
  distinct = sh.distinct;
  allocated = λ q. ground (arith, sh.allocated q, at);
}

tail-last_of :
    (h : Heap) (p : ℕ) (tail next : Option ℕ) (xs : List ℕ)
    → tail ≡ last_of (p ∷ xs)
    → Chain h next xs
    → (elim next [ none ↦ none | some q ↦ tail ]) ≡ last_of xs
tail-last_of h p tail next [] e s = ground (arith, s)
tail-last_of h p tail next (x ∷ xs) e (s, _) = ground (arith, s)

flat : (ws xs ys zs : List ℕ) → ws ++ (xs ++ (ys ++ zs)) ≡ (ws ++ (xs ++ ys)) ++ zs
flat ws xs ys zs = rw (append_assoc, append_assoc) refl

module _ {h : Heap} {head tail done_p rest : Option ℕ} {pending done drained : List ℕ} where
  -- `enqueue_done`
  pub Shape-store :
      (p : ℕ) (j : Job)
      → Shape h (roots head tail done_p rest) (jobs (p ∷ []) pending done drained)
      → Shape
          (put p (some (record j { next = done_p })) h)
          (roots head tail (some p) rest)
          (jobs [] pending (p ∷ done) drained)
  Shape-store p j sh =
      let c = record j { next = done_p } in
      let new = Shape-write p c (ground arith) sh in
      let moved : next_of p (put p (some c) h) ≡ done_p = ground arith in
      record {
        pending = new.pending;
        tail = new.tail;
        done = (refl, rw moved new.done);
        drained = new.drained;
        distinct = IsDistinct-insert p pending (done ++ drained) new.distinct.0 new.distinct.1;
        allocated = λ q. new.allocated q ∙ sym (mem-insert q p pending (done ++ drained));
      }

  -- `take_head`
  pub Shape-take :
      (p : ℕ) (j : Job)
      → load p h ≡ some j
      → Shape h (roots head tail done_p rest) (jobs [] (p ∷ pending) done drained)
      → Shape
          (put p (some (unlinked j)) h)
          (roots j.next (elim j.next [ none ↦ none | some q ↦ tail ]) done_p rest)
          (jobs (p ∷ []) pending done drained)
  Shape-take p j at sh =
      let (_, chain) = sh.pending in
      let next : next_of p h ≡ j.next = ground (arith, at) in
      let behind = rw next at chain in
      let (out, d) = sh.distinct in
      let apart = mem-append p pending (done ++ drained) in
      let apart' = mem-append p done drained in
      record {
        pending = Chain-put pending p _ h j.next (ground arith) behind;
        tail = tail-last_of h p tail j.next pending sh.tail behind;
        done = Chain-put done p _ h done_p (ground arith) sh.done;
        drained = Chain-put drained p _ h rest (ground arith) sh.drained;
        distinct = sh.distinct;
        allocated = λ q. ground (arith, sh.allocated q);
      }

module _ {h : Heap} {head tail done_p : Option ℕ} {cur pending done drained : List ℕ} where
  -- `job_free`, for the head of the list that is being freed
  pub Shape-free :
      (p : ℕ) (j : Job)
      → load p h ≡ some j
      → Shape h (roots head tail done_p (some p)) (jobs cur pending done (p ∷ drained))
      → Shape (put p none h) (roots head tail done_p j.next) (jobs cur pending done drained)
  Shape-free p j at sh =
      let (_, chain) = sh.drained in
      let next : next_of p h ≡ j.next = ground (arith, at) in
      let behind = rw next at chain in
      let d = sh.distinct in
      let before = cur ++ (pending ++ done) in
      let (out, rest) =
        IsDistinct-take_out p before drained (rw (flat cur pending done (p ∷ drained)) at d) in
      let split = rw (← flat cur pending done drained) at out in
      let apart = mem-all p (jobs cur pending done drained) in
      record {
        pending = Chain-put pending p _ h head (ground arith) sh.pending;
        tail = sh.tail;
        done = Chain-put done p _ h done_p (ground arith) sh.done;
        drained = Chain-put drained p _ h j.next (ground arith) behind;
        distinct = rw (flat cur pending done drained) rest;
        allocated = λ q. ground (
          arith,
          sh.allocated q,
          mem-all q (jobs cur pending done drained),
          mem-all q (jobs cur pending done (p ∷ drained)),
        );
      }

-- ===== src/Fm/Jobs/Submit.antt =====
-- `enqueue_pending`, on the lists that the store holds.
use mathlib.Core.List.{append_assoc}
use isde.Common.{
  sym, ap, ◌∙◌, ℕ, ◌==◌, ◌≡◌, refl, false, ◌||◌, List, [], ◌∷◌, ◌++◌, Option, none, some, is_some,
  arith,
}
use isde.Common.Distinct.{
  mem, IsDistinct, mem-insert, IsDistinct-insert, IsDistinct-left, IsDistinct-right,
}
use isde.Fm.Jobs.{Job, Heap, load, put, link_tail}
use isde.Fm.Jobs.Chain.{last_of, last_of-append, mem-last_of, Chain-put, Chain-link}
use isde.Fm.Jobs.Represents.{Jobs, jobs, roots, all_of, Shape, load-some, mem-all, outside_pending}

module _ (q : ℕ) (cur pending done drained : List ℕ) where
  abbrev before : Jobs
  before = jobs cur pending done drained

  abbrev after : Jobs
  after = jobs cur (pending ++ q ∷ []) done drained

  all-after : all_of after ≡ (cur ++ pending) ++ q ∷ (done ++ drained)
  all-after = rw (append_assoc, append_assoc) refl

  all-before : all_of before ≡ (cur ++ pending) ++ (done ++ drained)
  all-before = rw append_assoc refl

  IsDistinct-after :
      mem q (all_of before) ≡ false → IsDistinct (all_of before) → IsDistinct (all_of after)
  IsDistinct-after out d = rw all-after (
      IsDistinct-insert q (cur ++ pending) (done ++ drained) (rw all-before at out)
        (rw all-before at d))

  mem-after : (p : ℕ) → mem p (all_of after) ≡ ((p == q) || mem p (all_of before))
  mem-after p =
      ap (mem p) all-after
      ∙ mem-insert p q (cur ++ pending) (done ++ drained)
      ∙ ap (λ xs. (p == q) || mem p xs) (sym all-before)

last_of-none : (xs : List ℕ) → last_of xs ≡ none → xs ≡ []
last_of-none [] e = refl
last_of-none (x ∷ []) e = absurd (ground arith)
last_of-none (x ∷ y ∷ ys) e = absurd (ground (arith, last_of-none (y ∷ ys) e))

-- The cells of the store behind `enqueue_pending`: q is new, and the tail, if any, is relinked.
abbrev Linked :
    (q : ℕ) (h : Heap) (head tail done_p rest : Option ℕ) (cur pending done drained : List ℕ)
    → Job
    → Type 0
Linked q h head tail done_p rest cur pending done drained j =
    (h' : Heap) × (link_tail tail q (put q (some j) h) ≡ some h')
    × Shape h' (roots (elim tail [ none ↦ some q | some t ↦ head ]) (some q) done_p rest)
        (after q cur pending done drained)

module _ (q : ℕ) {h : Heap} {head done_p rest : Option ℕ} {cur done drained : List ℕ} (j : Job)
    (fresh : j.next ≡ none) (unused : is_some (load q h) ≡ false) where
  Linked-first :
      Shape h (roots head none done_p rest) (before q cur [] done drained)
      → Linked q h head none done_p rest cur [] done drained j
  Linked-first sh =
      let out = sym (sh.allocated q) ∙ unused in
      let apart = mem-all q (jobs cur [] done drained) in
      (
        _,
        refl,
        record {
          pending = (refl, ground (arith, fresh));
          tail = refl;
          done = Chain-put done q (some j) h done_p (ground arith) sh.done;
          drained = Chain-put drained q (some j) h rest (ground arith) sh.drained;
          distinct = IsDistinct-after q cur [] done drained out sh.distinct;
          allocated = λ p. ground (arith, sh.allocated p, mem-after q cur [] done drained p);
        },
      )

  Linked-behind :
      (t : ℕ) (pending : List ℕ)
      → Shape h (roots head (some t) done_p rest) (before q cur pending done drained)
      → Linked q h head (some t) done_p rest cur pending done drained j
  Linked-behind t pending sh =
      let s = jobs cur pending done drained in
      let out = sym (sh.allocated q) ∙ unused in
      let apart = mem-all q s in
      let there = mem-last_of pending t (sym sh.tail) in
      let (t_done, t_drained) = outside_pending t s sh.distinct there in
      let (k, at) = load-some t h (ground (arith, sh.allocated t, mem-all t s)) in
      let h1 = put q (some j) h in
      let at1 : load t h1 ≡ some k = ground arith in
      let c = record k { next = some q } in
      let chain = Chain-put pending q (some j) h head (ground arith) sh.pending in
      let d =
        IsDistinct-left pending (done ++ drained)
          (IsDistinct-right cur (pending ++ (done ++ drained)) sh.distinct) in
      (
        put t (some c) h1,
        rw at1 refl,
        record {
          pending =
              Chain-link pending q t k h1 head (sym sh.tail) (ground (arith, fresh)) (ground arith)
                d chain;
          tail = sym (last_of-append pending q);
          done =
              Chain-put done t _ h1 done_p t_done
                (Chain-put done q (some j) h done_p (ground arith) sh.done);
          drained =
              Chain-put drained t _ h1 rest t_drained
                (Chain-put drained q (some j) h rest (ground arith) sh.drained);
          distinct = IsDistinct-after q cur pending done drained out sh.distinct;
          allocated = λ p.
              ground
                (arith, sh.allocated p, sh.allocated t, mem-after q cur pending done drained p);
        },
      )

  pub Shape-submit :
      (tail : Option ℕ) (pending : List ℕ)
      → Shape h (roots head tail done_p rest) (jobs cur pending done drained)
      → Linked q h head tail done_p rest cur pending done drained j
  Shape-submit none [] sh = Linked-first sh
  Shape-submit none (x ∷ xs) sh = absurd (ground (arith, last_of-none (x ∷ xs) (sym sh.tail)))
  Shape-submit (some t) pending sh = Linked-behind t pending sh

-- ===== src/Fm/Jobs/Chain.antt =====
-- Linked lists in the store of jobs.
use isde.Common.{ℕ, ◌≡◌, refl, true, false, List, [], ◌∷◌, ◌++◌, Option, none, some, arith}
use isde.Common.Distinct.{mem, IsDistinct}
use isde.Fm.Jobs.{Job, Heap, load, put}

abbrev pub next_of : ℕ → Heap → Option ℕ
next_of p h = elim (load p h) [ none ↦ none | some j ↦ j.next ]

-- From p the `next` pointers lead through the jobs xs to NULL.
abbrev pub Chain : Heap → Option ℕ → List ℕ → Type 0
Chain h p [] = p ≡ none
Chain h p (x ∷ xs) = (p ≡ some x) × Chain h (next_of x h) xs

abbrev pub last_of : List ℕ → Option ℕ
last_of [] = none
last_of (x ∷ []) = some x
last_of (x ∷ y ∷ ys) = last_of (y ∷ ys)

pub last_of-append : (xs : List ℕ) (q : ℕ) → last_of (xs ++ q ∷ []) ≡ some q
last_of-append [] q = refl
last_of-append (x ∷ []) q = refl
last_of-append (x ∷ y ∷ ys) q = last_of-append (y ∷ ys) q

pub mem-last_of : (xs : List ℕ) (t : ℕ) → last_of xs ≡ some t → mem t xs ≡ true
mem-last_of [] t e = absurd (ground arith)
mem-last_of (x ∷ []) t e = ground arith
mem-last_of (x ∷ y ∷ ys) t e = ground (arith, mem-last_of (y ∷ ys) t e)

pub Chain-put :
    (xs : List ℕ) (q : ℕ) (c : Option Job) (h : Heap) (p : Option ℕ)
    → mem q xs ≡ false
    → Chain h p xs
    → Chain (put q c h) p xs
Chain-put [] q c h p out s = s
Chain-put (x ∷ xs) q c h p out (e, s) =
    let same : next_of x (put q c h) ≡ next_of x h = ground arith in
    (e, rw same (Chain-put xs q c h _ (ground arith) s))

pub Chain-link :
    (xs : List ℕ) (q t : ℕ) (j : Job) (h : Heap) (p : Option ℕ)
    → last_of xs ≡ some t
    → next_of q h ≡ none
    → mem q xs ≡ false
    → IsDistinct xs
    → Chain h p xs
    → Chain (put t (some (record j { next = some q })) h) p (xs ++ q ∷ [])
Chain-link [] q t j h p l fresh out d s = absurd (ground arith)
Chain-link (x ∷ []) q t j h p l fresh out d (e, s) = (e, (ground arith, ground arith))
Chain-link (x ∷ y ∷ ys) q t j h p l fresh out d (e, s) =
    let there = mem-last_of (y ∷ ys) t l in
    let same : next_of x (put t (some (record j { next = some q })) h) ≡ next_of x h =
      ground arith in
    (e, rw same (Chain-link (y ∷ ys) q t j h _ l fresh (ground arith) d.1 s))

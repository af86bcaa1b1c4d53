-- ===== src/Fm/Conflict/Free.antt =====
-- The name is free, or all of them are taken.
use isde.Common.{
  ℕ, zero, suc, ◌+◌, ◌≤◌, ◌<◌, ◌≡◌, refl, Bool, true, false, ◌&&◌, [], ◌∷◌, ◌++◌, Str, codes,
  length, length-append, Bool-cases, inl, inr, ◌⊎◌, arith,
}
use isde.Fm.Jobs.Exec.{base_of}
use isde.Fm.Conflict.{
  dir_of, name_of, ext_of, decimal, candidate, total, first_free, resolve_conflict,
}

-- The candidates from i on are all taken.
unfoldable pub all_taken : (Str → Bool) → (rounds i : ℕ) → Str → Bool
all_taken taken zero i dst = true
all_taken taken (suc rounds) i dst = taken (candidate dst i) && all_taken taken rounds (suc i) dst

-- How `resolve_conflict` can end.
pub data Resolved (taken : Str → Bool) (dst : Str) : Str → Type 0 where
  free : taken dst ≡ false → Resolved taken dst dst
  numbered :
      (k : ℕ)
      → k < 998
      → all_taken taken k 2 dst ≡ true
      → taken (candidate dst (2 + k)) ≡ false
      → length (candidate dst (2 + k)) < total dst
      → dst ≡ dir_of dst ++ (name_of (base_of dst) ++ ext_of (base_of dst))
      → Resolved taken dst (candidate dst (2 + k))
  given_up : taken dst ≡ true → all_taken taken 998 2 dst ≡ true → Resolved taken dst dst

pub dir-base : (dst : Str) → dir_of dst ++ base_of dst ≡ dst
dir-base [] = refl
dir-base (c ∷ s) = ground (arith, dir-base s)

name-ext : (base : Str) → name_of base ++ ext_of base ≡ base
name-ext [] = refl
name-ext (c ∷ s) = ground (arith, name-ext s)

parts : (dst : Str) → dst ≡ dir_of dst ++ (name_of (base_of dst) ++ ext_of (base_of dst))
parts dst = rw (name-ext (base_of dst), dir-base dst) refl

length-decimal : (i : ℕ) → length (decimal i) ≤ 3
unfolding decimal
length-decimal i = ground arith

length-candidate : (dst : Str) (i : ℕ) → length (candidate dst i) < total dst
unfolding candidate total
length-candidate dst i =
    let name = name_of (base_of dst) in
    let ext = ext_of (base_of dst) in
    let number = decimal i in
    omega (
      arith,
      length-append (dir_of dst) (name ++ (codes " (" ++ (number ++ (codes ")" ++ ext)))),
      length-append name (codes " (" ++ (number ++ (codes ")" ++ ext))),
      length-append number (codes ")" ++ ext),
      length-decimal i,
    )

module _ (taken : Str → Bool) (dst : Str) where
  first_free-cases :
      (rounds i : ℕ)
      → ((k : ℕ) × (k < rounds)
          × (all_taken taken k i dst ≡ true)
          × (taken (candidate dst (i + k)) ≡ false)
          × (first_free taken rounds i dst ≡ candidate dst (i + k)))
        ⊎ ((all_taken taken rounds i dst ≡ true) × (first_free taken rounds i dst ≡ dst))
  unfolding first_free all_taken
  first_free-cases zero i = inr (refl, refl)
  first_free-cases (suc rounds) i = elim (Bool-cases (taken (candidate dst i))) [
    | inl e ↦ elim (first_free-cases rounds (suc i)) [
      | inl (k, lt, before, at, r) ↦
          let j : i + suc k ≡ suc i + k = omega arith in
          inl (suc k, omega arith, ground arith, rw j at, rw (e, j) r)
      | inr (before, r) ↦ inr (ground arith, rw e r)
    ]
    | inr e ↦ let j : i + 0 ≡ i = omega arith in inl (0, omega arith, refl, rw j e, rw (e, j) refl)
  ]

  -- When the destination does not exist it is kept. Otherwise the result is the first of the names with the
  -- numbers 2 to 999 that does not exist, and fits its buffer, or, when all of them exist, the destination. The
  -- parts that the number is put between are the destination's.
  pub resolve_conflict-Resolved : Resolved taken dst (resolve_conflict taken dst)
  unfolding resolve_conflict
  resolve_conflict-Resolved = elim (Bool-cases (taken dst)) [
    | inl e ↦ rw e (elim (first_free-cases 998 2) [
      | inl (k, lt, before, at, r) ↦
          rw r (numbered k lt before at (length-candidate dst (2 + k)) (parts dst))
      | inr (before, r) ↦ rw r (given_up e before)
    ])
    | inr e ↦ rw e (free e)
  ]

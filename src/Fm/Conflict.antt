-- ===== src/Fm/Conflict.antt =====
-- fm/src/fileops.c: the name that a copy is given when its destination exists.
pub mod Free
use isde.Common.{
  ℕ, zero, suc, ◌+◌, ◌-◌, ◌*◌, ◌/◌, ◌%◌, ◌==◌, ltb, leb, Bool, true, false, ◌&&◌, ◌||◌, List, [],
  ◌∷◌, ◌++◌, Str, codes, length, if◌then◌else◌,
}
use isde.Common.Distinct.{mem}
use isde.Fm.Jobs.Exec.{base_of}

-- Up to and with the last '/'.
abbrev pub dir_of : Str → Str
dir_of [] = []
dir_of (c ∷ s) =
    let rest = dir_of s in if mem 47 s then c ∷ rest else if c == 47 then c ∷ [] else []

-- The base name up to its first '.', and from there on.
abbrev pub name_of : Str → Str
name_of [] = []
name_of (c ∷ s) = let rest = name_of s in if c == 46 then [] else c ∷ rest

abbrev pub ext_of : Str → Str
ext_of [] = []
ext_of (c ∷ s) = let rest = ext_of s in if c == 46 then c ∷ s else rest

-- %d, for a number below 1000.
unfoldable pub decimal : ℕ → Str
decimal i =
    if ltb i 10
    then (48 + i) ∷ []
    else if ltb i 100
    then (48 + i / 10) ∷ (48 + i % 10) ∷ []
    else (48 + i / 100) ∷ (48 + i / 10 % 10) ∷ (48 + i % 10) ∷ []

-- What the snprintf of `resolve_conflict` prints, and the size of its buffer.
unfoldable pub candidate : Str → ℕ → Str
candidate dst i =
    dir_of dst
    ++ (name_of (base_of dst) ++ (codes " (" ++ (decimal i ++ (codes ")" ++ ext_of (base_of dst)))))

unfoldable pub total : Str → ℕ
total dst =
    length (dir_of dst) + length (name_of (base_of dst)) + 8 + length (ext_of (base_of dst)) + 1

-- `taken` is lstat(path, &st) == 0.
module _ (taken : Str → Bool) where
  -- The loop from i on: at 0 rounds i is 1000.
  unfoldable pub first_free : (rounds i : ℕ) → Str → Str
  first_free zero i dst = dst
  first_free (suc rounds) i dst =
      let rest = first_free rounds (suc i) dst in
      if taken (candidate dst i) then rest else candidate dst i

  unfoldable pub resolve_conflict : Str → Str
  resolve_conflict dst = if taken dst then first_free 998 2 dst else dst

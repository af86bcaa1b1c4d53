-- ===== src/Common/Stdio.antt =====
-- What the code uses of <string.h> and <stdio.h>, on strings and files that are lists of bytes.
use isde.Common.Lists.{length, all}
use isde.Common.Tests.{◌==◌, leb, if◌then◌else◌}
use isde.Common.Text.{Str}
use Prim.Native.Nat.{ℕ, zero, suc, ◌<◌}
use mathlib.Core.Path.{◌≡◌, refl}
use mathlib.Core.Bool.{Bool, true, not, ◌&&◌, ◌||◌}
use mathlib.Core.Option.{Option, none, some}
use mathlib.Core.List.{[], ◌∷◌, ◌++◌}
use native.Mathlib.Omega.{arith}

abbrev pub is_space : ℕ → Bool
is_space c = (c == 32) || (leb 9 c && leb c 13)

-- Up to the first of a byte: strchr, and the end of a C string.
abbrev pub before : ℕ → Str → Str
before c [] = []
before c (x ∷ s) = let rest = before c s in if x == c then [] else x ∷ rest

-- fgets into a buffer of n + 1 bytes: a line with its newline, or its first n bytes, and what is left.
unfoldable pub fgets : ℕ → Str → Str × Str
fgets zero s = ([], s)
fgets (suc n) [] = ([], [])
fgets (suc n) (c ∷ s) =
    let rest = fgets n s in if c == 10 then (10 ∷ [], s) else (c ∷ rest.0, rest.1)

-- The part behind a prefix, when strncmp finds it.
abbrev pub behind : (prefix s : Str) → Option Str
behind [] s = some s
behind (p ∷ prefix) [] = none
behind (p ∷ prefix) (c ∷ s) = let rest = behind prefix s in if p == c then rest else none

-- Such bytes end neither a line nor a string.
abbrev pub is_plain : ℕ → Bool
is_plain c = not (c == 10) && not (c == 0)

-- A line that fits is read whole.
pub fgets-line :
    (n : ℕ) (xs rest : Str)
    → all is_plain xs ≡ true
    → length xs < n
    → fgets n (xs ++ 10 ∷ rest) ≡ (xs ++ 10 ∷ [], rest)
unfolding fgets
fgets-line zero xs rest h l = absurd (omega arith)
fgets-line (suc n) [] rest h l = refl
fgets-line (suc n) (c ∷ xs) rest h l =
    ground (arith, fgets-line n xs rest (ground arith) (omega arith))

pub before-end :
    (e : ℕ) (xs rest : Str) → all (λ c. not (c == e)) xs ≡ true → before e (xs ++ e ∷ rest) ≡ xs
before-end e [] rest h = ground arith
before-end e (x ∷ xs) rest h = ground (arith, before-end e xs rest (ground arith))

pub before-none : (e : ℕ) (xs : Str) → all (λ c. not (c == e)) xs ≡ true → before e xs ≡ xs
before-none e [] h = refl
before-none e (x ∷ xs) h = ground (arith, before-none e xs (ground arith))

abbrev pub lacks : ℕ → Str → Bool
lacks e = all (λ c. not (c == e))

pub plain-lacks :
    (xs : Str) → all is_plain xs ≡ true → (lacks 10 xs ≡ true) × (lacks 0 (xs ++ 10 ∷ []) ≡ true)
plain-lacks [] h = (refl, refl)
plain-lacks (x ∷ xs) h = ground (arith, plain-lacks xs (ground arith))

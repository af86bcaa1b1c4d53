-- ===== src/Common/Distinct.antt =====
-- Lists of addresses without repetitions.
use isde.Common.{ℕ, ◌≡◌, refl, Bool, true, false, ◌||◌, List, [], ◌∷◌, ◌++◌, ◌==◌, arith}

abbrev pub mem : ℕ → List ℕ → Bool
mem p [] = false
mem p (x ∷ xs) = (p == x) || mem p xs

abbrev pub IsDistinct : List ℕ → Type 0
IsDistinct [] = Unit {0}
IsDistinct (x ∷ xs) = (mem x xs ≡ false) × IsDistinct xs

pub mem-append : (p : ℕ) (xs ys : List ℕ) → mem p (xs ++ ys) ≡ (mem p xs || mem p ys)
mem-append p [] ys = refl
mem-append p (x ∷ xs) ys = ground (arith, mem-append p xs ys)

pub mem-insert : (p q : ℕ) (xs ys : List ℕ) → mem p (xs ++ q ∷ ys) ≡ ((p == q) || mem p (xs ++ ys))
mem-insert p q [] ys = refl
mem-insert p q (x ∷ xs) ys = ground (arith, mem-insert p q xs ys)

pub IsDistinct-insert :
    (q : ℕ) (xs ys : List ℕ)
    → mem q (xs ++ ys) ≡ false
    → IsDistinct (xs ++ ys)
    → IsDistinct (xs ++ q ∷ ys)
IsDistinct-insert q [] ys out d = (out, d)
IsDistinct-insert q (x ∷ xs) ys out d =
    (ground (arith, mem-insert x q xs ys), IsDistinct-insert q xs ys (ground arith) d.1)

pub IsDistinct-take_out :
    (q : ℕ) (xs ys : List ℕ)
    → IsDistinct (xs ++ q ∷ ys)
    → (mem q (xs ++ ys) ≡ false) × IsDistinct (xs ++ ys)
IsDistinct-take_out q [] ys d = d
IsDistinct-take_out q (x ∷ xs) ys d =
    let (out, rest) = IsDistinct-take_out q xs ys d.1 in
    (ground (arith, mem-insert x q xs ys), (ground (arith, mem-insert x q xs ys), rest))

pub IsDistinct-apart :
    (p : ℕ) (xs ys : List ℕ) → IsDistinct (xs ++ ys) → mem p xs ≡ true → mem p ys ≡ false
IsDistinct-apart p [] ys d i = absurd (ground arith)
IsDistinct-apart p (x ∷ xs) ys d i =
    ground (arith, mem-append x xs ys, IsDistinct-apart p xs ys d.1)

pub IsDistinct-left : (xs ys : List ℕ) → IsDistinct (xs ++ ys) → IsDistinct xs
IsDistinct-left [] ys d = tt
IsDistinct-left (x ∷ xs) ys d = (ground (arith, mem-append x xs ys), IsDistinct-left xs ys d.1)

pub IsDistinct-right : (xs ys : List ℕ) → IsDistinct (xs ++ ys) → IsDistinct ys
IsDistinct-right [] ys d = d
IsDistinct-right (x ∷ xs) ys d = IsDistinct-right xs ys d.1

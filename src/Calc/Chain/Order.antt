-- ===== src/Calc/Chain/Order.antt =====
-- The order in which chains of operators are computed.
use isde.Common.{
  ap, ◌∙◌, ℕ, ◌+◌, ◌<◌, ◌≡◌, refl, ltb, true, false, [], ◌∷◌, Option, Option-cases, Bool-cases, inl,
  inr, codes, if◌then◌else◌, ◌>>=◌,
}
use isde.Calc.{Op, k_nop, Doubles, priority, shortened}
use isde.Calc.Infix.{digit, operator, equal, is_lpar, press_all, reset_calc, start_modes}
use isde.Calc.Chain.{
  shown, do_op-digit, do_op-first, do_op-tighter, do_op-looser_second_none, do_op-looser_second,
  do_op-looser_none, do_op-looser, finish-two, finish-one, press_all-cons, press_all-none,
}

-- The number that a digit key types, on a `sscanf` that reads it whatever the variable held.
module _ {D : Type 0} (fl : Doubles D) (number : ℕ → D)
    (scans : (d : ℕ) (old : D) → d < 10 → fl.scanned 10 ((48 + d) ∷ []) old ≡ number d) where
  -- What a op b op c should be: the operator of higher priority first, and of equal ones the left one.
  abbrev pub expected : (p q : Op) (x y z : D) → Option D
  expected p q x y z =
      if ltb (priority p) (priority q)
      then (do r ← fl.binary q y z; fl.binary p x r)
      else (do r ← fl.binary p x y; fl.binary q r z)

  abbrev pub IsDigit : ℕ → Type 0
  IsDigit d = (0 < d) × (d < 10)

  -- Three digits other than 0 with two operators between them and = give the value by priority, and from the left
  -- where the priorities are equal, or end the process where that computation traps, when sscanf reads each digit as its
  -- number.
  pub press_all-expected :
      (p q : Op) (a b c : ℕ)
      → is_lpar p ≡ false
      → is_lpar q ≡ false
      → IsDigit a
      → IsDigit b
      → IsDigit c
      → shown (
          press_all fl
            (digit a ∷ operator p ∷ digit b ∷ operator q ∷ digit c ∷ equal ∷ [])
            (reset_calc fl))
        ≡ expected p q (number a) (number b) (number c)
  unfolding reset_calc
  press_all-expected p q a b c p_op q_op (a0, a9) (b0, b9) (c0, c9) =
      let z = fl.zero_value in
      let m = start_modes fl in
      let ks = digit c ∷ equal ∷ [] in
      let first = do_op-digit fl number scans m 1 0 k_nop z z (codes "0") [] [] a refl a0 a9 in
      let second =
        do_op-digit fl number scans m 0 1 k_nop z (number a) ((48 + a) ∷ []) (p ∷ [])
          (number a ∷ []) b refl b0 b9 in
      ap shown (
        press_all-cons fl number scans m (digit a) (operator p ∷ digit b ∷ operator q ∷ ks) _ first
        ∙ press_all-cons fl number scans m (operator p) (digit b ∷ operator q ∷ ks) _
            (do_op-first fl number scans m k_nop z z a p a9)
        ∙ press_all-cons fl number scans m (digit b) (operator q ∷ ks) _ second)
      ∙ elim (Bool-cases (ltb (priority p) (priority q))) [
        | inl e ↦ rw e (
            ap shown (
              press_all-cons fl number scans m (operator q) ks _
                (do_op-tighter fl number scans m p p_op k_nop z (number a) (number a) b q b9 e))
            ∙ finish-two fl number scans m p q p_op q_op p z (number b) (number a) (number b)
                ((48 + b) ∷ []) c c0 c9)
        | inr e ↦ rw e (elim (Option-cases (fl.binary p (number a) (number b))) [
          | inl e' ↦ rw e' (
              ap shown (
                press_all-none fl number scans m (operator q) ks _ (
                  do_op-looser_none fl number scans m p p_op k_nop z (number a) (number a) b q b9 e
                    e')))
          | inr (r, e') ↦ rw e' (
              ap shown (
                press_all-cons fl number scans m (operator q) ks _ (
                  do_op-looser fl number scans m p p_op k_nop z (number a) (number a) r b q b9 e
                    e'))
              ∙ finish-one fl number scans m q q_op p r r r (shortened (fl.printed 10 r)) c c0 c9)
        ])
      ]

  -- With four digits other than 0 and three operators, of which the second has a higher priority than the first
  -- and the third no higher one than the second, the third is computed before the first, whatever their priorities:
  -- a - b * c - d = gives a - (b * c - d), when sscanf reads each digit as its number.
  pub press_all-grouped :
      (p q r : Op) (a b c d : ℕ)
      → is_lpar p ≡ false
      → is_lpar q ≡ false
      → is_lpar r ≡ false
      → ltb (priority p) (priority q) ≡ true
      → ltb (priority q) (priority r) ≡ false
      → IsDigit a
      → IsDigit b
      → IsDigit c
      → IsDigit d
      → shown (
          press_all fl
            (digit a
              ∷ operator p
              ∷ digit b
              ∷ operator q
              ∷ digit c
              ∷ operator r
              ∷ digit d
              ∷ equal
              ∷ [])
            (reset_calc fl))
        ≡ (do
          y ← fl.binary q (number b) (number c)
          z ← fl.binary r y (number d)
          fl.binary p (number a) z)
  unfolding reset_calc
  press_all-grouped p q r a b c d p_op q_op r_op up down (a0, a9) (b0, b9) (c0, c9) (d0, d9) =
      let z = fl.zero_value in
      let m = start_modes fl in
      let ks = digit d ∷ equal ∷ [] in
      let ks' = digit b ∷ operator q ∷ digit c ∷ operator r ∷ ks in
      let first = do_op-digit fl number scans m 1 0 k_nop z z (codes "0") [] [] a refl a0 a9 in
      let second =
        do_op-digit fl number scans m 0 1 k_nop z (number a) ((48 + a) ∷ []) (p ∷ [])
          (number a ∷ []) b refl b0 b9 in
      let third =
        do_op-digit fl number scans m 0 1 p z (number b) ((48 + b) ∷ []) (q ∷ p ∷ [])
          (number b ∷ number a ∷ []) c refl c0 c9 in
      ap shown (
        press_all-cons fl number scans m (digit a) (operator p ∷ ks') _ first
        ∙ press_all-cons fl number scans m (operator p) ks' _
            (do_op-first fl number scans m k_nop z z a p a9)
        ∙ press_all-cons fl number scans m (digit b) (operator q ∷ digit c ∷ operator r ∷ ks) _
            second
        ∙ press_all-cons fl number scans m (operator q) (digit c ∷ operator r ∷ ks) _
            (do_op-tighter fl number scans m p p_op k_nop z (number a) (number a) b q b9 up)
        ∙ press_all-cons fl number scans m (digit c) (operator r ∷ ks) _ third)
      ∙ elim (Option-cases (fl.binary q (number b) (number c))) [
        | inl e ↦ rw e (
            ap shown (
              press_all-none fl number scans m (operator r) ks _ (
                do_op-looser_second_none fl number scans m p q p_op q_op p z (number b) (number a)
                  (number b) c r c9 down e)))
        | inr (y, e) ↦ rw e (
            ap shown (
              press_all-cons fl number scans m (operator r) ks _ (
                do_op-looser_second fl number scans m p q p_op q_op p z (number b) (number a)
                  (number b) y c r c9 down e))
            ∙ finish-two fl number scans m p r p_op r_op q y y (number a) y
                (shortened (fl.printed 10 y)) d d0 d9)
      ]

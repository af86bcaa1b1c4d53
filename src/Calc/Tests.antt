-- ===== src/Calc/Tests.antt =====
-- The calculator on numbers in place of doubles, where a remainder by zero traps and a difference stops at 0.
use isde.Common.{
  ℕ, zero, suc, ◌+◌, ◌-◌, ◌*◌, ◌%◌, ◌<◌, ◌≤◌, ◌≡◌, ◌==◌, ltb, false, refl, List, [], ◌∷◌, Option,
  none, some, Str, length, codes, true, arith, ◌>>=◌,
}
use isde.Common.Int.{◌+ℤ◌, ◌-ℤ◌}
use isde.Calc.{
  Op, k_add, k_sub, k_mul, k_mod, Doubles, Calc, Function, square, stack_max, push_op, pop_op,
  push_num, numeric, digit_char, shortened, lparf, clearf,
}
use isde.Calc.Editing.{decf, bkspf}
use isde.Calc.OneOp.{oneop, k_sto, k_rcl, k_fact}
use isde.Calc.Infix.{
  CalcKey, digit, operator, one_op, equal, left_paren, right_paren, decimal_key, back_space,
  pop_num, operate, twoop, reduce, reduce_paren, do_pending, equf, do_paren, rparf, do_op,
  press_all, reset_calc,
}
use isde.Calc.Stacks.{press_all-stacks}
use isde.Calc.Chain.{shown}
use isde.Calc.Chain.Order.{press_all-grouped}

abbrev rest_of : ℕ → ℕ → Option ℕ
rest_of x zero = none
rest_of x (suc y) = some (x % suc y)

abbrev computed : Op → ℕ → ℕ → Option ℕ
computed k_add x y = some (x + y)
computed k_sub x y = some (x - y)
computed k_mul x y = some (x * y)
computed k_mod x y = rest_of x y
computed _ x y = some x

abbrev value : Str → ℕ → ℕ
value [] old = old
value (c ∷ s) old = c - 48

abbrev applied : Function → ℕ → ℕ
applied square x = x * x
applied _ x = x

abbrev numbers : Doubles ℕ
numbers = record {
  zero_value = 0;
  scanned = λ b s old. value s old;
  printed = λ b x. [];
  binary = computed;
  is_nonnegative = λ x. true;
  decimal_point = codes ".";
  is_zero_value = λ x. x == 0;
  times = λ x y. x * y;
  plus = λ x y. x + y;
  m_e = 3;
  m_pi = 3;
  whole = λ n. n;
  drg2rad = λ m. 1;
  rad2drg = λ m. 1;
  in_next_mode = λ m x. x;
  function = λ f x. applied f x;
  is_integer = λ x. true;
  is_negative = λ x. false;
  exceeds = λ n x. ltb n x;
  to_int = λ x. x;
}

scans : (d : ℕ) (old : ℕ) → d < 10 → 48 + d - 48 ≡ d
scans d old h = omega arith

program : Unit {0}
unfolding ◌+ℤ◌ ◌-ℤ◌ press_all do_op reset_calc push_op pop_op push_num pop_num numeric digit_char
    shortened lparf clearf operate twoop reduce reduce_paren do_pending equf do_paren rparf decf
    bkspf
program = tt

abbrev product : List CalcKey
product =
    digit 2
    ∷ decimal_key
    ∷ back_space
    ∷ operator k_mul
    ∷ left_paren
    ∷ digit 3
    ∷ operator k_add
    ∷ digit 4
    ∷ right_paren
    ∷ equal
    ∷ []

parentheses : shown (press_all numbers product (reset_calc numbers)) ≡ some 14
unfolding program
parentheses = refl

-- 9 mod 0 = ends the process.
traps :
    press_all numbers (digit 9 ∷ operator k_mod ∷ digit 0 ∷ equal ∷ []) (reset_calc numbers) ≡ none
unfolding program
traps = refl

-- 4 ! + 1 = with 1 from the memory
abbrev factorials : List CalcKey
factorials =
    digit 1 ∷ one_op k_sto ∷ digit 4 ∷ one_op k_fact ∷ operator k_add ∷ one_op k_rcl ∷ equal ∷ []

memory : shown (press_all numbers factorials (reset_calc numbers)) ≡ some 25
unfolding program oneop
memory = refl

abbrev or_reset : Option (Calc ℕ) → Calc ℕ
or_reset none = reset_calc numbers
or_reset (some c) = c

abbrev after_product : Calc ℕ
after_product = or_reset (press_all numbers product (reset_calc numbers))

reaches : press_all numbers product (reset_calc numbers) ≡ some after_product
unfolding program
reaches = refl

press_all-stacks_example :
    (length after_product.opstack ≤ stack_max) × (length after_product.numstack ≤ stack_max)
press_all-stacks_example = press_all-stacks numbers product reaches

press_all-grouped_example :
    shown (
      press_all numbers
        (digit 9
          ∷ operator k_sub
          ∷ digit 2
          ∷ operator k_mul
          ∷ digit 3
          ∷ operator k_sub
          ∷ digit 1
          ∷ equal
          ∷ [])
        (reset_calc numbers))
    ≡ (do y ← computed k_mul 2 3; z ← computed k_sub y 1; computed k_sub 9 z)
press_all-grouped_example =
    press_all-grouped numbers (λ d. d) scans k_sub k_mul k_sub 9 2 3 1 refl refl refl refl refl
      (omega arith, omega arith) (omega arith, omega arith) (omega arith, omega arith)
      (omega arith, omega arith)

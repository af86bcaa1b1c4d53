-- ===== src/Calc/Chain.antt =====
-- What the keys do to a calculator with at most two operators pending.
pub mod Order
use isde.Common.{
  ap, ◌∙◌, ℕ, zero, suc, ◌+◌, ◌≤◌, ◌<◌, ◌==◌, ◌≡◌, refl, ltb, leb, Bool, true, false, not, ◌&&◌,
  ◌||◌, List, [], ◌∷◌, ◌++◌, Option, none, some, Option-cases, Bool-cases, inl, inr, Str, codes,
  length, if◌then◌else◌, ◌>>=◌, arith,
}
use isde.Common.Int.{pos}
use isde.Calc.{
  Op, k_lpar, k_nop, k_add, k_sub, k_mul, Doubles, Modes, Calc, stack_max, priority, draw_display,
  push_op, pop_op, push_num, shortened, stack_error, lparf, clearf, numeric, cleared_display, typed,
  digit_char,
}
use isde.Calc.Infix.{
  CalcKey, digit, operator, equal, left_paren, right_paren, clear, is_clear, is_lpar, is_zero,
  pop_num, parsed, format_double, with_acc, operate, twoop, reduce, do_pending, equf, act, do_op,
  press_all, reset_calc,
}

-- A state without parentheses or INV, in base 10.
abbrev pub state :
    {D : Type 0}
    → Modes D
    → (entered clr clrdisp : ℕ) → Op
    → (acc dnum : D) → Str
    → List Op
    → List D
    → Calc D
state m en clr cd lo acc dn disp ops nums = record {
  modes = m;
  flag_inv = false;
  flag_paren = pos 0;
  numbase = 10;
  entered = en;
  clr = clr;
  d_point = 0;
  clrdisp = cd;
  exponent = 0;
  lastop = lo;
  acc = acc;
  dnum = dn;
  dispstr = disp;
  opstack = ops;
  numstack = nums;
}

digit_char-decimal : (d : ℕ) → d < 10 → digit_char 10 d ≡ some (48 + d)
unfolding digit_char
digit_char-decimal d h = ground arith

typed-decimal :
    {D : Type 0} (d : ℕ) (c : Calc D)
    → 0 < d
    → d < 10
    → c.dispstr ≡ []
    → typed d (record c { numbase = 10 })
      ≡ record c { numbase = 10; dispstr = (48 + d) ∷ []; clrdisp = 0; entered = 1 }
unfolding shortened
typed-decimal d c low high e =
    let not_zero : (d == 0) ≡ false = ground arith in
    rw (typed, digit_char-decimal d high, not_zero, e) refl

-- The number that the calculator holds.
abbrev pub shown : {D : Type 0} → Option (Calc D) → Option D
shown none = none
shown (some c) = some c.dnum

shown-return : {D : Type 0} (o : Option (Calc D)) → shown (do c ← o; some c) ≡ shown o
shown-return none = refl
shown-return (some c) = refl

-- The number that a digit key types, on a `sscanf` that reads it whatever the variable held.
module _ {D : Type 0} (fl : Doubles D) (number : ℕ → D)
    (scans : (d : ℕ) (old : D) → d < 10 → fl.scanned 10 ((48 + d) ∷ []) old ≡ number d)
    (m : Modes D) where
  shown-drawn :
      (o : Option (Calc D))
      → shown (do c ← o; some (draw_display (format_double fl c.dnum c))) ≡ shown o
  shown-drawn none = refl
  shown-drawn (some c) = refl

  pub press_all-cons :
      (k : CalcKey) (ks : List CalcKey) (c : Calc D) {c' : Calc D}
      → do_op fl k c ≡ some c'
      → press_all fl (k ∷ ks) c ≡ press_all fl ks c'
  unfolding press_all
  press_all-cons k ks c e = rw e refl

  pub press_all-none :
      (k : CalcKey) (ks : List CalcKey) (c : Calc D)
      → do_op fl k c ≡ none
      → press_all fl (k ∷ ks) c ≡ none
  unfolding press_all
  press_all-none k ks c e = rw e refl

  press_all-one :
      (k : CalcKey) (c : Calc D) → shown (press_all fl (k ∷ []) c) ≡ shown (do_op fl k c)
  unfolding press_all
  press_all-one k c = shown-return (do_op fl k c)

  pub do_op-digit :
      (en clr : ℕ) (lo : Op) (acc dn : D) (disp : Str) (ops : List Op) (nums : List D) (d : ℕ)
      → (en == 3) ≡ false
      → 0 < d
      → d < 10
      → do_op fl (digit d) (state m en clr 1 lo acc dn disp ops nums)
        ≡ some (state m 1 0 0 lo acc dn ((48 + d) ∷ []) ops nums)
  unfolding do_op numeric shortened
  do_op-digit en clr lo acc dn disp ops nums d e low high =
      let not_zero : (d == 0) ≡ false = ground arith in
      let c = state m en 0 1 lo acc dn [] ops nums in
      rw e (ap some (typed-decimal d c low high refl))

  pub do_op-first :
      (lo : Op) (acc dn : D) (d : ℕ) (op : Op)
      → d < 10
      → do_op fl (operator op) (state m 1 0 0 lo acc dn ((48 + d) ∷ []) [] [])
        ≡ some (state m 0 1 1 lo acc (number d) ((48 + d) ∷ []) (op ∷ []) (number d ∷ []))
  unfolding do_op twoop push_op push_num
  do_op-first lo acc dn d op high = rw (scans d dn high) refl

  module _ (p : Op) (p_op : is_lpar p ≡ false) where
    pub do_op-tighter :
        (lo : Op) (acc dn x : D) (d : ℕ) (op : Op)
        → d < 10
        → ltb (priority p) (priority op) ≡ true
        → do_op fl (operator op) (state m 1 0 0 lo acc dn ((48 + d) ∷ []) (p ∷ []) (x ∷ []))
          ≡ some (state m 0 1 1 p acc (number d) ((48 + d) ∷ []) (op ∷ p ∷ []) (number d ∷ x ∷ []))
    unfolding do_op twoop push_op push_num
    do_op-tighter lo acc dn x d op high e = rw (scans d dn high, p_op, e) refl

    pub do_op-looser :
        (lo : Op) (acc dn x y : D) (d : ℕ) (op : Op)
        → d < 10
        → ltb (priority p) (priority op) ≡ false
        → fl.binary p x (number d) ≡ some y
        → do_op fl (operator op) (state m 1 0 0 lo acc dn ((48 + d) ∷ []) (p ∷ []) (x ∷ []))
          ≡ some (state m 0 1 1 p y y (shortened (fl.printed 10 y)) (op ∷ []) (y ∷ []))
    unfolding do_op twoop operate push_op push_num pop_num
    do_op-looser lo acc dn x y d op high e at = rw (scans d dn high, p_op, e, at) refl

    pub do_op-looser_none :
        (lo : Op) (acc dn x : D) (d : ℕ) (op : Op)
        → d < 10
        → ltb (priority p) (priority op) ≡ false
        → fl.binary p x (number d) ≡ none
        → do_op fl (operator op) (state m 1 0 0 lo acc dn ((48 + d) ∷ []) (p ∷ []) (x ∷ [])) ≡ none
    unfolding do_op twoop operate push_op push_num pop_num
    do_op-looser_none lo acc dn x d op high e at = rw (scans d dn high, p_op, e, at) refl

    equal-one :
        (lo : Op) (acc dn x : D) (d : ℕ)
        → d < 10
        → shown (do_op fl equal (state m 1 0 0 lo acc dn ((48 + d) ∷ []) (p ∷ []) (x ∷ [])))
          ≡ fl.binary p x (number d)
    unfolding do_op equf do_pending reduce operate push_num pop_num
    equal-one lo acc dn x d high = elim (Option-cases (fl.binary p x (number d))) [
      | inl e ↦ rw (scans d dn high, p_op, e) refl
      | inr (y, e) ↦ rw (scans d dn high, p_op, e) refl
    ]

  module _ (p q : Op) (p_op : is_lpar p ≡ false) (q_op : is_lpar q ≡ false) where
    pub do_op-looser_second :
        (lo : Op) (acc dn x y z : D) (d : ℕ) (op : Op)
        → d < 10
        → ltb (priority q) (priority op) ≡ false
        → fl.binary q y (number d) ≡ some z
        → do_op fl (operator op) (state m 1 0 0 lo acc dn ((48 + d) ∷ []) (q ∷ p ∷ []) (y ∷ x ∷ []))
          ≡ some (state m 0 1 1 q z z (shortened (fl.printed 10 z)) (op ∷ p ∷ []) (z ∷ x ∷ []))
    unfolding do_op twoop operate push_op push_num pop_num
    do_op-looser_second lo acc dn x y z d op high e at = rw (scans d dn high, q_op, e, at) refl

    pub do_op-looser_second_none :
        (lo : Op) (acc dn x y : D) (d : ℕ) (op : Op)
        → d < 10
        → ltb (priority q) (priority op) ≡ false
        → fl.binary q y (number d) ≡ none
        → do_op fl (operator op) (state m 1 0 0 lo acc dn ((48 + d) ∷ []) (q ∷ p ∷ []) (y ∷ x ∷ []))
          ≡ none
    unfolding do_op twoop operate push_op push_num pop_num
    do_op-looser_second_none lo acc dn x y d op high e at = rw (scans d dn high, q_op, e, at) refl

    abbrev pending : (lo : Op) (acc dn : D) → Str → List Op → List D → Calc D
    pending = state m 2 1 1

    reduce-second :
        (lo : Op) (acc dn x y n z : D) (disp : Str)
        → fl.binary q y n ≡ some z
        → reduce fl q (pending lo acc dn disp (p ∷ []) (n ∷ y ∷ x ∷ []))
          ≡ some (pending q z z disp (p ∷ []) (z ∷ x ∷ []))
    unfolding reduce operate push_num pop_num
    reduce-second lo acc dn x y n z disp e = rw e refl

    reduce-second_none :
        (lo : Op) (acc dn x y n : D) (disp : Str)
        → fl.binary q y n ≡ none
        → reduce fl q (pending lo acc dn disp (p ∷ []) (n ∷ y ∷ x ∷ [])) ≡ none
    unfolding reduce operate push_num pop_num
    reduce-second_none lo acc dn x y n disp e = rw e refl

    reduce-first :
        (lo : Op) (acc dn x z : D) (disp : Str)
        → shown (reduce fl p (pending lo acc dn disp [] (z ∷ x ∷ []))) ≡ fl.binary p x z
    unfolding reduce operate push_num pop_num
    reduce-first lo acc dn x z disp = elim (Option-cases (fl.binary p x z)) [
      | inl e ↦ rw e refl
      | inr (w, e) ↦ rw e refl
    ]

    pending-one :
        (lo : Op) (acc dn x z : D) (disp : Str)
        → shown (do_pending fl (p ∷ []) (pending lo acc dn disp (p ∷ []) (z ∷ x ∷ [])))
          ≡ fl.binary p x z
    unfolding do_pending
    pending-one lo acc dn x z disp =
        rw p_op (shown-return (reduce fl p (pending lo acc dn disp [] (z ∷ x ∷ []))))
        ∙ reduce-first lo acc dn x z disp

    pending-two :
        (lo : Op) (acc dn x y n : D) (disp : Str)
        → shown (do_pending fl (q ∷ p ∷ []) (pending lo acc dn disp (q ∷ p ∷ []) (n ∷ y ∷ x ∷ [])))
          ≡ (do z ← fl.binary q y n; fl.binary p x z)
    unfolding do_pending
    pending-two lo acc dn x y n disp = elim (Option-cases (fl.binary q y n)) [
      | inl e ↦ rw (q_op, reduce-second_none lo acc dn x y n disp e, e) refl
      | inr (z, e) ↦
          rw (q_op, reduce-second lo acc dn x y n z disp e, e) (pending-one q z z x z disp)
    ]

    equal-two :
        (lo : Op) (acc dn x y : D) (d : ℕ)
        → d < 10
        → shown (do_op fl equal (state m 1 0 0 lo acc dn ((48 + d) ∷ []) (q ∷ p ∷ []) (y ∷ x ∷ [])))
          ≡ (do z ← fl.binary q y (number d); fl.binary p x z)
    unfolding do_op equf push_num
    equal-two lo acc dn x y d high =
        let disp = (48 + d) ∷ [] in
        let c = pending lo acc (number d) disp (q ∷ p ∷ []) (number d ∷ y ∷ x ∷ []) in
        rw (scans d dn high) (
          shown-drawn (do_pending fl (q ∷ p ∷ []) c)
          ∙ pending-two lo acc (number d) x y (number d) disp)

    pub finish-two :
        (lo : Op) (acc dn x y : D) (disp : Str) (d : ℕ)
        → 0 < d
        → d < 10
        → shown (
            press_all fl
              (digit d ∷ equal ∷ [])
              (state m 0 1 1 lo acc dn disp (q ∷ p ∷ []) (y ∷ x ∷ [])))
          ≡ (do z ← fl.binary q y (number d); fl.binary p x z)
    finish-two lo acc dn x y disp d low high =
        ap shown (
          press_all-cons (digit d) (equal ∷ []) _
            (do_op-digit 0 1 lo acc dn disp (q ∷ p ∷ []) (y ∷ x ∷ []) d refl low high))
        ∙ press_all-one equal _
        ∙ equal-two lo acc dn x y d high

  pub finish-one :
      (q : Op)
      → is_lpar q ≡ false
      → (lo : Op) (acc dn x : D) (disp : Str) (d : ℕ) → 0 < d
      → d < 10
      → shown (press_all fl (digit d ∷ equal ∷ []) (state m 0 1 1 lo acc dn disp (q ∷ []) (x ∷ [])))
        ≡ fl.binary q x (number d)
  finish-one q q_op lo acc dn x disp d low high =
      ap shown (
        press_all-cons (digit d) (equal ∷ []) _
          (do_op-digit 0 1 lo acc dn disp (q ∷ []) (x ∷ []) d refl low high))
      ∙ press_all-one equal _
      ∙ equal-one q q_op lo acc dn x d high

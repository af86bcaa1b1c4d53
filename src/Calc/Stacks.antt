-- ===== src/Calc/Stacks.antt =====
-- The two stacks stay within their arrays.
use isde.Common.{
  ℕ, suc, ◌≤◌, ◌==◌, ◌≡◌, ltb, leb, false, not, ◌&&◌, ◌||◌, List, [], ◌∷◌, ◌++◌, Option, none, some,
  Bool-cases, inl, inr, length, if◌then◌else◌, ◌>>=◌, arith,
}
use isde.Common.Int.{pos, ◌-ℤ◌}
use isde.Calc.{
  Op, k_lpar, Doubles, Calc, stack_max, priority, draw_display, push_op, pop_op, push_num,
  shortened, lparf, clearf, numeric, cleared_display, typed, digit_char,
}
use isde.Calc.Editing.{eef, invf, decf, bkspf, change_base}
use isde.Calc.OneOp.{
  OneOp, k_e, k_pi, k_recip, k_sqr, k_sqrt, k_10x, k_log, k_exp, k_ln, k_sin, k_cos, k_tan, k_sto,
  k_rcl, k_sum, k_exc, k_fact, k_not, k_trunc, math_fn, fact, oneop, drgf, offf,
}
use isde.Calc.Infix.{
  one_op, degree_key, off_key, is_off, CalcKey, digit, operator, equal, left_paren, right_paren,
  clear, back_space, decimal_key, exponent_key, inverse, base_key, is_clear, is_lpar, is_zero,
  pop_num, parsed, with_acc, operate, behind_op, second_op, first_op, twoop, close_paren,
  second_num, popped_acc, reduce, reduce_paren, do_pending, equf, do_paren, rparf, act, do_op,
  press_all, reset_calc,
}

module _ {D : Type 0} where
  abbrev pub Fits : Calc D → Type 0
  Fits c = (length c.opstack ≤ stack_max) × (length c.numstack ≤ stack_max)

  -- The results that are there fit.
  pub data FitsIn : Option (Calc D) → Type 0 where
    killed : FitsIn none
    returned : {c : Calc D} → Fits c → FitsIn (some c)

  push_op-Fits : (op : Op) (c : Calc D) → Fits c → Fits (push_op op c)
  unfolding push_op
  push_op-Fits op c f = ground (arith, f)

  push_num-Fits : (x : D) (c : Calc D) → Fits c → Fits (push_num x c)
  unfolding push_num
  push_num-Fits x c f = ground (arith, f)

  pop_op-Fits :
      (ops : List Op) (c : Calc D)
      → Fits (record c { opstack = ops })
      → Fits (pop_op (record c { opstack = ops })).1
  unfolding pop_op
  pop_op-Fits [] c f = f
  pop_op-Fits (op ∷ ops) c f = (omega (arith, f.0), f.1)

  pop_num-Fits :
      (fl : Doubles D) (nums : List D) (c : Calc D)
      → Fits (record c { numstack = nums })
      → Fits (pop_num fl (record c { numstack = nums })).1
  unfolding pop_num
  pop_num-Fits fl [] c f = f
  pop_num-Fits fl (x ∷ xs) c f = (f.0, omega (arith, f.1))

  typed-Fits : (d : ℕ) (c : Calc D) → Fits c → Fits (typed d c)
  typed-Fits d c f = with_char (digit_char c.numbase d)
    where
      with_char :
          (o : Option ℕ)
          → Fits (elim o [
            | none ↦ c
            | some ch ↦ record c {
              dispstr = shortened (c.dispstr ++ ch ∷ []);
              clrdisp = if d == 0 then c.clrdisp else 0;
              entered = 1;
            }
          ])
      with_char none = f
      with_char (some ch) = f

  cleared_display-Fits : (c : Calc D) → Fits c → Fits (cleared_display c)
  cleared_display-Fits c f = ground (arith, f)

  numeric-Fits : (d : ℕ) (c : Calc D) → Fits c → Fits (numeric d c)
  unfolding numeric
  numeric-Fits d c f =
      let c' = cleared_display (record c { flag_inv = false }) in
      let f' = cleared_display-Fits (record c { flag_inv = false }) f in
      elim (Bool-cases (leb 11 (length c'.dispstr))) [
        | inl e ↦ rw e f'
        | inr e ↦ rw e (typed-Fits d c' f')
      ]

  clearf-Fits : (c : Calc D) → Fits c → Fits (clearf c)
  unfolding clearf
  clearf-Fits c f = ground (arith, f)

  lparf-Fits : (c : Calc D) → Fits c → Fits (lparf c)
  unfolding lparf
  lparf-Fits c f = push_op-Fits k_lpar (record c { flag_inv = false }) f

  module _ (fl : Doubles D) where
    second_num-Fits : (c : Calc D) → Fits c → Fits (second_num fl c)
    second_num-Fits c f = pop_num-Fits fl c.numstack c f

    with_acc-Fits : (o : Option D) (c : Calc D) → Fits c → FitsIn (with_acc fl o c)
    with_acc-Fits none c f = killed
    with_acc-Fits (some x) c f = returned f

    operate-Fits : (op : Op) (c : Calc D) → Fits c → FitsIn (operate fl op c)
    unfolding operate
    operate-Fits op c f =
        with_acc-Fits (fl.binary op (pop_num fl c).0 c.dnum)
          (record (pop_num fl c).1 { lastop = op }) (pop_num-Fits fl c.numstack c f)

    bind-FitsIn :
        {o : Option (Calc D)} (g : Calc D → Option (Calc D))
        → FitsIn o
        → ((c : Calc D) → Fits c → FitsIn (g c))
        → FitsIn (o >>= g)
    bind-FitsIn g killed next = killed
    bind-FitsIn g (returned {c} f) next = next c f

    reduce-Fits : (op : Op) (c : Calc D) → Fits c → FitsIn (reduce fl op c)
    unfolding reduce
    reduce-Fits op c f =
        bind-FitsIn _ (operate-Fits op (second_num fl c) (second_num-Fits c f))
          λ c' f'. returned (push_num-Fits c'.acc (record c' { dnum = c'.acc }) f')

    close_paren-Fits : (c : Calc D) → Fits c → Fits (close_paren fl c)
    close_paren-Fits c f = push_num-Fits c.acc (record c { flag_paren = c.flag_paren -ℤ pos 1 }) f

    reduce_paren-Fits : (c : Calc D) → Fits c → Fits (reduce_paren fl c)
    unfolding reduce_paren
    reduce_paren-Fits c f =
        let c1 = second_num fl c in
        let c2 = popped_acc fl c1 in
        let f2 = pop_num-Fits fl c1.numstack c1 (second_num-Fits c f) in
        let c3 = close_paren fl (record c2 { lastop = k_lpar }) in
        let f3 = close_paren-Fits (record c2 { lastop = k_lpar }) f2 in
        push_num-Fits c3.acc (record c3 { dnum = c3.acc }) f3

    do_pending-Fits :
        (ops : List Op) (c : Calc D)
        → length ops ≤ stack_max
        → Fits c
        → FitsIn (do_pending fl ops c)
    unfolding do_pending
    do_pending-Fits [] c l f = returned f
    do_pending-Fits (op ∷ ops) c l f = elim (Bool-cases (is_lpar op)) [
      | inl e ↦ rw e (
          do_pending-Fits ops _ (omega arith)
            (reduce_paren-Fits (record c { opstack = ops }) (omega arith, f.1)))
      | inr e ↦ rw e (
          bind-FitsIn _ (reduce-Fits op (record c { opstack = ops }) (omega arith, f.1))
            λ c' f'. do_pending-Fits ops c' (omega arith) f')
    ]

    do_paren-Fits :
        (ops : List Op) (c : Calc D) → length ops ≤ stack_max → Fits c → FitsIn (do_paren fl ops c)
    unfolding do_paren
    do_paren-Fits [] c l f = returned f
    do_paren-Fits (op ∷ ops) c l f = elim (Bool-cases (is_lpar op)) [
      | inl e ↦ rw e (returned (omega arith, f.1))
      | inr e ↦ rw e (
          bind-FitsIn _ (reduce-Fits op (record c { opstack = ops }) (omega arith, f.1))
            λ c' f'. do_paren-Fits ops c' (omega arith) f')
    ]

    parsed-Fits : (c : Calc D) → Fits c → Fits (parsed fl c)
    parsed-Fits c f = ground (arith, f)

    equf-Fits : (c : Calc D) → Fits c → FitsIn (equf fl c)
    unfolding equf
    equf-Fits c f =
        let c1 = parsed fl (record c { flag_inv = false }) in
        let f1 = parsed-Fits (record c { flag_inv = false }) f in
        let c2 = record c1 { clrdisp = 1; clr = 1; d_point = 0; exponent = 0; entered = 2 } in
        elim (Bool-cases (c.entered == 0)) [
          | inl e ↦ rw e (returned f)
          | inr e ↦ rw e (
              bind-FitsIn _
                (do_pending-Fits c.opstack (push_num c1.dnum c2) (f.0)
                  (push_num-Fits c1.dnum c2 f1))
                λ c' f'. returned f')
        ]

    rparf-Fits : (c : Calc D) → Fits c → FitsIn (rparf fl c)
    unfolding rparf
    rparf-Fits c f =
        let c1 = parsed fl (record c { flag_inv = false }) in
        let f1 = parsed-Fits (record c { flag_inv = false }) f in
        let c2 = record c1 { clrdisp = suc c1.clrdisp; d_point = 0; exponent = 0; entered = 2 } in
        elim (Bool-cases ((c.entered == 0) || is_zero c.flag_paren)) [
          | inl e ↦ rw e (returned f)
          | inr e ↦ rw e (
              bind-FitsIn _
                (do_paren-Fits c.opstack (push_num c1.dnum c2) (f.0) (push_num-Fits c1.dnum c2 f1))
                λ c' f'. returned (pop_num-Fits fl c'.numstack c' f'))
        ]

    second_op-Fits :
        (op : Op) (ops : List Op) (c : Calc D)
        → Fits (record c { opstack = ops })
        → Fits (second_op fl op (record c { opstack = ops }))
    second_op-Fits op [] c f = push_op-Fits op (record c { opstack = [] }) f
    second_op-Fits op (o ∷ ops) c f =
        push_op-Fits op (pop_op (record c { opstack = o ∷ ops })).1 (pop_op-Fits (o ∷ ops) c f)

    behind_op-Fits : (op last : Op) (c : Calc D) → Fits c → FitsIn (behind_op fl op last c)
    behind_op-Fits op last c f = elim (Bool-cases (is_lpar last)) [
      | inl e ↦ rw e (
          returned (
            push_num-Fits c.dnum (push_op op (push_op k_lpar c))
              (push_op-Fits op (push_op k_lpar c) (push_op-Fits k_lpar c f))))
      | inr e ↦ elim (Bool-cases (ltb (priority last) (priority op))) [
        | inl e' ↦
            rw (e, e')
              (returned (
                push_op-Fits op (push_op last (push_num c.dnum c))
                  (push_op-Fits last (push_num c.dnum c) (push_num-Fits c.dnum c f))))
        | inr e' ↦
            rw (e, e')
              (bind-FitsIn _ (operate-Fits last c f) λ c' f'.
                returned (push_op-Fits op (push_num c'.acc c') (push_num-Fits c'.acc c' f')))
      ]
    ]

    first_op-Fits :
        (op : Op) (ops : List Op) (c : Calc D)
        → Fits (record c { opstack = ops })
        → FitsIn (first_op fl op (record c { opstack = ops }))
    first_op-Fits op [] c f =
        let c' = record c { opstack = [] } in
        returned (push_num-Fits c.dnum (push_op op c') (push_op-Fits op c' f))
    first_op-Fits op (o ∷ ops) c f =
        behind_op-Fits op o (record c { opstack = ops; lastop = o }) (omega (arith, f.0), f.1)

    twoop-Fits : (op : Op) (c : Calc D) → Fits c → FitsIn (twoop fl op c)
    unfolding twoop
    twoop-Fits op c f =
        let c' = if c.flag_inv then draw_display (record c { flag_inv = false }) else c in
        let f' : Fits c' = ground (arith, f) in
        let c1 = record (parsed fl c') {
          clrdisp = 1;
          clr = 1;
          entered = 0;
          d_point = 0;
          exponent = 0;
        } in
        elim (Bool-cases (c'.entered == 0)) [
          | inl e ↦ rw e (returned (second_op-Fits op c'.opstack c' f'))
          | inr e ↦ rw e (first_op-Fits op (parsed fl c').opstack c1 (parsed-Fits c' f'))
        ]

    eef-Fits : (c : Calc D) → Fits c → Fits (eef c)
    unfolding eef
    eef-Fits c f = ground (arith, f)

    invf-Fits : (c : Calc D) → Fits c → Fits (invf c)
    unfolding invf
    invf-Fits c f = f

    decf-Fits : (c : Calc D) → Fits c → Fits (decf fl c)
    unfolding decf
    decf-Fits c f = ground (arith, f)

    bkspf-Fits : (c : Calc D) → Fits c → Fits (bkspf fl c)
    unfolding bkspf clearf
    bkspf-Fits c f = ground (arith, f)

    change_base-Fits : (c : Calc D) → Fits c → Fits (change_base fl c)
    unfolding change_base
    change_base-Fits c f = ground (arith, f)

    fact-Fits : (c : Calc D) → Fits c → Fits (fact fl c)
    fact-Fits c f = ground (arith, f)

    math_fn-Fits : (op : OneOp) (c : Calc D) → Fits c → Fits (math_fn fl op c)
    math_fn-Fits k_e c f = f
    math_fn-Fits k_pi c f = f
    math_fn-Fits k_recip c f = f
    math_fn-Fits k_sqr c f = f
    math_fn-Fits k_sqrt c f = f
    math_fn-Fits k_10x c f = f
    math_fn-Fits k_log c f = f
    math_fn-Fits k_exp c f = f
    math_fn-Fits k_ln c f = f
    math_fn-Fits k_sin c f = f
    math_fn-Fits k_cos c f = f
    math_fn-Fits k_tan c f = f
    math_fn-Fits k_sto c f = f
    math_fn-Fits k_rcl c f = f
    math_fn-Fits k_sum c f = f
    math_fn-Fits k_exc c f = f
    math_fn-Fits k_fact c f = fact-Fits c f
    math_fn-Fits k_not c f = f
    math_fn-Fits k_trunc c f = f

    oneop-Fits : (op : OneOp) (c : Calc D) → Fits c → Fits (oneop fl op c)
    unfolding oneop
    oneop-Fits op c f =
        let x = if c.entered == 1 then fl.scanned c.numbase c.dispstr c.dnum else c.dnum in
        let c1 = math_fn fl op (record c { dnum = x; entered = 2 }) in
        let f1 = math_fn-Fits op (record c { dnum = x; entered = 2 }) f in
        elim (Bool-cases (c1.entered == 3)) [ inl e ↦ rw e f1 | inr e ↦ rw e f1 ]

    drgf-Fits : (c : Calc D) → Fits c → Fits (drgf fl c)
    unfolding drgf
    drgf-Fits c f = ground (arith, f)

    offf-Fits : (c : Calc D) → Fits c → Fits (offf fl c)
    unfolding offf
    offf-Fits c f = (omega arith, omega arith)

    act-Fits : (k : CalcKey) (c : Calc D) → Fits c → FitsIn (act fl k c)
    act-Fits (digit d) c f = returned (numeric-Fits d c f)
    act-Fits (operator op) c f = twoop-Fits op c f
    act-Fits equal c f = equf-Fits c f
    act-Fits left_paren c f = returned (lparf-Fits c f)
    act-Fits right_paren c f = rparf-Fits c f
    act-Fits clear c f = returned (clearf-Fits c f)
    act-Fits back_space c f = returned (bkspf-Fits c f)
    act-Fits decimal_key c f = returned (decf-Fits c f)
    act-Fits exponent_key c f = returned (eef-Fits c f)
    act-Fits inverse c f = returned (invf-Fits c f)
    act-Fits base_key c f = returned (change_base-Fits c f)
    act-Fits (one_op op) c f = returned (oneop-Fits op c f)
    act-Fits degree_key c f = returned (drgf-Fits c f)
    act-Fits off_key c f = returned (offf-Fits c f)

    do_op-Fits : (k : CalcKey) (c : Calc D) → Fits c → FitsIn (do_op fl k c)
    unfolding do_op
    do_op-Fits k c f = elim (Bool-cases ((c.entered == 3) && not (is_clear k || is_off k))) [
      | inl e ↦ rw e (returned f)
      | inr e ↦ rw e (act-Fits k (record c { clr = if is_clear k then c.clr else 0 }) f)
    ]

    press_all-Fits : (ks : List CalcKey) (c : Calc D) → Fits c → FitsIn (press_all fl ks c)
    unfolding press_all
    press_all-Fits [] c f = returned f
    press_all-Fits (k ∷ ks) c f = bind-FitsIn _ (do_op-Fits k c f) (press_all-Fits ks)

    FitsIn-some : {c : Calc D} → FitsIn (some c) → Fits c
    FitsIn-some (returned f) = f

    -- After any keys, the stack of operators and the stack of numbers hold at most 32 entries each.
    pub press_all-stacks :
        (ks : List CalcKey) {c : Calc D}
        → press_all fl ks (reset_calc fl) ≡ some c
        → (length c.opstack ≤ stack_max) × (length c.numstack ≤ stack_max)
    unfolding reset_calc
    press_all-stacks ks e =
        let f = press_all-Fits ks (reset_calc fl) (omega arith, omega arith) in
        FitsIn-some (rw e at f)

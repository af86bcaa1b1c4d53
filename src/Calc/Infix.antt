-- ===== src/Calc/Infix.antt =====
-- The operators of calc/src/math.c in infix mode, and the keys.
use isde.Common.{
  ℕ, suc, ◌==◌, ltb, Bool, true, false, not, ◌&&◌, ◌||◌, List, [], ◌∷◌, Option, none, some, codes,
  if◌then◌else◌, ◌>>=◌,
}
use isde.Common.Int.{ℤ, pos, ◌-ℤ◌}
use isde.Calc.Editing.{eef, invf, decf, bkspf, change_base}
use isde.Calc.OneOp.{OneOp, oneop, drgf, offf}
use isde.Calc.{
  Op, k_lpar, k_nop, Doubles, Modes, deg, Calc, priority, draw_display, push_op, pop_op, push_num,
  stack_error, lparf, clearf, numeric,
}

abbrev pub is_lpar : Op → Bool
is_lpar k_lpar = true
is_lpar _ = false

abbrev pub is_zero : ℤ → Bool
is_zero (pos n) = n == 0
is_zero _ = false

module _ {D : Type 0} (fl : Doubles D) where
  unfoldable pub pop_num : Calc D → D × Calc D
  pop_num c = elim c.numstack [
    | [] ↦ (fl.zero_value, stack_error c)
    | x ∷ xs ↦ (x, record c { numstack = xs })
  ]

  -- if (entered == 1) parse_double(&dnum)
  abbrev pub parsed : Calc D → Calc D
  parsed c = if c.entered == 1 then record c { dnum = fl.scanned c.numbase c.dispstr c.dnum } else c

  abbrev pub format_double : D → Calc D → Calc D
  format_double x c = record c { dispstr = fl.printed c.numbase x }

  -- acc = PopNum(), and the switch over `lastop`: none when the operation traps.
  abbrev pub with_acc : Option D → Calc D → Option (Calc D)
  with_acc none c = none
  with_acc (some x) c = some (record c { acc = x })

  unfoldable pub operate : Op → Calc D → Option (Calc D)
  operate op c =
      let (x, c') = pop_num c in with_acc (fl.binary op x c.dnum) (record c' { lastop = op })

  -- The three branches of `twoop` behind the pop of `lastop`.
  abbrev pub in_parens : Op → Calc D → Calc D
  in_parens keynum c = push_num c.dnum (push_op keynum (push_op k_lpar c))

  abbrev pub binds_tighter : (keynum lastop : Op) → Calc D → Calc D
  binds_tighter keynum lastop c = push_op keynum (push_op lastop (push_num c.dnum c))

  abbrev pub operated : Op → Calc D → Calc D
  operated keynum c =
      let c' = draw_display (format_double c.acc (push_op keynum (push_num c.acc c))) in
      record c' { dnum = c.acc }

  abbrev pub behind_op : (keynum lastop : Op) → Calc D → Option (Calc D)
  behind_op keynum lastop c =
      if is_lpar lastop
      then some (in_parens keynum c)
      else if ltb (priority lastop) (priority keynum)
      then some (binds_tighter keynum lastop c)
      else (do c' ← operate lastop c; some (operated keynum c'))

  abbrev pub second_op : Op → Calc D → Calc D
  second_op keynum c = elim c.opstack [
    | [] ↦ push_op keynum c
    | op ∷ ops ↦ push_op keynum (pop_op c).1
  ]

  abbrev pub first_op : Op → Calc D → Option (Calc D)
  first_op keynum c = elim c.opstack [
    | [] ↦ some (push_num c.dnum (push_op keynum c))
    | op ∷ ops ↦ behind_op keynum op (record c { opstack = ops; lastop = op })
  ]

  unfoldable pub twoop : Op → Calc D → Option (Calc D)
  twoop keynum c =
      let c' = if c.flag_inv then draw_display (record c { flag_inv = false }) else c in
      if c'.entered == 0
      then some (second_op keynum c')
      else first_op keynum
          (record (parsed c') { clrdisp = 1; clr = 1; entered = 0; d_point = 0; exponent = 0 })

  -- dnum = PopNum(); acc = PopNum(); and the switch, in the loop of `equf` and `rparf`
  abbrev pub close_paren : Calc D → Calc D
  close_paren c = push_num c.acc (record c { flag_paren = c.flag_paren -ℤ pos 1 })

  abbrev pub second_num : Calc D → Calc D
  second_num c = let (x, c') = pop_num c in record c' { dnum = x }

  abbrev pub popped_acc : Calc D → Calc D
  popped_acc c = let (x, c') = pop_num c in record c' { acc = x }

  abbrev pub pushed_acc : Calc D → Calc D
  pushed_acc c = push_num c.acc (record c { dnum = c.acc })

  unfoldable pub reduce : Op → Calc D → Option (Calc D)
  reduce op c = do c' ← operate op (second_num c); some (pushed_acc c')

  unfoldable pub reduce_paren : Calc D → Calc D
  reduce_paren c = pushed_acc (close_paren (record (popped_acc (second_num c)) { lastop = k_lpar }))

  -- The loop of `equf`, for the rest of the stack: the loop pushes no operator.
  unfoldable pub do_pending : List Op → Calc D → Option (Calc D)
  do_pending [] c = some c
  do_pending (op ∷ ops) c = do
    c' ←
        if is_lpar op
        then some (reduce_paren (record c { opstack = ops }))
        else reduce op (record c { opstack = ops })
    do_pending ops c'

  unfoldable pub equf : Calc D → Option (Calc D)
  equf c =
      let c1 = record c { flag_inv = false } in
      if c1.entered == 0 then some c1 else (do
        c2 ← do_pending c.opstack (
            push_num (parsed c1).dnum
              (record (parsed c1) { clrdisp = 1; clr = 1; d_point = 0; exponent = 0; entered = 2 }))
        some (draw_display (format_double c2.dnum c2)))

  -- The loop of `rparf`, which ends behind the left parenthesis.
  unfoldable pub do_paren : List Op → Calc D → Option (Calc D)
  do_paren [] c = some c
  do_paren (op ∷ ops) c =
      if is_lpar op
      then some (record c { opstack = ops; lastop = op })
      else (do c' ← reduce op (record c { opstack = ops }); do_paren ops c')

  unfoldable pub rparf : Calc D → Option (Calc D)
  rparf c =
      let c1 = parsed (record c { flag_inv = false }) in
      if (c.entered == 0) || is_zero c.flag_paren then some (record c { flag_inv = false }) else (do
        c2 ← do_paren c.opstack (
            push_num c1.dnum
              (record c1 { clrdisp = suc c1.clrdisp; d_point = 0; exponent = 0; entered = 2 }))
        some (
            draw_display (
              format_double c2.dnum
                (record (pop_num c2).1 { flag_paren = c2.flag_paren -ℤ pos 1; entered = 2 }))))

-- The buttons' actions of calc/src/actions.c.
pub data CalcKey : Type 0 where
  digit : ℕ → CalcKey
  operator : Op → CalcKey
  one_op : OneOp → CalcKey
  equal left_paren right_paren clear back_space decimal_key exponent_key inverse base_key degree_key
        off_key :
      CalcKey

abbrev pub is_clear : CalcKey → Bool
is_clear clear = true
is_clear _ = false

abbrev pub is_off : CalcKey → Bool
is_off off_key = true
is_off _ = false

module _ {D : Type 0} (fl : Doubles D) where
  abbrev pub act : CalcKey → Calc D → Option (Calc D)
  act (digit d) c = some (numeric d c)
  act (operator op) c = twoop fl op c
  act equal c = equf fl c
  act left_paren c = some (lparf c)
  act right_paren c = rparf fl c
  act clear c = some (clearf c)
  act back_space c = some (bkspf fl c)
  act decimal_key c = some (decf fl c)
  act exponent_key c = some (eef c)
  act inverse c = some (invf c)
  act base_key c = some (change_base fl c)
  act (one_op op) c = some (oneop fl op c)
  act degree_key c = some (drgf fl c)
  act off_key c = some (offf fl c)

  -- `pre_op`: behind an error the bell rings, until CLR or OFF.
  unfoldable pub do_op : CalcKey → Calc D → Option (Calc D)
  do_op k c =
      if (c.entered == 3) && not (is_clear k || is_off k)
      then some c
      else act k (record c { clr = if is_clear k then c.clr else 0 })

  unfoldable pub press_all : List CalcKey → Calc D → Option (Calc D)
  press_all [] c = some c
  press_all (k ∷ ks) c = do c' ← do_op k c; press_all ks c'

abbrev pub start_modes : {D : Type 0} → Doubles D → Modes D
start_modes fl = record { mem_0 = fl.zero_value; flag_m = false; drgmode = deg }

-- The static initialisers and `ResetCalc`
unfoldable pub reset_calc : {D : Type 0} → Doubles D → Calc D
reset_calc fl = record {
  modes = start_modes fl;
  flag_inv = false;
  flag_paren = pos 0;
  numbase = 10;
  entered = 1;
  clr = 0;
  d_point = 0;
  clrdisp = 1;
  exponent = 0;
  lastop = k_nop;
  acc = fl.zero_value;
  dnum = fl.zero_value;
  dispstr = codes "0";
  opstack = [];
  numstack = [];
}

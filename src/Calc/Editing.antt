-- ===== src/Calc/Editing.antt =====
-- The keys of calc/src/math.c that edit the number on the display: the decimal point, the exponent, the
-- back space, the inverse flag and the change of the base.
use isde.Common.{
  ℕ, suc, ◌-◌, ◌==◌, Bool, false, not, ◌||◌, [], ◌∷◌, ◌++◌, Str, codes, length, take, is_empty,
  str_eq, if◌then◌else◌,
}
use isde.Calc.{Doubles, Calc, draw_display, clearf}

-- Whether a string ends with another.
abbrev pub ends_with : (dp s : Str) → Bool
ends_with dp [] = is_empty dp
ends_with dp (c ∷ s) = let rest = ends_with dp s in str_eq (c ∷ s) dp || rest

module _ {D : Type 0} where
  abbrev pub zero_shown : Calc D → Calc D
  zero_shown c =
      if not (c.clrdisp == 0)
      then record c { flag_inv = false; dispstr = codes "0" }
      else record c { flag_inv = false }

  -- `eef`. Where the '-' goes is found behind the display is drawn.
  unfoldable pub eef : Calc D → Calc D
  eef c =
      let c1 = zero_shown c in
      let c2 = draw_display (record c1 { dispstr = c1.dispstr ++ codes "E+" }) in
      let c3 = if c1.exponent == 0 then record c2 { exponent = length c2.dispstr - 1 } else c1 in
      record c3 { clrdisp = 0; entered = 1 }

  unfoldable pub invf : Calc D → Calc D
  invf c = draw_display (record c { flag_inv = not c.flag_inv })

  module _ (fl : Doubles D) where
    -- `decf`
    unfoldable pub decf : Calc D → Calc D
    decf c =
        let c1 = zero_shown c in
        let c2 = draw_display (record c1 { dispstr = c1.dispstr ++ fl.decimal_point }) in
        let c3 = if c1.d_point == 0 then record c2 { d_point = 1 } else c1 in
        record c3 { clrdisp = 0; entered = 1 }

    -- The last character goes.
    abbrev pub shortened_by_one : Calc D → Calc D
    shortened_by_one c = if is_empty c.dispstr then c else record c {
      d_point = if ends_with fl.decimal_point c.dispstr then 0 else c.d_point;
      dispstr = take (length c.dispstr - 1) c.dispstr;
    }

    abbrev pub never_empty : Calc D → Calc D
    never_empty c =
        if is_empty c.dispstr then record c { dispstr = codes "0"; clrdisp = suc c.clrdisp } else c

    -- `bkspf`: with the inverse flag, and on a number that was not typed, it clears.
    unfoldable pub bkspf : Calc D → Calc D
    bkspf c =
        if c.flag_inv
        then draw_display (record c {
          dispstr = codes "0";
          dnum = fl.zero_value;
          clrdisp = suc c.clrdisp;
          flag_inv = false;
        })
        else if not (c.entered == 1)
        then clearf c
        else if not (c.clrdisp == 0)
        then c
        else draw_display (never_empty (shortened_by_one c))

    -- 8, 10, 16 and 8 again
    abbrev pub next_base : ℕ → ℕ
    next_base b = if b == 8 then 10 else if b == 10 then 16 else if b == 16 then 8 else b

    unfoldable pub change_base : Calc D → Calc D
    change_base c =
        let x = fl.scanned c.numbase c.dispstr c.dnum in
        draw_display (
          if fl.is_nonnegative x
          then record c {
            dnum = x;
            numbase = next_base c.numbase;
            dispstr = fl.printed (next_base c.numbase) x;
          }
          else record c { dnum = x; dispstr = codes "error" })

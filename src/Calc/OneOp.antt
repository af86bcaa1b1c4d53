-- ===== src/Calc/OneOp.antt =====
-- The keys of calc/src/math.c for one operand: the functions, the memory, the angles and OFF.
use isde.Common.{ℕ, zero, suc, ◌==◌, Bool, false, not, ◌||◌, [], codes, if◌then◌else◌}
use isde.Common.Int.{pos}
use isde.Calc.{
  Doubles, Calc, draw_display, DrgMode, deg, rad, grad, Function, inverted, square, square_root,
  power_of_ten, log10, exp, log, asin, acos, atan, sin, cos, tan, complement, truncated,
}

pub data OneOp : Type 0 where
  k_e k_pi k_recip k_sqr k_sqrt k_10x k_log k_exp k_ln k_sin k_cos k_tan : OneOp
  k_sto k_rcl k_sum k_exc k_fact k_not k_trunc : OneOp

module _ {D : Type 0} (fl : Doubles D) where
  -- dnum = x
  abbrev pub with_dnum : D → Calc D → Calc D
  with_dnum x c = record c { dnum = x }

  -- mem[0] = x; flagM = !(mem[0] == 0.0)
  abbrev pub with_mem : D → Calc D → Calc D
  with_mem x c = record c {
    modes = record { mem_0 = x; flag_m = not (fl.is_zero_value x); drgmode = c.modes.drgmode };
  }

  -- One function with the inverse flag, another without.
  abbrev pub by_inverse : (inv : Bool) (f g : Function) → Calc D → Calc D
  by_inverse inv f g c = with_dnum (if inv then fl.function f c.dnum else fl.function g c.dnum) c

  -- asin(dnum) * rad2drg, or sin(dnum * drg2rad)
  abbrev pub angle : (f g : Function) → Calc D → Calc D
  angle f g c =
      let m = c.modes.drgmode in
      with_dnum
        (if c.flag_inv
          then fl.times (fl.function f c.dnum) (fl.rad2drg m)
          else fl.function g (fl.times c.dnum (fl.drg2rad m)))
        c

  -- The loop of kFACT.
  abbrev pub factorial : ℕ → D
  factorial zero = fl.whole 1
  factorial (suc j) = fl.times (factorial j) (fl.whole (suc j))

  abbrev pub fact : Calc D → Calc D
  fact c =
      if not (fl.is_integer c.dnum) || fl.is_negative c.dnum || fl.exceeds 500 c.dnum
      then record c { dispstr = codes "error"; entered = 3 }
      else with_dnum (factorial (fl.to_int c.dnum)) c

  -- The switch of `oneop`. kSQR, k10X and kEXP turn the inverse flag first.
  abbrev pub math_fn : OneOp → Calc D → Calc D
  math_fn k_e c = with_dnum fl.m_e c
  math_fn k_pi c = with_dnum fl.m_pi c
  math_fn k_recip c = with_dnum (fl.function inverted c.dnum) c
  math_fn k_sqr c = by_inverse (not c.flag_inv) square square_root c
  math_fn k_sqrt c = by_inverse c.flag_inv square square_root c
  math_fn k_10x c = by_inverse (not c.flag_inv) power_of_ten log10 c
  math_fn k_log c = by_inverse c.flag_inv power_of_ten log10 c
  math_fn k_exp c = by_inverse (not c.flag_inv) exp log c
  math_fn k_ln c = by_inverse c.flag_inv exp log c
  math_fn k_sin c = angle asin sin c
  math_fn k_cos c = angle acos cos c
  math_fn k_tan c = angle atan tan c
  math_fn k_sto c = with_mem c.dnum c
  math_fn k_rcl c = with_mem c.modes.mem_0 (with_dnum c.modes.mem_0 c)
  math_fn k_sum c = with_mem (fl.plus c.modes.mem_0 c.dnum) c
  math_fn k_exc c = with_mem c.dnum (with_dnum c.modes.mem_0 c)
  math_fn k_fact c = fact c
  math_fn k_not c = with_dnum (fl.function complement c.dnum) c
  math_fn k_trunc c = with_dnum (fl.function truncated c.dnum) c

  unfoldable pub oneop : OneOp → Calc D → Calc D
  oneop op c =
      let x = if c.entered == 1 then fl.scanned c.numbase c.dispstr c.dnum else c.dnum in
      let c1 = math_fn op (record c { dnum = x; entered = 2 }) in
      draw_display (
        if c1.entered == 3 then c1 else record c1 {
          entered = 2;
          clrdisp = 1;
          flag_inv = false;
          dispstr = fl.printed c1.numbase c1.dnum;
        })

  -- (drgmode + 1) % 3
  abbrev pub next_mode : DrgMode → DrgMode
  next_mode deg = rad
  next_mode rad = grad
  next_mode grad = deg

  -- With the inverse flag the number is converted, too.
  abbrev pub converted : Calc D → Calc D
  converted c =
      let x = if c.entered == 1 then fl.scanned c.numbase c.dispstr c.dnum else c.dnum in
      let y = fl.in_next_mode c.modes.drgmode x in
      if c.flag_inv
      then record c { dnum = y; entered = 2; clrdisp = 1; dispstr = fl.printed c.numbase y }
      else c

  unfoldable pub drgf : Calc D → Calc D
  drgf c =
      let c1 = converted c in
      draw_display (record c1 {
        flag_inv = false;
        modes = record {
          mem_0 = c1.modes.mem_0;
          flag_m = c1.modes.flag_m;
          drgmode = next_mode c1.modes.drgmode;
        };
      })

  -- `offf`, with `ResetCalc`
  unfoldable pub offf : Calc D → Calc D
  offf c = draw_display (record c {
    modes = record { mem_0 = fl.zero_value; flag_m = false; drgmode = deg };
    flag_inv = false;
    flag_paren = pos 0;
    dispstr = codes "0";
    opstack = [];
    numstack = [];
    entered = 1;
    clrdisp = 1;
    dnum = fl.zero_value;
    exponent = 0;
    d_point = 0;
  })

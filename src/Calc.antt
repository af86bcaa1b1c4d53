-- ===== src/Calc.antt =====
-- calc/src/math.c in infix mode (rpn is 0, and IEEE is defined as in calc/CMakeLists.txt): digits and their
-- editing, parentheses, operators, functions, the memory, =, CLR and OFF. The arithmetic on doubles, and how
-- they are read and printed, are arguments. An operation is none when it ends the process: an integer remainder
-- by zero raises SIGFPE.
pub mod Editing
pub mod OneOp
pub mod Infix
pub mod Stacks
pub mod Chain
mod Tests
use isde.Common.{
  ℕ, zero, suc, ◌+◌, ◌-◌, ◌<◌, ◌==◌, ltb, leb, Bool, true, false, not, ◌&&◌, ◌||◌, List, [], ◌∷◌,
  ◌++◌, Option, none, some, Str, codes, length, take, fit, is_empty, if◌then◌else◌, ◌>>=◌,
}
use isde.Common.Int.{ℤ, pos, ◌+ℤ◌, ◌-ℤ◌}

-- The keys that are on the stack of operators.
pub data Op : Type 0 where
  k_add k_sub k_mul k_div k_pow k_mod k_and k_or k_xor k_shl k_shr k_lpar k_nop : Op

pub data DrgMode : Type 0 where
  deg rad grad : DrgMode

-- The functions of <math.h> and the operators on one number: 1.0 / x, x * x, sqrt, pow(10.0, x) and so on up
-- to ~(long) x and trunc.
pub data Function : Type 0 where
  inverted square square_root power_of_ten log10 exp log : Function
  asin acos atan sin cos tan complement truncated : Function

-- The doubles: 0.0; sscanf, which keeps the old value of what is no number, and snprintf in a base;
-- acc = acc op dnum; dnum >= 0; the decimal point of the locale; x == 0.0; *, +, M_E, M_PI and an int as a
-- double; the factors to and from radians in a mode, and the conversion to the next mode; floor(x) == x,
-- x < 0.0, x > n and (int) x.
pub record Doubles (D : Type 0) : Type 0 where
  pub zero_value : D
  pub scanned : (numbase : ℕ) → Str → D → D
  pub printed : (numbase : ℕ) → D → Str
  pub binary : Op → D → D → Option D
  pub is_nonnegative : D → Bool
  pub decimal_point : Str
  pub is_zero_value : D → Bool
  pub times : D → D → D
  pub plus : D → D → D
  pub m_e : D
  pub m_pi : D
  pub whole : ℕ → D
  pub drg2rad : DrgMode → D
  pub rad2drg : DrgMode → D
  pub in_next_mode : DrgMode → D → D
  pub function : Function → D → D
  pub is_integer : D → Bool
  pub is_negative : D → Bool
  pub exceeds : ℕ → D → Bool
  pub to_int : D → ℕ

-- mem[0], and the flags that only the keys of one operand use
pub record Modes (D : Type 0) : Type 0 where
  pub mem_0 : D
  pub flag_m : Bool
  pub drgmode : DrgMode

-- The static variables. The stacks have their top first; `opsp` and `numsp` are their lengths.
pub record Calc (D : Type 0) : Type 0 where
  pub modes : Modes D
  pub flag_inv : Bool
  pub flag_paren : ℤ
  pub numbase : ℕ
  pub entered : ℕ
  pub clr : ℕ
  pub d_point : ℕ
  pub clrdisp : ℕ
  pub exponent : ℕ
  pub lastop : Op
  pub acc : D
  pub dnum : D
  pub dispstr : Str
  pub opstack : List Op
  pub numstack : List D

-- STACKMAX
abbrev pub stack_max : ℕ
stack_max = 32

abbrev pub priority : Op → ℕ
priority k_pow = 6
priority k_mul = 5
priority k_div = 5
priority k_mod = 5
priority k_add = 4
priority k_sub = 4
priority k_shl = 3
priority k_shr = 3
priority k_and = 2
priority k_xor = 1
priority _ = 0

-- strchr(dispstr, 'e'), or none
abbrev pub from_e : Str → Option Str
from_e [] = none
from_e (c ∷ s) = let rest = from_e s in if c == 101 then some (c ∷ s) else rest

-- The shortening in `DrawDisplay`.
unfoldable pub shortened : Str → Str
shortened s = if ltb (length s) 11 then s else (elim (from_e s) [
  | none ↦ take 12 s
  | some e ↦ if leb (length e) 4 then fit 32 (take 8 s ++ e) else fit 32 (take 7 s ++ e)
])

-- The character of a digit key, in a base.
unfoldable pub digit_char : (numbase digit : ℕ) → Option ℕ
digit_char b d =
    if ltb d 8
    then some (48 + d)
    else if ltb d 10
    then (if ltb 8 b then some (48 + d) else none)
    else if ltb d 16 && ltb 10 b
    then some (55 + d)
    else none

module _ {D : Type 0} where
  abbrev pub draw_display : Calc D → Calc D
  draw_display c = record c { dispstr = shortened c.dispstr }

  abbrev pub stack_error : Calc D → Calc D
  stack_error c = record c { dispstr = codes "stack error"; entered = 3 }

  unfoldable pub push_op : Op → Calc D → Calc D
  push_op op c =
      if length c.opstack == stack_max then stack_error c else record c { opstack = op ∷ c.opstack }

  unfoldable pub pop_op : Calc D → Op × Calc D
  pop_op c = elim c.opstack [
    | [] ↦ (k_nop, stack_error c)
    | op ∷ ops ↦ (op, record c { opstack = ops })
  ]

  unfoldable pub push_num : D → Calc D → Calc D
  push_num x c =
      if length c.numstack == stack_max
      then stack_error c
      else record c { numstack = x ∷ c.numstack }

  -- `lparf`
  unfoldable pub lparf : Calc D → Calc D
  lparf c =
      let c' = push_op k_lpar (record c { flag_inv = false }) in
      draw_display (record c' { flag_paren = c'.flag_paren +ℤ pos 1 })

  -- `clearf`: a second CLR clears all.
  unfoldable pub clearf : Calc D → Calc D
  clearf c =
      let all = not (c.clr == 0) in
      record c {
        flag_inv = false;
        opstack = if all then [] else c.opstack;
        numstack = if all then [] else c.numstack;
        flag_paren = if all then pos 0 else c.flag_paren;
        clr = suc c.clr;
        exponent = 0;
        d_point = 0;
        clrdisp = 1;
        entered = 1;
        dispstr = codes "0";
      }

  abbrev pub cleared_display : Calc D → Calc D
  cleared_display c =
      if c.clrdisp == 0 then c else record c { dispstr = []; exponent = 0; d_point = 0 }

  abbrev pub typed : (digit : ℕ) → Calc D → Calc D
  typed d c = elim (digit_char c.numbase d) [
    | none ↦ c
    | some ch ↦ record c {
      dispstr = shortened (c.dispstr ++ ch ∷ []);
      clrdisp = if d == 0 then c.clrdisp else 0;
      entered = 1;
    }
  ]

  -- `numeric`, for a digit from 0 to 15
  unfoldable pub numeric : (digit : ℕ) → Calc D → Calc D
  numeric d c =
      let c' = cleared_display (record c { flag_inv = false }) in
      if leb 11 (length c'.dispstr) then c' else typed d c'

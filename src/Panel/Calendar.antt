-- ===== src/Panel/Calendar.antt =====
-- panel/src/calendar.c: the month that the popup shows, and its 42 cells. The widgets are left out: a cell is
-- the number and the colours that its widget is given. An `int` is an unbounded integer.
pub mod Days
pub mod Weekday
pub mod Grid
pub mod Paging
use isde.Common.{
  ℕ, zero, suc, ◌+◌, ◌-◌, ◌*◌, ◌/◌, ◌%◌, Bool, true, false, not, ◌&&◌, ◌||◌, Option, none, some,
  List, [], ◌∷◌, ◌==◌, ltb, get_elem?, if◌then◌else◌, Str, codes, ◌>>=◌,
}
use isde.Common.Int.{ℤ, pos, negsuc, ◌+ℤ◌, ◌-ℤ◌, ltb_ℤ, pos_part, neg_part}

-- The C operators / and % by a positive constant, which round to zero.
abbrev pub negated : ℕ → ℤ
negated zero = pos 0
negated (suc n) = negsuc n

unfoldable pub quot : ℤ → ℕ → ℤ
quot (pos n) k = pos (n / k)
quot (negsuc n) k = negated (suc n / k)

unfoldable pub rem : ℤ → ℕ → ℤ
rem (pos n) k = pos (n % k)
rem (negsuc n) k = negated (suc n % k)

abbrev pub eq_ℤ : ℤ → ℤ → Bool
eq_ℤ (pos a) (pos b) = a == b
eq_ℤ (negsuc a) (negsuc b) = a == b
eq_ℤ a b = false

-- CAL_CELLS
abbrev pub cal_cells : ℕ
cal_cells = 42

abbrev pub dim : List ℕ
dim = 31 ∷ 28 ∷ 31 ∷ 30 ∷ 31 ∷ 30 ∷ 31 ∷ 31 ∷ 30 ∷ 31 ∷ 30 ∷ 31 ∷ []

unfoldable pub leap : ℤ → Bool
leap year =
    (eq_ℤ (rem year 4) (pos 0) && not (eq_ℤ (rem year 100) (pos 0))) || eq_ℤ (rem year 400) (pos 0)

-- `none` is a read outside of the table.
unfoldable pub days_in_month : (year : ℤ) (mon : ℕ) → Option ℕ
days_in_month year mon = elim (get_elem? dim mon) [
  | none ↦ none
  | some d ↦ some (if (mon == 1) && leap year then 29 else d)
]

abbrev pub offsets : List ℕ
offsets = 0 ∷ 3 ∷ 2 ∷ 5 ∷ 0 ∷ 3 ∷ 5 ∷ 1 ∷ 4 ∷ 6 ∷ 2 ∷ 4 ∷ []

unfoldable pub sakamoto : (y : ℤ) (t : ℕ) → ℤ
sakamoto y t =
    let d = rem (y +ℤ quot y 4 -ℤ quot y 100 +ℤ quot y 400 +ℤ pos t +ℤ pos 1) 7 in
    rem (d +ℤ pos 6) 7

-- The day of the week of the 1st of the month, 0 for Monday.
unfoldable pub dow_first : (year : ℤ) (mon : ℕ) → Option ℤ
dow_first year mon = elim (get_elem? offsets mon) [
  | none ↦ none
  | some t ↦ some (sakamoto (if ltb mon 2 then year -ℤ pos 1 else year) t)
]

pub record Panel : Type 0 where
  pub cal_year : ℤ
  pub cal_month : ℕ

-- struct tm
pub record Tm : Type 0 where
  pub tm_year : ℤ
  pub tm_mon : ℕ
  pub tm_mday : ℕ

pub data Pixel : Type 0 where
  normal_bg normal_fg dim_fg sel_bg sel_fg : Pixel

pub record Cell : Type 0 where
  pub label : ℤ
  pub fg : Pixel
  pub bg : Pixel

abbrev pub cell : ℤ → Pixel → Pixel → Cell
cell n fg bg = record { label = n; fg = fg; bg = bg }

-- The body of the loop over the cells.
unfoldable pub cell_at : (ndays prev_ndays : ℕ) (start_dow today_day : ℤ) (i : ℕ) → Cell
cell_at ndays prev_ndays start_dow today_day i =
    let day_num = pos i -ℤ start_dow +ℤ pos 1 in
    if ltb_ℤ (pos i) start_dow
    then cell (pos prev_ndays -ℤ start_dow +ℤ pos i +ℤ pos 1) dim_fg normal_bg
    else if ltb_ℤ (pos ndays) day_num
    then cell (day_num -ℤ pos ndays) dim_fg normal_bg
    else if eq_ℤ day_num today_day
    then cell day_num sel_fg sel_bg
    else cell day_num normal_fg normal_bg

abbrev pub cells_from : (i rounds : ℕ) → (ℕ → Cell) → List Cell
cells_from i zero f = []
cells_from i (suc rounds) f = f i ∷ cells_from (suc i) rounds f

abbrev pub months : List Str
months =
    codes "January"
    ∷ codes "February"
    ∷ codes "March"
    ∷ codes "April"
    ∷ codes "May"
    ∷ codes "June"
    ∷ codes "July"
    ∷ codes "August"
    ∷ codes "September"
    ∷ codes "October"
    ∷ codes "November"
    ∷ codes "December"
    ∷ []

-- The title's two parts, and the cells.
pub record Popup : Type 0 where
  pub month_name : Str
  pub year : ℤ
  pub cells : List Cell

abbrev pub today_in : Tm → Panel → ℤ
today_in tm p =
    if eq_ℤ (tm.tm_year +ℤ pos 1900) p.cal_year && (tm.tm_mon == p.cal_month)
    then pos tm.tm_mday
    else negsuc 0

-- `prev_ndays`
abbrev pub previous_days : Panel → Option ℕ
previous_days p =
    days_in_month (if p.cal_month == 0 then p.cal_year -ℤ pos 1 else p.cal_year)
      (if p.cal_month == 0 then 11 else p.cal_month - 1)

unfoldable pub calendar_populate : Tm → Panel → Option Popup
calendar_populate tm p = do
  name ← get_elem? months p.cal_month
  ndays ← days_in_month p.cal_year p.cal_month
  start_dow ← dow_first p.cal_year p.cal_month
  prev_ndays ← previous_days p
  some (record {
    month_name = name;
    year = p.cal_year;
    cells = cells_from 0 cal_cells (cell_at ndays prev_ndays start_dow (today_in tm p));
  })

abbrev pub prev_month : Panel → Panel
prev_month p =
    if p.cal_month == 0
    then record { cal_year = p.cal_year -ℤ pos 1; cal_month = 11 }
    else record p { cal_month = p.cal_month - 1 }

abbrev pub next_month : Panel → Panel
next_month p =
    if ltb 11 (suc p.cal_month)
    then record { cal_year = p.cal_year +ℤ pos 1; cal_month = 0 }
    else record p { cal_month = suc p.cal_month }

unfoldable pub prev_month_cb : Tm → Panel → Panel × Option Popup
prev_month_cb tm p = (prev_month p, calendar_populate tm (prev_month p))

unfoldable pub next_month_cb : Tm → Panel → Panel × Option Popup
next_month_cb tm p = (next_month p, calendar_populate tm (next_month p))

-- The part of `calendar_toggle` that resets to the current month.
unfoldable pub calendar_reset : Tm → Panel
calendar_reset tm = record { cal_year = tm.tm_year +ℤ pos 1900; cal_month = tm.tm_mon }

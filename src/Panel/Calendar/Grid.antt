-- ===== src/Panel/Calendar/Grid.antt =====
-- The 42 cells are 42 days in a row, each in the column of its weekday.
use isde.Common.{
  ap, ◌∙◌, ℕ, zero, suc, ◌+◌, ◌-◌, ◌%◌, ◌<◌, ◌≤◌, ◌≡◌, refl, inl, inr, Bool, true, false, not, some,
  Bool-cases, ltb, ◌==◌, get_elem?, get_elem?-all, leb, ◌&&◌, arith, Str,
}
use isde.Common.Int.{ℤ, pos, ◌+ℤ◌, ◌-ℤ◌}
use isde.Panel.Calendar.{
  dim, days_in_month, Panel, Tm, dim_fg, Cell, cell_at, cells_from, cal_cells, months,
  calendar_populate, today_in, previous_days, Popup,
}
use isde.Panel.Calendar.Days.{month_length, days_to_month, days_before}
use isde.Panel.Calendar.Weekday.{leap_days, minus_one, dow_first-days_before}

-- The month `mon` of year n + 1.
abbrev pub at : (n mon : ℕ) → Panel
at n mon = record { cal_year = pos (suc n); cal_month = mon }

abbrev pub is_dim : Cell → Bool
is_dim c = elim c.fg [ dim_fg ↦ true | _ ↦ false ]

-- What the tables give for a month.
record Month (y mon : ℕ) : Type 0 where
  days : days_in_month (pos y) mon ≡ some (month_length y mon)
  titled : (name : Str) × (get_elem? months mon ≡ some name)
  at_least : 28 ≤ month_length y mon
  at_most : month_length y mon ≤ 31

month : (y mon : ℕ) → mon < 12 → Month y mon
unfolding days_in_month month_length
month y mon h =
    let (d, e, good) = get_elem?-all (λ d. leb 28 d && leb d 31) dim mon refl h in
    let (name, titled, _) = get_elem?-all (λ _. true) months mon refl h in
    record {
      days = rw e refl;
      titled = (name, titled);
      at_least = rw e (ground arith);
      at_most = rw e (ground arith);
    }

-- The cell shows a day of a month: the day of the given number, counted from 1 January of year 1 as 0.
-- Days of other months than the `mon` of the title are dim.
pub record Shows (mon count : ℕ) (c : Cell) : Type 0 where
  pub year : ℕ
  pub month : ℕ
  pub day : ℕ
  pub month_lt : month < 12
  pub day_pos : 1 ≤ day
  pub day_le : day ≤ month_length (suc year) month
  pub counted : days_before year month + day ≡ suc count
  pub label : c.label ≡ pos day
  pub grey : is_dim c ≡ not (month == mon)

-- A month, of the day that the 1st of another month is compared to.
record PrevMonth (n mon : ℕ) : Type 0 where
  year : ℕ
  month : ℕ
  month_lt : month < 12
  other : (month == mon) ≡ false
  counted : days_before (suc n) mon ≡ days_before year month + month_length (suc year) month
  previous : previous_days (at (suc n) mon) ≡ some (month_length (suc year) month)

prev-PrevMonth : (n mon : ℕ) → mon < 12 → PrevMonth n mon
unfolding days_before days_to_month
prev-PrevMonth n zero h = record {
  year = n;
  month = 11;
  month_lt = omega arith;
  other = refl;
  counted = omega (arith, leap_days n);
  previous = rw minus_one (Month.days (month (suc n) 11 (omega arith)));
}
prev-PrevMonth n (suc m) h = record {
  year = suc n;
  month = m;
  month_lt = omega arith;
  other = ground arith;
  counted = omega arith;
  previous = ground (arith, Month.days (month (suc (suc n)) m (omega arith)));
}

record NextMonth (n mon : ℕ) : Type 0 where
  year : ℕ
  month : ℕ
  month_lt : month < 12
  other : (month == mon) ≡ false
  counted : days_before year month ≡ days_before n mon + month_length (suc n) mon

next-NextMonth : (n mon : ℕ) → mon < 12 → NextMonth n mon
unfolding days_before days_to_month
next-NextMonth n mon h = elim (Bool-cases (mon == 11)) [
  | inl e ↦
      let last : mon ≡ 11 = ground arith in
      record {
        year = suc n;
        month = 0;
        month_lt = omega arith;
        other = ground arith;
        counted = rw last (omega (arith, leap_days n));
      }
  | inr e ↦ record {
    year = n;
    month = suc mon;
    month_lt = ground arith;
    other = ground arith;
    counted = omega arith;
  }
]

get_elem?-cells_from :
    (f : ℕ → Cell) (rounds i k : ℕ)
    → k < rounds
    → get_elem? (cells_from i rounds f) k ≡ some (f (i + k))
get_elem?-cells_from f zero i k h = absurd (omega arith)
get_elem?-cells_from f (suc r) i zero h = let e : i + 0 ≡ i = omega arith in rw e refl
get_elem?-cells_from f (suc r) i (suc k) h =
    let e : i + suc k ≡ suc i + k = omega arith in
    rw e (get_elem?-cells_from f r (suc i) k (omega arith))

get_elem?-cells :
    (f : ℕ → Cell) (rounds k : ℕ) → k < rounds → get_elem? (cells_from 0 rounds f) k ≡ some (f k)
get_elem?-cells f rounds k h =
    let e : 0 + k ≡ k = omega arith in get_elem?-cells_from f rounds 0 k h ∙ ap (λ j. some (f j)) e

-- The three kinds of cell.
data CellKind (nd pd s i : ℕ) (c : Cell) : Type 0 where
  before : i < s → c.label ≡ pos (pd + i + 1 - s) → is_dim c ≡ true → CellKind nd pd s i c
  inside : s ≤ i → i < s + nd → c.label ≡ pos (i + 1 - s) → is_dim c ≡ false → CellKind nd pd s i c
  after : s + nd ≤ i → c.label ≡ pos (i + 1 - s - nd) → is_dim c ≡ true → CellKind nd pd s i c

cell_at-CellKind :
    (nd pd s i : ℕ) (today : ℤ) → s ≤ pd → CellKind nd pd s i (cell_at nd pd (pos s) today i)
unfolding cell_at ◌+ℤ◌ ◌-ℤ◌
cell_at-CellKind nd pd s i today h = elim (Bool-cases (ltb i s)) [
  | inl e ↦ before (ground arith) (ground arith) (ground arith)
  | inr e ↦ elim (Bool-cases (ltb (nd + s) (suc i))) [
    | inl e' ↦ after (ground arith) (ground arith) (ground arith)
    | inr e' ↦ inside (ground arith) (ground arith) (ground arith) (ground arith)
  ]
]

module _ (n mon : ℕ) (h : mon < 12) where
  kind-Shows :
      (i : ℕ) (c : Cell)
      → i < cal_cells
      → (prev : PrevMonth n mon)
      → CellKind
          (month_length (suc (suc n)) mon)
          (month_length (suc prev.year) prev.month)
          (days_before (suc n) mon % 7)
          i
          c
      → Shows mon (days_before (suc n) mon - days_before (suc n) mon % 7 + i) c
  kind-Shows i c b prev (before lt label dim) =
      let this = month (suc prev.year) prev.month prev.month_lt in
      record {
        year = prev.year;
        month = prev.month;
        day = month_length (suc prev.year) prev.month + i + 1 - days_before (suc n) mon % 7;
        month_lt = prev.month_lt;
        day_pos = omega (arith, this.at_least);
        day_le = omega (arith, this.at_least);
        counted = omega (arith, this.at_least, prev.counted);
        label = label;
        grey = rw (prev.other) dim;
      }
  kind-Shows i c b prev (inside le lt label dim) = record {
    year = suc n;
    month = mon;
    day = i + 1 - days_before (suc n) mon % 7;
    month_lt = h;
    day_pos = omega arith;
    day_le = omega arith;
    counted = omega arith;
    label = label;
    grey = ground arith;
  }
  kind-Shows i c b prev (after le label dim) =
      let next = next-NextMonth (suc n) mon h in
      let this = month (suc (suc n)) mon h in
      let other = month (suc next.year) next.month next.month_lt in
      record {
        year = next.year;
        month = next.month;
        day = i + 1 - days_before (suc n) mon % 7 - month_length (suc (suc n)) mon;
        month_lt = next.month_lt;
        day_pos = omega arith;
        day_le = omega (arith, this.at_least, other.at_least);
        counted = omega (arith, next.counted);
        label = label;
        grey = rw (next.other) dim;
      }

  -- In a month from year 2 on, the popup has a title and 42 cells, and the cells show 42 days in a row
  -- of which the first is a Monday: the label of each is the day's number in its month, and it is dim when
  -- that is another month than the title's.
  pub calendar_populate-Shows :
      (tm : Tm) (i : ℕ)
      → i < cal_cells
      → (pop : Popup) × (c : Cell) × (calendar_populate tm (at (suc n) mon) ≡ some pop)
        × (get_elem? pop.cells i ≡ some c)
        × ((days_before (suc n) mon - days_before (suc n) mon % 7) % 7 ≡ 0)
        × Shows mon (days_before (suc n) mon - days_before (suc n) mon % 7 + i) c
  unfolding calendar_populate
  calendar_populate-Shows tm i b =
      let prev = prev-PrevMonth n mon h in
      let this = month (suc (suc n)) mon h in
      let (name, titled) = this.titled in
      let today = today_in tm (at (suc n) mon) in
      let first = days_before (suc n) mon % 7 in
      let ndays = month_length (suc (suc n)) mon in
      let prev_ndays = month_length (suc prev.year) prev.month in
      let enough = Month.at_least (month (suc prev.year) prev.month prev.month_lt) in
      rw (titled, this.days, dow_first-days_before (suc n) mon h, prev.previous)
        (
          _,
          _,
          refl,
          get_elem?-cells (cell_at ndays prev_ndays (pos first) today) cal_cells i b,
          omega arith,
          kind-Shows i _ b prev
              (cell_at-CellKind ndays prev_ndays first i today (omega (arith, enough))),
        )

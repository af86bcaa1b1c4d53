-- ===== src/Panel/Calendar/Paging.antt =====
-- Turning the pages of the calendar.
use isde.Common.{
  ℕ, ◌<◌, ◌≡◌, refl, true, some, List, [], ◌∷◌, arith, is_some, Option, get_elem?-all,
}
use isde.Common.Int.{ℤ, pos, ◌+ℤ◌, ◌-ℤ◌, int_laws}
use isde.Panel.Calendar.{
  Panel, Tm, Popup, months, dim, offsets, days_in_month, dow_first, previous_days, prev_month,
  next_month, prev_month_cb, next_month_cb, calendar_reset, calendar_populate,
}

sub_add : (y : ℤ) → y -ℤ pos 1 +ℤ pos 1 ≡ y
sub_add y = grind int_laws

add_sub : (y : ℤ) → y +ℤ pos 1 -ℤ pos 1 ≡ y
add_sub y = grind int_laws

prev-next : (p : Panel) → p.cal_month < 12 → prev_month (next_month p) ≡ p
prev-next p h = ground (arith, add_sub p.cal_year)

next-prev : (p : Panel) → p.cal_month < 12 → next_month (prev_month p) ≡ p
next-prev p h = ground (arith, sub_add p.cal_year)

-- With a month below 12, the next page's previous page and the previous page's next one are the page that
-- was shown.
pub prev_month_cb-next_month_cb :
    (tm : Tm) (p : Panel)
    → p.cal_month < 12
    → (prev_month_cb tm (next_month_cb tm p).0 ≡ (p, calendar_populate tm p))
      × (next_month_cb tm (prev_month_cb tm p).0 ≡ (p, calendar_populate tm p))
unfolding prev_month_cb next_month_cb
prev_month_cb-next_month_cb tm p h = rw (prev-next p h, next-prev p h) (refl, refl)

-- A press on one of the two buttons.
pub data Press : Type 0 where
  prev next : Press

abbrev pub pressed : Tm → Press → Panel → Panel × Option Popup
pressed tm prev p = prev_month_cb tm p
pressed tm next p = next_month_cb tm p

-- The popup is opened and the buttons are pressed, the last press first, at the times of the clock.
abbrev pub turned : Tm → List (Tm × Press) → Panel × Option Popup
turned tm [] = (calendar_reset tm, calendar_populate tm (calendar_reset tm))
turned tm ((now, b) ∷ bs) = pressed now b (turned tm bs).0

days_in_month-some : (y : ℤ) (mon : ℕ) → mon < 12 → (d : ℕ) × (days_in_month y mon ≡ some d)
unfolding days_in_month
days_in_month-some y mon h =
    let (_, e, _) = get_elem?-all (λ _. true) dim mon refl h in rw e (_, refl)

dow_first-some : (y : ℤ) (mon : ℕ) → mon < 12 → (d : ℤ) × (dow_first y mon ≡ some d)
unfolding dow_first
dow_first-some y mon h =
    let (_, e, _) = get_elem?-all (λ _. true) offsets mon refl h in rw e (_, refl)

previous_days-some : (p : Panel) → p.cal_month < 12 → (d : ℕ) × (previous_days p ≡ some d)
previous_days-some p h = days_in_month-some _ _ (ground arith)

populate-is_some :
    (tm : Tm) (p : Panel) → p.cal_month < 12 → is_some (calendar_populate tm p) ≡ true
unfolding calendar_populate
populate-is_some tm p h =
    let (_, named, _) = get_elem?-all (λ _. true) months p.cal_month refl h in
    rw
      (
        named,
        (days_in_month-some p.cal_year p.cal_month h).1,
        (dow_first-some p.cal_year p.cal_month h).1,
        (previous_days-some p h).1,
      )
      refl

next_month-lt : (p : Panel) → p.cal_month < 12 → (next_month p).cal_month < 12
next_month-lt p h = ground arith

prev_month-lt : (p : Panel) → p.cal_month < 12 → (prev_month p).cal_month < 12
prev_month-lt p h = ground arith

-- When the clock gives a month below 12, every page that the buttons lead to has a month below 12 and is
-- filled: no read is outside of the tables.
pub turned-is_some :
    (tm : Tm) (bs : List (Tm × Press))
    → tm.tm_mon < 12
    → ((turned tm bs).0.cal_month < 12) × (is_some (turned tm bs).1 ≡ true)
unfolding calendar_reset prev_month_cb next_month_cb
turned-is_some tm [] h = (h, populate-is_some tm (calendar_reset tm) h)
turned-is_some tm ((now, prev) ∷ bs) h =
    let small = prev_month-lt (turned tm bs).0 (turned-is_some tm bs h).0 in
    (small, populate-is_some now (prev_month (turned tm bs).0) small)
turned-is_some tm ((now, next) ∷ bs) h =
    let small = next_month-lt (turned tm bs).0 (turned-is_some tm bs h).0 in
    (small, populate-is_some now (next_month (turned tm bs).0) small)

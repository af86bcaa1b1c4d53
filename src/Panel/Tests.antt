-- ===== src/Panel/Tests.antt =====
-- The calendar at concrete months.
use isde.Common.{◌+◌, ◌-◌, ◌%◌, ◌≡◌, refl, [], ◌∷◌, some, List, get_elem?, arith}
use isde.Common.Int.{pos, ◌+ℤ◌, ◌-ℤ◌}
use isde.Panel.Calendar.{
  Tm, Popup, Cell, rem, quot, leap, sakamoto, dow_first, days_in_month, calendar_populate,
}
use isde.Panel.Calendar.Days.{days_before}
use isde.Panel.Calendar.Weekday.{dow_first-days_before}
use isde.Panel.Calendar.Grid.{at, Shows, calendar_populate-Shows}
use isde.Panel.Calendar.Paging.{Press, prev, next}

-- 25 November 2026
abbrev now : Tm
now = record { tm_year = pos 126; tm_mon = 10; tm_mday = 25 }

sunday : dow_first (pos 2026) 10 ≡ some (pos 6)
unfolding dow_first sakamoto rem quot ◌+ℤ◌ ◌-ℤ◌
sunday = refl

leap_years : (days_in_month (pos 2000) 1 ≡ some 29) × (days_in_month (pos 1900) 1 ≡ some 28)
unfolding days_in_month leap rem
leap_years = (refl, refl)

dow_first-days_before_example : dow_first (pos 2026) 10 ≡ some (pos (days_before 2025 10 % 7))
dow_first-days_before_example = dow_first-days_before 2025 10 (omega arith)

calendar_populate-Shows_example :
    (pop : Popup) × (c : Cell) × (calendar_populate now (at 2025 10) ≡ some pop)
    × (get_elem? pop.cells 30 ≡ some c)
    × ((days_before 2025 10 - days_before 2025 10 % 7) % 7 ≡ 0)
    × Shows 10 (days_before 2025 10 - days_before 2025 10 % 7 + 30) c
calendar_populate-Shows_example = calendar_populate-Shows 2024 10 (omega arith) now 30 (omega arith)

abbrev presses : List (Tm × Press)
presses = (now, next) ∷ (now, next) ∷ (now, prev) ∷ []

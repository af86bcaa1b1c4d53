-- ===== src/Panel/Calendar/Days.antt =====
-- The Gregorian calendar as a count of days: what the cells and the weekdays of the popup are compared to.
use isde.Common.{ℕ, zero, suc, ◌+◌, ◌*◌, ◌/◌, ◌≡◌, refl, none, some, if◌then◌else◌, arith}
use isde.Common.Int.{pos}
use isde.Panel.Calendar.{rem, leap, days_in_month}

unfoldable pub year_length : (n : ℕ) → ℕ
year_length n = if leap (pos n) then 366 else 365

-- The days from 1 January of year 1 to 1 January of year n + 1.
unfoldable pub days_to_year : ℕ → ℕ
days_to_year zero = 0
days_to_year (suc n) = days_to_year n + year_length (suc n)

unfoldable pub month_length : (year mon : ℕ) → ℕ
month_length year mon = elim (days_in_month (pos year) mon) [ none ↦ 0 | some d ↦ d ]

unfoldable pub days_to_month : (year mon : ℕ) → ℕ
days_to_month year zero = 0
days_to_month year (suc mon) = days_to_month year mon + month_length year mon

-- The days from 1 January of year 1 to the 1st of a month of year n + 1.
unfoldable pub days_before : (n mon : ℕ) → ℕ
days_before n mon = days_to_year n + days_to_month (suc n) mon

pub days_to_year_closed : (n : ℕ) → days_to_year n + n / 100 ≡ 365 * n + n / 4 + n / 400
unfolding days_to_year year_length leap rem
days_to_year_closed zero = refl
days_to_year_closed (suc n) = ground (arith, days_to_year_closed n)

-- ===== src/Panel/Calendar/Weekday.antt =====
-- The weekdays of the calendar.
use isde.Common.{
  ap, ℕ, zero, suc, ◌+◌, ◌-◌, ◌/◌, ◌%◌, ◌<◌, ◌≡◌, refl, inl, inr, some, Bool-cases, ◌==◌,
  if◌then◌else◌, arith,
}
use isde.Common.Int.{pos, ◌+ℤ◌, ◌-ℤ◌}
use isde.Panel.Calendar.{rem, quot, leap, sakamoto, dow_first, days_in_month}
use isde.Panel.Calendar.Days.{
  days_to_year, year_length, month_length, days_to_month, days_before, days_to_year_closed,
}

-- A proof for each number below k.
abbrev Below : (ℕ → Type 0) → ℕ → Type 0
Below P zero = Unit {0}
Below P (suc k) = P k × Below P k

Below_apply : (P : ℕ → Type 0) (k m : ℕ) → m < k → Below P k → P m
Below_apply P zero m h ps = absurd (omega arith)
Below_apply P (suc k) m h (p, ps) = elim (Bool-cases (m == k)) [
  | inl e ↦ let e' : m ≡ k = ground arith in rw e' p
  | inr e ↦ Below_apply P k m (ground arith) ps
]

sakamoto-pos : (y t : ℕ) → sakamoto (pos y) t ≡ pos ((y + y / 4 - y / 100 + y / 400 + t + 7) % 7)
unfolding sakamoto rem quot ◌+ℤ◌ ◌-ℤ◌
sakamoto-pos y t = ground arith

abbrev Right : ℕ → ℕ → Type 0
Right n mon = dow_first (pos (suc n)) mon ≡ some (pos (days_before n mon % 7))

pub leap_days : (n : ℕ) → days_to_year (suc n) ≡ days_to_year n + days_to_month (suc n) 12
unfolding days_to_year year_length days_to_month month_length days_in_month
leap_days n = ground arith

unfoldable pub leap_day : ℕ → ℕ
leap_day y = if leap (pos y) then 1 else 0

leap_day_step :
    (n : ℕ) → suc n / 4 + suc n / 400 + n / 100 ≡ n / 4 + n / 400 + suc n / 100 + leap_day (suc n)
unfolding leap_day leap rem
leap_day_step n = ground arith

february : (y : ℕ) → month_length y 1 ≡ 28 + leap_day y
unfolding leap_day month_length days_in_month
february y = ground arith

-- The sum in `sakamoto` and the count of days differ by a multiple of 7.
abbrev Agree : (y t days : ℕ) → Type 0
Agree y t days = (y + y / 4 - y / 100 + y / 400 + t + 7) % 7 ≡ days % 7

Agree-early : (n t c : ℕ) → t % 7 ≡ c % 7 → Agree n t (days_to_year n + c)
Agree-early n t c e = omega (arith, days_to_year_closed n)

Agree-late :
    (n t c : ℕ) → (t + 1) % 7 ≡ c % 7 → Agree (suc n) t (days_to_year n + (c + leap_day (suc n)))
Agree-late n t c e = omega (arith, days_to_year_closed n, leap_day_step n)

pub minus_one : (n : ℕ) → pos (suc n) -ℤ pos 1 ≡ pos n
unfolding ◌-ℤ◌
minus_one n = ground arith

module _ (n : ℕ) where
  early :
      (t c : ℕ) → t % 7 ≡ c % 7 → sakamoto (pos (suc n) -ℤ pos 1) t ≡ pos ((days_to_year n + c) % 7)
  early t c e = rw (minus_one n, sakamoto-pos n t) (ap pos (Agree-early n t c e))

  late :
      (t c : ℕ) {d : ℕ}
      → d ≡ c + leap_day (suc n)
      → (t + 1) % 7 ≡ c % 7
      → sakamoto (pos (suc n)) t ≡ pos ((days_to_year n + d) % 7)
  late t c h e = rw (h, sakamoto-pos (suc n) t) (ap pos (Agree-late n t c e))

  right : Below (Right n) 12
  unfolding dow_first days_before days_to_month month_length days_in_month ◌-ℤ◌
  right =
      let february = february (suc n) in
      (
        ap some (late 4 334 (omega (arith, february)) refl),
        (
          ap some (late 2 304 (omega (arith, february)) refl),
          (
            ap some (late 6 273 (omega (arith, february)) refl),
            (
              ap some (late 4 243 (omega (arith, february)) refl),
              (
                ap some (late 1 212 (omega (arith, february)) refl),
                (
                  ap some (late 5 181 (omega (arith, february)) refl),
                  (
                    ap some (late 3 151 (omega (arith, february)) refl),
                    (
                      ap some (late 0 120 (omega (arith, february)) refl),
                      (
                        ap some (late 5 90 (omega (arith, february)) refl),
                        (
                          ap some (late 2 59 (omega (arith, february)) refl),
                          (ap some (early 3 31 refl), (ap some (early 0 0 refl), (tt))),
                        ),
                      ),
                    ),
                  ),
                ),
              ),
            ),
          ),
        ),
      )

-- From year 1 on, the weekday that `dow_first` gives to the 1st of a month is the count of the days since
-- Monday, 1 January of year 1, by the lengths of the months, modulo 7.
pub dow_first-days_before :
    (n mon : ℕ) → mon < 12 → dow_first (pos (suc n)) mon ≡ some (pos (days_before n mon % 7))
dow_first-days_before n mon h = Below_apply (Right n) 12 mon h (right n)

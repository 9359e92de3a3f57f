-- ===== src/PgTime/Calendar.antt =====
-- The Gregorian calendar by its rules, against which `civil_date` of
-- crates/libs/lib-lualib/src/sqlx_pg_datetime.rs is compared: leap years, the lengths of months, and
-- days counted year by year and month by month.
use lrust.Base.{
  ℕ, zero, suc, ◌+◌, ◌-◌, ◌*◌, ◌/◌, ◌%◌, ◌≤◌, ◌≡◌, refl, arith, Bool, ◌&&◌, ◌||◌, not, ◌==◌,
  if◌then◌else◌,
}
use lrust.Base.Int.{ℤ, pos, ◌+ℤ◌, ◌-ℤ◌, scale, div_euclid, rem_euclid}

unfoldable pub is_leap : ℕ → Bool
is_leap y = (y % 4 == 0) && (not (y % 100 == 0) || (y % 400 == 0))

abbrev pub leap_day : ℕ → ℕ
unfolding is_leap
leap_day y = if is_leap y then 1 else 0

-- The length of month number m from 1, with so many leap days.
abbrev pub days_in_month : ℕ → ℕ → ℕ
days_in_month leap m =
    if m == 2 then 28 + leap else if (m == 4) || (m == 6) || (m == 9) || (m == 11) then 30 else 31

-- The days of a year before month number m + 1.
abbrev pub days_of_months : ℕ → ℕ → ℕ
days_of_months leap zero = 0
days_of_months leap (suc m) = days_of_months leap m + days_in_month leap (suc m)

-- The days before year y, from year 0 on.
unfoldable pub days_before_year : ℕ → ℕ
unfolding is_leap
days_before_year zero = 0
days_before_year (suc y) = days_before_year y + 365 + leap_day y

pub days_before_year_closed :
    (y : ℕ) → days_before_year y + (y + 99) / 100 ≡ 365 * y + (y + 3) / 4 + (y + 399) / 400
unfolding days_before_year is_leap
days_before_year_closed zero = refl
days_before_year_closed (suc y) = ground (arith, days_before_year_closed y)

pub leap_day_le : (y : ℕ) → leap_day y ≤ 1
unfolding is_leap
leap_day_le y = ground arith

pub leap_day_400 : leap_day 400 ≡ leap_day 0
unfolding is_leap
leap_day_400 = refl

-- The calendar repeats after 400 years of 146097 days, and 2000-01-01 is 730485 days after 0000-01-01.
unfoldable pub day_number : ℤ → ℕ → ℕ → ℤ
unfolding days_before_year is_leap ◌+ℤ◌ ◌-ℤ◌ scale div_euclid rem_euclid
day_number y m d =
    let year = rem_euclid y 400 in
    scale 146097 (div_euclid y 400)
    +ℤ pos (days_before_year year + days_of_months (leap_day year) (m - 1) + d)
    -ℤ pos 730486

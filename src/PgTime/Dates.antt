-- ===== src/PgTime/Dates.antt =====
-- `civil_date` of crates/libs/lib-lualib/src/sqlx_pg_datetime.rs gives the dates of the Gregorian
-- calendar.
use mathlib.Core.Path.{subst}
use lrust.Base.{
  ℕ, ◌+◌, ◌-◌, ◌*◌, ◌/◌, ◌≤◌, ◌<◌, ◌≡◌, refl, sym, ap, ◌∙◌, arith, ltb, inl, inr, Bool-cases,
  ltb→lt, ltb-le,
}
use lrust.Base.Int.{ℤ, pos, pos_part, neg_part, ◌+ℤ◌, scale, rem_euclid}
use lrust.PgTime.{CivilDate, civil_fields}
use lrust.PgTime.Parts.{add-Is, scale-Is}
use lrust.PgTime.Calendar.{
  is_leap, leap_day, days_in_month, days_of_months, days_before_year, days_before_year_closed,
  day_number, leap_day_le, leap_day_400,
}
use lrust.PgTime.Eras.{
  yoe, doy, yoe-lt, doy-lt, doy_leap, day_in_month, after_february, before_march, doy-place,
}
use lrust.PgTime.Fields.{
  month_from, rem_euclid-lt, euclid, euclid_unique, day_number-eq, day_of_era, era_of, march_month,
  next_year, fields,
}

-- The date of a day: a month of the year and a day of that month, which the calendar counts as the
-- number of the day.
pub record IsDateOf (days : ℤ) (c : CivilDate) : Type 0 where
  pub month : ℕ
  pub day : ℕ
  pub month_is : c.month ≡ pos month
  pub day_is : c.day_of_month ≡ pos day
  pub is_month : (1 ≤ month) × (month ≤ 12)
  pub is_day : (1 ≤ day) × (day ≤ days_in_month (leap_day (rem_euclid c.year 400)) month)
  pub counted_as : day_number c.year month day ≡ days

year_parts :
    (y n : ℕ) (e : ℤ)
    → pos_part (pos y +ℤ scale 400 e +ℤ pos n) + 400 * neg_part e
      ≡ neg_part (pos y +ℤ scale 400 e +ℤ pos n) + 400 * pos_part e + (y + n)
year_parts y n e =
    omega
      (arith, add-Is (pos y +ℤ scale 400 e) (pos n), add-Is (pos y) (scale 400 e), scale-Is 400 e)

shifted :
    (days : ℤ)
    → pos_part (days +ℤ pos 10957 +ℤ pos 719468) + neg_part days
      ≡ neg_part (days +ℤ pos 10957 +ℤ pos 719468) + pos_part days + 730425
shifted days = omega (arith, add-Is (days +ℤ pos 10957) (pos 719468), add-Is days (pos 10957))

-- The days up to day number r of the era e, that day included, counted from 0000-01-01.
day_parts :
    (days z e : ℤ) (r x : ℕ)
    → pos_part z + neg_part days ≡ neg_part z + pos_part days + 730425
    → pos_part z + 146097 * neg_part e ≡ neg_part z + 146097 * pos_part e + r
    → x ≡ r + 61
    → pos_part days + 146097 * neg_part e + 730486 ≡ neg_part days + 146097 * pos_part e + x
day_parts days z e r x h g f = omega (arith, h, g, f)

leap_count :
    (y : ℕ)
    → (y + 3) / 4 + (y + 399) / 400 + leap_day y + y / 100 ≡ y / 4 + y / 400 + (y + 99) / 100 + 1
unfolding is_leap
leap_count y = ground arith

spring :
    (k y q j : ℕ)
    → k + y / 100 ≡ 365 * y + y / 4 + q
    → y < 400
    → j < 10
    → days_of_months (leap_day y) (j + 2) + day_in_month q j ≡ q + 60 + leap_day y
    → days_before_year y + days_of_months (leap_day y) (j + 2) + day_in_month q j ≡ k + 61
spring k y q j h b early months =
    omega (arith, h, b, months, days_before_year_closed y, leap_count y)

winter :
    (k y q j : ℕ)
    → k + y / 100 ≡ 365 * y + y / 4 + q
    → y < 400
    → days_of_months (leap_day (y + 1)) (j - 10) + day_in_month q j + 305 ≡ q
    → days_before_year (y + 1) + days_of_months (leap_day (y + 1)) (j - 10) + day_in_month q j
      ≡ k + 61
winter k y q j h b months = omega (arith, h, b, months, days_before_year_closed (y + 1))

abbrev civil : ℕ → ℤ → ℕ → ℕ → ℕ → CivilDate
civil y e n m d = record {
  year = pos y +ℤ scale 400 e +ℤ pos n;
  month = pos m;
  day_of_month = pos d;
}

-- Year number r of the era `by`, and month number i + 1.
assemble :
    (days e by : ℤ) (y n r i d : ℕ)
    → r < 400
    → pos_part (pos y +ℤ scale 400 e +ℤ pos n) + 400 * neg_part by
      ≡ neg_part (pos y +ℤ scale 400 e +ℤ pos n) + 400 * pos_part by + r
    → i < 12
    → 1 ≤ d
    → d ≤ days_in_month (leap_day r) (i + 1)
    → pos_part days + 146097 * neg_part by + 730486
      ≡ neg_part days
        + 146097 * pos_part by
        + (days_before_year r + days_of_months (leap_day r) i + d)
    → IsDateOf days (civil y e n (i + 1) d)
assemble days e by y n r i d b year m low high sum =
    let (_, left) = euclid_unique (pos y +ℤ scale 400 e +ℤ pos n) by r b year in
    let back : i ≡ i + 1 - 1 = omega arith in
    record {
      month = i + 1;
      day = d;
      month_is = refl;
      day_is = refl;
      is_month = (omega arith, omega (arith, m));
      is_day = (low, subst (λ x. d ≤ days_in_month (leap_day x) (i + 1)) (sym left) high);
      counted_as = day_number-eq days _ by r (i + 1) d b year (
          subst
            (λ x.
              pos_part days + 146097 * neg_part by + 730486
              ≡ neg_part days
                + 146097 * pos_part by
                + (days_before_year r + days_of_months (leap_day r) x + d))
            back sum);
    }

-- The next era.
wrapped :
    (days e : ℤ) (x y : ℕ)
    → pos_part days + 146097 * neg_part e + 730486 ≡ neg_part days + 146097 * pos_part e + x
    → x ≡ y + 146097
    → pos_part days + 146097 * neg_part (e +ℤ pos 1) + 730486
      ≡ neg_part days + 146097 * pos_part (e +ℤ pos 1) + y
wrapped days e x y h g = omega (arith, h, g, add-Is e (pos 1))

early_date :
    (days e : ℤ) (k : ℕ)
    → k < 146097
    → pos_part (days +ℤ pos 10957 +ℤ pos 719468) + 146097 * neg_part e
      ≡ neg_part (days +ℤ pos 10957 +ℤ pos 719468) + 146097 * pos_part e + k
    → march_month k < 10
    → IsDateOf days
        (civil (yoe k) e 0 (march_month k + 2 + 1) (day_in_month (doy k) (march_month k)))
early_date days e k h z early =
    let (months, length) = after_february (leap_day (yoe k)) (doy k) (march_month k) early refl in
    let sum = spring k (yoe k) (doy k) (march_month k) (doy-place k h) (yoe-lt k h) early months in
    assemble days e e (yoe k) 0 (yoe k) (march_month k + 2) _ (yoe-lt k h)
      (year_parts (yoe k) 0 e ∙ omega arith) (omega arith) (omega arith) length
      (day_parts days _ e k _ (shifted days) z sum)

late_date :
    (days e : ℤ) (k : ℕ)
    → k < 146097
    → pos_part (days +ℤ pos 10957 +ℤ pos 719468) + 146097 * neg_part e
      ≡ neg_part (days +ℤ pos 10957 +ℤ pos 719468) + 146097 * pos_part e + k
    → 10 ≤ march_month k
    → IsDateOf days
        (civil (yoe k) e 1 (march_month k - 10 + 1) (day_in_month (doy k) (march_month k)))
late_date days e k h z late = elim (Bool-cases (ltb (yoe k + 1) 400)) [
  | inl f ↦
      assemble days e e (yoe k) 1 (yoe k + 1) (march_month k - 10) _ (ltb→lt _ _ f)
        (year_parts (yoe k) 1 e) few (omega arith) months.1
        (day_parts days _ e k _ (shifted days) z sum)
  | inr f ↦
      let w : yoe k + 1 ≡ 400 = omega (arith, yoe-lt k h, ltb-le _ _ f) in
      let leap : leap_day (yoe k + 1) ≡ leap_day 0 = ap leap_day w ∙ leap_day_400 in
      let counted_months = ap (λ l. days_of_months l (march_month k - 10)) leap in
      let years = ap days_before_year w in
      let first : days_before_year 0 ≡ 0 = omega (arith, days_before_year_closed 0) in
      assemble days e (e +ℤ pos 1) (yoe k) 1 0 (march_month k - 10) _ (omega arith)
        (omega (arith, year_parts (yoe k) 1 e, add-Is e (pos 1), w)) few (omega arith)
        (subst
          (λ l. day_in_month (doy k) (march_month k) ≤ days_in_month l (march_month k - 10 + 1))
          leap months.1)
        (wrapped days e _ _ (day_parts days _ e k _ (shifted days) z sum)
          (omega (arith, counted_months, years, first, days_before_year_closed 400)))
]
  where
    few : march_month k - 10 < 12
    few = omega (arith, doy-lt k h)

    months :
        (days_of_months (leap_day (yoe k + 1)) (march_month k - 10)
            + day_in_month (doy k) (march_month k)
            + 305
          ≡ doy k)
        × (day_in_month (doy k) (march_month k)
            ≤ days_in_month (leap_day (yoe k + 1)) (march_month k - 10 + 1))
    months =
        before_march (leap_day (yoe k + 1)) (doy k) (march_month k) late (doy_leap k h)
          (leap_day_le (yoe k + 1)) refl

    sum :
        days_before_year (yoe k + 1)
          + days_of_months (leap_day (yoe k + 1)) (march_month k - 10)
          + day_in_month (doy k) (march_month k)
        ≡ k + 61
    sum = winter k (yoe k) (doy k) (march_month k) (doy-place k h) (yoe-lt k h) months.0

early_month : (j : ℕ) → j < 10 → (0 ≡ next_year j) × (j + 2 + 1 ≡ month_from j)
early_month j h = (ground arith, ground arith)

late_month : (j : ℕ) → 10 ≤ j → j < 12 → (1 ≡ next_year j) × (j - 10 + 1 ≡ month_from j)
late_month j h b = (ground arith, ground arith)

march_month-lt : (k : ℕ) → k < 146097 → march_month k < 12
march_month-lt k h = omega (arith, doy-lt k h)

-- For every number of days from 2000-01-01, however far, the month is from 1 to 12, the day is one that
-- this month has in this year, and the calendar counts the date as that number of days: years of 365
-- days or 366 by the rule of leap years, and months by their lengths.
pub civil_fields-IsDateOf : (days : ℤ) → IsDateOf days (civil_fields days)
civil_fields-IsDateOf days =
    let k = day_of_era days in
    let j = march_month k in
    let below = rem_euclid-lt (days +ℤ pos 10957 +ℤ pos 719468) in
    let era = euclid (days +ℤ pos 10957 +ℤ pos 719468) in
    subst (IsDateOf days) (sym (fields days)) (elim (Bool-cases (ltb j 10)) [
      | inl e ↦
          let (n, m) = early_month j (ltb→lt j 10 e) in
          placed days (era_of days) (yoe k) _ _ (day_in_month (doy k) j) _ _ n m
            (early_date days (era_of days) k below era (ltb→lt j 10 e))
      | inr e ↦
          let (n, m) = late_month j (ltb-le j 10 e) (march_month-lt k below) in
          placed days (era_of days) (yoe k) _ _ (day_in_month (doy k) j) _ _ n m
            (late_date days (era_of days) k below era (ltb-le j 10 e))
    ])
  where
    placed :
        (days e : ℤ) (y n m d p q : ℕ)
        → n ≡ p
        → m ≡ q
        → IsDateOf days (civil y e n m d)
        → IsDateOf days (civil y e p q d)
    placed days e y n m d p q f g h =
        subst (λ x. IsDateOf days (civil y e x q d)) f
          (subst (λ x. IsDateOf days (civil y e n x d)) g h)

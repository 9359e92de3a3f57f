-- ===== src/PgTime/Fields.antt =====
-- The fields that `civil_date` of crates/libs/lib-lualib/src/sqlx_pg_datetime.rs computes, on natural
-- numbers, and the division of days and years into eras of 400 years.
use lrust.Base.{
  ℕ, ◌+◌, ◌-◌, ◌*◌, ◌/◌, ◌≤◌, ◌<◌, ◌≡◌, refl, ap, arith, true, false, ltb, leb, if◌then◌else◌, inl,
  inr, Bool-cases,
}
use lrust.Base.Int.{
  ℤ, pos, negsuc, pos_part, neg_part, ◌+ℤ◌, ◌-ℤ◌, scale, quot, div_euclid, rem_euclid, ltb_ℤ,
}
use lrust.PgTime.{civil_fields}
use lrust.PgTime.Parts.{add-Is, sub-Is, scale-Is, Is-eq, eq-pos, add-pos, sub-pos, scale-pos}
use lrust.PgTime.Calendar.{leap_day, days_of_months, days_before_year, day_number}
use lrust.PgTime.Eras.{yoe, doy, year_of_era-pos, day_of_year-pos, day_in_month}

abbrev pub month_from : ℕ → ℕ
month_from j = if ltb j 10 then j + 3 else j - 9

pub month_of :
    (j : ℕ) → pos j +ℤ (if ltb_ℤ (pos j) (pos 10) then pos 3 else negsuc 8) ≡ pos (month_from j)
month_of j = elim (Bool-cases (ltb (j + 0) 10)) [
  | inl e ↦ let low : ltb j 10 ≡ true = ground arith in rw (e, low) (add-pos j 3)
  | inr e ↦
      let high : ltb j 10 ≡ false = ground arith in
      rw (e, high) (eq-pos _ _ _ _ (add-Is (pos j) (negsuc 8)) (ground arith))
]

pub rem_euclid-lt : (z : ℤ) → rem_euclid z 146097 < 146097
unfolding rem_euclid
rem_euclid-lt (pos n) = omega arith
rem_euclid-lt (negsuc n) = omega arith

pub euclid :
    (z : ℤ)
    → pos_part z + 146097 * neg_part (div_euclid z 146097)
      ≡ neg_part z + 146097 * pos_part (div_euclid z 146097) + rem_euclid z 146097
unfolding rem_euclid div_euclid
euclid (pos n) = omega arith
euclid (negsuc n) = omega arith

pub euclid_unique :
    (y e : ℤ) (r : ℕ)
    → r < 400
    → pos_part y + 400 * neg_part e ≡ neg_part y + 400 * pos_part e + r
    → (div_euclid y 400 ≡ e) × (rem_euclid y 400 ≡ r)
unfolding rem_euclid div_euclid
euclid_unique (pos n) (pos e) r b h = (ap pos (omega arith), omega arith)
euclid_unique (negsuc n) (negsuc e) r b h = (ap negsuc (omega arith), omega arith)
euclid_unique (pos n) (negsuc e) r b h = absurd (omega arith)
euclid_unique (negsuc n) (pos e) r b h = absurd (omega arith)

pub counted :
    (e days : ℤ) (x : ℕ)
    → pos_part days + 146097 * neg_part e + 730486 ≡ neg_part days + 146097 * pos_part e + x
    → scale 146097 e +ℤ pos x -ℤ pos 730486 ≡ days
counted e days x h = Is-eq _ days (
    omega (
      arith,
      h,
      sub-Is (scale 146097 e +ℤ pos x) (pos 730486),
      add-Is (scale 146097 e) (pos x),
      scale-Is 146097 e,
    ))

-- The year y of the era e is e', r by Euclidean division.
pub day_number-eq :
    (days y e : ℤ) (r m d : ℕ)
    → r < 400
    → pos_part y + 400 * neg_part e ≡ neg_part y + 400 * pos_part e + r
    → pos_part days + 146097 * neg_part e + 730486
      ≡ neg_part days
        + 146097 * pos_part e
        + (days_before_year r + days_of_months (leap_day r) (m - 1) + d)
    → day_number y m d ≡ days
day_number-eq days y e r m d b h sum =
    let (by_e, left) = euclid_unique y e r b h in
    unfold day_number in rw (by_e, left) (counted e days _ sum)

-- The number of the day in its era, and the month from March that this gives.
abbrev pub day_of_era : ℤ → ℕ
day_of_era days = rem_euclid (days +ℤ pos 10957 +ℤ pos 719468) 146097

abbrev pub era_of : ℤ → ℤ
era_of days = div_euclid (days +ℤ pos 10957 +ℤ pos 719468) 146097

abbrev pub march_month : ℕ → ℕ
march_month k = (5 * doy k + 2) / 153

abbrev pub next_year : ℕ → ℕ
next_year j = if leb (month_from j + 0) 2 then 1 else 0

pub month_fits : (q j : ℕ) → (5 * q + 2) / 153 ≡ j → (153 * j + 2) / 5 ≤ q
month_fits q j h = omega (arith, h)

pub fields :
    (days : ℤ)
    → civil_fields days ≡ record {
      year =
          pos (yoe (day_of_era days))
          +ℤ scale 400 (era_of days)
          +ℤ pos (next_year (march_month (day_of_era days)));
      month = pos (month_from (march_month (day_of_era days)));
      day_of_month = pos (day_in_month (doy (day_of_era days)) (march_month (day_of_era days)));
    }
unfolding civil_fields quot
fields days =
    let k = day_of_era days in
    let q = doy k in
    let j = march_month k in
    rw
      (
        year_of_era-pos k,
        day_of_year-pos k (rem_euclid-lt _),
        scale-pos 5 q,
        add-pos (5 * q) 2,
        month_of j,
        scale-pos 153 j,
        add-pos (153 * j) 2,
        sub-pos q ((153 * j + 2) / 5) (month_fits q j refl),
        add-pos (q - (153 * j + 2) / 5) 1,
      )
      (unfold ◌+ℤ◌ in refl)

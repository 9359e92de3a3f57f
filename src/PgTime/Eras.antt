-- ===== src/PgTime/Eras.antt =====
-- The arithmetic of `civil_date` of crates/libs/lib-lualib/src/sqlx_pg_datetime.rs within an era of 400
-- years, on natural numbers.
use mathlib.Core.Path.{subst}
use lrust.Base.{
  sym, inl, inr, Bool-cases, ==_iff, ℕ, zero, suc, ◌+◌, ◌-◌, ◌*◌, ◌/◌, ◌≤◌, ◌<◌, ◌≡◌, refl, arith,
  ◌==◌,
}
use lrust.Base.Int.{pos, quot}
use lrust.PgTime.{year_of_era, day_of_year}
use lrust.PgTime.Parts.{add-pos, sub-pos, scale-pos}
use lrust.PgTime.Calendar.{is_leap, leap_day, days_in_month, days_of_months}

abbrev pub yoe : ℕ → ℕ
yoe k = (k - k / 1460 + k / 36524 - k / 146096) / 365

abbrev pub doy : ℕ → ℕ
doy k = k - (365 * yoe k + yoe k / 4 - yoe k / 100)

pub yoe-lt : (k : ℕ) → k < 146097 → yoe k < 400
yoe-lt k h = omega (arith, h)

pub doy-le : (k : ℕ) → k < 146097 → 365 * yoe k + yoe k / 4 - yoe k / 100 ≤ k
doy-le k h = omega (arith, h)

pub doy-lt : (k : ℕ) → k < 146097 → doy k < 366
doy-lt k h = omega (arith, h)

pub doy_leap : (k : ℕ) → k < 146097 → doy k < 365 + leap_day (yoe k + 1)
unfolding is_leap
doy_leap k h = ground (arith, h)

pub year_of_era-pos : (k : ℕ) → year_of_era (pos k) ≡ pos (yoe k)
unfolding year_of_era quot
year_of_era-pos k =
    rw
      (
        sub-pos k (k / 1460) (omega arith),
        add-pos (k - k / 1460) (k / 36524),
        sub-pos (k - k / 1460 + k / 36524) (k / 146096) (omega arith),
      )
      refl

pub day_of_year-pos : (k : ℕ) → k < 146097 → day_of_year (pos k) (pos (yoe k)) ≡ pos (doy k)
unfolding day_of_year quot
day_of_year-pos k h =
    rw
      (
        scale-pos 365 (yoe k),
        add-pos (365 * yoe k) (yoe k / 4),
        sub-pos (365 * yoe k + yoe k / 4) (yoe k / 100) (omega arith),
        sub-pos k (365 * yoe k + yoe k / 4 - yoe k / 100) (doy-le k h),
      )
      refl

-- The day of the month by its place in the year from 1 March.
abbrev pub day_in_month : ℕ → ℕ → ℕ
day_in_month q j = q - (153 * j + 2) / 5 + 1

-- From March to December: j months after March.
pub after_february :
    (leap q j : ℕ)
    → j < 10
    → (5 * q + 2) / 153 ≡ j
    → (days_of_months leap (j + 2) + day_in_month q j ≡ q + 60 + leap)
      × (day_in_month q j ≤ days_in_month leap (j + 2 + 1))
after_february leap q zero b h = (omega arith, omega arith)
after_february leap q (suc zero) b h = (omega arith, omega arith)
after_february leap q (suc (suc zero)) b h = (omega arith, omega arith)
after_february leap q (suc (suc (suc zero))) b h = (omega arith, omega arith)
after_february leap q (suc (suc (suc (suc zero)))) b h = (omega arith, omega arith)
after_february leap q (suc (suc (suc (suc (suc zero))))) b h = (omega arith, omega arith)
after_february leap q (suc (suc (suc (suc (suc (suc zero)))))) b h = (omega arith, omega arith)
after_february leap q (suc (suc (suc (suc (suc (suc (suc zero))))))) b h =
    (omega arith, omega arith)
after_february leap q (suc (suc (suc (suc (suc (suc (suc (suc zero)))))))) b h =
    (omega arith, omega arith)
after_february leap q (suc (suc (suc (suc (suc (suc (suc (suc (suc zero))))))))) b h =
    (omega arith, omega arith)
after_february leap q (suc (suc (suc (suc (suc (suc (suc (suc (suc (suc j)))))))))) b h =
    absurd (omega arith)

-- January and February of the next year.
pub before_march :
    (leap q j : ℕ)
    → 10 ≤ j
    → q < 365 + leap
    → leap ≤ 1
    → (5 * q + 2) / 153 ≡ j
    → (days_of_months leap (j - 10) + day_in_month q j + 305 ≡ q)
      × (day_in_month q j ≤ days_in_month leap (j - 10 + 1))
before_march leap q j b fits one h = elim (Bool-cases (j == 10)) [
  | inl e ↦
      subst Sums (sym ((==_iff j 10).0 e))
        (omega (arith, h, (==_iff j 10).0 e), omega (arith, h, (==_iff j 10).0 e))
  | inr e ↦
      let eleven : j ≡ 11 = ground (arith, h, fits) in
      subst Sums (sym eleven) (omega (arith, h, eleven), omega (arith, h, eleven, fits))
]
  where
    Sums : ℕ → Type 0
    Sums i =
        (days_of_months leap (i - 10) + day_in_month q i + 305 ≡ q)
        × (day_in_month q i ≤ days_in_month leap (i - 10 + 1))

pub doy-place : (k : ℕ) → k < 146097 → k + yoe k / 100 ≡ 365 * yoe k + yoe k / 4 + doy k
doy-place k h = omega (arith, doy-le k h)

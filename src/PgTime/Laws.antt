-- ===== src/PgTime/Laws.antt =====
-- Which times crates/libs/lib-lualib/src/sqlx_pg_datetime.rs prints.
use lrust.Base.{
  ◌^◌, ◌↔◌, ◌-◌, ◌^◌, ◌<◌, ◌≡◌, refl, arith, Bool, true, false, leb, Bool-cases, inl, inr, le→leb,
  leb→le, if◌then◌else◌,
}
use lrust.Base.Int.{◌≤ℤ◌, ℤ, pos, negsuc, rem_euclid, div_euclid}
use lrust.Base.Text.{Bytes, codes}
use lrust.PgTime.{Printed, printed, failed, same_ℤ, day, civil_date, time, around, timestamp}

rem_euclid-lt_day : (z : ℤ) → rem_euclid z day < day
unfolding rem_euclid
rem_euclid-lt_day (pos n) = omega arith
rem_euclid-lt_day (negsuc n) = omega arith

abbrev pub is_printed : Printed → Bool
is_printed (failed e) = false
is_printed (printed t) = true

-- `time` prints exactly the times from 00:00:00 to 24:00:00, both included.
time-range :
    (micros : ℤ) → (is_printed (time micros) ≡ true) ↔ ((pos 0 ≤ℤ micros) × (micros ≤ℤ pos day))
time-range (negsuc n) = unfold time in (λ h. cc h, λ h. absurd (omega (arith, h.0)))
time-range (pos n) = elim (Bool-cases (leb n day)) [
  | inl e ↦ unfold time in rw e (λ h. (omega arith, omega (arith, leb→le n day e)), λ h. refl)
  | inr e ↦
      unfold time in
      rw e (λ h. cc h, λ h. absurd (let fits = le→leb n day (omega (arith, h.1)) in cc (fits, e)))
]

around-is_printed :
    (utc : Bool) (before : Bytes) (t : Printed)
    → is_printed t ≡ true
    → is_printed (around utc before t) ≡ true
around-is_printed utc before (failed e) h = h
around-is_printed utc before (printed t) h = refl

if-is_printed :
    (b : Bool) (x y : Printed)
    → is_printed x ≡ true
    → is_printed y ≡ true
    → is_printed (if b then x else y) ≡ true
if-is_printed true x y h k = h
if-is_printed false x y h k = k

-- Every timestamp is printed: its part within the day is always a time, so the error of `time` never
-- comes out of `timestamp`.
pub timestamp-total : (micros : ℤ) (utc : Bool) → is_printed (timestamp micros utc) ≡ true
unfolding timestamp
timestamp-total micros utc =
    let inside =
      (time-range (pos (rem_euclid micros day))).1
        (omega arith, omega (arith, rem_euclid-lt_day micros)) in
    let text =
      around utc (civil_date (div_euclid micros day)) (time (pos (rem_euclid micros day))) in
    let whole = around-is_printed utc (civil_date (div_euclid micros day)) _ inside in
    let least = same_ℤ micros (negsuc (2 ^ 63 - 1)) in
    if-is_printed (same_ℤ micros (pos (2 ^ 63 - 1))) (printed (codes "infinity"))
      (if least then printed (codes "-infinity") else text) refl
      (if-is_printed least (printed (codes "-infinity")) text refl whole)

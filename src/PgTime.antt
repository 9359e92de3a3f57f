-- ===== src/PgTime.antt =====
-- crates/libs/lib-lualib/src/sqlx_pg_datetime.rs: PostgreSQL's binary dates and times as text.
--
-- Dates and times are integers: days, and microseconds, since 2000-01-01.
pub mod Parts
pub mod Calendar
pub mod Eras
pub mod Fields
pub mod Dates
pub mod Laws
mod Tests
use lrust.Base.{
  ℕ, ◌+◌, ◌-◌, ◌*◌, ◌/◌, ◌%◌, ◌^◌, Bool, true, false, ◌&&◌, ltb, leb, ◌==◌, if◌then◌else◌, ◌++◌, [],
  ◌∷◌,
}
use lrust.Base.Int.{
  ℤ, pos, negsuc, ◌+ℤ◌, ◌-ℤ◌, quot, scale, leb_ℤ, ltb_ℤ, div_euclid, rem_euclid, pos_part, neg_part,
}
use lrust.Base.Text.{Bytes, codes, to_string, zero_pad}

abbrev pub day : ℕ
day = 86400000000

-- The fields of a Gregorian date.
pub record CivilDate : Type 0 where
  pub year : ℤ
  pub month : ℤ
  pub day_of_month : ℤ

-- The day of an era of 400 years from 1 March of year 0, by its number in the era.
unfoldable pub year_of_era : ℤ → ℤ
unfolding ◌+ℤ◌ ◌-ℤ◌ quot
year_of_era doe = quot (doe -ℤ quot doe 1460 +ℤ quot doe 36524 -ℤ quot doe 146096) 365

unfoldable pub day_of_year : ℤ → ℤ → ℤ
unfolding ◌+ℤ◌ ◌-ℤ◌ quot scale
day_of_year doe yoe = doe -ℤ (scale 365 yoe +ℤ quot yoe 4 -ℤ quot yoe 100)

unfoldable pub civil_fields : ℤ → CivilDate
unfolding year_of_era day_of_year ◌+ℤ◌ ◌-ℤ◌ quot scale div_euclid rem_euclid
civil_fields pg_days =
    let z = pg_days +ℤ pos 10957 +ℤ pos 719468 in
    let era = div_euclid z 146097 in
    let doe = pos (rem_euclid z 146097) in
    let yoe = year_of_era doe in
    let doy = day_of_year doe yoe in
    let mp = quot (scale 5 doy +ℤ pos 2) 153 in
    let month = mp +ℤ (if ltb_ℤ mp (pos 10) then pos 3 else negsuc 8) in
    record {
      year = yoe +ℤ scale 400 era +ℤ pos (if leb_ℤ month (pos 2) then 1 else 0);
      month = month;
      day_of_month = doy -ℤ quot (scale 153 mp +ℤ pos 2) 5 +ℤ pos 1;
    }

unfoldable pub year_text : ℤ → Bytes
year_text (pos y) = if leb y 9999 then zero_pad 4 y else codes "+" ++ to_string y
year_text (negsuc n) = codes "-" ++ zero_pad 4 (n + 1)

-- `format!("{n:0w}")` for a signed n.
abbrev pub zero_pad_ℤ : ℕ → ℤ → Bytes
unfolding zero_pad
zero_pad_ℤ w (pos n) = zero_pad w n
zero_pad_ℤ w (negsuc n) = b'-' ∷ zero_pad (w - 1) (n + 1)

unfoldable pub civil_date : ℤ → Bytes
unfolding civil_fields year_text zero_pad
civil_date pg_days =
    let d = civil_fields pg_days in
    year_text d.year
    ++ codes "-"
    ++ zero_pad_ℤ 2 d.month
    ++ codes "-"
    ++ zero_pad_ℤ 2 d.day_of_month

abbrev pub same_ℤ : ℤ → ℤ → Bool
same_ℤ a b = leb_ℤ a b && leb_ℤ b a

-- `i32::MAX` and `i32::MIN` are the infinities.
unfoldable pub date : ℤ → Bytes
date days =
    let rest = civil_date days in
    if same_ℤ days (pos (2 ^ 31 - 1))
    then codes "infinity"
    else if same_ℤ days (negsuc (2 ^ 31 - 1))
    then codes "-infinity"
    else rest

unfoldable pub fraction_text : ℕ → Bytes
fraction_text fraction =
    if fraction == 0
    then []
    else if fraction % 1000 == 0
    then codes "." ++ zero_pad 3 (fraction / 1000)
    else codes "." ++ zero_pad 6 fraction

-- `Result<String, String>`.
pub data Printed : Type 0 where
  printed : Bytes → Printed
  failed : Bytes → Printed

abbrev pub time_error : Printed
time_error = failed (codes "PostgreSQL TIME is outside 00:00:00..24:00:00")

unfoldable pub time : ℤ → Printed
time (negsuc n) = time_error
time (pos micros) =
    let seconds = micros / 1000000 in
    let text =
      zero_pad 2 (seconds / 3600)
      ++ codes ":"
      ++ zero_pad 2 (seconds / 60 % 60)
      ++ codes ":"
      ++ zero_pad 2 (seconds % 60)
      ++ fraction_text (micros % 1000000) in
    if leb micros day then printed text else time_error

-- The parts of a timestamp around its time.
abbrev pub around : Bool → Bytes → Printed → Printed
around utc before (failed e) = failed e
around utc before (printed t) =
    printed
      (before ++ (if utc then codes "T" else codes " ") ++ t ++ (if utc then codes "Z" else []))

unfoldable pub timestamp : ℤ → Bool → Printed
timestamp micros utc =
    let text =
      around utc (civil_date (div_euclid micros day)) (time (pos (rem_euclid micros day))) in
    if same_ℤ micros (pos (2 ^ 63 - 1))
    then printed (codes "infinity")
    else if same_ℤ micros (negsuc (2 ^ 63 - 1))
    then printed (codes "-infinity")
    else text

-- `seconds_west.unsigned_abs()`.
abbrev pub magnitude : ℤ → ℕ
magnitude a = pos_part a + neg_part a

unfoldable pub offset_text : ℤ → Bytes
offset_text west =
    let offset = magnitude west in
    (if ltb_ℤ (pos 0) west then codes "-" else codes "+")
    ++ zero_pad 2 (offset / 3600)
    ++ codes ":"
    ++ zero_pad 2 (offset / 60 % 60)
    ++ (if offset % 60 == 0 then [] else codes ":" ++ zero_pad 2 (offset % 60))

abbrev pub with_offset : Bytes → Printed → Printed
with_offset offset (failed e) = failed e
with_offset offset (printed t) = printed (t ++ offset)

unfoldable pub timetz : ℤ → ℤ → Printed
timetz micros west =
    let text = with_offset (offset_text west) (time micros) in
    if leb (magnitude west) 57599
    then text
    else failed (codes "PostgreSQL TIMETZ timezone offset is out of range")

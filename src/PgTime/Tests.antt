-- ===== src/PgTime/Tests.antt =====
-- The runs of the tests in crates/libs/lib-lualib/src/sqlx_pg_datetime.rs, and the theorems at concrete
-- times.
use lrust.Base.{ℕ, ◌≡◌, refl, List, [], ◌∷◌, true}
use lrust.Base.Int.{pos, negsuc, ◌+ℤ◌, ◌-ℤ◌, quot, scale, div_euclid, rem_euclid}
use lrust.Base.Text.{codes, to_string, zero_pad, digits_onto}
use lrust.PgTime.{
  printed, failed, day, year_of_era, day_of_year, civil_fields, year_text, civil_date, date,
  fraction_text, time, timestamp, offset_text, timetz,
}
use lrust.PgTime.Laws.{is_printed, timestamp-total}
use lrust.PgTime.Dates.{IsDateOf, civil_fields-IsDateOf}

-- All the calls, for tests by evaluation.
calls : Unit {0}
unfolding year_of_era day_of_year civil_fields year_text civil_date date fraction_text time
    timestamp offset_text timetz to_string zero_pad digits_onto ◌+ℤ◌ ◌-ℤ◌ quot scale div_euclid
    rem_euclid
calls = tt

epochs :
    ◌≡◌ {A = List (List ℕ)}
      (date (pos 0)
        ∷ date (negsuc 10956)
        ∷ date (pos 59)
        ∷ date (negsuc 0)
        ∷ date (negsuc 730484)
        ∷ [])
      (codes "2000-01-01"
        ∷ codes "1970-01-01"
        ∷ codes "2000-02-29"
        ∷ codes "1999-12-31"
        ∷ codes "0000-01-01"
        ∷ [])
unfolding calls
epochs = refl

before_epoch : timestamp (negsuc 0) true ≡ printed (codes "1999-12-31T23:59:59.999999Z")
unfolding calls
before_epoch = refl

end_of_day : timetz (pos day) (negsuc 19799) ≡ printed (codes "24:00:00+05:30")
unfolding calls
end_of_day = refl

one_second_west : timetz (pos 0) (pos 1) ≡ printed (codes "00:00:00-00:00:01")
unfolding calls
one_second_west = refl

-- The offset is looked at before the time.
both_wrong :
    timetz (negsuc 0) (pos 57600)
    ≡ failed (codes "PostgreSQL TIMETZ timezone offset is out of range")
unfolding calls
both_wrong = refl

civil_fields-IsDateOf_example : IsDateOf (negsuc 730484) (civil_fields (negsuc 730484))
civil_fields-IsDateOf_example = civil_fields-IsDateOf (negsuc 730484)

timestamp-total_example : is_printed (timestamp (negsuc 0) true) ≡ true
timestamp-total_example = timestamp-total (negsuc 0) true

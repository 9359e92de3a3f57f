-- ===== src/Base/Time.antt =====
-- `std::time`: a `Duration` is its nanoseconds, an `Instant` the nanoseconds since some start.
-- `Instant + Duration` is exact, as the sums of the sources stay far below what an `Instant` holds.
use Prim.Native.Nat.{ℕ, ◌+◌, ◌-◌, ◌*◌, ◌/◌, ◌%◌, ◌^◌}
use lrust.Base.Tests.{◌==◌, if◌then◌else◌}

abbrev pub u64_mod : ℕ
u64_mod = 2 ^ 64

-- `Duration::MAX`: u64::MAX seconds and 999,999,999 nanoseconds.
abbrev pub duration_max : ℕ
duration_max = (2 ^ 64 - 1) * 1000000000 + 999999999

-- `Duration::from_millis`.
abbrev pub millis : ℕ → ℕ
millis n = n * 1000000

-- `u128::div_ceil`.
abbrev pub div_ceil : ℕ → ℕ → ℕ
div_ceil a b = if a % b == 0 then a / b else a / b + 1

-- ===== src/Retry/LogGate.antt =====
-- `ConnectionLogGate` of crates/libs/lib-lualib/src/sqlx_retry.rs.
pub mod Account
use lrust.Base.{ℕ, ◌+◌, ◌-◌, min, Option, none, some, ltb, if◌then◌else◌, Bool, false}
use lrust.Base.Time.{u64_mod}

pub record ConnectionLogGate : Type 0 where
  pub interval : ℕ
  pub next_log : Option ℕ
  pub suppressed : ℕ

unfoldable pub new : ℕ → ConnectionLogGate
new interval = record { interval = interval; next_log = none; suppressed = 0 }

abbrev pub is_before : ℕ → Option ℕ → Bool
is_before now none = false
is_before now (some at) = ltb now at

-- The new gate, and the count to report if this failure is to be logged.
unfoldable pub take : ConnectionLogGate → ℕ → ConnectionLogGate × Option ℕ
take g now =
    if is_before now g.next_log
    then (record g { suppressed = min (g.suppressed + 1) (u64_mod - 1) }, none)
    else (record g { next_log = some (now + g.interval); suppressed = 0 }, some g.suppressed)

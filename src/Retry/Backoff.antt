-- ===== src/Retry/Backoff.antt =====
-- `ReconnectBackoff` of crates/libs/lib-lualib/src/sqlx_retry.rs.
pub mod Schedule
use lrust.Base.{ℕ, ◌+◌, ◌-◌, ◌*◌, ◌%◌, min, Option, none, some, ◌==◌, if◌then◌else◌}
use lrust.Base.Time.{u64_mod, duration_max, div_ceil}

pub record ReconnectBackoff : Type 0 where
  pub initial : ℕ
  pub max : ℕ
  pub delay : ℕ
  pub retry_at : Option ℕ

unfoldable pub new : ℕ → ℕ → ReconnectBackoff
new initial max = record { initial = initial; max = max; delay = 0; retry_at = none }

-- `saturating_mul(2)` stops at the longest duration.
next_delay : ReconnectBackoff → ℕ
next_delay r = if r.delay == 0 then r.initial else min (min (r.delay * 2) duration_max) r.max

unfoldable pub failed : ReconnectBackoff → ℕ → ReconnectBackoff
unfolding next_delay
failed r now = record r { delay = next_delay r; retry_at = some (now + next_delay r) }

unfoldable pub reset : ReconnectBackoff → ReconnectBackoff
reset r = record r { delay = 0; retry_at = none }

-- The subtraction saturates, and the cast to u64 keeps the low 64 bits.
unfoldable pub retry_after_ms : ReconnectBackoff → ℕ → ℕ
retry_after_ms r now = elim r.retry_at [
  | none ↦ 0
  | some at ↦ div_ceil (at - now) 1000000 % u64_mod
]

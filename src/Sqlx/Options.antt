-- ===== src/Sqlx/Options.antt =====
-- The options of `connect` in crates/libs/lib-lualib/src/lua_sqlx.rs.
pub mod Bounds
use lrust.Base.{
  ◌++◌, ◌≡◌, Bool-cases, inl, inr, arith, false, ltb, ◌≤◌, ℕ, ◌-◌, ◌^◌, ◌||◌, Option, none, some,
  if◌then◌else◌,
}
use lrust.Base.Text.{codes, to_string, to_string_ℤ}
use lrust.Base.Int.{◌≤ℤ◌, ℤ, pos, ltb_ℤ}
use mathlib.Core.Path.{subst}
use lrust.Sqlx.Client.{Checked, good, bad}

-- An argument: none if it is missing or nil, or else the result of reading it as an integer.
abbrev pub Argument : Type 0
Argument = Option (Checked ℤ)

abbrev pub in_bounds : ℕ → ℤ → ℤ → Checked ℤ → Checked ℤ
in_bounds index low high (bad e) = bad e
in_bounds index low high (good v) =
    if ltb_ℤ v low || ltb_ℤ high v
    then bad (
        codes "SQLx option #"
        ++ to_string index
        ++ codes " must be between "
        ++ to_string_ℤ low
        ++ codes " and "
        ++ to_string_ℤ high)
    else good v

abbrev pub or_default : ℤ → Argument → Checked ℤ
or_default default none = good default
or_default default (some v) = v

unfoldable pub bounded_option : ℕ → Argument → ℤ → ℤ → ℤ → Checked ℤ
bounded_option index value default low high = in_bounds index low high (or_default default value)

unfoldable pub positive_option : ℕ → Argument → ℤ → ℤ → Checked ℤ
positive_option index value default high = bounded_option index value default (pos 1) high

pub record ConnectOptions : Type 0 where
  pub connect_timeout : ℤ
  pub request_timeout : ℤ
  pub max_rows : ℤ
  pub queue_capacity : ℤ
  pub reconnect_initial_delay : ℤ
  pub reconnect_max_delay : ℤ
  pub reconnect_log_interval : ℤ

-- `?`.
infixl 5 ◌>>=◌
unfoldable pub ◌>>=◌ : {A B : Type 0} → Checked A → (A → Checked B) → Checked B
good a >>= f = f a
bad e >>= f = bad e

abbrev pub u32_max : ℤ
u32_max = pos (2 ^ 32 - 1)

abbrev pub i32_max : ℤ
i32_max = pos (2 ^ 31 - 1)

abbrev pub ordered : ConnectOptions → Checked ConnectOptions
ordered o =
    if ltb_ℤ o.reconnect_max_delay o.reconnect_initial_delay
    then bad (codes "SQLx reconnect_max_delay must be >= reconnect_initial_delay")
    else good o

-- The options, from argument 6 on.
unfoldable pub connect_options : (ℕ → Argument) → Checked ConnectOptions
connect_options arg = do
  connect_timeout ← positive_option 6 (arg 6) (pos 5000) u32_max
  request_timeout ← positive_option 7 (arg 7) (pos 30000) u32_max
  max_rows ← positive_option 8 (arg 8) (pos 100000) i32_max
  queue_capacity ← positive_option 9 (arg 9) (pos 100) i32_max
  initial ← bounded_option 10 (arg 10) (pos 250) (pos 0) u32_max
  longest ← positive_option 11 (arg 11) (pos 5000) u32_max
  log_interval ← bounded_option 12 (arg 12) (pos 5000) (pos 0) u32_max
  ordered (record {
    connect_timeout = connect_timeout;
    request_timeout = request_timeout;
    max_rows = max_rows;
    queue_capacity = queue_capacity;
    reconnect_initial_delay = initial;
    reconnect_max_delay = longest;
    reconnect_log_interval = log_interval;
  })

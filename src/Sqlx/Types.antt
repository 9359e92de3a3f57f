-- ===== src/Sqlx/Types.antt =====
-- The data of crates/libs/lib-lualib/src/lua_sqlx.rs: parameters, requests, replies, errors.
--
-- A float is its bit pattern, a `Uuid` its 128 bits, and text is UTF-8 bytes.
use lrust.Base.{ℕ, List, [], ◌∷◌, Bool, true, false, ◌||◌, Option, none, some, ◌==◌, ◌&&◌}
use lrust.Base.Int.{ℤ}
pub use lrust.Base.Text.{same_bytes}
use lrust.Base.Text.{Bytes, codes}

-- `serde_json::Value`.
mutual
  pub data JsonValue : Type 0 where
    null : JsonValue
    boolean : Bool → JsonValue
    integer : ℤ → JsonValue
    float : ℕ → JsonValue
    string : Bytes → JsonValue
    array : JsonValues → JsonValue
    object : JsonFields → JsonValue

  pub data JsonValues : Type 0 where
    nil : JsonValues
    cons : JsonValue → JsonValues → JsonValues

  pub data JsonFields : Type 0 where
    end : JsonFields
    field : Bytes → JsonValue → JsonFields → JsonFields

pub data NullType : Type 0 where
  bool int16 int32 int64 float32 float64 text bytes json uuid date timestamp timestamp_tz time
        time_tz :
      NullType

pub data QueryParams : Type 0 where
  null_param : NullType → QueryParams
  bool_param : Bool → QueryParams
  int_param : ℤ → QueryParams
  float_param : ℕ → QueryParams
  text_param : Bytes → QueryParams
  json_param : JsonValue → QueryParams
  bytes_param : Bytes → QueryParams
  pg_bool_array : List (Option Bool) → QueryParams
  pg_int2_array : List (Option ℤ) → QueryParams
  pg_int4_array : List (Option ℤ) → QueryParams
  pg_int8_array : List (Option ℤ) → QueryParams
  pg_float4_array : List (Option ℕ) → QueryParams
  pg_float8_array : List (Option ℕ) → QueryParams
  pg_text_array : List (Option Bytes) → QueryParams
  pg_bytes_array : List (Option Bytes) → QueryParams
  pg_uuid_array : List (Option ℕ) → QueryParams
  pg_json_array : List (Option JsonValue) → QueryParams

pub record DatabaseQuery : Type 0 where
  pub sql : Bytes
  pub binds : List QueryParams

-- The owner and the session (a 64-bit pattern) of the caller, and what to run.
pub data DatabaseRequest : Type 0 where
  query_request : ℕ → ℕ → DatabaseQuery → DatabaseRequest
  execute_request : ℕ → ℕ → DatabaseQuery → DatabaseRequest
  batch_request : ℕ → ℕ → Bytes → DatabaseRequest
  transaction_request : ℕ → ℕ → List DatabaseQuery → DatabaseRequest
  close_request : DatabaseRequest

-- `sqlx::Error`, by the variants the sources tell apart; `database` has the SQLSTATE code.
pub data Error : Type 0 where
  io : Bytes → Error
  tls : Bytes → Error
  protocol : Bytes → Error
  pool_timed_out : Error
  pool_closed : Error
  worker_crashed : Error
  database : Option Bytes → Bytes → Error
  configuration : Bytes → Error
  other_error : Bytes → Error

pub data Result {ℓ} (A : Type ℓ) : Type ℓ where
  ok : A → Result A
  err : Error → Result A

-- The replies. Rows are the driver's, and a connection is the number of its actor.
pub data DatabaseResponse (Row : Type 0) : Type 0 where
  connected : ℕ → DatabaseResponse Row
  closed_response : DatabaseResponse Row
  pg_rows : List Row → DatabaseResponse Row
  mysql_rows : List Row → DatabaseResponse Row
  sqlite_rows : List Row → DatabaseResponse Row
  error : Error → DatabaseResponse Row
  error_before_execution : Error → DatabaseResponse Row
  connect_failed : Error → ℕ → DatabaseResponse Row
  reconnect_cooldown : ℕ → DatabaseResponse Row
  disconnected_error : Error → DatabaseResponse Row
  timed_out : Bytes → DatabaseResponse Row
  timed_out_before_execution : Bytes → DatabaseResponse Row
  row_limit_exceeded : ℕ → DatabaseResponse Row
  executed : ℕ → Option ℕ → DatabaseResponse Row
  transaction_done : ℕ → DatabaseResponse Row

unfoldable pub connection_error : Error → Bool
connection_error (io _) = true
connection_error (tls _) = true
connection_error (protocol _) = true
connection_error pool_timed_out = true
connection_error pool_closed = true
connection_error worker_crashed = true
connection_error (database _ _) = false
connection_error (configuration _) = false
connection_error (other_error _) = false

abbrev pub starts_with : Bytes → Bytes → Bool
starts_with [] s = true
starts_with (p ∷ ps) [] = false
starts_with (p ∷ ps) (c ∷ s) = p == c && starts_with ps s

-- The SQLSTATE codes after which a session is lost.
unfoldable pub code_is_fatal : Option Bytes → Bool
code_is_fatal none = false
code_is_fatal (some code) =
    starts_with (codes "08") code
    || same_bytes code (codes "57P01")
    || same_bytes code (codes "57P02")
    || same_bytes code (codes "57P03")

-- `error.as_database_error().and_then(|error| error.code())`.
abbrev pub database_code : Error → Option Bytes
database_code (database code _) = code
database_code _ = none

unfoldable pub error_requires_disconnect : Error → Bool
error_requires_disconnect e = connection_error e || code_is_fatal (database_code e)

unfoldable pub requires_disconnect : {Row : Type 0} → DatabaseResponse Row → Bool
requires_disconnect (timed_out _) = true
requires_disconnect (timed_out_before_execution _) = true
requires_disconnect (row_limit_exceeded _) = true
requires_disconnect (disconnected_error _) = true
requires_disconnect (error e) = error_requires_disconnect e
requires_disconnect (error_before_execution e) = error_requires_disconnect e
requires_disconnect _ = false

unfoldable pub classify_execution :
    {Row : Type 0} → DatabaseResponse Row → Bool → DatabaseResponse Row
classify_execution r true = r
classify_execution (error e) false = error_before_execution e
classify_execution (timed_out m) false = timed_out_before_execution m
classify_execution r false = r

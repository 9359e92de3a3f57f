-- ===== src/Sqlx/Params.antt =====
-- The parameters of a statement in crates/libs/lib-lualib/src/lua_sqlx.rs, made from Lua values.
--
-- An allocation that fails within Lua is not modelled.
pub mod Json
pub mod Arrays
pub mod Query
pub mod Sound
pub mod Bindable
mod ArrayRanges
pub mod Ranges
pub mod Statements
mod Tests
use lrust.Base.{
  ℕ, ◌+◌, Bool, true, false, ◌&&◌, ◌||◌, ltb, leb, if◌then◌else◌, List, [], ◌∷◌, ◌++◌, Option, none,
  some, map,
}
use lrust.Base.Int.{ℤ}
use lrust.Base.Text.{Bytes, codes}
use lrust.Lua.{LuaValue, nil, string, Entry}
use lrust.Sqlx.Types.{
  NullType, bool, int16, int32, int64, float32, float64, text, bytes, json, uuid, date, timestamp,
  timestamp_tz, time, time_tz, same_bytes,
}
use lrust.Sqlx.Client.{Checked, good, bad}

-- What the conversion takes from elsewhere: from Rust's standard library whether bytes are UTF-8,
-- with the message if they are not, the space around a text, and the conversions of floats; from the
-- crate uuid its parser; from Lua whether there is room on its stack with so many levels of nesting
-- left, and the text of an error that it raises.
pub record Platform : Type 0 where
  pub utf8_error : Bytes → Option Bytes
  pub trim : Bytes → Bytes
  pub is_finite : ℕ → Bool
  pub to_f32 : ℕ → ℕ
  pub int_to_f32 : ℤ → ℕ
  pub int_to_f64 : ℤ → ℕ
  pub parse_uuid : Bytes → Option ℕ
  pub has_room : ℕ → Bool
  pub lua_error : Bytes

abbrev pub checked_text : Bytes → Bytes → Option Bytes → Checked Bytes
checked_text s context none = good s
checked_text s context (some e) = bad (context ++ codes " must be valid UTF-8: " ++ e)

unfoldable pub utf8_string : Platform → Bytes → Bytes → Checked Bytes
utf8_string p s context = checked_text s context (p.utf8_error s)

abbrev lower : ℕ → ℕ
lower c = if leb b'A' c && leb c b'Z' then c + 32 else c

-- `trim().to_ascii_lowercase()`.
abbrev pub normalized : Platform → Bytes → Bytes
normalized p s = map lower (p.trim s)

unfoldable pub among : List Bytes → Bytes → Bool
among [] s = false
among (n ∷ ns) s = same_bytes n s || among ns s

unfoldable pub parse_null_type : Platform → Bytes → Checked NullType
unfolding among
parse_null_type p type_name =
    let s = normalized p type_name in
    if among (codes "bool" ∷ codes "boolean" ∷ []) s
    then good bool
    else if among (codes "int2" ∷ codes "smallint" ∷ []) s
    then good int16
    else if among (codes "int4" ∷ codes "int" ∷ codes "integer" ∷ []) s
    then good int32
    else if among (codes "int8" ∷ codes "bigint" ∷ []) s
    then good int64
    else if among (codes "float4" ∷ codes "real" ∷ []) s
    then good float32
    else if among (codes "float8" ∷ codes "double" ∷ codes "double precision" ∷ []) s
    then good float64
    else if among (codes "text" ∷ codes "string" ∷ codes "varchar" ∷ codes "char" ∷ []) s
    then good text
    else if among (codes "bytes" ∷ codes "bytea" ∷ codes "blob" ∷ codes "binary" ∷ []) s
    then good bytes
    else if among (codes "json" ∷ codes "jsonb" ∷ []) s
    then good json
    else if among (codes "uuid" ∷ []) s
    then good uuid
    else if among (codes "date" ∷ []) s
    then good date
    else if among (codes "timestamp" ∷ codes "datetime" ∷ []) s
    then good timestamp
    else if among (codes "timestamptz" ∷ codes "timestamp with time zone" ∷ []) s
    then good timestamp_tz
    else if among (codes "time" ∷ []) s
    then good time
    else if among (codes "timetz" ∷ codes "time with time zone" ∷ []) s
    then good time_tz
    else bad (codes "sqlx.null unsupported SQL type: " ++ type_name)

abbrev key_is_text : Bytes → LuaValue → Bool
key_is_text s (string k) = same_bytes k s
key_is_text s k = false

-- The value at a text; `nil` where there is none.
unfoldable pub raw_get : Bytes → List Entry → LuaValue
raw_get s [] = nil
raw_get s ((k, v) ∷ es) = let rest = raw_get s es in if key_is_text s k then v else rest

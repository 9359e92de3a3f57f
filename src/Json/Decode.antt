-- ===== src/Json/Decode.antt =====
-- `decode_one` of crates/libs/lib-lualib/src/lua_json.rs: the Lua value of a parsed JSON text.
--
-- The parser is a part of the crate serde_json. Every table is new, and nothing else refers to it,
-- so a decoded value is a tree.
pub mod Members
pub mod Keys
use lrust.Base.{
  ℕ, zero, suc, ◌+◌, ◌-◌, ◌*◌, ◌^◌, Bool, true, false, ◌&&◌, ◌||◌, ltb, leb, ◌==◌, if◌then◌else◌,
  List, [], ◌∷◌, Option, none, some,
}
use lrust.Base.Int.{ℤ, pos, negsuc, ◌==ℤ◌}
use lrust.Base.Text.{Bytes}
use lrust.Sqlx.Types.{JsonValue, JsonValues, JsonFields, same_bytes}
use lrust.Lua.{
  LuaValue, absent, nil, boolean, light_user_data, number, integer, string, table, function,
  user_data, thread,
}
use lrust.Json.Encode.{JsonOptions}

abbrev is_digit : ℕ → Bool
is_digit c = leb b'0' c && leb c b'9'

-- The value of the digits, after those whose value is n.
unfoldable pub digits_value : ℕ → Bytes → Option ℕ
digits_value n [] = some n
digits_value n (c ∷ s) =
    let rest = digits_value (10 * n + (c - b'0')) s in if is_digit c then rest else none

abbrev within : ℕ → (ℕ → ℤ) → Option ℕ → Option ℤ
within limit f none = none
within limit f (some n) = if leb n limit then some (f n) else none

abbrev negative : ℕ → ℤ
negative zero = pos 0
negative (suc n) = negsuc n

unfoldable parse_negative : Bytes → Option ℤ
unfolding digits_value
parse_negative [] = none
parse_negative (d ∷ s) = within (2 ^ 63) negative (digits_value 0 (d ∷ s))

-- `parse::<i64>()` of a text that begins with a digit or a minus sign.
unfoldable pub parse_i64 : Bytes → Option ℤ
unfolding digits_value parse_negative
parse_i64 [] = none
parse_i64 (c ∷ s) =
    if c == b'-' then parse_negative s else within (2 ^ 63 - 1) pos (digits_value 0 (c ∷ s))

mutual
  pub data Decoded : Type 0 where
    leaf : LuaValue → Decoded
    new_table : Table → Decoded

  pub data Table : Type 0 where
    no_entry : Table
    entry : LuaValue → Decoded → Table → Table

-- Whether two integers or two strings are the same key.
unfoldable pub same_key : LuaValue → LuaValue → Bool
same_key (integer m) (integer n) = m ==ℤ n
same_key (string s) (string t) = same_bytes s t
same_key j k = false

-- `lua_rawset` on a table of such keys.
unfoldable pub rawset : LuaValue → Decoded → Table → Table
unfolding same_key
rawset k v no_entry = entry k v no_entry
rawset k v (entry j x t) =
    let rest = rawset k v t in if same_key j k then entry j v t else entry j x rest

unfoldable pub rawget : LuaValue → Table → Option Decoded
unfolding same_key
rawget k no_entry = none
rawget k (entry j x t) = let rest = rawget k t in if same_key j k then some x else rest

abbrev key_or_text : Bytes → Option ℤ → LuaValue
key_or_text k none = string k
key_or_text k (some n) = integer n

-- The key of a member whose name begins with c.
unfoldable pub member_key : JsonOptions → ℕ → Bytes → LuaValue
unfolding parse_i64
member_key options c k =
    let parsed = key_or_text (c ∷ k) (parse_i64 (c ∷ k)) in
    if (is_digit c || (c == b'-')) && options.enable_number_key then parsed else string (c ∷ k)

-- `as_i64().unwrap_or_default()`.
unfoldable pub as_i64 : ℤ → ℤ
as_i64 (pos n) = if ltb n (2 ^ 63) then pos n else pos 0
as_i64 (negsuc n) = negsuc n

unfoldable mutual
  unfolding as_i64 rawset member_key

  pub decode_one : JsonOptions → JsonValue → Decoded
  decode_one options (JsonValue.object fs) = new_table (decode_members options fs no_entry)
  decode_one options (JsonValue.array vs) = new_table (decode_elements options 1 vs no_entry)
  decode_one options (JsonValue.boolean b) = leaf (boolean b)
  decode_one options (JsonValue.float x) = leaf (number x)
  decode_one options (JsonValue.integer n) = leaf (integer (as_i64 n))
  decode_one options JsonValue.null = leaf (light_user_data 0)
  decode_one options (JsonValue.string s) = leaf (string s)

  -- A member without a name is left out.
  pub decode_members : JsonOptions → JsonFields → Table → Table
  decode_members options JsonFields.end t = t
  decode_members options (JsonFields.field [] v fs) t = decode_members options fs t
  decode_members options (JsonFields.field (c ∷ k) v fs) t =
      decode_members options fs (rawset (member_key options c k) (decode_one options v) t)

  pub decode_elements : JsonOptions → ℕ → JsonValues → Table → Table
  decode_elements options i JsonValues.nil t = t
  decode_elements options i (JsonValues.cons v vs) t =
      decode_elements options (suc i) vs (rawset (integer (pos i)) (decode_one options v) t)

-- ===== src/Sqlx/Results.antt =====
-- JSON results in crates/libs/lib-lualib/src/lua_sqlx.rs: `push_json_value`, as the Lua value that it
-- pushes.
use lrust.Base.{
  ℕ, suc, ◌^◌, ◌≡◌, refl, ◌∙◌, ap, Bool, true, false, ltb, if◌then◌else◌, Option, none, some,
}
use lrust.Base.Int.{ℤ, pos, negsuc}
use lrust.Base.Text.{Bytes, same_bytes, to_string}
use lrust.Lua.{LuaValue, boolean, light_user_data, number, integer, string}
use lrust.Json.Decode.{Decoded, leaf, new_table, Table, no_entry, rawset, rawget, same_key}
use lrust.Json.Decode.Members.{later, rawget-rawset, entries}
use lrust.Sqlx.Types.{JsonValue, JsonValues, JsonFields}

-- A number above the range of a Lua integer is pushed as its digits.
unfoldable pub push_u64 : ℕ → LuaValue
unfolding to_string
push_u64 n = if ltb n (2 ^ 63) then integer (pos n) else string (to_string n)

unfoldable pub push_integer : ℤ → LuaValue
unfolding push_u64
push_integer (pos n) = push_u64 n
push_integer (negsuc n) = integer (negsuc n)

unfoldable mutual
  unfolding push_integer rawset

  pub push_json_value : JsonValue → Decoded
  push_json_value JsonValue.null = leaf (light_user_data 0)
  push_json_value (JsonValue.boolean b) = leaf (boolean b)
  push_json_value (JsonValue.integer n) = leaf (push_integer n)
  push_json_value (JsonValue.float x) = leaf (number x)
  push_json_value (JsonValue.string s) = leaf (string s)
  push_json_value (JsonValue.array vs) = new_table (push_elements 1 vs no_entry)
  push_json_value (JsonValue.object fs) = new_table (push_members fs no_entry)

  pub push_elements : ℕ → JsonValues → Table → Table
  push_elements i JsonValues.nil t = t
  push_elements i (JsonValues.cons v vs) t =
      push_elements (suc i) vs (rawset (integer (pos i)) (push_json_value v) t)

  pub push_members : JsonFields → Table → Table
  push_members JsonFields.end t = t
  push_members (JsonFields.field k v fs) t =
      push_members fs (rawset (string k) (push_json_value v) t)

-- The last member with the name k.
pub named : Bytes → JsonFields → Option JsonValue
named k JsonFields.end = none
named k (JsonFields.field j v fs) = later (named k fs) (if same_bytes j k then some v else none)

abbrev pub pushed : Option JsonValue → Option Decoded → Option Decoded
pushed none d = d
pushed (some v) d = some (push_json_value v)

pushed-later :
    (x : Option JsonValue) (b : Bool) (v : JsonValue) (d : Option Decoded)
    → pushed x (if b then some (push_json_value v) else d)
      ≡ pushed (later x (if b then some v else none)) d
pushed-later none true v d = refl
pushed-later none false v d = refl
pushed-later (some x) b v d = refl

push_members-named :
    (k : Bytes) (fs : JsonFields) (t : Table)
    → rawget (string k) (push_members fs t) ≡ pushed (named k fs) (rawget (string k) t)
unfolding push_members named same_key
push_members-named k JsonFields.end t = refl
push_members-named k (JsonFields.field j v fs) t =
    push_members-named k fs (rawset (string j) (push_json_value v) t)
    ∙ ap (pushed (named k fs)) (rawget-rawset (string k) (string j) (push_json_value v) t)
    ∙ pushed-later (named k fs) (same_bytes j k) v (rawget (string k) t)

-- A JSON object comes out as a table that has under every text the value of the last member with that
-- name, whatever the name looks like, and nothing under other texts.
pub push_json_value-named :
    (k : Bytes) (fs : JsonFields)
    → rawget (string k) (entries (push_json_value (JsonValue.object fs))) ≡ pushed (named k fs) none
unfolding push_json_value rawget
push_json_value-named k fs = push_members-named k fs no_entry

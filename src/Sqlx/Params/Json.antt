-- ===== src/Sqlx/Params/Json.antt =====
-- `lua_value_to_json` and `lua_table_to_json` of crates/libs/lib-lualib/src/lua_sqlx.rs.
--
-- Tables may hold themselves: the recursion is on the levels of nesting that are left, 64 less the
-- depth of the code.
use lrust.Base.{
  ℕ, zero, suc, Bool, true, false, ◌==◌, if◌then◌else◌, List, [], ◌∷◌, ◌++◌, Option, none, some,
}
use lrust.Base.Text.{Bytes, codes, to_string_ℤ}
use lrust.Lua.{
  LuaValue, nil, boolean, light_user_data, number, integer, string, table, Entry, LuaTable, Heap,
  name, array_size, array_values,
}
use lrust.Sqlx.Types.{JsonValue, JsonValues, JsonFields, same_bytes}
use lrust.Sqlx.Client.{Checked, good, bad}
use lrust.Sqlx.Options.{◌>>=◌}
use lrust.Sqlx.Params.{Platform, utf8_string}

-- `insert` of serde_json's map: the value of a name that is there is replaced.
unfoldable pub insert : Bytes → JsonValue → JsonFields → JsonFields
insert k v JsonFields.end = JsonFields.field k v JsonFields.end
insert k v (JsonFields.field j x fs) =
    let rest = insert k v fs in
    if same_bytes j k then JsonFields.field j v fs else JsonFields.field j x rest

unfoldable pub key_text : Platform → LuaValue → Checked Bytes
unfolding utf8_string
key_text p (string k) = utf8_string p k (codes "SQL JSON object key")
key_text p (integer n) = good (to_string_ℤ n)
key_text p k = bad (codes "SQL JSON object keys must be strings or integers")

abbrev pub json_string : Checked Bytes → Checked JsonValue
json_string (good s) = good (JsonValue.string s)
json_string (bad e) = bad e

unfoldable pub value_to_json : Platform → (ℕ → Checked JsonValue) → LuaValue → Checked JsonValue
unfolding utf8_string
value_to_json p tables nil = good JsonValue.null
value_to_json p tables (boolean b) = good (JsonValue.boolean b)
value_to_json p tables (integer n) = good (JsonValue.integer n)
value_to_json p tables (number x) =
    if p.is_finite x then good (JsonValue.float x) else bad (codes "SQL JSON number must be finite")
value_to_json p tables (string s) = json_string (utf8_string p s (codes "SQL JSON string"))
value_to_json p tables (table a) = tables a
value_to_json p tables (light_user_data a) =
    if a == 0
    then good JsonValue.null
    else bad (codes "SQL JSON unsupported value type: " ++ name (light_user_data a))
value_to_json p tables v = bad (codes "SQL JSON unsupported value type: " ++ name v)

unfoldable pub elements_to_json :
    (LuaValue → Checked JsonValue) → List LuaValue → Checked JsonValues
unfolding ◌>>=◌
elements_to_json one [] = good JsonValues.nil
elements_to_json one (v ∷ vs) =
    one v >>= λ x. elements_to_json one vs >>= λ xs. good (JsonValues.cons x xs)

unfoldable pub members_to_json :
    Platform → (LuaValue → Checked JsonValue) → List Entry → JsonFields → Checked JsonFields
unfolding ◌>>=◌ key_text insert
members_to_json p one [] fs = good fs
members_to_json p one ((k, v) ∷ es) fs =
    key_text p k >>= λ key. one v >>= λ x. members_to_json p one es (insert key x fs)

-- An empty table is an array.
abbrev pub object_or_empty : JsonFields → JsonValue
object_or_empty JsonFields.end = JsonValue.array JsonValues.nil
object_or_empty fs = JsonValue.object fs

unfoldable pub sized_to_json :
    Platform → (LuaValue → Checked JsonValue) → LuaTable → Option (Bool × ℕ) → Checked JsonValue
unfolding ◌>>=◌ elements_to_json members_to_json
sized_to_json p one t none = bad p.lua_error
sized_to_json p one t (some (true, n)) =
    elements_to_json one (array_values n 1 t) >>= λ xs. good (JsonValue.array xs)
sized_to_json p one t (some (false, n)) =
    members_to_json p one t.entries JsonFields.end >>= λ fs. good (object_or_empty fs)

unfoldable pub lua_table_to_json : Platform → Heap → ℕ → ℕ → Checked JsonValue
unfolding value_to_json sized_to_json
lua_table_to_json p h zero a =
    bad (codes "SQL JSON table nesting exceeds 64 levels (possibly cyclic)")
lua_table_to_json p h (suc left) a =
    let one = value_to_json p (lua_table_to_json p h left) in
    if p.has_room (suc left)
    then sized_to_json p one (h a) (array_size (h a))
    else bad (codes "SQLx JSON traversal exhausted Lua stack")

unfoldable pub lua_value_to_json : Platform → Heap → ℕ → LuaValue → Checked JsonValue
unfolding value_to_json lua_table_to_json
lua_value_to_json p h left v = value_to_json p (lua_table_to_json p h left) v

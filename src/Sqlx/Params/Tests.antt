-- ===== src/Sqlx/Params/Tests.antt =====
-- Parameters made of concrete Lua values.
use lrust.Base.{◌↔◌, ℕ, ◌≡◌, refl, true, false, List, [], ◌∷◌, none, some, get_or}
use lrust.Base.Int.{pos}
use lrust.Base.Text.{codes, to_string_ℤ, to_string}
use lrust.Lua.{
  nil, boolean, light_user_data, integer, string, table, Entry, LuaTable, Heap, array_size,
  array_values, rawgeti,
}
use lrust.Sqlx.Types.{json_param, pg_int2_array, JsonValue, JsonFields, null_param, time_tz}
use lrust.Sqlx.Client.{good, bad}
use lrust.Sqlx.Options
use lrust.Json.Decode.{rawget}
use lrust.Json.Decode.Members.{entries}
use lrust.Sqlx.Results.{push_json_value, named, pushed, push_json_value-named}
use lrust.Sqlx.Columns.{ensure_unique_columns}
use lrust.Sqlx.Columns.Unique.{AreDistinct, ensure_unique_columns_iff}
use lrust.Sqlx.Params.Statements.{push_transaction_query}
use lrust.Sqlx.Params.{Platform, parse_null_type}
use lrust.Sqlx.Params.Json.{lua_value_to_json}
use lrust.Sqlx.Params.Query.{get_query_param}
use lrust.Sqlx.Params.Sound.{IfGood}
use lrust.Sqlx.Params.Bindable.{IsBindable}
use lrust.Sqlx.Params.Ranges.{get_query_param-IsBindable}

calls : Unit {0}
unfolding get_query_param parse_null_type lua_value_to_json array_size array_values rawgeti
    Options.◌>>=◌ to_string_ℤ to_string
calls = tt

-- All bytes are texts, no float is finite, and nothing is a UUID.
abbrev platform : Platform
platform = record {
  utf8_error = λ s. none;
  trim = λ s. s;
  is_finite = λ x. false;
  to_f32 = λ x. x;
  int_to_f32 = λ n. 0;
  int_to_f64 = λ n. 0;
  parse_uuid = λ s. none;
  has_room = λ n. true;
  lua_error = [];
}

abbrev new_table : List Entry → ℕ → LuaTable
new_table es n = record {
  entries = es;
  rawlen = n;
  has_array = false;
  has_object = false;
  has_redis = false;
  has_sqlx_array = false;
}

-- Table 0 is an int2 array wrapper of table 1, table 2 an object, table 3 holds itself, and table 4 is
-- a typed null.
abbrev tables : List LuaTable
tables =
    new_table
      ((string (codes "__sqlx_array"), boolean true)
        ∷ (string (codes "type"), string (codes "INT2[]"))
        ∷ (string (codes "values"), table 1)
        ∷ [])
      0
    ∷ new_table ((integer (pos 1), integer (pos 7)) ∷ (integer (pos 2), light_user_data 0) ∷ []) 2
    ∷ new_table
        ((string (codes "a"), nil)
          ∷ (integer (pos 5), table 1)
          ∷ (string (codes "5"), boolean true)
          ∷ [])
        0
    ∷ new_table ((string (codes "self"), table 3) ∷ []) 0
    ∷ new_table
        ((string (codes "__sqlx_param"), string (codes "null"))
          ∷ (string (codes "type"), string (codes "TimeTZ"))
          ∷ [])
        0
    ∷ []

abbrev heap : Heap
heap a = get_or tables a (new_table [] 0)

int2_array :
    get_query_param platform heap (table 0) ≡ good (pg_int2_array (some (pos 7) ∷ none ∷ []))
unfolding calls
int2_array = refl

-- The later of two keys with the same text wins.
json_object :
    get_query_param platform heap (table 2)
    ≡ good (
        json_param (
          JsonValue.object (
            JsonFields.field
              (codes "a")
              JsonValue.null
              (JsonFields.field (codes "5") (JsonValue.boolean true) JsonFields.end))))
unfolding calls
json_object = refl

json_cycle :
    get_query_param platform heap (table 3)
    ≡ bad (codes "SQL JSON table nesting exceeds 64 levels (possibly cyclic)")
unfolding calls
json_cycle = refl

typed_null : get_query_param platform heap (table 4) ≡ good (null_param time_tz)
unfolding calls
typed_null = refl

get_query_param-IsBindable_example :
    IfGood (IsBindable platform) (get_query_param platform heap (table 0))
get_query_param-IsBindable_example = get_query_param-IsBindable platform heap (table 0)

abbrev two_members : JsonFields
two_members =
    JsonFields.field (codes "5") JsonValue.null
      (JsonFields.field (codes "5") (JsonValue.boolean true) JsonFields.end)

push_json_value-named_example :
    rawget (string (codes "5")) (entries (push_json_value (JsonValue.object two_members)))
    ≡ pushed (named (codes "5") two_members) none
push_json_value-named_example = push_json_value-named (codes "5") two_members

ensure_unique_columns_iff_example :
    (ensure_unique_columns (codes "id" ∷ codes "name" ∷ codes "id" ∷ []) ≡ none)
    ↔ AreDistinct [] (codes "id" ∷ codes "name" ∷ codes "id" ∷ [])
ensure_unique_columns_iff_example =
    ensure_unique_columns_iff (codes "id" ∷ codes "name" ∷ codes "id" ∷ [])

-- A statement whose second parameter is bad is not added.
bad_parameter :
    push_transaction_query platform heap
      (some [])
      (string (codes "SELECT 1"))
      (integer (pos 1) ∷ table 3 ∷ [])
    ≡ bad (codes "SQL JSON table nesting exceeds 64 levels (possibly cyclic)")
unfolding calls push_transaction_query
bad_parameter = refl

-- ===== src/Sqlx/Params/Arrays.antt =====
-- PostgreSQL arrays: `collect_pg_array` and `get_pg_array_param` of
-- crates/libs/lib-lualib/src/lua_sqlx.rs.
use lrust.Base.{
  ℕ, suc, ◌^◌, Bool, false, not, ◌&&◌, leb, ◌==◌, if◌then◌else◌, List, [], ◌∷◌, ◌++◌, Option, none,
  some,
}
use lrust.Base.Int.{ℤ, pos, negsuc}
use lrust.Base.Text.{Bytes, codes, to_string}
use lrust.Lua.{
  LuaValue, boolean, light_user_data, number, integer, string, table, LuaTable, Heap, array_size,
  array_values, is_there,
}
use lrust.Sqlx.Types.{
  same_bytes, QueryParams, pg_bool_array, pg_int2_array, pg_int4_array, pg_int8_array,
  pg_float4_array, pg_float8_array, pg_text_array, pg_bytes_array, pg_uuid_array, pg_json_array,
}
use lrust.Sqlx.Client.{Checked, good, bad}
use lrust.Sqlx.Options.{◌>>=◌}
use lrust.Sqlx.Params.{Platform, utf8_string, normalized, among, raw_get}
use lrust.Sqlx.Params.Json.{lua_value_to_json}

-- `try_from` a 64-bit integer to a signed one of which the positive ones are below `limit`.
unfoldable pub try_from : ℕ → ℤ → Option ℤ
try_from limit (pos n) = if leb (suc n) limit then some (pos n) else none
try_from limit (negsuc n) = if leb (suc n) limit then some (negsuc n) else none

unfoldable pub to_bool : LuaValue → Option Bool
to_bool (boolean b) = some b
to_bool v = none

unfoldable pub to_int : ℕ → LuaValue → Option ℤ
unfolding try_from
to_int limit (integer n) = try_from limit n
to_int limit v = none

unfoldable pub to_int8 : LuaValue → Option ℤ
to_int8 (integer n) = some n
to_int8 v = none

unfoldable pub to_float4 : Platform → LuaValue → Option ℕ
to_float4 p (integer n) = some (p.int_to_f32 n)
to_float4 p (number x) = some (p.to_f32 x)
to_float4 p v = none

unfoldable pub to_float8 : Platform → LuaValue → Option ℕ
to_float8 p (integer n) = some (p.int_to_f64 n)
to_float8 p (number x) = some x
to_float8 p v = none

abbrev pub if_valid : {A : Type 0} → Option A → Option Bytes → Option A
if_valid a none = a
if_valid a (some e) = none

unfoldable pub to_text : Platform → LuaValue → Option Bytes
to_text p (string s) = if_valid (some s) (p.utf8_error s)
to_text p v = none

unfoldable pub to_bytes : LuaValue → Option Bytes
to_bytes (string s) = some s
to_bytes v = none

unfoldable pub to_uuid : Platform → LuaValue → Option ℕ
to_uuid p (string s) = if_valid (p.parse_uuid s) (p.utf8_error s)
to_uuid p v = none

-- `.ok()`.
abbrev pub to_option : {A : Type 0} → Checked A → Option A
to_option (good a) = some a
to_option (bad e) = none

abbrev pub is_null : LuaValue → Bool
is_null (light_user_data a) = a == 0
is_null v = false

abbrev wrong_element : ℕ → Bytes → Bytes
wrong_element i expected =
    codes "sqlx.array element " ++ to_string i ++ codes " must be " ++ expected

unfoldable pub at_element : {A : Type 0} → ℕ → Bytes → Option A → Checked A
at_element i expected none = bad (wrong_element i expected)
at_element i expected (some a) = good a

-- The elements from number i on.
unfoldable pub collect :
    {A : Type 0} → Bytes → (LuaValue → Option A) → ℕ → List LuaValue → Checked (List (Option A))
unfolding ◌>>=◌ at_element
collect expected convert i [] = good []
collect expected convert i (v ∷ vs) =
    (if is_null v then good none else (at_element i expected (convert v) >>= λ a. good (some a)))
    >>= λ x. collect expected convert (suc i) vs >>= λ xs. good (x ∷ xs)

unfoldable pub collect_sized :
    {A : Type 0}
    → Platform
    → Bytes
    → (LuaValue → Option A)
    → LuaTable
    → Option (Bool × ℕ)
    → Checked (List (Option A))
unfolding collect
collect_sized p expected convert t none = bad p.lua_error
collect_sized p expected convert t (some (is_array, n)) =
    if not is_array && is_there t.entries
    then bad (codes "sqlx.array values must be a Lua sequence")
    else collect expected convert 1 (array_values n 1 t)

unfoldable pub collect_pg_array :
    {A : Type 0} → Platform → Bytes → (LuaValue → Option A) → LuaTable → Checked (List (Option A))
unfolding collect_sized
collect_pg_array p expected convert t = collect_sized p expected convert t (array_size t)

-- `strip_suffix("[]").unwrap_or(..)`.
unfoldable pub element_type : Bytes → Bytes
element_type [] = []
element_type (c ∷ s) =
    let rest = element_type s in if same_bytes (c ∷ s) (codes "[]") then [] else c ∷ rest

pub data ElementKind : Type 0 where
  bool_kind int2_kind int4_kind int8_kind float4_kind float8_kind text_kind bytes_kind uuid_kind
        json_kind :
      ElementKind

-- The elements by the name of their type.
unfoldable pub element_kind : Bytes → Option ElementKind
unfolding among
element_kind s =
    if among (codes "bool" ∷ codes "boolean" ∷ []) s
    then some bool_kind
    else if among (codes "int2" ∷ codes "smallint" ∷ []) s
    then some int2_kind
    else if among (codes "int4" ∷ codes "integer" ∷ codes "int" ∷ []) s
    then some int4_kind
    else if among (codes "int8" ∷ codes "bigint" ∷ []) s
    then some int8_kind
    else if among (codes "float4" ∷ codes "real" ∷ []) s
    then some float4_kind
    else if among (codes "float8" ∷ codes "double" ∷ codes "double precision" ∷ []) s
    then some float8_kind
    else if among text_names s
    then some text_kind
    else if among (codes "bytea" ∷ codes "bytes" ∷ []) s
    then some bytes_kind
    else if among (codes "uuid" ∷ []) s
    then some uuid_kind
    else if among (codes "json" ∷ codes "jsonb" ∷ []) s
    then some json_kind
    else none
  where
    text_names : List Bytes
    text_names =
        codes "text"
        ∷ codes "varchar"
        ∷ codes "char"
        ∷ codes "character varying"
        ∷ codes "name"
        ∷ []

module _ (p : Platform) (h : Heap) (t : LuaTable) where
  -- An array of elements that `convert` gives, as a parameter.
  unfoldable pub gathered :
      {A : Type 0}
      → (List (Option A) → QueryParams)
      → Bytes
      → (LuaValue → Option A)
      → Checked QueryParams
  unfolding ◌>>=◌ collect_pg_array
  gathered param expected convert = collect_pg_array p expected convert t >>= λ xs. good (param xs)

  -- The array by the type of its elements; `type_name` is the type as it was given.
  unfoldable pub typed_array : Bytes → Option ElementKind → Checked QueryParams
  unfolding gathered to_bool to_int to_int8 to_float4 to_float8 to_text to_bytes to_uuid
      lua_value_to_json
  typed_array type_name (some bool_kind) = gathered pg_bool_array (codes "a boolean") to_bool
  typed_array type_name (some int2_kind) =
      gathered pg_int2_array (codes "an int2 integer") (to_int (2 ^ 15))
  typed_array type_name (some int4_kind) =
      gathered pg_int4_array (codes "an int4 integer") (to_int (2 ^ 31))
  typed_array type_name (some int8_kind) = gathered pg_int8_array (codes "an int8 integer") to_int8
  typed_array type_name (some float4_kind) =
      gathered pg_float4_array (codes "a number") (to_float4 p)
  typed_array type_name (some float8_kind) =
      gathered pg_float8_array (codes "a number") (to_float8 p)
  typed_array type_name (some text_kind) = gathered pg_text_array (codes "a string") (to_text p)
  typed_array type_name (some bytes_kind) = gathered pg_bytes_array (codes "a string") to_bytes
  typed_array type_name (some uuid_kind) =
      gathered pg_uuid_array (codes "a UUID string") (to_uuid p)
  typed_array type_name (some json_kind) =
      gathered pg_json_array (codes "a JSON value") (λ v. to_option (lua_value_to_json p h 64 v))
  typed_array type_name none =
      bad (codes "sqlx.array unsupported PostgreSQL element type: " ++ type_name)

abbrev pub text_field : Platform → Bytes → Bytes → LuaValue → Checked Bytes
text_field p context wrong (string s) = utf8_string p s context
text_field p context wrong v = bad wrong

abbrev pub table_field : Bytes → LuaValue → Checked ℕ
table_field wrong (table a) = good a
table_field wrong v = bad wrong

unfoldable pub get_pg_array_param : Platform → Heap → LuaTable → Checked QueryParams
unfolding ◌>>=◌ utf8_string raw_get element_type element_kind typed_array
get_pg_array_param p h wrapper =
    text_field p (codes "sqlx.array type") (codes "sqlx.array type must be a string")
      (raw_get (codes "type") wrapper.entries)
    >>= λ type_name.
        table_field (codes "sqlx.array values must be a table")
          (raw_get (codes "values") wrapper.entries)
        >>= λ a.
            typed_array p h (h a) type_name (element_kind (element_type (normalized p type_name)))

-- ===== src/Sqlx/Params/Query.antt =====
-- `get_query_param`: one parameter of a statement in crates/libs/lib-lualib/src/lua_sqlx.rs.
use lrust.Base.{ℕ, Bool, false, ◌||◌, ◌==◌, if◌then◌else◌, ◌++◌, Option, none, some}
use lrust.Base.Text.{Bytes, codes}
use lrust.Lua.{
  type_name, LuaValue, absent, nil, boolean, light_user_data, number, integer, string, table,
  LuaTable, Heap,
}
use lrust.Sqlx.Types.{
  text, QueryParams, null_param, bool_param, int_param, float_param, text_param, json_param,
  bytes_param, same_bytes,
}
use lrust.Sqlx.Client.{Checked, good, bad}
use lrust.Sqlx.Options.{◌>>=◌}
use lrust.Sqlx.Params.{Platform, utf8_string, parse_null_type, raw_get}
use lrust.Sqlx.Params.Json.{lua_value_to_json, lua_table_to_json}
use lrust.Sqlx.Params.Arrays.{get_pg_array_param}

-- The kind of a wrapper, none for a table that is no wrapper.
unfoldable pub wrapper_kind : Platform → LuaValue → Checked (Option Bytes)
unfolding ◌>>=◌ utf8_string
wrapper_kind p nil = good none
wrapper_kind p absent = good none
wrapper_kind p (string s) =
    utf8_string p s (codes "sqlx parameter kind") >>= λ kind. good (some kind)
wrapper_kind p v = bad (codes "sqlx parameter kind must be a string")

unfoldable pub null_type_name : Platform → LuaValue → Checked Bytes
unfolding utf8_string
null_type_name p nil = good (codes "text")
null_type_name p absent = good (codes "text")
null_type_name p (string s) = utf8_string p s (codes "sqlx.null type")
null_type_name p v = bad (codes "sqlx.null type must be a string")

unfoldable pub text_value : Platform → LuaValue → Checked QueryParams
unfolding ◌>>=◌ utf8_string
text_value p (string s) = utf8_string p s (codes "sqlx.text value") >>= λ s. good (text_param s)
text_value p v = bad (codes "sqlx.text value must be a string")

unfoldable pub bytes_value : LuaValue → Checked QueryParams
bytes_value (string s) = good (bytes_param s)
bytes_value v = bad (codes "sqlx.bytes value must be a string")

pub data WrapperKind : Type 0 where
  null_wrapper text_wrapper bytes_wrapper json_wrapper : WrapperKind

unfoldable pub wrapper_named : Bytes → Option WrapperKind
wrapper_named kind =
    if same_bytes kind (codes "null")
    then some null_wrapper
    else if same_bytes kind (codes "text")
    then some text_wrapper
    else if same_bytes kind (codes "bytes")
    then some bytes_wrapper
    else if same_bytes kind (codes "json")
    then some json_wrapper
    else none

unfoldable pub kind_param :
    Platform → Heap → LuaTable → Bytes → Option WrapperKind → Checked QueryParams
unfolding ◌>>=◌ raw_get null_type_name parse_null_type text_value bytes_value lua_value_to_json
kind_param p h wrapper kind (some null_wrapper) =
    null_type_name p (raw_get (codes "type") wrapper.entries) >>= λ type_name.
    parse_null_type p type_name >>= λ t. good (null_param t)
kind_param p h wrapper kind (some text_wrapper) =
    text_value p (raw_get (codes "value") wrapper.entries)
kind_param p h wrapper kind (some bytes_wrapper) =
    bytes_value (raw_get (codes "value") wrapper.entries)
kind_param p h wrapper kind (some json_wrapper) =
    lua_value_to_json p h 64 (raw_get (codes "value") wrapper.entries) >>= λ v. good (json_param v)
kind_param p h wrapper kind none = bad (codes "unknown sqlx parameter kind: " ++ kind)

unfoldable pub kind_of : Platform → Heap → LuaTable → Option Bytes → Checked (Option QueryParams)
unfolding ◌>>=◌ kind_param wrapper_named
kind_of p h wrapper none = good none
kind_of p h wrapper (some kind) =
    kind_param p h wrapper kind (wrapper_named kind) >>= λ q. good (some q)

unfoldable pub get_typed_query_param : Platform → Heap → LuaTable → Checked (Option QueryParams)
unfolding ◌>>=◌ raw_get wrapper_kind kind_of
get_typed_query_param p h wrapper =
    wrapper_kind p (raw_get (codes "__sqlx_param") wrapper.entries) >>= kind_of p h wrapper

abbrev pub is_true : LuaValue → Bool
is_true (boolean b) = b
is_true v = false

-- A table that is no typed wrapper: an array, or JSON.
unfoldable pub untyped_param : Platform → Heap → ℕ → Option QueryParams → Checked QueryParams
unfolding ◌>>=◌ raw_get get_pg_array_param lua_table_to_json
untyped_param p h a (some q) = good q
untyped_param p h a none =
    if is_true (raw_get (codes "__sqlx_array") (h a).entries) || (h a).has_sqlx_array
    then get_pg_array_param p h (h a)
    else lua_table_to_json p h 64 a >>= λ v. good (json_param v)

unfoldable pub get_query_param : Platform → Heap → LuaValue → Checked QueryParams
unfolding ◌>>=◌ utf8_string get_typed_query_param untyped_param type_name
get_query_param p h nil = good (null_param text)
get_query_param p h (light_user_data a) =
    if a == 0
    then good (null_param text)
    else bad (codes "get_query_param: unsupport value type :" ++ type_name (light_user_data a))
get_query_param p h (boolean b) = good (bool_param b)
get_query_param p h (number x) = good (float_param x)
get_query_param p h (integer n) = good (int_param n)
get_query_param p h (string s) =
    utf8_string p s (codes "SQL text parameter") >>= λ s. good (text_param s)
get_query_param p h (table a) = get_typed_query_param p h (h a) >>= untyped_param p h a
get_query_param p h v = bad (codes "get_query_param: unsupport value type :" ++ type_name v)

-- ===== src/Sqlx/Params/Ranges.antt =====
-- Every parameter that `get_query_param` of crates/libs/lib-lualib/src/lua_sqlx.rs makes is one that
-- its type promises.
use lrust.Base.{ℕ, ◌||◌, ◌==◌, Option, none, some}
use lrust.Base.Text.{Bytes, codes}
use lrust.Lua.{
  LuaValue, nil, boolean, light_user_data, number, integer, string, table, LuaTable, Heap,
}
use lrust.Sqlx.Types.{QueryParams, text_param, json_param, null_param, text}
use lrust.Sqlx.Client.{good}
use lrust.Sqlx.Options.{◌>>=◌}
use lrust.Sqlx.Params.{Platform, utf8_string, parse_null_type, raw_get}
use lrust.Sqlx.Params.Json.{lua_value_to_json, lua_table_to_json}
use lrust.Sqlx.Params.Arrays.{get_pg_array_param}
use lrust.Sqlx.Params.Query.{
  WrapperKind, null_wrapper, text_wrapper, bytes_wrapper, json_wrapper, wrapper_named, is_true,
  null_type_name, wrapper_kind, kind_of, text_value, bytes_value, kind_param, get_typed_query_param,
  untyped_param, get_query_param,
}
use lrust.Sqlx.Params.Sound.{
  IsSound, IfGood, IfGood-bind, lua_value_to_json-IsSound, lua_table_to_json-IsSound,
}
use lrust.Sqlx.Params.Bindable.{IsText, IsBindable, IfGood-if, IfGood-any}
use lrust.Sqlx.Params.ArrayRanges.{
  get_pg_array_param-IsBindable, utf8_string-IsText, after-IsBindable,
}

module _ (p : Platform) (h : Heap) where
  text_value-IsBindable : (v : LuaValue) → IfGood (IsBindable p) (text_value p v)
  unfolding text_value
  text_value-IsBindable (string s) =
      IfGood-bind (IsText p) (IsBindable p) (utf8_string p s (codes "sqlx.text value"))
        (λ s. good (text_param s)) (utf8_string-IsText p h s (codes "sqlx.text value")) (λ s g. g)
  text_value-IsBindable v = tt

  bytes_value-IsBindable : (v : LuaValue) → IfGood (IsBindable p) (bytes_value v)
  unfolding bytes_value
  bytes_value-IsBindable (string s) = tt
  bytes_value-IsBindable v = tt

  kind_param-IsBindable :
      (wrapper : LuaTable) (kind : Bytes) (k : Option WrapperKind)
      → IfGood (IsBindable p) (kind_param p h wrapper kind k)
  unfolding kind_param
  kind_param-IsBindable wrapper kind (some null_wrapper) =
      after-IsBindable p h (null_type_name p (raw_get (codes "type") wrapper.entries)) _
        (λ type_name. after-IsBindable p h (parse_null_type p type_name) _ (λ t. tt))
  kind_param-IsBindable wrapper kind (some text_wrapper) =
      text_value-IsBindable (raw_get (codes "value") wrapper.entries)
  kind_param-IsBindable wrapper kind (some bytes_wrapper) =
      bytes_value-IsBindable (raw_get (codes "value") wrapper.entries)
  kind_param-IsBindable wrapper kind (some json_wrapper) =
      IfGood-bind (IsSound p) (IsBindable p)
        (lua_value_to_json p h 64 (raw_get (codes "value") wrapper.entries))
        (λ v. good (json_param v))
        (lua_value_to_json-IsSound p h 64 (raw_get (codes "value") wrapper.entries)) (λ v g. g)
  kind_param-IsBindable wrapper kind none = tt

  -- A parameter, where the table is a wrapper.
  IsBindableIfAny : Option QueryParams → Type 0
  IsBindableIfAny none = Unit
  IsBindableIfAny (some q) = IsBindable p q

  kind_of-IsBindable :
      (wrapper : LuaTable) (o : Option Bytes) → IfGood IsBindableIfAny (kind_of p h wrapper o)
  unfolding kind_of IsBindableIfAny
  kind_of-IsBindable wrapper none = tt
  kind_of-IsBindable wrapper (some kind) =
      IfGood-bind (IsBindable p) IsBindableIfAny (kind_param p h wrapper kind (wrapper_named kind))
        (λ q. good (some q)) (kind_param-IsBindable wrapper kind (wrapper_named kind)) (λ q g. g)

  get_typed_query_param-IsBindable :
      (wrapper : LuaTable) → IfGood IsBindableIfAny (get_typed_query_param p h wrapper)
  unfolding get_typed_query_param
  get_typed_query_param-IsBindable wrapper =
      IfGood-bind (λ o. Unit) IsBindableIfAny
        (wrapper_kind p (raw_get (codes "__sqlx_param") wrapper.entries)) (kind_of p h wrapper)
        (IfGood-any (wrapper_kind p (raw_get (codes "__sqlx_param") wrapper.entries)))
        (λ o u. kind_of-IsBindable wrapper o)

  untyped_param-IsBindable :
      (a : ℕ) (o : Option QueryParams)
      → IsBindableIfAny o
      → IfGood (IsBindable p) (untyped_param p h a o)
  unfolding untyped_param IsBindableIfAny
  untyped_param-IsBindable a (some q) g = g
  untyped_param-IsBindable a none g =
      IfGood-if (IsBindable p)
        (is_true (raw_get (codes "__sqlx_array") (h a).entries) || (h a).has_sqlx_array)
        (get_pg_array_param p h (h a)) (lua_table_to_json p h 64 a >>= λ v. good (json_param v))
        (get_pg_array_param-IsBindable p h (h a))
        (IfGood-bind (IsSound p) (IsBindable p) (lua_table_to_json p h 64 a)
          (λ v. good (json_param v)) (lua_table_to_json-IsSound p h 64 a) (λ v k. k))

  -- A parameter that is made of a Lua value fits its type: an int2 or int4 array has only numbers of
  -- 16 or 32 bits, texts and text arrays are UTF-8, and JSON, alone or in an array, has finite
  -- numbers, texts in UTF-8, names of members in UTF-8 or decimal, and no two members of one name in
  -- an object.
  pub get_query_param-IsBindable : (v : LuaValue) → IfGood (IsBindable p) (get_query_param p h v)
  unfolding get_query_param
  get_query_param-IsBindable nil = tt
  get_query_param-IsBindable (light_user_data a) =
      IfGood-if (IsBindable p) (a == 0) (good (null_param text)) _ tt tt
  get_query_param-IsBindable (boolean b) = tt
  get_query_param-IsBindable (number x) = tt
  get_query_param-IsBindable (integer n) = tt
  get_query_param-IsBindable (string s) =
      IfGood-bind (IsText p) (IsBindable p) (utf8_string p s (codes "SQL text parameter"))
        (λ s. good (text_param s)) (utf8_string-IsText p h s (codes "SQL text parameter"))
        (λ s g. g)
  get_query_param-IsBindable (table a) =
      IfGood-bind IsBindableIfAny (IsBindable p) (get_typed_query_param p h (h a))
        (untyped_param p h a) (get_typed_query_param-IsBindable (h a))
        (λ o g. untyped_param-IsBindable a o g)
  get_query_param-IsBindable v = tt

-- ===== src/Sqlx/Params/ArrayRanges.antt =====
-- The arrays that `get_pg_array_param` of crates/libs/lib-lualib/src/lua_sqlx.rs makes fit their types.
use lrust.Base.{◌^◌, ◌≡◌, refl, List, Option, none, some}
use lrust.Base.Text.{Bytes, codes}
use lrust.Lua.{LuaValue, LuaTable, Heap}
use lrust.Sqlx.Types.{
  QueryParams, pg_bool_array, pg_int8_array, pg_float4_array, pg_float8_array, pg_bytes_array,
  pg_uuid_array, pg_int2_array, pg_int4_array, pg_text_array, pg_json_array,
}
use lrust.Sqlx.Client.{Checked, good, bad}
use lrust.Sqlx.Options.{◌>>=◌}
use lrust.Sqlx.Params.{Platform, utf8_string, checked_text, normalized, raw_get}
use lrust.Sqlx.Params.Json.{lua_value_to_json}
use lrust.Sqlx.Params.Arrays.{
  ElementKind, bool_kind, int2_kind, int4_kind, int8_kind, float4_kind, float8_kind, text_kind,
  bytes_kind, uuid_kind, json_kind, element_kind, to_bool, to_int8, to_float4, to_float8, to_bytes,
  to_uuid, text_field, table_field, to_int, to_text, gathered, typed_array, get_pg_array_param,
  to_option, element_type,
}
use lrust.Sqlx.Params.Sound.{IsSound, IfGood}
use lrust.Sqlx.Params.Bindable.{
  IsWithin, IsText, IsBindable, IfSome, to_int-IsWithin, to_text-IsText, to_json-IsSound,
  gathered-IsBindable,
}

module _ (p : Platform) (h : Heap) where
  any_array :
      {A : Type 0} (t : LuaTable) (param : List (Option A) → QueryParams) (expected : Bytes)
      (convert : LuaValue → Option A)
      → ((xs : List (Option A)) → IsBindable p (param xs))
      → IfGood (IsBindable p) (gathered p h t param expected convert)
  any_array t param expected convert whole =
      gathered-IsBindable p h (λ a. Unit) t param expected convert (λ v. any (convert v))
        (λ xs k. whole xs)
    where
      any : {A : Type 0} (o : Option A) → IfSome (λ a. Unit) o
      any none = tt
      any (some a) = tt

  typed_array-IsBindable :
      (t : LuaTable) (type_name : Bytes) (kind : Option ElementKind)
      → IfGood (IsBindable p) (typed_array p h t type_name kind)
  unfolding typed_array
  typed_array-IsBindable t type_name (some int2_kind) =
      gathered-IsBindable p h (IsWithin (2 ^ 15)) t pg_int2_array (codes "an int2 integer")
        (to_int (2 ^ 15)) (to_int-IsWithin (2 ^ 15)) (λ xs k. k)
  typed_array-IsBindable t type_name (some int4_kind) =
      gathered-IsBindable p h (IsWithin (2 ^ 31)) t pg_int4_array (codes "an int4 integer")
        (to_int (2 ^ 31)) (to_int-IsWithin (2 ^ 31)) (λ xs k. k)
  typed_array-IsBindable t type_name (some text_kind) =
      gathered-IsBindable p h (IsText p) t pg_text_array (codes "a string") (to_text p)
        (to_text-IsText p h) (λ xs k. k)
  typed_array-IsBindable t type_name (some json_kind) =
      gathered-IsBindable p h (IsSound p) t pg_json_array (codes "a JSON value")
        (λ v. to_option (lua_value_to_json p h 64 v)) (to_json-IsSound p h) (λ xs k. k)
  typed_array-IsBindable t type_name (some bool_kind) =
      any_array t pg_bool_array (codes "a boolean") to_bool (λ xs. tt)
  typed_array-IsBindable t type_name (some int8_kind) =
      any_array t pg_int8_array (codes "an int8 integer") to_int8 (λ xs. tt)
  typed_array-IsBindable t type_name (some float4_kind) =
      any_array t pg_float4_array (codes "a number") (to_float4 p) (λ xs. tt)
  typed_array-IsBindable t type_name (some float8_kind) =
      any_array t pg_float8_array (codes "a number") (to_float8 p) (λ xs. tt)
  typed_array-IsBindable t type_name (some bytes_kind) =
      any_array t pg_bytes_array (codes "a string") to_bytes (λ xs. tt)
  typed_array-IsBindable t type_name (some uuid_kind) =
      any_array t pg_uuid_array (codes "a UUID string") (to_uuid p) (λ xs. tt)
  typed_array-IsBindable t type_name none = tt

  -- A conversion after another whose result does not matter.
  pub after-IsBindable :
      {A : Type 0} (m : Checked A) (f : A → Checked QueryParams)
      → ((a : A) → IfGood (IsBindable p) (f a))
      → IfGood (IsBindable p) (m >>= f)
  unfolding ◌>>=◌
  after-IsBindable (good a) f g = g a
  after-IsBindable (bad e) f g = tt

  pub get_pg_array_param-IsBindable :
      (wrapper : LuaTable) → IfGood (IsBindable p) (get_pg_array_param p h wrapper)
  unfolding get_pg_array_param
  get_pg_array_param-IsBindable wrapper =
      after-IsBindable
        (text_field p (codes "sqlx.array type") (codes "sqlx.array type must be a string")
          (raw_get (codes "type") wrapper.entries))
        _
        (λ type_name.
          after-IsBindable
            (table_field (codes "sqlx.array values must be a table")
              (raw_get (codes "values") wrapper.entries))
            _
            (λ a.
              typed_array-IsBindable (h a) type_name
                (element_kind (element_type (normalized p type_name)))))

  pub utf8_string-IsText : (s context : Bytes) → IfGood (IsText p) (utf8_string p s context)
  unfolding utf8_string
  utf8_string-IsText s context = valid (p.utf8_error s) refl
    where
      valid : (o : Option Bytes) → p.utf8_error s ≡ o → IfGood (IsText p) (checked_text s context o)
      valid none e = e
      valid (some m) e = tt

-- ===== src/Json/Tests.antt =====
-- Runs of the JSON codec, and the theorems about it at concrete inputs.
use mathlib.Core.List.{flat_map}
use lrust.Json.Render.{escape}
use lrust.Base.{
  zero, suc, take, arith, ℕ, ◌≡◌, refl, true, false, get_or, List, [], ◌∷◌, ◌++◌, some, map,
}
use lrust.Base.Int.{pos, negsuc}
use lrust.Base.Text.{Bytes, codes, to_string_ℤ}
use lrust.Sqlx.Types.{JsonValue, JsonValues, JsonFields}
use lrust.Lua.{
  LuaValue, nil, boolean, light_user_data, integer, string, table, array_size, array_values, Entry,
  LuaTable, Heap,
}
use lrust.Json.Encode
use lrust.Json.Encode.{
  Context, encode_entry, push_all_escaped, push_escaped, JsonOptions, default, Encoding, written,
  failed, message, encode, encode_one, write_string,
}
use lrust.Json.Render.{value_text, table_text}
use lrust.Json.Equal.{encode_one-value_text}
use lrust.Json.Equal.Frame.{after}
use lrust.Json.Finished.{IsFinished, encode-IsFinished}
use lrust.Json.Strings.{read_string, read_string-write_string}
use lrust.Base.Utf8.{is_utf8, is_utf8_from, next_place}
use lrust.Json.Plain.{ArePlain}
use lrust.Json.Valid.{IsValid, encode-IsValid}
use lrust.Json.Resp.{hash_string, command, concat_resp}
use lrust.Json.Resp.Reader.{read_command}
use lrust.Json.Resp.RoundTrip.{text_of, read_command-concat_resp}
use lrust.Json.Options.{initial, changed, set_options, set_options-undo, concat}
use lrust.Json.Decode.{leaf, new_table, no_entry, rawget, decode_one}
use lrust.Json.Decode.Members.{key_of, entries}
use lrust.Json.Decode.Keys.{key_of-encode_entry}
use lrust.Json.Grammar.{IsSpace}

calls : Unit {0}
unfolding hash_string encode set_options concat_resp concat decode_one rawget array_size
    array_values Encode.◌>>=◌ push_all_escaped push_escaped to_string_ℤ
calls = tt

-- No float is printed here.
abbrev no_float : ℕ → Bytes
no_float x = codes "0.5"

abbrev list_table : List Entry → ℕ → LuaTable
list_table es n = record {
  entries = es;
  rawlen = n;
  has_array = false;
  has_object = false;
  has_redis = false;
  has_sqlx_array = false;
}

-- Table 0 is an array, table 1 an object that holds it, table 3 a sparse array, table 4 has a boolean
-- key, table 5 a key with a quote, and table 2 holds itself.
abbrev tables : List LuaTable
tables =
    list_table ((integer (pos 1), boolean true) ∷ (integer (pos 2), string (codes "a\"b")) ∷ []) 2
    ∷ list_table ((string (codes "x"), table 0) ∷ (integer (pos 7), light_user_data 0) ∷ []) 0
    ∷ list_table ((integer (pos 1), table 2) ∷ []) 1
    ∷ list_table ((integer (pos 1), integer (pos 5)) ∷ (integer (pos 3), integer (pos 6)) ∷ []) 3
    ∷ list_table ((boolean true, integer (pos 5)) ∷ (string (codes "a"), nil) ∷ []) 0
    ∷ list_table ((string (codes "\"q"), boolean false) ∷ []) 0
    ∷ []

abbrev heap : Heap
heap a = get_or tables a (list_table [] 0)

encode_nested :
    encode no_float initial false heap (table 1)
    ≡ written (codes "{\"x\":[true,\"a\\\"b\"],\"7\":null}")
unfolding calls
encode_nested = refl

encode_format :
    encode no_float initial true heap (table 0) ≡ written (codes "[\n  true\n,  \"a\\\"b\"\n]")
unfolding calls
encode_format = refl

-- A table that holds itself meets the depth limit.
encode_cycle :
    encode no_float initial false heap (table 2) ≡ failed (message (codes "json encode: too depth"))
unfolding calls
encode_cycle = refl

-- An array with a gap is an object, or has a null where sparse arrays are allowed.
encode_gap : encode no_float initial false heap (table 3) ≡ written (codes "{\"1\":5,\"3\":6}")
unfolding calls
encode_gap = refl

encode_sparse : encode no_float default false heap (table 3) ≡ written (codes "[5,null,6]")
unfolding calls
encode_sparse = refl

-- A key of another type leaves its comma behind.
encode_boolean_key : encode no_float initial false heap (table 4) ≡ written (codes "{,\"a\":null}")
unfolding calls
encode_boolean_key = refl

-- A key is written without escapes.
encode_quoted_key : encode no_float initial false heap (table 5) ≡ written (codes "{\"\"q\":false}")
unfolding calls
encode_quoted_key = refl

encode_empty : encode no_float initial false heap (table 9) ≡ written (codes "[]")
unfolding calls
encode_empty = refl

resp_get :
    concat_resp no_float initial heap 1 (string (codes "GET") ∷ string (codes "k") ∷ [])
    ≡ command (codes "*2\r\n$3\r\nGET\r\n$1\r\nk\r\n") 3298449271406463042
unfolding calls
resp_get = refl

encode_one-value_text_example :
    encode_one no_float initial false heap 65 0 (table 3) (codes "x=")
    ≡ after
        (codes "x=")
        (value_text (table_text no_float initial false heap 65 0) no_float (table 3))
encode_one-value_text_example =
    encode_one-value_text no_float initial false heap 65 0 (table 3) (codes "x=")

encode-IsFinished_example : IsFinished (encode no_float initial false heap (table 2))
encode-IsFinished_example = encode-IsFinished no_float initial false heap (table 2)

read_string-write_string_example :
    (u : Bytes) × (write_string (codes "a\"\n") (codes "x") ≡ codes "x" ++ u)
    × (read_string (u ++ codes ",") ≡ some (codes "a\"\n", codes ","))
read_string-write_string_example = read_string-write_string (codes "a\"\n") (codes "x") (codes ",")

-- The first four tables alone.
abbrev plain_heap : Heap
plain_heap a = get_or (take 4 tables) a (list_table [] 0)

plain_heap-ArePlain : (a : ℕ) → ArePlain no_float ((plain_heap a).entries)
unfolding escape flat_map is_utf8 is_utf8_from next_place
plain_heap-ArePlain zero = (tt, (refl, tt))
plain_heap-ArePlain (suc zero) = (((refl, refl), tt), (refl, tt))
plain_heap-ArePlain (suc (suc zero)) = (tt, tt)
plain_heap-ArePlain (suc (suc (suc zero))) = (tt, (tt, tt))
plain_heap-ArePlain (suc (suc (suc (suc a)))) = tt

encode-IsValid_example : IsValid (encode no_float initial false plain_heap (table 1))
encode-IsValid_example =
    encode-IsValid no_float initial false plain_heap (table 1) plain_heap-ArePlain tt

-- A string that is not UTF-8 is written as it is, so the text is none either.
encode_bytes :
    (encode no_float initial false heap (string (255 ∷ [])) ≡ written (b'"' ∷ 255 ∷ b'"' ∷ []))
    × (is_utf8 (b'"' ∷ 255 ∷ b'"' ∷ []) ≡ false)
unfolding calls is_utf8 is_utf8_from next_place
encode_bytes = (refl, refl)

no_redis : (a : ℕ) → (plain_heap a).has_redis ≡ false
no_redis zero = refl
no_redis (suc zero) = refl
no_redis (suc (suc zero)) = refl
no_redis (suc (suc (suc zero))) = refl
no_redis (suc (suc (suc (suc a)))) = refl

abbrev get_key : List LuaValue
get_key = string (codes "GET") ∷ string (codes "k") ∷ []

abbrev get_key_text : Bytes
get_key_text = codes "*2\r\n$3\r\nGET\r\n$1\r\nk\r\n"

resp_plain :
    concat_resp no_float initial plain_heap 1 get_key ≡ command get_key_text 3298449271406463042
unfolding calls
resp_plain = refl

read_command-concat_resp_example :
    read_command (get_key_text ++ codes "+OK")
    ≡ some (map (text_of no_float initial plain_heap) get_key, codes "+OK")
read_command-concat_resp_example =
    read_command-concat_resp no_float initial plain_heap no_redis 0 get_key get_key_text
      (codes "+OK") 3298449271406463042 resp_plain

set_sparse : set_options (codes "enable_sparse_array") (some true) initial ≡ changed default false
unfolding calls
set_sparse = refl

set_options-undo_example :
    set_options (codes "enable_sparse_array") (some false) default ≡ changed initial true
set_options-undo_example =
    set_options-undo (codes "enable_sparse_array") true false initial default set_sparse

-- What the encoder writes between the braces, formatted, two levels deep.
abbrev inside : Context
inside = record { options = initial; fmt = true; depth = 2; one = λ v w. written w }

key_of-encode_entry_example :
    (s t u name : Bytes) × IsSpace s
    × (encode_entry inside (integer (negsuc 41), nil) (codes "{") ≡ written (codes "{" ++ s ++ t))
    × (read_string t ≡ some (name, codes ":" ++ u))
    × IsSpace u
    × (key_of initial name ≡ integer (negsuc 41))
key_of-encode_entry_example =
    key_of-encode_entry inside (negsuc 41) nil (codes "{") refl (omega arith)

-- The members "a", "", "7" and "a" again, and the elements true and null.
abbrev sample_members : JsonFields
sample_members = JsonFields.field (codes "a") JsonValue.null (
    JsonFields.field [] JsonValue.null (
      JsonFields.field (codes "7") (JsonValue.boolean true)
        (JsonFields.field (codes "a") (JsonValue.integer (pos 5)) JsonFields.end)))

abbrev sample_elements : JsonValues
sample_elements =
    JsonValues.cons (JsonValue.boolean true) (JsonValues.cons JsonValue.null JsonValues.nil)

-- A member with an empty name is lost.
decode_unnamed :
    decode_one initial (JsonValue.object (JsonFields.field [] JsonValue.null JsonFields.end))
    ≡ new_table no_entry
unfolding calls
decode_unnamed = refl

-- A number above the range of i64 is decoded as 0.
decode_large :
    decode_one initial (JsonValue.integer (pos 9223372036854775808)) ≡ leaf (integer (pos 0))
unfolding calls
decode_large = refl

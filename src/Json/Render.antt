-- ===== src/Json/Render.antt =====
-- A reference printer of Lua values as JSON, which makes the text of a value out of the texts of
-- its parts: no writer, no bytes taken back. crates/libs/lib-lualib/src/lua_json.rs is compared
-- with it.
use mathlib.Core.List.{flat_map}
use lrust.Base.{
  ℕ, zero, suc, ◌+◌, ◌-◌, ◌*◌, ◌/◌, ◌%◌, Bool, true, false, not, ◌&&◌, ltb, ◌==◌, if◌then◌else◌,
  List, [], ◌∷◌, ◌++◌, Option, none, some, replicate,
}
use lrust.Base.Text.{Bytes, codes, to_string_ℤ}
use lrust.Lua.{
  LuaValue, nil, boolean, light_user_data, number, integer, string, table, LuaTable, Heap, Entry,
  name, array_size, array_values,
}
use lrust.Json.Encode.{
  JsonOptions, Encoding, Failure, message, written, failed, raised, unfinished, is_nil,
}

abbrev hex : ℕ → ℕ
hex n = if ltb n 10 then b'0' + n else b'A' + (n - 10)

-- The escapes of RFC 8259, the short ones where there are.
unfoldable pub escape : ℕ → Bytes
escape c =
    if c == 8
    then codes "\\b"
    else if c == 9
    then codes "\\t"
    else if c == 10
    then codes "\\n"
    else if c == 12
    then codes "\\f"
    else if c == 13
    then codes "\\r"
    else if c == 34
    then codes "\\\""
    else if c == 92
    then codes "\\\\"
    else if ltb c 32
    then codes "\\u00" ++ (hex (c / 16) ∷ hex (c % 16) ∷ [])
    else c ∷ []

unfoldable pub quoted : Bytes → Bytes
unfolding escape
quoted s = codes "\"" ++ flat_map escape s ++ codes "\""

abbrev pub new_line : Bool → Bytes
new_line fmt = if fmt then codes "\n" else []

abbrev pub indent : Bool → ℕ → Bytes
indent fmt n = if fmt then replicate (2 * n) b' ' else []

-- The texts of the parts of a table; or that an array has a gap; or that a part has no text.
pub data Pieces : Type 0 where
  pieces : List Bytes → Pieces
  gap : Pieces
  stopped : Failure → Pieces

abbrev pub prepend : Encoding → Pieces → Pieces
prepend (written t) (pieces ts) = pieces (t ∷ ts)
prepend (written t) ps = ps
prepend (failed e) ps = stopped e

-- Each piece after a comma.
unfoldable pub more : List Bytes → Bytes
more [] = []
more (t ∷ ts) = codes "," ++ t ++ more ts

unfoldable pub separated : List Bytes → Bytes
unfolding more
separated [] = []
separated (t ∷ ts) = t ++ more ts

-- What the parts of a table share: the options, `fmt`, their depth, and the text of a value.
pub record Style : Type 0 where
  pub options : JsonOptions
  pub fmt : Bool
  pub depth : ℕ
  pub text : LuaValue → Encoding

abbrev pub framed : Bytes → Bytes → Encoding → Encoding
framed before after (written t) = written (before ++ t ++ after)
framed before after (failed e) = failed e

unfoldable pub element : Style → LuaValue → Encoding
element s v = framed (indent s.fmt s.depth) (new_line s.fmt) (s.text v)

unfoldable pub elements : Style → List LuaValue → Pieces
unfolding element
elements s [] = pieces []
elements s (v ∷ vs) =
    let rest = elements s vs in
    if is_nil v && not s.options.enable_sparse_array then gap else prepend (element s v) rest

unfoldable pub member_text : Style → Bytes → LuaValue → Encoding
member_text s key v =
    framed
      (new_line s.fmt
        ++ indent s.fmt s.depth
        ++ codes "\""
        ++ key
        ++ codes "\":"
        ++ (if s.fmt then codes " " else []))
      [] (s.text v)

unfoldable pub member : Style → Entry → Encoding
unfolding member_text
member s (string key, v) = member_text s key v
member s (integer key, v) =
    if s.options.enable_number_key
    then member_text s (to_string_ℤ key) v
    else failed (message (codes "json encode: unsupport number key type."))
member s (key, v) = written (new_line s.fmt)

unfoldable pub members : Style → List Entry → Pieces
unfolding member
members s [] = pieces []
members s (e ∷ es) = prepend (member s e) (members s es)

unfoldable pub object_text : Style → Pieces → Encoding
unfolding separated
object_text s (pieces []) = written (if s.options.empty_as_array then codes "[]" else codes "{}")
object_text s (pieces ts) =
    written (codes "{" ++ separated ts ++ new_line s.fmt ++ indent s.fmt (s.depth - 1) ++ codes "}")
object_text s gap = failed unfinished
object_text s (stopped e) = failed e

-- An array with a gap is printed as an object.
unfoldable pub array_text : Style → LuaTable → Pieces → Encoding
unfolding separated object_text members
array_text s t (pieces []) = written (codes "[" ++ indent s.fmt (s.depth - 1) ++ codes "]")
array_text s t (pieces ts) =
    written (codes "[" ++ new_line s.fmt ++ separated ts ++ indent s.fmt (s.depth - 1) ++ codes "]")
array_text s t gap = object_text s (members s t.entries)
array_text s t (stopped e) = failed e

unfoldable pub sized_text : Style → LuaTable → Option (Bool × ℕ) → Encoding
unfolding array_text elements members object_text
sized_text s t none = failed raised
sized_text s t (some (true, n)) = array_text s t (elements s (array_values n 1 t))
sized_text s t (some (false, n)) = object_text s (members s t.entries)

unfoldable pub value_text : (ℕ → Encoding) → (ℕ → Bytes) → LuaValue → Encoding
unfolding quoted
value_text table_text number_text nil = written (codes "null")
value_text table_text number_text (boolean b) = written (if b then codes "true" else codes "false")
value_text table_text number_text (light_user_data a) =
    written (if a == 0 then codes "null" else [])
value_text table_text number_text (number x) = written (number_text x)
value_text table_text number_text (integer n) = written (to_string_ℤ n)
value_text table_text number_text (string s) = written (quoted s)
value_text table_text number_text (table a) = table_text a
value_text table_text number_text v =
    failed (message (codes "json encode: unsupport value type :" ++ name v))

-- The fuel bounds the nesting.
unfoldable pub table_text : (ℕ → Bytes) → JsonOptions → Bool → Heap → ℕ → ℕ → ℕ → Encoding
unfolding value_text sized_text
table_text number_text options fmt h zero depth a = failed unfinished
table_text number_text options fmt h (suc fuel) depth a =
    let text = value_text (table_text number_text options fmt h fuel (suc depth)) number_text in
    if ltb 64 (suc depth)
    then failed (message (codes "json encode: too depth"))
    else sized_text (record { options = options; fmt = fmt; depth = suc depth; text = text }) (h a)
        (array_size (h a))

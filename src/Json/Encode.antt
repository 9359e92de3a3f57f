-- ===== src/Json/Encode.antt =====
-- The encoder of crates/libs/lib-lualib/src/lua_json.rs: `encode_one` and what it calls.
--
-- A writer is the bytes written so far.
use lrust.Base.{
  ℕ, zero, suc, ◌-◌, ◌/◌, ◌%◌, Bool, true, false, not, ◌&&◌, ltb, ◌==◌, if◌then◌else◌, List, [],
  ◌∷◌, ◌++◌, Option, none, some, length, get_or, take, replicate,
}
use lrust.Base.Text.{Bytes, codes, to_string_ℤ}
use lrust.Lua.{
  LuaValue, nil, boolean, light_user_data, number, integer, string, table, LuaTable, Heap, Entry,
  name, array_size, array_values,
}

abbrev pub char2escape : Bytes
char2escape =
    replicate 8 b'u'
    ++ codes "btnufr"
    ++ replicate 18 b'u'
    ++ (0 ∷ 0 ∷ b'"' ∷ [])
    ++ replicate 57 0
    ++ (b'\\' ∷ [])
    ++ replicate 163 0

abbrev pub hex_digits : Bytes
hex_digits = codes "0123456789ABCDEF"

pub record JsonOptions : Type 0 where
  pub empty_as_array : Bool
  pub enable_number_key : Bool
  pub enable_sparse_array : Bool

abbrev pub default : JsonOptions
default = record { empty_as_array = true; enable_number_key = true; enable_sparse_array = true }

-- Why there is no text: the message of an error, an error that Lua raised, or fuel that ran out.
pub data Failure : Type 0 where
  message : Bytes → Failure
  raised : Failure
  unfinished : Failure

pub data Encoding : Type 0 where
  written : Bytes → Encoding
  failed : Failure → Encoding

infixl 40 ◌>>=◌
unfoldable pub ◌>>=◌ : Encoding → (Bytes → Encoding) → Encoding
written w >>= f = f w
failed e >>= f = failed e

abbrev pub push : Bytes → ℕ → Bytes
push w c = w ++ (c ∷ [])

unfoldable pub push_escaped : ℕ → Bytes → Bytes
push_escaped c w =
    let esc = get_or char2escape c 0 in
    if esc == 0
    then push w c
    else if esc == b'u'
    then push
        (push (push (push (push (push w b'\\') esc) b'0') b'0') (get_or hex_digits (c / 16 % 16) 0))
        (get_or hex_digits (c % 16) 0)
    else push (push w b'\\') esc

unfoldable pub push_all_escaped : Bytes → Bytes → Bytes
push_all_escaped [] w = w
push_all_escaped (c ∷ s) w = push_all_escaped s (push_escaped c w)

unfoldable pub write_string : Bytes → Bytes → Bytes
write_string s w = push (push_all_escaped s (push w b'"')) b'"'

unfoldable pub format_new_line : Bool → Bytes → Bytes
format_new_line fmt w = if fmt then push w b'\n' else w

unfoldable pub format_space : Bool → ℕ → Bytes → Bytes
format_space fmt zero w = w
format_space fmt (suc n) w =
    let rest = format_space fmt n (push (push w b' ') b' ') in if fmt then rest else w

abbrev pub is_nil : LuaValue → Bool
is_nil nil = true
is_nil v = false

unfoldable pub encode_value : (ℕ → Bytes → Encoding) → (ℕ → Bytes) → LuaValue → Bytes → Encoding
unfolding write_string
encode_value encode_table number_text (boolean b) w =
    written (w ++ (if b then codes "true" else codes "false"))
encode_value encode_table number_text (number x) w = written (w ++ number_text x)
encode_value encode_table number_text (integer n) w = written (w ++ to_string_ℤ n)
encode_value encode_table number_text (string s) w = written (write_string s w)
encode_value encode_table number_text (table a) w = encode_table a w
encode_value encode_table number_text nil w = written (w ++ codes "null")
encode_value encode_table number_text (light_user_data a) w =
    written (if a == 0 then w ++ codes "null" else w)
encode_value encode_table number_text v w =
    failed (message (codes "json encode: unsupport value type :" ++ name v))

-- What the loops over a table share: the options, `fmt`, the depth of its elements, and the way an
-- element is encoded.
pub record Context : Type 0 where
  pub options : JsonOptions
  pub fmt : Bool
  pub depth : ℕ
  pub one : LuaValue → Bytes → Encoding

unfoldable pub write_key : Context → Bytes → LuaValue → Bytes → Encoding
unfolding format_space
write_key c key v w =
    let w1 = push (format_space c.fmt c.depth w) b'"' ++ key ++ codes "\":" in
    c.one v (if c.fmt then push w1 b' ' else w1)

unfoldable pub encode_entry : Context → Entry → Bytes → Encoding
unfolding write_key
encode_entry c (string key, v) w = write_key c key v w
encode_entry c (integer key, v) w =
    if c.options.enable_number_key
    then write_key c (to_string_ℤ key) v w
    else failed (message (codes "json encode: unsupport number key type."))
encode_entry c (key, v) w = written w

unfoldable pub close_object : Context → ℕ → Bytes → Bytes
unfolding format_new_line format_space
close_object c i w =
    if (i == 0) && c.options.empty_as_array
    then take (length w - 1) w ++ codes "[]"
    else push (if ltb 0 i then format_space c.fmt (c.depth - 1) (format_new_line c.fmt w) else w)
        b'}'

unfoldable pub encode_entries : Context → ℕ → List Entry → Bytes → Encoding
unfolding encode_entry close_object format_new_line
encode_entries c i [] w = written (close_object c i w)
encode_entries c i (e ∷ es) w =
    encode_entry c e (format_new_line c.fmt (if ltb 0 i then push w b',' else w))
    >>= encode_entries c (suc i) es

unfoldable pub encode_object : Context → LuaTable → Bytes → Encoding
unfolding encode_entries
encode_object c t w = encode_entries c 0 t.entries (push w b'{')

-- The elements from number i on, where the array began after `bsize` bytes.
unfoldable pub encode_elements : Context → LuaTable → ℕ → ℕ → List LuaValue → Bytes → Encoding
unfolding encode_object format_new_line format_space
encode_elements c t bsize i [] w = written (push (format_space c.fmt (c.depth - 1) w) b']')
encode_elements c t bsize i (v ∷ vs) w =
    let w1 = format_space c.fmt c.depth (if i == 0 then format_new_line c.fmt w else push w b',') in
    if is_nil v && not c.options.enable_sparse_array
    then encode_object c t (take bsize w1)
    else c.one v w1 >>= λ w2. encode_elements c t bsize (suc i) vs (format_new_line c.fmt w2)

unfoldable pub encode_array : Context → LuaTable → ℕ → Bytes → Encoding
unfolding encode_elements
encode_array c t size w = encode_elements c t (length w) 0 (array_values size 1 t) (push w b'[')

unfoldable pub encode_sized : Context → LuaTable → Option (Bool × ℕ) → Bytes → Encoding
unfolding encode_array encode_object
encode_sized c t none w = failed raised
encode_sized c t (some (true, size)) w = encode_array c t size w
encode_sized c t (some (false, size)) w = encode_object c t w

-- The fuel bounds the nesting of the calls.
unfoldable pub encode_table : (ℕ → Bytes) → JsonOptions → Bool → Heap → ℕ → ℕ → ℕ → Bytes → Encoding
unfolding encode_value encode_sized
encode_table number_text options fmt h zero depth a w = failed unfinished
encode_table number_text options fmt h (suc fuel) depth a w =
    let one = encode_value (encode_table number_text options fmt h fuel (suc depth)) number_text in
    if ltb 64 (suc depth)
    then failed (message (codes "json encode: too depth"))
    else encode_sized (record { options = options; fmt = fmt; depth = suc depth; one = one }) (h a)
        (array_size (h a)) w

unfoldable pub encode_one :
    (ℕ → Bytes) → JsonOptions → Bool → Heap → ℕ → ℕ → LuaValue → Bytes → Encoding
unfolding encode_value encode_table
encode_one number_text options fmt h fuel depth v w =
    encode_value (encode_table number_text options fmt h fuel depth) number_text v w

-- The Lua function `encode`, for a value that is no `none`; 65 is one more than the deepest nesting.
unfoldable pub encode : (ℕ → Bytes) → JsonOptions → Bool → Heap → LuaValue → Encoding
unfolding encode_one
encode number_text options fmt h v = encode_one number_text options fmt h 65 0 v []

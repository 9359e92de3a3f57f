-- ===== src/Json/Equal.antt =====
-- The encoder of crates/libs/lib-lualib/src/lua_json.rs against the reference printer.
pub mod Frame
mod Object
mod Array
use lrust.Base.{
  ℕ, zero, suc, ◌-◌, ◌≡◌, refl, sym, ap, ◌∙◌, Bool, true, false, not, ◌&&◌, ltb, ◌==◌,
  if◌then◌else◌, List, [], ◌∷◌, ◌++◌, Option, none, some, length, take, append_assoc, append-nil,
  inl, inr, Bool-cases, take-length_append, length-append, arith,
}
use lrust.Base.Text.{Bytes, codes, to_string_ℤ}
use lrust.Lua.{
  LuaValue, absent, nil, boolean, light_user_data, number, integer, string, table, function,
  user_data, thread, LuaTable, Heap, Entry, array_size, array_values,
}
use lrust.Json.Encode.{
  format_space, format_new_line, JsonOptions, Encoding, written, failed, raised, unfinished, ◌>>=◌,
  push, is_nil, Context, write_key, encode_entry, close_object, encode_entries, encode_object,
  encode_elements, encode_array, encode_sized, encode_table, encode_value, encode_one, encode_one,
  encode,
}
use lrust.Json.Render.{
  quoted, new_line, indent, Pieces, pieces, gap, stopped, prepend, more, separated, Style, framed,
  element, elements, member_text, member, members, object_text, array_text, sized_text, value_text,
  table_text,
}
use lrust.Json.Append.{write_string-quoted, format_space-indent, format_new_line-new_line}
use lrust.Json.Equal.Frame.{
  after, style, Appends, after-framed, framed-end, before_value, key_before, line_and_space,
  suc-eq_zero, zero-ltb, pop-push, regroup, after_push, finished, finished-prepend,
}
use lrust.Json.Equal.Object.{encode_object-members}
use lrust.Json.Equal.Array.{encode_array-elements}

module _ (c : Context) (text : LuaValue → Encoding) (appends : Appends c text) where
  encode_sized-sized_text :
      (t : LuaTable) (n : Option (Bool × ℕ)) (w : Bytes)
      → encode_sized c t n w ≡ after w (sized_text (style c text) t n)
  unfolding encode_sized sized_text encode_array encode_object
  encode_sized-sized_text t none w = refl
  encode_sized-sized_text t (some (true, n)) w =
      encode_array-elements c text appends t (array_values n 1 t) w
  encode_sized-sized_text t (some (false, n)) w = encode_object-members c text appends t.entries w

module _ (number_text : ℕ → Bytes) (options : JsonOptions) (fmt : Bool) (h : Heap) where
  encode_value-value_text :
      (fuel depth : ℕ)
      → ((a : ℕ) (w : Bytes)
          → encode_table number_text options fmt h fuel depth a w
            ≡ after w (table_text number_text options fmt h fuel depth a))
      → (v : LuaValue) (w : Bytes)
      → encode_value (encode_table number_text options fmt h fuel depth) number_text v w
        ≡ after w (value_text (table_text number_text options fmt h fuel depth) number_text v)
  unfolding encode_value value_text
  encode_value-value_text fuel depth ih (boolean b) w = refl
  encode_value-value_text fuel depth ih (number x) w = refl
  encode_value-value_text fuel depth ih (integer n) w = refl
  encode_value-value_text fuel depth ih (string s) w = ap written (write_string-quoted s w)
  encode_value-value_text fuel depth ih (table a) w = ih a w
  encode_value-value_text fuel depth ih nil w = refl
  encode_value-value_text fuel depth ih (light_user_data a) w = elim (Bool-cases (a == 0)) [
    | inl e ↦ rw e refl
    | inr e ↦ rw e (ap written (sym (append-nil w)))
  ]
  encode_value-value_text fuel depth ih v w = refl

  -- Encoding a table appends the text that the reference printer gives, or fails as it does.
  pub encode_table-table_text :
      (fuel depth a : ℕ) (w : Bytes)
      → encode_table number_text options fmt h fuel depth a w
        ≡ after w (table_text number_text options fmt h fuel depth a)
  unfolding encode_table table_text
  encode_table-table_text zero depth a w = refl
  encode_table-table_text (suc fuel) depth a w = elim (Bool-cases (ltb 64 (suc depth))) [
    | inl e ↦ rw e refl
    | inr e ↦ rw e (
        encode_sized-sized_text _ _
          (record {
            one =
                encode_value-value_text fuel (suc depth) (encode_table-table_text fuel (suc depth));
          })
          (h a) (array_size (h a)) w)
  ]

  -- Encoding a value appends the text that the reference printer gives to what the writer holds, or
  -- fails as the printer does.
  pub encode_one-value_text :
      (fuel depth : ℕ) (v : LuaValue) (w : Bytes)
      → encode_one number_text options fmt h fuel depth v w
        ≡ after w (value_text (table_text number_text options fmt h fuel depth) number_text v)
  unfolding encode_one
  encode_one-value_text fuel depth =
      encode_value-value_text fuel depth (encode_table-table_text fuel depth)

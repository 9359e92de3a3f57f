-- ===== src/Json/Equal/Object.antt =====
-- The encoder of objects in crates/libs/lib-lualib/src/lua_json.rs appends what the reference printer gives.
use lrust.Base.{
  ℕ, suc, ◌-◌, ◌≡◌, refl, sym, ap, ◌∙◌, List, [], ◌∷◌, ◌++◌, append_assoc, append-nil, inl, inr,
  Bool-cases,
}
use lrust.Base.Text.{Bytes, codes, to_string_ℤ}
use lrust.Lua.{LuaValue, integer, string, Entry}
use lrust.Json.Encode.{
  format_new_line, Encoding, written, failed, unfinished, ◌>>=◌, push, Context, write_key,
  encode_entry, close_object, encode_entries,
}
use lrust.Json.Render.{
  new_line, indent, Pieces, pieces, gap, stopped, prepend, more, separated, member_text, member,
  members, object_text,
}
use lrust.Json.Append.{format_new_line-new_line}
use lrust.Json.Equal.Frame.{
  after, style, Appends, framed-end, before_value, key_before, line_and_space, suc-eq_zero,
  zero-ltb, pop-push, finished, finished-prepend,
}

module _ (c : Context) (text : LuaValue → Encoding) (appends : Appends c text) where
  write_key-member_text :
      (key : Bytes) (v : LuaValue) (w : Bytes)
      → write_key c key v (w ++ new_line c.fmt) ≡ after w (member_text (style c text) key v)
  unfolding write_key member_text
  write_key-member_text key v w =
      ap (c.one v) (key_before c.fmt c.depth key w)
      ∙ appends.one v (w ++ before_value c.fmt c.depth key)
      ∙ framed-end w (before_value c.fmt c.depth key) (text v)

  encode_entry-member :
      (e : Entry) (w : Bytes)
      → encode_entry c e (w ++ new_line c.fmt) ≡ after w (member (style c text) e)
  unfolding encode_entry member
  encode_entry-member (string key, v) w = write_key-member_text key v w
  encode_entry-member (integer key, v) w = elim (Bool-cases c.options.enable_number_key) [
    | inl e ↦ rw e (write_key-member_text (to_string_ℤ key) v w)
    | inr e ↦ rw e refl
  ]
  encode_entry-member (key, v) w = refl

  encode_next :
      (e : Entry) (w : Bytes)
      → encode_entry c e (format_new_line c.fmt w) ≡ after w (member (style c text) e)
  encode_next e w =
      ap (encode_entry c e) (format_new_line-new_line c.fmt w) ∙ encode_entry-member e w

  object_close : Bytes
  object_close = new_line c.fmt ++ indent c.fmt (c.depth - 1) ++ codes "}"

  close_object-some : (i : ℕ) (w : Bytes) → close_object c (suc i) w ≡ w ++ object_close
  unfolding close_object object_close
  close_object-some i w =
      rw (suc-eq_zero i, zero-ltb i, line_and_space c.fmt (c.depth - 1) w) (simp append_assoc)

  encode_entries-members :
      (es : List Entry) (i : ℕ) (w : Bytes)
      → encode_entries c (suc i) es w
        ≡ finished w object_close (failed unfinished) (members (style c text) es)
  unfolding encode_entries members finished more object_close
  encode_entries-members [] i w =
      ap written
        (close_object-some i w ∙ ap (λ (y : Bytes). y ++ object_close) (sym (append-nil w)))
  encode_entries-members (e ∷ es) i w =
      rw (zero-ltb i, encode_next e (push w b','))
        (finished-prepend w object_close (failed unfinished) (member (style c text) e)
          (members (style c text) es) (encode_entries c (suc (suc i)) es)
          (λ t. encode_entries-members es (suc i) (push w b',' ++ t)))

  object_text-prepend :
      (w : Bytes) (e : Encoding) (ps : Pieces) (f : Bytes → Encoding)
      → ((t : Bytes)
          → f (push w b'{' ++ t) ≡ finished (push w b'{' ++ t) object_close (failed unfinished) ps)
      → (after (push w b'{') e >>= f) ≡ after w (object_text (style c text) (prepend e ps))
  unfolding finished ◌>>=◌ separated object_text object_close
  object_text-prepend w (written t) (pieces ts) f h = h t ∙ ap written (simp append_assoc)
  object_text-prepend w (written t) gap f h = h t
  object_text-prepend w (written t) (stopped e) f h = h t
  object_text-prepend w (failed e) ps f h = refl

  pub encode_object-members :
      (es : List Entry) (w : Bytes)
      → encode_entries c 0 es (push w b'{')
        ≡ after w (object_text (style c text) (members (style c text) es))
  unfolding encode_entries members object_text close_object
  encode_object-members [] w = elim (Bool-cases c.options.empty_as_array) [
    | inl e ↦ rw e (ap (λ (x : Bytes). written (x ++ codes "[]")) (pop-push w b'{'))
    | inr e ↦ rw e (ap written (simp append_assoc))
  ]
  encode_object-members (e ∷ es) w =
      ap (λ (x : Encoding). x >>= encode_entries c 1 es) (encode_next e (push w b'{'))
      ∙ object_text-prepend w (member (style c text) e) (members (style c text) es)
          (encode_entries c 1 es) (λ t. encode_entries-members es 0 (push w b'{' ++ t))

-- ===== src/Json/Equal/Array.antt =====
-- The encoder of arrays in crates/libs/lib-lualib/src/lua_json.rs appends what the reference printer
-- gives, and takes back what it has written where an array turns out to have a gap.
use lrust.Base.{
  ℕ, suc, ◌-◌, ◌≡◌, refl, ap, ◌∙◌, not, ◌&&◌, List, [], ◌∷◌, ◌++◌, length, take, append_assoc, inl,
  inr, Bool-cases, take-length_append,
}
use lrust.Base.Text.{Bytes, codes}
use lrust.Lua.{LuaValue, LuaTable}
use lrust.Json.Encode.{
  format_space, format_new_line, Encoding, written, failed, ◌>>=◌, push, is_nil, Context,
  encode_entries, encode_elements,
}
use lrust.Json.Render.{
  new_line, indent, Pieces, pieces, gap, stopped, prepend, more, separated, element, elements,
  members, object_text, array_text,
}
use lrust.Json.Append.{format_space-indent, format_new_line-new_line}
use lrust.Json.Equal.Frame.{
  after, style, Appends, after-framed, suc-eq_zero, regroup, after_push, finished, finished-prepend,
}
use lrust.Json.Equal.Object.{encode_object-members}

module _ (c : Context) (text : LuaValue → Encoding) (appends : Appends c text) where
  array_close : Bytes
  array_close = indent c.fmt (c.depth - 1) ++ codes "]"

  -- The element with what is written before it and after it.
  encode_element :
      (v : LuaValue) (w : Bytes) (f : Bytes → Encoding)
      → (c.one v (format_space c.fmt c.depth w) >>= λ w2. f (format_new_line c.fmt w2))
        ≡ (after w (element (style c text) v) >>= f)
  unfolding element ◌>>=◌
  encode_element v w f =
      ap (λ (x : Encoding). x >>= λ w2. f (format_new_line c.fmt w2)) (value v w)
      ∙ binds (after (w ++ indent c.fmt c.depth) (text v))
      ∙ after-framed w (indent c.fmt c.depth) (new_line c.fmt) (text v) f
    where
      value :
          (v : LuaValue) (w : Bytes)
          → c.one v (format_space c.fmt c.depth w) ≡ after (w ++ indent c.fmt c.depth) (text v)
      value v w =
          ap (c.one v) (format_space-indent c.fmt c.depth w)
          ∙ appends.one v (w ++ indent c.fmt c.depth)

      binds :
          (e : Encoding)
          → (e >>= λ w2. f (format_new_line c.fmt w2)) ≡ (e >>= λ w2. f (w2 ++ new_line c.fmt))
      binds (written t) = ap f (format_new_line-new_line c.fmt t)
      binds (failed e) = refl

  truncated : (w x : Bytes) → take (length w) (format_space c.fmt c.depth (push (w ++ x) b',')) ≡ w
  truncated w x =
      rw
        (format_space-indent c.fmt c.depth (push (w ++ x) b','), regroup w x (indent c.fmt c.depth))
        (take-length_append w (push x b',' ++ indent c.fmt c.depth))

  encode_elements-elements :
      (t : LuaTable) (vs : List LuaValue) (i : ℕ) (w x : Bytes)
      → encode_elements c t (length w) (suc i) vs (w ++ x)
        ≡ finished
            (w ++ x)
            array_close
            (after w (object_text (style c text) (members (style c text) t.entries)))
            (elements (style c text) vs)
  unfolding encode_elements elements finished more array_close
  encode_elements-elements t [] i w x =
      ap (λ (y : Bytes). written (push y b']')) (format_space-indent c.fmt (c.depth - 1) (w ++ x))
      ∙ ap written (simp append_assoc)
  encode_elements-elements t (v ∷ vs) i w x =
      elim (Bool-cases (is_nil v && not c.options.enable_sparse_array)) [
        | inl e ↦
            rw (e, suc-eq_zero i)
              (ap (encode_entries c 0 t.entries) (ap (λ (y : Bytes). push y b'{') (truncated w x))
                ∙ encode_object-members c text appends t.entries w)
        | inr e ↦
            rw (e, suc-eq_zero i)
              (encode_element v (push (w ++ x) b',')
                  (encode_elements c t (length w) (suc (suc i)) vs)
                ∙ finished-prepend (w ++ x) array_close
                    (after w (object_text (style c text) (members (style c text) t.entries)))
                    (element (style c text) v) (elements (style c text) vs)
                    (encode_elements c t (length w) (suc (suc i)) vs)
                    (λ u.
                      rw (regroup w x u)
                        (encode_elements-elements t vs (suc i) w (push x b',' ++ u))))
      ]

  array_text-prepend :
      (t : LuaTable) (w : Bytes) (e : Encoding) (ps : Pieces) (f : Bytes → Encoding)
      → ((u : Bytes)
          → f (push w b'[' ++ new_line c.fmt ++ u)
            ≡ finished
                (push w b'[' ++ new_line c.fmt ++ u)
                array_close
                (after w (object_text (style c text) (members (style c text) t.entries)))
                ps)
      → (after (push w b'[' ++ new_line c.fmt) e >>= f)
        ≡ after w (array_text (style c text) t (prepend e ps))
  unfolding finished ◌>>=◌ separated array_text array_close
  array_text-prepend t w (written u) (pieces ts) f h = h u ∙ ap written (simp append_assoc)
  array_text-prepend t w (written u) gap f h = h u
  array_text-prepend t w (written u) (stopped e) f h = h u
  array_text-prepend t w (failed e) ps f h = refl

  truncated_first :
      (w : Bytes)
      → take (length w) (format_space c.fmt c.depth (format_new_line c.fmt (push w b'['))) ≡ w
  truncated_first w =
      rw
        (
          format_space-indent c.fmt c.depth (format_new_line c.fmt (push w b'[')),
          format_new_line-new_line c.fmt (push w b'['),
          after_push w b'[' (new_line c.fmt) (indent c.fmt c.depth),
        )
        (take-length_append w (b'[' ∷ new_line c.fmt ++ indent c.fmt c.depth))

  pub encode_array-elements :
      (t : LuaTable) (vs : List LuaValue) (w : Bytes)
      → encode_elements c t (length w) 0 vs (push w b'[')
        ≡ after w (array_text (style c text) t (elements (style c text) vs))
  unfolding encode_elements elements array_text
  encode_array-elements t [] w =
      ap (λ (y : Bytes). written (push y b']'))
        (format_space-indent c.fmt (c.depth - 1) (push w b'['))
      ∙ ap written (simp append_assoc)
  encode_array-elements t (v ∷ vs) w =
      elim (Bool-cases (is_nil v && not c.options.enable_sparse_array)) [
        | inl e ↦ rw e (
            ap (encode_entries c 0 t.entries) (ap (λ (y : Bytes). push y b'{') (truncated_first w))
            ∙ encode_object-members c text appends t.entries w)
        | inr e ↦ rw e (
            encode_element v (format_new_line c.fmt (push w b'['))
              (encode_elements c t (length w) 1 vs)
            ∙ ap
                (λ (y : Bytes).
                  after y (element (style c text) v) >>= encode_elements c t (length w) 1 vs)
                (format_new_line-new_line c.fmt (push w b'['))
            ∙ array_text-prepend t w (element (style c text) v) (elements (style c text) vs)
                (encode_elements c t (length w) 1 vs)
                (λ u.
                  rw (after_push w b'[' (new_line c.fmt) u)
                    (encode_elements-elements t vs 0 w ((b'[' ∷ new_line c.fmt) ++ u))))
      ]

-- ===== src/Json/Valid.antt =====
-- The texts that the encoder of crates/libs/lib-lualib/src/lua_json.rs writes are JSON, for tables
-- whose keys and values JSON has.
use mathlib.Core.Path.{subst}
use lrust.Base.{
  ℕ, zero, suc, ◌-◌, ◌≡◌, sym, ap, ◌∙◌, Bool, true, false, not, ◌&&◌, ltb, if◌then◌else◌, List, [],
  ◌∷◌, ◌++◌, Option, none, some, arith, inl, inr, Bool-cases, append_assoc, append-nil,
}
use lrust.Base.Text.{Bytes, codes, to_string_ℤ}
use lrust.Lua.{
  LuaValue, nil, boolean, light_user_data, number, integer, string, table, LuaTable, Heap, Entry,
  array_size, array_values,
}
use lrust.Json.Encode.{JsonOptions, Encoding, written, failed, encode, is_nil}
use lrust.Json.Render.{
  quoted, new_line, indent, Pieces, pieces, gap, stopped, Style, framed, element, elements,
  member_text, member, members, object_text, array_text, sized_text, value_text, table_text,
  separated,
}
use lrust.Json.Equal.{encode_one-value_text}
use lrust.Json.Equal.Frame.{after}
use lrust.Json.Strings.{read_string, read_string-quoted}
use lrust.Json.Grammar.{no_space, IsString, IsJson, IsElements, IsMembers}
use lrust.Json.Utf8.{quoted-utf8}
use lrust.Base.Utf8.{is_utf8}
use lrust.Json.Numbers.{to_string_ℤ-IsNumber}
use lrust.Json.Plain.{
  IsPlainName, IsPlainValue, IsPlainEntry, ArePlain, AllValues, to_string_ℤ-IsPlainName,
  array_values-ArePlain,
}
use lrust.Json.Pieces.{
  new_line-IsSpace, indent-IsSpace, append-IsSpace, colon-IsSpace, AreElements, AreMembers,
  IsElement, IsMember, prepend-AreElements, prepend-AreMembers,
}

-- A text, if there is one, is JSON.
abbrev pub IsValid : Encoding → Type 0
IsValid (written t) = IsJson t
IsValid (failed f) = Unit

quoted_whole : (s : Bytes) → read_string (quoted s) ≡ some (s, [])
quoted_whole s = ap read_string (sym (append-nil (quoted s))) ∙ read_string-quoted s []

module _ (number_text : ℕ → Bytes) (s : Style)
    (valid : (v : LuaValue) → IsPlainValue number_text v → IsValid (s.text v)) where
  element-IsElement : (v : LuaValue) → IsPlainValue number_text v → IsElement (element s v)
  unfolding element IsElement
  element-IsElement v h = spaced (s.text v) (valid v h)
    where
      spaced :
          (e : Encoding) → IsValid e → IsElement (framed (indent s.fmt s.depth) (new_line s.fmt) e)
      spaced (written t) g =
          IsElements.element (indent-IsSpace s.fmt s.depth) g (new_line-IsSpace s.fmt)
      spaced (failed f) g = tt

  elements-AreElements :
      (vs : List LuaValue) → AllValues (IsPlainValue number_text) vs → AreElements (elements s vs)
  unfolding elements AreElements
  elements-AreElements [] h = tt
  elements-AreElements (v ∷ vs) h =
      elim (Bool-cases (is_nil v && not s.options.enable_sparse_array)) [
        | inl e ↦ rw e tt
        | inr e ↦ rw e (
            prepend-AreElements (element s v) (elements s vs) (element-IsElement v h.0)
              (elements-AreElements vs h.1))
      ]

  plain-IsString : (k : Bytes) → IsPlainName k → IsString (codes "\"" ++ k ++ codes "\"")
  unfolding quoted
  plain-IsString k h =
      let (whole, utf8) =
        subst
          (λ (x : Bytes).
            (read_string (codes "\"" ++ x ++ codes "\"") ≡ some (k, []))
            × (is_utf8 (codes "\"" ++ x ++ codes "\"") ≡ true))
          h.0 (quoted_whole k, quoted-utf8 k h.1) in
      (k, whole, utf8)

  member_text-IsMember :
      (k : Bytes) (v : LuaValue)
      → IsPlainName k
      → IsPlainValue number_text v
      → IsMember (member_text s k v)
  unfolding member_text IsMember
  member_text-IsMember k v p h = keyed (s.text v) (valid v h)
    where
      keyed :
          (e : Encoding)
          → IsValid e
          → IsMember (
              framed
                (new_line s.fmt
                  ++ indent s.fmt s.depth
                  ++ codes "\""
                  ++ k
                  ++ codes "\":"
                  ++ (if s.fmt then codes " " else []))
                []
                e)
      keyed (written t) g = subst IsMembers (simp (append_assoc, append-nil)) (
          IsMembers.member (codes "\"" ++ k ++ codes "\"")
            (append-IsSpace (new_line-IsSpace s.fmt) (indent-IsSpace s.fmt s.depth))
            (plain-IsString k p) (colon-IsSpace s.fmt) g)
      keyed (failed f) g = tt

  member-IsMember : (e : Entry) → IsPlainEntry number_text e → IsMember (member s e)
  unfolding member IsMember
  member-IsMember (string k, v) h = member_text-IsMember k v h.0 h.1
  member-IsMember (integer n, v) h = elim (Bool-cases s.options.enable_number_key) [
    | inl e ↦ rw e (member_text-IsMember (to_string_ℤ n) v (to_string_ℤ-IsPlainName n) h)
    | inr e ↦ rw e tt
  ]
  member-IsMember (key, v) h = absurd (ground arith)

  members-AreMembers : (es : List Entry) → ArePlain number_text es → AreMembers (members s es)
  unfolding members AreMembers
  members-AreMembers [] h = tt
  members-AreMembers (e ∷ es) h =
      prepend-AreMembers (member s e) (members s es) (member-IsMember e h.0)
        (members-AreMembers es h.1)

  object_text-IsValid : (ps : Pieces) → AreMembers ps → IsValid (object_text s ps)
  unfolding object_text AreMembers
  object_text-IsValid (pieces []) h = elim (Bool-cases s.options.empty_as_array) [
    | inl e ↦ rw e (IsJson.no_elements no_space)
    | inr e ↦ rw e (IsJson.no_members no_space)
  ]
  object_text-IsValid (pieces (t ∷ ts)) h =
      subst IsJson
        (ap (λ (x : Bytes). x ++ codes "}")
          (sym (
            append_assoc (codes "{" ++ separated (t ∷ ts)) (new_line s.fmt)
              (indent s.fmt (s.depth - 1)))))
        (IsJson.object h
          (append-IsSpace (new_line-IsSpace s.fmt) (indent-IsSpace s.fmt (s.depth - 1))))
  object_text-IsValid gap h = tt
  object_text-IsValid (stopped f) h = tt

  array_text-IsValid :
      (t : LuaTable) (ps : Pieces)
      → ArePlain number_text t.entries
      → AreElements ps
      → IsValid (array_text s t ps)
  unfolding array_text AreElements
  array_text-IsValid t (pieces []) p h = IsJson.no_elements (indent-IsSpace s.fmt (s.depth - 1))
  array_text-IsValid t (pieces (u ∷ us)) p h =
      IsJson.array (new_line-IsSpace s.fmt) h (indent-IsSpace s.fmt (s.depth - 1))
  array_text-IsValid t gap p h =
      object_text-IsValid (members s t.entries) (members-AreMembers t.entries p)
  array_text-IsValid t (stopped f) p h = tt

  sized_text-IsValid :
      (t : LuaTable) (n : Option (Bool × ℕ))
      → ArePlain number_text t.entries
      → IsValid (sized_text s t n)
  unfolding sized_text
  sized_text-IsValid t none h = tt
  sized_text-IsValid t (some (true, n)) h =
      array_text-IsValid t (elements s (array_values n 1 t)) h
        (elements-AreElements (array_values n 1 t) (array_values-ArePlain number_text n 1 t h))
  sized_text-IsValid t (some (false, n)) h =
      object_text-IsValid (members s t.entries) (members-AreMembers t.entries h)

module _ (number_text : ℕ → Bytes) (options : JsonOptions) (fmt : Bool) (h : Heap) where
  value_text-IsValid :
      (tables : ℕ → Encoding)
      → ((a : ℕ) → IsValid (tables a))
      → (v : LuaValue) → IsPlainValue number_text v
      → IsValid (value_text tables number_text v)
  unfolding value_text
  value_text-IsValid tables ih (boolean true) p = IsJson.true_text
  value_text-IsValid tables ih (boolean false) p = IsJson.false_text
  value_text-IsValid tables ih (number x) p = IsJson.number p
  value_text-IsValid tables ih (integer n) p = IsJson.number (to_string_ℤ-IsNumber n)
  value_text-IsValid tables ih (string s) p = IsJson.string (s, quoted_whole s, quoted-utf8 s p)
  value_text-IsValid tables ih (table a) p = ih a
  value_text-IsValid tables ih nil p = IsJson.null_text
  value_text-IsValid tables ih (light_user_data a) p = rw p IsJson.null_text
  value_text-IsValid tables ih v p = tt

  table_text-IsValid :
      ((a : ℕ) → ArePlain number_text ((h a).entries))
      → (fuel depth a : ℕ) → IsValid (table_text number_text options fmt h fuel depth a)
  unfolding table_text
  table_text-IsValid p zero depth a = tt
  table_text-IsValid p (suc fuel) depth a = elim (Bool-cases (ltb 64 (suc depth))) [
    | inl e ↦ rw e tt
    | inr e ↦ rw e (
        sized_text-IsValid number_text _
          (value_text-IsValid (table_text number_text options fmt h fuel (suc depth))
            (table_text-IsValid p fuel (suc depth)))
          (h a) (array_size (h a)) (p a))
  ]

after-IsValid : (e : Encoding) → IsValid e → IsValid (after [] e)
after-IsValid (written t) h = h
after-IsValid (failed f) h = tt

-- The text of a value, if there is one, is JSON, whatever the options, provided that every key of
-- every table is an integer or a string in UTF-8 that needs no escape, that every string among the
-- values is UTF-8, that no address but null stands among them, and that each float among them is
-- printed as a number.
pub encode-IsValid :
    (number_text : ℕ → Bytes) (options : JsonOptions) (fmt : Bool) (h : Heap) (v : LuaValue)
    → ((a : ℕ) → ArePlain number_text ((h a).entries))
    → IsPlainValue number_text v
    → IsValid (encode number_text options fmt h v)
unfolding encode
encode-IsValid number_text options fmt h v p q =
    rw (encode_one-value_text number_text options fmt h 65 0 v []) (
      after-IsValid _ (
        value_text-IsValid number_text options fmt h (table_text number_text options fmt h 65 0)
          (table_text-IsValid number_text options fmt h p 65 0) v q))

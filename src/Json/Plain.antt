-- ===== src/Json/Plain.antt =====
-- Values and tables that JSON has, as crates/libs/lib-lualib/src/lua_json.rs prints them: keys are
-- written without escapes, and strings are bytes, UTF-8 or not.
use mathlib.Core.List.{flat_map}
use lrust.Base.{
  ltb→lt, ◌∙◌, ◌+◌, ◌/◌, ◌%◌, ◌≤◌, ℕ, zero, suc, ◌≡◌, refl, true, false, ltb, ◌==◌, List, [], ◌∷◌,
  arith, inl, inr, Bool-cases,
}
use lrust.Base.Utf8.{is_utf8, is_utf8_from, is_utf8-ascii}
use lrust.Base.Int.{ℤ, pos, negsuc}
use lrust.Base.Text.{Bytes, to_string_ℤ, to_string, digits_onto}
use lrust.Lua.{
  LuaValue, light_user_data, number, integer, string, LuaTable, Entry, array_values, rawgeti,
  key_is,
}
use lrust.Json.Render.{escape}
use lrust.Json.Grammar.{IsNumber}

-- A key that needs no escape.
abbrev pub IsPlain : Bytes → Type 0
IsPlain k = flat_map escape k ≡ k

-- The text of an integer needs none.
escape_plain : (c : ℕ) → 45 ≤ c → c ≤ 57 → escape c ≡ c ∷ []
unfolding escape
escape_plain c low high = ground arith

-- A property of texts that bytes from 45 to 57 in front keep holds of the text of an integer.
module _ (P : Bytes → Type 0) (cons : (c : ℕ) (t : Bytes) → 45 ≤ c → c ≤ 57 → P t → P (c ∷ t))
    (empty : P []) where
  digits_onto-keeps : (fuel n : ℕ) (t : Bytes) → P t → P (digits_onto fuel n t)
  unfolding digits_onto
  digits_onto-keeps zero n t h = h
  digits_onto-keeps (suc fuel) n t h = elim (Bool-cases (ltb n 10)) [
    | inl e ↦ rw e (cons (b'0' + n) t (omega arith) (omega (arith, ltb→lt n 10 e)) h)
    | inr e ↦ rw e (
        digits_onto-keeps fuel (n / 10) ((b'0' + n % 10) ∷ t)
          (cons (b'0' + n % 10) t (omega arith) (omega arith) h))
  ]

  to_string_ℤ-keeps : (n : ℤ) → P (to_string_ℤ n)
  unfolding to_string_ℤ to_string
  to_string_ℤ-keeps (pos n) = digits_onto-keeps (suc n) n [] empty
  to_string_ℤ-keeps (negsuc n) =
      cons b'-' (digits_onto (suc (suc n)) (suc n) []) (omega arith) (omega arith)
        (digits_onto-keeps (suc (suc n)) (suc n) [] empty)

cons-IsPlain : (c : ℕ) (t : Bytes) → 45 ≤ c → c ≤ 57 → IsPlain t → IsPlain (c ∷ t)
unfolding flat_map
cons-IsPlain c t low high h = rw (escape_plain c low high, h) refl

pub to_string_ℤ-IsPlain : (n : ℤ) → IsPlain (to_string_ℤ n)
unfolding flat_map
to_string_ℤ-IsPlain n = to_string_ℤ-keeps IsPlain cons-IsPlain refl n

-- A name that needs no escape and is UTF-8.
abbrev pub IsPlainName : Bytes → Type 0
IsPlainName k = IsPlain k × (is_utf8 k ≡ true)

cons-utf8 : (c : ℕ) (t : Bytes) → 45 ≤ c → c ≤ 57 → is_utf8 t ≡ true → is_utf8 (c ∷ t) ≡ true
cons-utf8 c t low high h = is_utf8-ascii c t (ground arith) ∙ h

pub to_string_ℤ-IsPlainName : (n : ℤ) → IsPlainName (to_string_ℤ n)
unfolding is_utf8 is_utf8_from
to_string_ℤ-IsPlainName n =
    (to_string_ℤ-IsPlain n, to_string_ℤ-keeps (λ t. is_utf8 t ≡ true) cons-utf8 refl n)

-- A value that JSON has: no address but null, only floats that are printed as numbers, and only
-- strings in UTF-8.
abbrev pub IsPlainValue : (ℕ → Bytes) → LuaValue → Type 0
IsPlainValue number_text (light_user_data a) = (a == 0) ≡ true
IsPlainValue number_text (number x) = IsNumber (number_text x)
IsPlainValue number_text (string s) = is_utf8 s ≡ true
IsPlainValue number_text v = Unit

abbrev pub IsPlainEntry : (ℕ → Bytes) → Entry → Type 0
IsPlainEntry number_text (string k, v) = IsPlainName k × IsPlainValue number_text v
IsPlainEntry number_text (integer n, v) = IsPlainValue number_text v
IsPlainEntry number_text (k, v) = false ≡ true

abbrev pub ArePlain : (ℕ → Bytes) → List Entry → Type 0
ArePlain number_text [] = Unit
ArePlain number_text (e ∷ es) = IsPlainEntry number_text e × ArePlain number_text es

abbrev pub AllValues : (LuaValue → Type 0) → List LuaValue → Type 0
AllValues P [] = Unit
AllValues P (v ∷ vs) = P v × AllValues P vs

entry-IsPlainValue :
    (number_text : ℕ → Bytes) (k v : LuaValue)
    → IsPlainEntry number_text (k, v)
    → IsPlainValue number_text v
entry-IsPlainValue number_text (string k) v h = h.1
entry-IsPlainValue number_text (integer n) v h = h
entry-IsPlainValue number_text k v h = absurd (ground arith)

module _ (number_text : ℕ → Bytes) where
  rawgeti-IsPlainValue :
      (n : ℤ) (es : List Entry) → ArePlain number_text es → IsPlainValue number_text (rawgeti n es)
  unfolding rawgeti
  rawgeti-IsPlainValue n [] h = tt
  rawgeti-IsPlainValue n ((k, v) ∷ es) h = elim (Bool-cases (key_is n k)) [
    | inl e ↦ rw e (entry-IsPlainValue number_text k v h.0)
    | inr e ↦ rw e (rawgeti-IsPlainValue n es h.1)
  ]

  pub array_values-ArePlain :
      (n i : ℕ) (t : LuaTable)
      → ArePlain number_text t.entries
      → AllValues (IsPlainValue number_text) (array_values n i t)
  unfolding array_values
  array_values-ArePlain zero i t h = tt
  array_values-ArePlain (suc n) i t h =
      (rawgeti-IsPlainValue (pos i) t.entries h, array_values-ArePlain n (suc i) t h)

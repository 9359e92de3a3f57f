-- ===== src/Json/Decode/Keys.antt =====
-- The keys that are integers, written by the encoder of crates/libs/lib-lualib/src/lua_json.rs and
-- read by `decode_one`.
use mathlib.Core.Path.{subst}
use lrust.Base.{
  ◌++◌, append_assoc, if◌then◌else◌, Bool, false, ℕ, zero, suc, ◌+◌, ◌-◌, ◌/◌, ◌%◌, ◌^◌, ◌≤◌, ◌<◌,
  ◌≡◌, refl, sym, ap, ◌∙◌, true, false, ◌&&◌, ◌||◌, ltb, leb, ◌==◌, [], ◌∷◌, some, arith, inl, inr,
  Bool-cases, ltb→lt, ltb-le, le→leb,
}
use lrust.Base.Int.{ℤ, pos, negsuc}
use lrust.Base.Text.{Bytes, codes, to_string, to_string_ℤ, digits_onto}
use lrust.Lua.{LuaValue, integer}
use lrust.Json.Encode.{JsonOptions, Context, push, write_key, encode_entry}
use lrust.Json.Render.{quoted, indent}
use lrust.Json.Append.{format_space-indent}
use lrust.Json.Strings.{read_string, read_string-quoted}
use lrust.Json.Plain.{IsPlain, to_string_ℤ-IsPlain}
use lrust.Json.Pieces.{indent-IsSpace, colon-IsSpace}
use lrust.Json.Decode.Members.{key_of}
use lrust.Json.Grammar.{IsSpace, IsInteger, digits}
use lrust.Json.Numbers.{to_string-IsInteger}
use lrust.Json.Decode.{
  is_digit, within, negative, key_or_text, member_key, parse_i64, parse_negative, digits_value,
}

-- The digits of `n` read back.
digits_value-digits_onto :
    (fuel n : ℕ) (t : Bytes) → n < fuel → digits_value 0 (digits_onto fuel n t) ≡ digits_value n t
unfolding digits_value digits_onto
digits_value-digits_onto zero n t h = absurd (omega arith)
digits_value-digits_onto (suc fuel) n t h = elim (Bool-cases (ltb n 10)) [
  | inl e ↦ rw (e, digit_char n (ltb→lt n 10 e)) (ap (λ (k : ℕ). digits_value k t) (omega arith))
  | inr e ↦ rw e (
      digits_value-digits_onto fuel (n / 10) ((b'0' + n % 10) ∷ t) (omega (arith, ltb-le n 10 e))
      ∙ (rw (digit_char (n % 10) (omega arith)) (ap (λ (k : ℕ). digits_value k t) (omega arith))))
]
  where
    digit_char : (d : ℕ) → d < 10 → leb b'0' (b'0' + d) && leb (b'0' + d) b'9' ≡ true
    digit_char d h = ground arith

digits_value-to_string : (n : ℕ) → digits_value 0 (to_string n) ≡ some n
unfolding to_string digits_value
digits_value-to_string n = digits_value-digits_onto (suc n) n [] (omega arith)

-- A text that begins with a digit.
BeginsWithDigit : Bytes → Type 0
BeginsWithDigit t = (c : ℕ) × (s : Bytes) × (t ≡ c ∷ s) × (b'0' ≤ c) × (c ≤ b'9')

IsInteger-BeginsWithDigit : {t : Bytes} → IsInteger t → BeginsWithDigit t
unfolding BeginsWithDigit
IsInteger-BeginsWithDigit IsInteger.zero = (b'0', [], refl, omega arith, omega arith)
IsInteger-BeginsWithDigit (digits c low high h) = (c, _, refl, omega arith, high)

-- The integers of 64 bits.
abbrev pub IsI64 : ℤ → Type 0
IsI64 (pos n) = n < 2 ^ 63
IsI64 (negsuc n) = n < 2 ^ 63

not_minus : (c : ℕ) → b'0' ≤ c → (c == b'-') ≡ false
not_minus c low = ground arith

digit_parsed :
    (n c : ℕ) (t : Bytes)
    → b'0' ≤ c
    → n < 2 ^ 63
    → digits_value 0 (c ∷ t) ≡ some n
    → parse_i64 (c ∷ t) ≡ some (pos n)
unfolding parse_i64
digit_parsed n c t low bound h =
    rw (not_minus c low)
      (ap (within (2 ^ 63 - 1) pos) h ∙ rw (le→leb n (2 ^ 63 - 1) (omega arith)) refl)

minus_parsed :
    (n c : ℕ) (t : Bytes)
    → n < 2 ^ 63
    → digits_value 0 (c ∷ t) ≡ some (suc n)
    → parse_i64 (b'-' ∷ c ∷ t) ≡ some (negsuc n)
unfolding parse_i64 parse_negative
minus_parsed n c t bound h =
    ap (within (2 ^ 63) negative) h ∙ rw (le→leb (suc n) (2 ^ 63) (omega arith)) refl

begins_key :
    (options : JsonOptions) (n : ℤ) (c : ℕ) (t : Bytes)
    → options.enable_number_key ≡ true
    → (is_digit c || (c == b'-')) ≡ true
    → parse_i64 (c ∷ t) ≡ some n
    → member_key options c t ≡ integer n
unfolding member_key
begins_key options n c t o begins h = rw (begins, o) (ap (key_or_text (c ∷ t)) h)

is_digit-true : (c : ℕ) → b'0' ≤ c → c ≤ b'9' → (is_digit c || (c == b'-')) ≡ true
is_digit-true c low high = ground arith

key_of-to_string_ℤ :
    (options : JsonOptions) (n : ℤ)
    → options.enable_number_key ≡ true
    → IsI64 n
    → key_of options (to_string_ℤ n) ≡ integer n
unfolding key_of to_string_ℤ BeginsWithDigit
key_of-to_string_ℤ options (pos n) o bound =
    let (c, t, e, low, high) = IsInteger-BeginsWithDigit (to_string-IsInteger n) in
    ap (key_of options) e
    ∙ begins_key options (pos n) c t o (is_digit-true c low high)
        (digit_parsed n c t low bound (ap (digits_value 0) (sym e) ∙ digits_value-to_string n))
key_of-to_string_ℤ options (negsuc n) o bound =
    let (c, t, e, low, high) = IsInteger-BeginsWithDigit (to_string-IsInteger (suc n)) in
    ap (λ (s : Bytes). member_key options b'-' s) e
    ∙ begins_key options (negsuc n) b'-' (c ∷ t) o refl
        (minus_parsed n c t bound (ap (digits_value 0) (sym e) ∙ digits_value-to_string (suc n)))

with_blank :
    (fmt : Bool) (w s k : Bytes)
    → (if fmt
        then push (push (w ++ s) b'"' ++ k ++ codes "\":") b' '
        else push (w ++ s) b'"' ++ k ++ codes "\":")
      ≡ w ++ s ++ (codes "\"" ++ k ++ codes "\":" ++ (if fmt then codes " " else []))
with_blank true w s k = simp append_assoc
with_blank false w s k = simp append_assoc

-- A name that needs no escape, in quotes, is read back.
read_string-plain :
    (k t : Bytes) → IsPlain k → read_string (codes "\"" ++ k ++ codes "\"" ++ t) ≡ some (k, t)
read_string-plain k t h =
    subst (λ (x : Bytes). read_string (codes "\"" ++ x ++ codes "\"" ++ t) ≡ some (k, t)) h
      (unfold quoted in read_string-quoted k t)

-- With number keys on, the encoder writes a member with an integer key of 64 bits as space and a
-- string, then a colon and space before the value; the decoder gives the name that a reader of JSON
-- strings finds there the same integer as its key.
pub key_of-encode_entry :
    (c : Context) (n : ℤ) (v : LuaValue) (w : Bytes)
    → c.options.enable_number_key ≡ true
    → IsI64 n
    → (s t u name : Bytes) × IsSpace s
      × (encode_entry c (integer n, v) w ≡ c.one v (w ++ s ++ t))
      × (read_string t ≡ some (name, codes ":" ++ u))
      × IsSpace u
      × (key_of c.options name ≡ integer n)
key_of-encode_entry c n v w o bound =
    let name = to_string_ℤ n in
    let u = if c.fmt then codes " " else [] in
    (
      indent c.fmt c.depth,
      codes "\"" ++ name ++ codes "\":" ++ u,
      u,
      name,
      indent-IsSpace c.fmt c.depth,
      unfold encode_entry write_key in
          rw (o, format_space-indent c.fmt c.depth w)
            (ap (c.one v) (with_blank c.fmt w (indent c.fmt c.depth) name)),
      ap read_string (simp append_assoc)
          ∙ read_string-plain name (codes ":" ++ u) (to_string_ℤ-IsPlain n),
      colon-IsSpace c.fmt,
      key_of-to_string_ℤ c.options n o bound,
    )

-- ===== src/Json/Grammar.antt =====
-- The grammar of JSON texts, after RFC 8259: numbers without an exponent, and blanks and new lines
-- for space, and strings in UTF-8 whose escapes by code point are below 128.
use lrust.Base.Utf8.{is_utf8}
use lrust.Base.{true, ℕ, ◌≤◌, ◌≡◌, [], ◌∷◌, ◌++◌, some}
use lrust.Base.Text.{Bytes, codes}
use lrust.Json.Strings.{read_string}

pub data IsSpace : Bytes → Type 0 where
  no_space : IsSpace []
  blank : {t : Bytes} → IsSpace t → IsSpace (b' ' ∷ t)
  line : {t : Bytes} → IsSpace t → IsSpace (b'\n' ∷ t)

-- Any number of digits.
pub data IsDigits : Bytes → Type 0 where
  no_digits : IsDigits []
  digit : {t : Bytes} (c : ℕ) → b'0' ≤ c → c ≤ b'9' → IsDigits t → IsDigits (c ∷ t)

-- No zero stands in front of another digit.
pub data IsInteger : Bytes → Type 0 where
  zero : IsInteger (codes "0")
  digits : {t : Bytes} (c : ℕ) → b'1' ≤ c → c ≤ b'9' → IsDigits t → IsInteger (c ∷ t)

pub data IsUnsigned : Bytes → Type 0 where
  whole : {t : Bytes} → IsInteger t → IsUnsigned t
  decimal :
      {t u : Bytes} (c : ℕ)
      → IsInteger t
      → b'0' ≤ c
      → c ≤ b'9'
      → IsDigits u
      → IsUnsigned (t ++ codes "." ++ (c ∷ u))

pub data IsNumber : Bytes → Type 0 where
  unsigned : {t : Bytes} → IsUnsigned t → IsNumber t
  minus : {t : Bytes} → IsUnsigned t → IsNumber (b'-' ∷ t)

-- The reader takes the whole text for a string, and the text is UTF-8.
abbrev pub IsString : Bytes → Type 0
IsString t = (s : Bytes) × (read_string t ≡ some (s, [])) × (is_utf8 t ≡ true)

mutual
  pub data IsJson : Bytes → Type 0 where
    null_text : IsJson (codes "null")
    true_text : IsJson (codes "true")
    false_text : IsJson (codes "false")
    number : {t : Bytes} → IsNumber t → IsJson t
    string : {t : Bytes} → IsString t → IsJson t
    no_elements : {s : Bytes} → IsSpace s → IsJson (codes "[" ++ s ++ codes "]")
    array :
        {s t u : Bytes}
        → IsSpace s
        → IsElements t
        → IsSpace u
        → IsJson (codes "[" ++ s ++ t ++ u ++ codes "]")
    no_members : {s : Bytes} → IsSpace s → IsJson (codes "{" ++ s ++ codes "}")
    object : {t u : Bytes} → IsMembers t → IsSpace u → IsJson (codes "{" ++ t ++ u ++ codes "}")

  pub data IsElements : Bytes → Type 0 where
    element : {s t u : Bytes} → IsSpace s → IsJson t → IsSpace u → IsElements (s ++ t ++ u)
    more : {t u : Bytes} → IsElements t → IsElements u → IsElements (t ++ codes "," ++ u)

  pub data IsMembers : Bytes → Type 0 where
    member :
        {s u t : Bytes} (k : Bytes)
        → IsSpace s
        → IsString k
        → IsSpace u
        → IsJson t
        → IsMembers (s ++ k ++ codes ":" ++ u ++ t)
    next : {t u : Bytes} → IsMembers t → IsMembers u → IsMembers (t ++ codes "," ++ u)

-- ===== src/Json/Strings.antt =====
-- The strings that crates/libs/lib-lualib/src/lua_json.rs writes, against a reader of JSON strings.
use mathlib.Core.List.{flat_map}
use lrust.Base.{
  ℕ, zero, suc, ◌+◌, ◌-◌, ◌*◌, ◌≤◌, ◌≡◌, refl, Bool, true, false, ◌&&◌, ltb, leb, ◌==◌,
  if◌then◌else◌, [], ◌∷◌, ◌++◌, Option, none, some, append_assoc, arith, inl, inr, Bool-cases,
  ltb→lt, ltb-le, and_cases, ==_iff,
}
use lrust.Base.Text.{same_bytes}
use lrust.Base.Check.{same_bytes-eq, passes_below, passes_below-test}
use lrust.Base.Text.{Bytes, codes}
use lrust.Json.Encode.{write_string}
use lrust.Json.Render.{escape, quoted}
use lrust.Json.Append.{write_string-quoted, escape-out}

-- Where a reader stands in a string: between characters, after a backslash, or with some digits of
-- a code point still to come and the value of those before.
data Mode : Type 0 where
  plain : Mode
  escaped : Mode
  unicode : ℕ → ℕ → Mode

-- What a byte does: it only moves the reader, it completes a character, it closes the string, or it
-- must not stand there.
data Move : Type 0 where
  go : Mode → Move
  emit : ℕ → Move
  close : Move
  refuse : Move

hex_value : ℕ → Option ℕ
hex_value c =
    if leb b'0' c && leb c b'9'
    then some (c - b'0')
    else if leb b'A' c && leb c b'F'
    then some (c - b'A' + 10)
    else if leb b'a' c && leb c b'f'
    then some (c - b'a' + 10)
    else none

-- The last digit gives a character of one byte, or is refused.
digit_move : ℕ → ℕ → Option ℕ → Move
digit_move k v none = refuse
digit_move zero v (some x) = if ltb (16 * v + x) 128 then emit (16 * v + x) else refuse
digit_move (suc k) v (some x) = go (unicode k (16 * v + x))

-- The grammar of RFC 8259: section 7.
step : Mode → ℕ → Move
unfolding digit_move hex_value
step plain c =
    if c == b'"'
    then close
    else if c == b'\\'
    then go escaped
    else if ltb c 32
    then refuse
    else emit c
step escaped c =
    if c == b'"'
    then emit b'"'
    else if c == b'\\'
    then emit b'\\'
    else if c == b'/'
    then emit b'/'
    else if c == b'b'
    then emit 8
    else if c == b'f'
    then emit 12
    else if c == b'n'
    then emit 10
    else if c == b'r'
    then emit 13
    else if c == b't'
    then emit 9
    else if c == b'u'
    then go (unicode 3 0)
    else refuse
step (unicode k v) c = digit_move k v (hex_value c)

abbrev before : ℕ → Option (Bytes × Bytes) → Option (Bytes × Bytes)
before c none = none
before c (some (s, t)) = some (c ∷ s, t)

read : Mode → Bytes → Option (Bytes × Bytes)
unfolding step
read m [] = none
read m (c ∷ t) = elim (step m c) [
  | go m1 ↦ read m1 t
  | emit x ↦ before x (read plain t)
  | close ↦ some ([], t)
  | refuse ↦ none
]

-- The characters of a JSON string that starts here, and what follows it.
pub read_string : Bytes → Option (Bytes × Bytes)
unfolding read
read_string [] = none
read_string (c ∷ t) = let rest = read plain t in if c == b'"' then rest else none

-- Whether the bytes, read from `m` on, give the character c and nothing else.
gives : Mode → Bytes → ℕ → Bool
unfolding step
gives m [] c = false
gives m (b ∷ bs) c = elim (step m b) [
  | go m1 ↦ gives m1 bs c
  | emit x ↦ (x == c) && same_bytes bs []
  | close ↦ false
  | refuse ↦ false
]

read-gives :
    (m : Mode) (bs : Bytes) (c : ℕ) (t : Bytes)
    → gives m bs c ≡ true
    → read m (bs ++ t) ≡ before c (read plain t)
unfolding read gives
read-gives m [] c t h = ground arith
read-gives m (b ∷ bs) c t h =
    elim (step m b)
        as (λ mv.
          (elim mv [
            | go m1 ↦ gives m1 bs c
            | emit x ↦ (x == c) && same_bytes bs []
            | close ↦ false
            | refuse ↦ false
          ])
            ≡ true
          → (elim mv [
            | go m1 ↦ read m1 (bs ++ t)
            | emit x ↦ before x (read plain (bs ++ t))
            | close ↦ some ([], bs ++ t)
            | refuse ↦ none
          ])
            ≡ before c (read plain t)) [
              | go m1 ↦ read-gives m1 bs c t
              | emit x ↦ λ g.
                  rw
                    (
                      (==_iff x c).0 (and_cases (x == c) (same_bytes bs []) g).0,
                      same_bytes-eq bs [] (and_cases (x == c) (same_bytes bs []) g).1,
                    )
                    refl
              | close ↦ λ g. ground arith
              | refuse ↦ λ g. ground arith
            ]
      h

escape-gives : passes_below (λ c. gives plain (escape c) c) 256 ≡ true
unfolding passes_below gives escape
escape-gives = refl

step-plain : (c : ℕ) → 256 ≤ c → step plain c ≡ emit c
unfolding step
step-plain c h = ground arith

read-out : (c : ℕ) (t : Bytes) → 256 ≤ c → read plain (c ∷ t) ≡ before c (read plain t)
unfolding read
read-out c t h = rw (step-plain c h, read) refl

read-escape : (c : ℕ) (t : Bytes) → read plain (escape c ++ t) ≡ before c (read plain t)
unfolding read
read-escape c t = elim (Bool-cases (ltb c 256)) [
  | inl e ↦
      read-gives plain (escape c) c t
        (passes_below-test (λ c. gives plain (escape c) c) 256 c escape-gives (ltb→lt c 256 e))
  | inr e ↦ rw (escape-out c (ltb-le c 256 e)) (read-out c t (ltb-le c 256 e))
]

read-flat_map : (s t : Bytes) → read plain (flat_map escape s ++ (b'"' ∷ t)) ≡ some (s, t)
unfolding read flat_map step
read-flat_map [] t = refl
read-flat_map (c ∷ s) t =
    rw
      (
        append_assoc (escape c) (flat_map escape s) (b'"' ∷ t),
        read-escape c (flat_map escape s ++ (b'"' ∷ t)),
        read-flat_map s t,
      )
      refl

pub read_string-quoted : (s t : Bytes) → read_string (quoted s ++ t) ≡ some (s, t)
unfolding quoted read_string
read_string-quoted s t = rw (append_assoc (flat_map escape s) (codes "\"") t) (read-flat_map s t)

-- The string that the encoder writes after `w`, read from there, is the string that it was given,
-- with whatever follows it left.
pub read_string-write_string :
    (s w t : Bytes)
    → (u : Bytes) × (write_string s w ≡ w ++ u) × (read_string (u ++ t) ≡ some (s, t))
read_string-write_string s w t = (quoted s, write_string-quoted s w, read_string-quoted s t)

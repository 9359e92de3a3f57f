-- ===== src/Base/Utf8.antt =====
-- UTF-8 as RFC 3629 has it.
use lrust.Base.{
  ℕ, zero, suc, ◌+◌, ◌≡◌, refl, Bool, true, false, ◌&&◌, ltb, leb, ◌==◌, if◌then◌else◌, [], ◌∷◌,
  Option, none, some, arith,
}
use lrust.Base.Text.{Bytes}

-- Between two characters, or in one: the next byte is from 128 + low to 128 + high, and so many others
-- from 128 to 191 follow it.
pub data Place : Type 0 where
  between : Place
  within : ℕ → ℕ → ℕ → Place

abbrev rest : ℕ → Place
rest zero = between
rest (suc k) = within 0 63 k

-- The place after a byte, if the byte may stand there.
unfoldable pub next_place : Place → ℕ → Option Place
next_place between c =
    if ltb c 128
    then some between
    else if leb 194 c && leb c 223
    then some (within 0 63 0)
    else if c == 224
    then some (within 32 63 1)
    else if c == 237
    then some (within 0 31 1)
    else if leb 225 c && leb c 239
    then some (within 0 63 1)
    else if c == 240
    then some (within 16 63 2)
    else if leb 241 c && leb c 243
    then some (within 0 63 2)
    else if c == 244
    then some (within 0 15 2)
    else none
next_place (within low high k) c =
    if leb (128 + low) c && leb c (128 + high) then some (rest k) else none

unfoldable pub is_utf8_from : Place → Bytes → Bool
unfolding next_place
is_utf8_from between [] = true
is_utf8_from (within low high k) [] = false
is_utf8_from m (c ∷ s) = elim (next_place m c) [ none ↦ false | some n ↦ is_utf8_from n s ]

unfoldable pub is_utf8 : Bytes → Bool
unfolding is_utf8_from
is_utf8 s = is_utf8_from between s

next_place-ascii : (c : ℕ) → ltb c 128 ≡ true → next_place between c ≡ some between
unfolding next_place
next_place-ascii c h = rw h refl

pub is_utf8-ascii : (c : ℕ) (s : Bytes) → ltb c 128 ≡ true → is_utf8 (c ∷ s) ≡ is_utf8 s
unfolding is_utf8
is_utf8-ascii c s h = rw (is_utf8, is_utf8_from, next_place-ascii c h) refl

-- No byte below 128 stands within a character.
pub within-ascii :
    (low high k c : ℕ) (s : Bytes)
    → ltb c 128 ≡ true
    → is_utf8_from (within low high k) (c ∷ s) ≡ false
unfolding next_place is_utf8_from
within-ascii low high k c s h = rw (next_place, is_utf8_from, below) refl
  where
    below : leb (128 + low) c ≡ false
    below = ground arith

-- The same first byte before texts that are alike from every place.
pub is_utf8_from-cons :
    (m : Place) (c : ℕ) (s t : Bytes)
    → ((n : Place) → is_utf8_from n s ≡ true → is_utf8_from n t ≡ true)
    → is_utf8_from m (c ∷ s) ≡ true
    → is_utf8_from m (c ∷ t) ≡ true
unfolding is_utf8_from
is_utf8_from-cons m c s t same =
    elim (next_place m c)
      as (λ o.
        (elim o [ none ↦ false | some n ↦ is_utf8_from n s ]) ≡ true
        → (elim o [ none ↦ false | some n ↦ is_utf8_from n t ]) ≡ true) [
          | none ↦ λ h. h
          | some n ↦ same n
        ]

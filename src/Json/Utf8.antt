-- ===== src/Json/Utf8.antt =====
-- The strings that crates/libs/lib-lualib/src/lua_json.rs writes are UTF-8 where those it is given are.
use mathlib.Core.List.{flat_map}
use lrust.Base.{
  ℕ, ◌≤◌, ◌≡◌, refl, sym, ◌∙◌, Bool, true, ◌&&◌, ltb, [], ◌∷◌, ◌++◌, append_assoc, arith, inl, inr,
  Bool-cases, ltb→lt, ltb-le, and_cases,
}
use lrust.Base.Check.{passes_below, passes_below-test}
use lrust.Base.Text.{Bytes, codes}
use lrust.Base.Utf8.{
  Place, between, within, is_utf8_from, is_utf8, is_utf8-ascii, within-ascii, is_utf8_from-cons,
}
use lrust.Json.Render.{escape, quoted}

all_ascii : Bytes → Bool
all_ascii [] = true
all_ascii (c ∷ s) = let others = all_ascii s in ltb c 128 && others

ascii_before : (s t : Bytes) → all_ascii s ≡ true → is_utf8 (s ++ t) ≡ is_utf8 t
unfolding all_ascii
ascii_before [] t h = refl
ascii_before (c ∷ s) t h =
    let (first, others) = and_cases (ltb c 128) (all_ascii s) h in
    is_utf8-ascii c (s ++ t) first ∙ ascii_before s t others

escape-ascii : passes_below (λ c. all_ascii (escape c)) 128 ≡ true
unfolding passes_below all_ascii escape
escape-ascii = refl

escape-high : (c : ℕ) → 128 ≤ c → escape c ≡ c ∷ []
unfolding escape
escape-high c h = ground arith

escaped-utf8 :
    (m : Place) (s t : Bytes)
    → is_utf8_from m s ≡ true
    → is_utf8 t ≡ true
    → is_utf8_from m (flat_map escape s ++ t) ≡ true
unfolding is_utf8_from flat_map is_utf8
escaped-utf8 between [] t h g = g
escaped-utf8 (within low high k) [] t h g = cc
escaped-utf8 m (c ∷ s) t h g =
    let out = flat_map escape s ++ t in
    let later : (n : Place) → is_utf8_from n s ≡ true → is_utf8_from n out ≡ true =
      λ n k. escaped-utf8 n s t k g in
    let whole : is_utf8_from m (escape c ++ out) ≡ true = elim (Bool-cases (ltb c 128)) [
      | inl e ↦ low m c s out e h later
      | inr e ↦ rw (escape-high c (ltb-le c 128 e)) (is_utf8_from-cons m c s out later h)
    ] in
    rw (append_assoc (escape c) (flat_map escape s) t) whole
  where
    low :
        (m : Place) (c : ℕ) (s out : Bytes)
        → ltb c 128 ≡ true
        → is_utf8_from m (c ∷ s) ≡ true
        → ((n : Place) → is_utf8_from n s ≡ true → is_utf8_from n out ≡ true)
        → is_utf8_from m (escape c ++ out) ≡ true
    low between c s out e h later =
        ascii_before (escape c) out
          (passes_below-test (λ c. all_ascii (escape c)) 128 c escape-ascii (ltb→lt c 128 e))
        ∙ later between (sym (is_utf8-ascii c s e) ∙ h)
    low (within a b k) c s out e h later = absurd (let no = within-ascii a b k c s e in cc (no, h))

pub quoted-utf8 : (s : Bytes) → is_utf8 s ≡ true → is_utf8 (quoted s) ≡ true
unfolding is_utf8 quoted
quoted-utf8 s h =
    is_utf8-ascii b'"' (flat_map escape s ++ codes "\"") refl
    ∙ escaped-utf8 between s (codes "\"") h
        (is_utf8-ascii b'"' [] refl ∙ unfold is_utf8_from in refl)

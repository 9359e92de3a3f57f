-- ===== src/Json/Append.antt =====
-- What each part of the encoder of crates/libs/lib-lualib/src/lua_json.rs appends to its writer.
use mathlib.Core.List.{flat_map}
use lrust.Base.{
  ℕ, zero, suc, ◌*◌, ◌≤◌, ◌≡◌, refl, sym, ap, ◌∙◌, Bool, true, false, [], ◌∷◌, ◌++◌, length, get_or,
  replicate, append_assoc, append-nil, arith, ◌==◌, ltb, inl, inr, Bool-cases,
}
use lrust.Base.{ltb→lt, ltb-le}
use lrust.Base.Text.{same_bytes}
use lrust.Base.Check.{same_bytes-eq, passes_below, passes_below-test}
use lrust.Base.Text.{Bytes}
use lrust.Json.Encode.{
  char2escape, push, push_escaped, push_all_escaped, write_string, format_space, format_new_line,
}
use lrust.Json.Render.{escape, quoted, indent, new_line}

push_escaped-append : (c : ℕ) (w : Bytes) → push_escaped c w ≡ w ++ push_escaped c []
unfolding push_escaped
push_escaped-append c w = elim (Bool-cases (get_or char2escape c 0 == 0)) [
  | inl e ↦ rw e refl
  | inr e ↦ elim (Bool-cases (get_or char2escape c 0 == b'u')) [
    | inl g ↦ rw (e, g) (simp append_assoc)
    | inr g ↦ rw (e, g) (simp append_assoc)
  ]
]

table_check : passes_below (λ c. same_bytes (push_escaped c []) (escape c)) 256 ≡ true
unfolding passes_below push_escaped escape
table_check = refl

get_or_out : (s : Bytes) (i : ℕ) → length s ≤ i → get_or s i 0 ≡ 0
get_or_out [] i h = refl
get_or_out (c ∷ s) zero h = absurd (omega arith)
get_or_out (c ∷ s) (suc i) h = get_or_out s i (omega arith)

pub escape-out : (c : ℕ) → 256 ≤ c → escape c ≡ c ∷ []
unfolding escape
escape-out c h = ground arith

push_escaped-out : (c : ℕ) → 256 ≤ c → push_escaped c [] ≡ c ∷ []
unfolding push_escaped
push_escaped-out c h = rw (get_or_out char2escape c h) refl

push_escaped-escape : (c : ℕ) → push_escaped c [] ≡ escape c
push_escaped-escape c = elim (Bool-cases (ltb c 256)) [
  | inl e ↦ same_bytes-eq _ _ (passes_below-test _ 256 c table_check (ltb→lt c 256 e))
  | inr e ↦ push_escaped-out c (ltb-le c 256 e) ∙ sym (escape-out c (ltb-le c 256 e))
]

push_all_escaped-escape : (s w : Bytes) → push_all_escaped s w ≡ w ++ flat_map escape s
unfolding push_all_escaped flat_map
push_all_escaped-escape [] w = sym (append-nil w)
push_all_escaped-escape (c ∷ s) w =
    rw
      (push_all_escaped-escape s (push_escaped c w), push_escaped-append c w, push_escaped-escape c)
      (append_assoc w (escape c) (flat_map escape s))

pub write_string-quoted : (s w : Bytes) → write_string s w ≡ w ++ quoted s
unfolding write_string quoted
write_string-quoted s w = rw (push_all_escaped-escape s (push w b'"')) (simp append_assoc)

double : (n : ℕ) → 2 * suc n ≡ suc (suc (2 * n))
double n = omega arith

format_space-none : (n : ℕ) (w : Bytes) → format_space false n w ≡ w
unfolding format_space
format_space-none zero w = refl
format_space-none (suc n) w = refl

pub format_space-indent :
    (fmt : Bool) (n : ℕ) (w : Bytes) → format_space fmt n w ≡ w ++ indent fmt n
unfolding format_space
format_space-indent false n w = format_space-none n w ∙ sym (append-nil w)
format_space-indent true zero w = sym (append-nil w)
format_space-indent true (suc n) w =
    rw (format_space-indent true n (push (push w b' ') b' '), twice) (simp append_assoc)
  where
    twice : replicate {A = ℕ} (2 * suc n) b' ' ≡ b' ' ∷ b' ' ∷ replicate (2 * n) b' '
    twice = ap (λ (k : ℕ). replicate {A = ℕ} k b' ') (double n)

pub format_new_line-new_line : (fmt : Bool) (w : Bytes) → format_new_line fmt w ≡ w ++ new_line fmt
unfolding format_new_line
format_new_line-new_line true w = refl
format_new_line-new_line false w = sym (append-nil w)

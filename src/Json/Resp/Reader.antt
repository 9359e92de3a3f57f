-- ===== src/Json/Resp/Reader.antt =====
-- A reader of the commands of Redis's protocol, which `concat_resp` of
-- crates/libs/lib-lualib/src/lua_json.rs writes.
use lrust.Base.{
  ℕ, zero, suc, ◌+◌, ◌-◌, ◌*◌, ◌/◌, ◌%◌, ◌<◌, ◌≡◌, refl, ap, ◌∙◌, true, ◌&&◌, ltb, leb, ◌==◌,
  if◌then◌else◌, List, [], ◌∷◌, ◌++◌, Option, none, some, length, take, drop, append_assoc, arith,
  inl, inr, Bool-cases, ltb→lt, ltb-le, take-length_append, drop-length_append, length-append,
  le→leb,
}
use lrust.Base.Text.{Bytes, codes, to_string, digits_onto}

-- The number whose digits start here, after those whose value is `n`, and what follows them.
read_decimal : ℕ → Bytes → ℕ × Bytes
read_decimal n [] = (n, [])
read_decimal n (c ∷ t) =
    let rest = read_decimal (10 * n + (c - b'0')) t in
    if leb b'0' c && leb c b'9' then rest else (n, c ∷ t)

after_prefix : Bytes → Bytes → Option Bytes
after_prefix [] t = some t
after_prefix (a ∷ p) [] = none
after_prefix (a ∷ p) (c ∷ t) = let rest = after_prefix p t in if a == c then rest else none

-- A length, or -1 for a nil, and what follows its line.
read_length : Bytes → ℕ → Option Bytes → Option (Option ℕ × Bytes)
unfolding after_prefix
read_length t n (some r) = some (some n, r)
read_length t n none = nil_length (after_prefix (codes "-1") t)
  where
    nil_length : Option Bytes → Option (Option ℕ × Bytes)
    nil_length none = none
    nil_length (some r) = some (none, r)

-- The text of a length, and what follows it.
cut : Option (Option ℕ × Bytes) → Option (Option Bytes × Bytes)
cut none = none
cut (some (none, t)) = some (none, t)
cut (some (some n, t)) = if leb n (length t) then some (some (take n t), drop n t) else none

lengths : Option Bytes → Option (Option ℕ × Bytes)
unfolding read_length read_decimal after_prefix
lengths none = none
lengths (some t) =
    let d = read_decimal 0 t in read_length t (d.0) (after_prefix (codes "\r\n") (d.1))

read_bulk : Bytes → Option (Option Bytes × Bytes)
unfolding cut lengths after_prefix
read_bulk t = cut (lengths (after_prefix (codes "\r\n$") t))

abbrev pub Texts : Type 0
Texts = List (Option Bytes)

with_rest : Option Bytes → Option (Texts × Bytes) → Option (Texts × Bytes)
with_rest x none = none
with_rest x (some (xs, r)) = some (x ∷ xs, r)

with_first :
    (Bytes → Option (Texts × Bytes)) → Option (Option Bytes × Bytes) → Option (Texts × Bytes)
unfolding with_rest
with_first next none = none
with_first next (some (x, r)) = with_rest x (next r)

read_bulks : ℕ → Bytes → Option (Texts × Bytes)
unfolding read_bulk with_first
read_bulks zero t = some ([], t)
read_bulks (suc n) t = with_first (read_bulks n) (read_bulk t)

end_line : Option (Texts × Bytes) → Option (Texts × Bytes)
unfolding after_prefix
end_line none = none
end_line (some (xs, t)) = with_end xs (after_prefix (codes "\r\n") t)
  where
    with_end : Texts → Option Bytes → Option (Texts × Bytes)
    with_end xs none = none
    with_end xs (some r) = some (xs, r)

-- The texts of a command, nils among them, and what follows it.
pub read_command : Bytes → Option (Texts × Bytes)
unfolding read_decimal read_bulks end_line
read_command [] = none
read_command (c ∷ t) =
    let d = read_decimal 0 t in
    let r = end_line (read_bulks (d.0) (d.1)) in if c == b'*' then r else none

-- The digits of `n` read back, before something that is no digit.
read_decimal-digits_onto :
    (fuel n : ℕ) (t : Bytes) → n < fuel → read_decimal 0 (digits_onto fuel n t) ≡ read_decimal n t
unfolding read_decimal digits_onto
read_decimal-digits_onto zero n t h = absurd (omega arith)
read_decimal-digits_onto (suc fuel) n t h = elim (Bool-cases (ltb n 10)) [
  | inl e ↦ rw (e, digit_char n (ltb→lt n 10 e)) (ap (λ (k : ℕ). read_decimal k t) (omega arith))
  | inr e ↦ rw e (
      read_decimal-digits_onto fuel (n / 10) ((b'0' + n % 10) ∷ t) (omega (arith, ltb-le n 10 e))
      ∙ (rw (digit_char (n % 10) (omega arith)) (ap (λ (k : ℕ). read_decimal k t) (omega arith))))
]
  where
    digit_char : (d : ℕ) → d < 10 → leb b'0' (b'0' + d) && leb (b'0' + d) b'9' ≡ true
    digit_char d h = ground arith

digits_onto-append :
    (fuel n : ℕ) (t u : Bytes) → digits_onto fuel n t ++ u ≡ digits_onto fuel n (t ++ u)
unfolding digits_onto
digits_onto-append zero n t u = refl
digits_onto-append (suc fuel) n t u = elim (Bool-cases (ltb n 10)) [
  | inl e ↦ rw e refl
  | inr e ↦ rw e (digits_onto-append fuel (n / 10) ((b'0' + n % 10) ∷ t) u)
]

read_decimal-to_string :
    (n : ℕ) (t : Bytes) → read_decimal 0 (to_string n ++ (b'\r' ∷ t)) ≡ (n, b'\r' ∷ t)
unfolding to_string read_decimal
read_decimal-to_string n t =
    ap (read_decimal 0) (digits_onto-append (suc n) n [] (b'\r' ∷ t))
    ∙ read_decimal-digits_onto (suc n) n (b'\r' ∷ t) (omega arith)

unfoldable pub bulk : Option Bytes → Bytes
bulk none = codes "\r\n$-1"
bulk (some s) = codes "\r\n$" ++ to_string (length s) ++ codes "\r\n" ++ s

unfoldable pub bulks : Texts → Bytes
unfolding bulk
bulks [] = []
bulks (x ∷ xs) = bulk x ++ bulks xs

-- What follows the prefix of a text.
after_line : Bytes → Bytes → Bytes
after_line s t = to_string (length s) ++ (b'\r' ∷ b'\n' ∷ (s ++ t))

regroup :
    (d s t : Bytes)
    → codes "\r\n$" ++ d ++ codes "\r\n" ++ s ++ t
      ≡ b'\r' ∷ b'\n' ∷ b'$' ∷ (d ++ (b'\r' ∷ b'\n' ∷ (s ++ t)))
regroup d s t = simp append_assoc

cut_text : (s t : Bytes) → cut (some (some (length s), s ++ t)) ≡ some (some s, t)
unfolding cut
cut_text s t =
    rw
      (
        le→leb (length s) (length (s ++ t)) (omega (arith, length-append s t)),
        take-length_append s t,
        drop-length_append s t,
      )
      refl

read_bulk-bulk : (x : Option Bytes) (t : Bytes) → read_bulk (bulk x ++ t) ≡ some (x, t)
unfolding read_bulk bulk lengths after_prefix after_line read_decimal read_length cut
read_bulk-bulk none t = refl
read_bulk-bulk (some s) t =
    ap read_bulk (regroup (to_string (length s)) s t)
    ∙ ap
        (λ (d : ℕ × Bytes).
          cut (read_length (after_line s t) (d.0) (after_prefix (codes "\r\n") (d.1))))
        (read_decimal-to_string (length s) (b'\n' ∷ (s ++ t)))
    ∙ cut_text s t

read_bulks-bulks : (xs : Texts) (t : Bytes) → read_bulks (length xs) (bulks xs ++ t) ≡ some (xs, t)
unfolding read_bulks bulks with_first with_rest
read_bulks-bulks [] t = refl
read_bulks-bulks (x ∷ xs) t =
    ap (λ (r : Bytes). with_first (read_bulks (length xs)) (read_bulk r))
      (append_assoc (bulk x) (bulks xs) t)
    ∙ ap (with_first (read_bulks (length xs))) (read_bulk-bulk x (bulks xs ++ t))
    ∙ ap (with_rest x) (read_bulks-bulks xs t)

-- A command as the protocol has it.
unfoldable pub frame : Texts → Bytes
frame xs = codes "*" ++ to_string (length xs) ++ bulks xs ++ codes "\r\n"

head_is_cr : (xs : Texts) (t : Bytes) → (r : Bytes) × (bulks xs ++ (b'\r' ∷ b'\n' ∷ t) ≡ b'\r' ∷ r)
unfolding bulks bulk
head_is_cr [] t = (b'\n' ∷ t, refl)
head_is_cr (none ∷ xs) t = (_, refl)
head_is_cr (some s ∷ xs) t = (_, refl)

read_decimal-bulks :
    (xs : Texts) (t : Bytes)
    → read_decimal 0 (to_string (length xs) ++ (bulks xs ++ (b'\r' ∷ b'\n' ∷ t)))
      ≡ (length xs, bulks xs ++ (b'\r' ∷ b'\n' ∷ t))
read_decimal-bulks xs t = let q = head_is_cr xs t in rw q.1 (read_decimal-to_string (length xs) q.0)

regroup_frame :
    (d b t : Bytes)
    → codes "*" ++ d ++ b ++ codes "\r\n" ++ t ≡ b'*' ∷ (d ++ (b ++ (b'\r' ∷ b'\n' ∷ t)))
regroup_frame d b t = simp append_assoc

pub read_command-frame : (xs : Texts) (t : Bytes) → read_command (frame xs ++ t) ≡ some (xs, t)
unfolding read_command frame
read_command-frame xs t =
    ap read_command (regroup_frame (to_string (length xs)) (bulks xs) t)
    ∙ ap (λ (d : ℕ × Bytes). end_line (read_bulks (d.0) (d.1))) (read_decimal-bulks xs t)
    ∙ ap end_line (read_bulks-bulks xs (b'\r' ∷ b'\n' ∷ t))

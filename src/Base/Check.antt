-- ===== src/Base/Check.antt =====
-- Facts on every byte, checked by evaluation.
use mathlib.Core.Path.{subst}
use lrust.Base.{
  ℕ, zero, suc, ◌<◌, ◌≡◌, refl, Bool, true, ◌&&◌, ◌==◌, [], ◌∷◌, arith, ==_iff, and_cases, inl, inr,
  Bool-cases, sym,
}
use lrust.Base.Text.{Bytes, same_bytes}

pub same_bytes-eq : (s t : Bytes) → same_bytes s t ≡ true → s ≡ t
same_bytes-eq [] [] h = refl
same_bytes-eq (a ∷ s) (b ∷ t) h = ground (arith, same_bytes-eq s t)
same_bytes-eq [] (b ∷ t) h = ground arith
same_bytes-eq (a ∷ s) [] h = ground arith

pub same_bytes_comm : (s t : Bytes) → same_bytes s t ≡ same_bytes t s
same_bytes_comm [] [] = refl
same_bytes_comm (a ∷ s) (b ∷ t) = ground (arith, same_bytes_comm s t)
same_bytes_comm [] (b ∷ t) = refl
same_bytes_comm (a ∷ s) [] = refl

-- Whether a test passes for the numbers below `limit`.
unfoldable pub passes_below : (ℕ → Bool) → ℕ → Bool
passes_below test zero = true
passes_below test (suc limit) = let others = passes_below test limit in others && test limit

pub passes_below-test :
    (test : ℕ → Bool) (limit c : ℕ) → passes_below test limit ≡ true → c < limit → test c ≡ true
unfolding passes_below
passes_below-test test zero c passed below = absurd (omega arith)
passes_below-test test (suc limit) c passed below = elim (Bool-cases (c == limit)) [
  | inl same_number ↦
      subst (λ (k : ℕ). test k ≡ true) (sym ((==_iff c limit).0 same_number))
        (and_cases (passes_below test limit) (test limit) passed).1
  | inr other ↦
      passes_below-test test limit c (and_cases (passes_below test limit) (test limit) passed).0
        (ground arith)
]

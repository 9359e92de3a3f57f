-- ===== src/Json/Numbers.antt =====
-- The decimal texts of integers are numbers of JSON.
use lrust.Base.{
  ℕ, zero, suc, ◌+◌, ◌/◌, ◌%◌, ◌≤◌, ◌<◌, ltb, [], ◌∷◌, arith, inl, inr, Bool-cases, ltb→lt, ltb-le,
}
use lrust.Base.Int.{ℤ, pos, negsuc}
use lrust.Base.Text.{Bytes, digits_onto, to_string, to_string_ℤ}
use lrust.Json.Grammar.{
  IsDigits, no_digits, digit, IsInteger, digits, whole, IsNumber, unsigned, minus,
}

digits_onto-IsInteger :
    (fuel n : ℕ) (t : Bytes) → n < fuel → 1 ≤ n → IsDigits t → IsInteger (digits_onto fuel n t)
unfolding digits_onto
digits_onto-IsInteger zero n t lt low h = absurd (omega arith)
digits_onto-IsInteger (suc fuel) n t lt low h = elim (Bool-cases (ltb n 10)) [
  | inl e ↦ rw e (digits (b'0' + n) (omega arith) (omega (arith, ltb→lt n 10 e)) h)
  | inr e ↦ rw e (
      digits_onto-IsInteger fuel (n / 10) ((b'0' + n % 10) ∷ t) (omega arith)
        (omega (arith, ltb-le n 10 e)) (digit (b'0' + n % 10) (omega arith) (omega arith) h))
]

pub to_string-IsInteger : (n : ℕ) → IsInteger (to_string n)
unfolding to_string digits_onto
to_string-IsInteger zero = IsInteger.zero
to_string-IsInteger (suc n) =
    digits_onto-IsInteger (suc (suc n)) (suc n) [] (omega arith) (omega arith) no_digits

pub to_string_ℤ-IsNumber : (n : ℤ) → IsNumber (to_string_ℤ n)
unfolding to_string_ℤ
to_string_ℤ-IsNumber (pos n) = unsigned (whole (to_string-IsInteger n))
to_string_ℤ-IsNumber (negsuc n) = minus (whole (to_string-IsInteger (suc n)))

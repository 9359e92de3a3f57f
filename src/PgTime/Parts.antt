-- ===== src/PgTime/Parts.antt =====
-- The integers of crates/libs/lib-lualib/src/sqlx_pg_datetime.rs as differences of natural numbers, so
-- that linear arithmetic reads them.
use lrust.Base.{ℕ, ◌+◌, ◌-◌, ◌*◌, ◌≤◌, ◌≡◌, ap, arith}
use lrust.Base.Int.{ℤ, pos, negsuc, pos_part, neg_part, sub_ℕ, ◌+ℤ◌, ◌-ℤ◌, scale}

-- a = p - n.
abbrev pub Is : ℤ → ℕ → ℕ → Type 0
Is a p n = pos_part a + n ≡ neg_part a + p

pub sub_ℕ-Is : (p n : ℕ) → Is (sub_ℕ p n) p n
sub_ℕ-Is p n = ground arith

pub add-Is : (a b : ℤ) → Is (a +ℤ b) (pos_part a + pos_part b) (neg_part a + neg_part b)
unfolding ◌+ℤ◌
add-Is a b = sub_ℕ-Is _ _

pub sub-Is : (a b : ℤ) → Is (a -ℤ b) (pos_part a + neg_part b) (neg_part a + pos_part b)
unfolding ◌-ℤ◌
sub-Is a b = sub_ℕ-Is _ _

pub scale-Is : (k : ℕ) (a : ℤ) → Is (scale k a) (k * pos_part a) (k * neg_part a)
unfolding scale
scale-Is k a = sub_ℕ-Is _ _

-- Equal differences.
pub Is-eq : (a b : ℤ) → pos_part a + neg_part b ≡ neg_part a + pos_part b → a ≡ b
Is-eq (pos a) (pos b) h = ap pos (omega arith)
Is-eq (negsuc a) (negsuc b) h = ap negsuc (omega arith)
Is-eq (pos a) (negsuc b) h = absurd (omega arith)
Is-eq (negsuc a) (pos b) h = absurd (omega arith)

pub eq-pos : (a : ℤ) (p n k : ℕ) → Is a p n → p ≡ k + n → a ≡ pos k
eq-pos a p n k h e = Is-eq a (pos k) (omega arith)

pub add-pos : (a b : ℕ) → pos a +ℤ pos b ≡ pos (a + b)
add-pos a b = eq-pos _ _ _ _ (add-Is (pos a) (pos b)) (omega arith)

pub sub-pos : (a b : ℕ) → b ≤ a → pos a -ℤ pos b ≡ pos (a - b)
sub-pos a b h = eq-pos _ _ _ _ (sub-Is (pos a) (pos b)) (omega arith)

pub scale-pos : (k a : ℕ) → scale k (pos a) ≡ pos (k * a)
scale-pos k a = eq-pos _ _ _ _ (scale-Is k (pos a)) (grind arith)

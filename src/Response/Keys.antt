-- ===== src/Response/Keys.antt =====
-- The sharded map of crates/libs/lib-lualib/src/sqlx_response.rs is a map: what a key holds after an
-- insertion or a removal at another key does not depend on the shards that the two hash to.
use lrust.Base.{
  ℕ, zero, suc, ◌<◌, ◌≡◌, refl, ◌∙◌, ap, List, [], ◌∷◌, true, Option, none, some, arith, ◌==◌,
  if◌then◌else◌, length, get_or, set, length-set, Bool-cases, inl, inr, ==_iff,
}
use lrust.Response.{
  Key, same_key, Shard, shard_count, Registry, shard_of, lookup, remove, insert, shard, set_shard,
  weak_at, new,
}

pub same_key-eq : (j k : Key) → same_key j k ≡ true → j ≡ k
same_key-eq j k h = ground arith

pub same_key_refl : (k : Key) → same_key k k ≡ true
same_key_refl k = ground arith

pub same_key_symm : (j k : Key) → same_key j k ≡ same_key k j
same_key_symm j k = ground arith

lookup-remove :
    (j k : Key) (m : Shard) → lookup j (remove k m) ≡ (if same_key k j then none else lookup j m)
unfolding lookup remove
lookup-remove j k [] = ground arith
lookup-remove j k ((i, a) ∷ m) = ground (arith, lookup-remove j k m)

lookup-insert :
    (j k : Key) (a : ℕ) (m : Shard)
    → lookup j (insert k a m) ≡ (if same_key k j then some a else lookup j m)
lookup-insert j k a m = unfold insert lookup in ground (arith, lookup-remove j k m)

shard_of-lt : (k : Key) → shard_of k < shard_count
unfolding shard_of
shard_of-lt k = omega arith

get_or-set {ℓ} :
    {A : Type ℓ} (xs : List A) (i j : ℕ) (v d : A)
    → i < length xs
    → get_or (set xs i v) j d ≡ (if i == j then v else get_or xs j d)
get_or-set [] i j v d h = absurd (omega arith)
get_or-set (x ∷ xs) zero zero v d h = refl
get_or-set (x ∷ xs) zero (suc j) v d h = ground arith
get_or-set (x ∷ xs) (suc i) zero v d h = ground arith
get_or-set (x ∷ xs) (suc i) (suc j) v d h = get_or-set xs i j v d (omega arith) ∙ ground arith

-- The array has all its shards.
abbrev pub HasShards {ℓ} : {T : Type ℓ} → Registry T → Type 0
HasShards r = length r.shards ≡ shard_count

pub new-HasShards {ℓ} : (T : Type ℓ) → HasShards (new {T = T})
unfolding new
new-HasShards T = refl

module _ {ℓ} {T : Type ℓ} where
  pub set_shard-HasShards :
      (r : Registry T) (k : Key) (m : Shard) → HasShards r → HasShards (set_shard r k m)
  unfolding set_shard
  set_shard-HasShards r k m h = length-set r.shards (shard_of k) m ∙ h

  -- A change of the shard at `k` that is a change of the one key `k`, seen at every key.
  weak_at-set_shard :
      (r : Registry T) (j k : Key) (m : Shard) (x : Option ℕ)
      → HasShards r
      → lookup j m ≡ (if same_key k j then x else lookup j (shard r k))
      → weak_at (set_shard r k m) j ≡ (if same_key k j then x else weak_at r j)
  unfolding weak_at set_shard shard
  weak_at-set_shard r j k m x h e = elim (Bool-cases (shard_of k == shard_of j)) [
    | inl same ↦
        let there : shard_of k ≡ shard_of j = (==_iff (shard_of k) (shard_of j)).0 same in
        rw (get_or-set r.shards (shard_of k) (shard_of j) m [] within, same)
          (e ∙ ap (λ (i : ℕ). if same_key k j then x else lookup j (get_or r.shards i [])) there)
    | inr apart ↦
        rw (get_or-set r.shards (shard_of k) (shard_of j) m [] within, apart)
          (elim (Bool-cases (same_key k j)) [
            | inl equal ↦ absurd (ground (arith, ap shard_of (same_key-eq k j equal)))
            | inr other ↦ rw other
          ])
  ]
    where
      within : shard_of k < length r.shards
      within = omega (arith, shard_of-lt k, h)

  pub weak_at-insert :
      (r : Registry T) (j k : Key) (a : ℕ)
      → HasShards r
      → weak_at (set_shard r k (insert k a (shard r k))) j
        ≡ (if same_key k j then some a else weak_at r j)
  weak_at-insert r j k a h = weak_at-set_shard r j k _ (some a) h (lookup-insert j k a (shard r k))

  pub weak_at-remove :
      (r : Registry T) (j k : Key)
      → HasShards r
      → weak_at (set_shard r k (remove k (shard r k))) j
        ≡ (if same_key k j then none else weak_at r j)
  weak_at-remove r j k h = weak_at-set_shard r j k _ none h (lookup-remove j k (shard r k))

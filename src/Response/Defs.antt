-- ===== src/Response/Defs.antt =====
-- The data and operations of crates/libs/lib-lualib/src/sqlx_response.rs.
use Prim.Native.Nat.{bit_xor}
use lrust.Base.{
  ℕ, zero, suc, ◌+◌, ◌-◌, ◌*◌, ◌%◌, ◌^◌, List, [], ◌∷◌, ◌++◌, Bool, true, false, ◌&&◌, Option, none,
  some, ltb, ◌==◌, if◌then◌else◌, length, get_elem?, get_or, set, replicate,
}

-- (u32, i64); the session is its 64-bit pattern.
pub record Key : Type 0 where
  pub owner : ℕ
  pub session : ℕ

abbrev pub same_key : Key → Key → Bool
same_key j k = j.owner == k.owner && j.session == k.session

pub record Slot {ℓ} (T : Type ℓ) : Type ℓ where
  pub active : Bool
  pub value : Option T
  pub strong : ℕ

-- A shard maps keys to weak addresses.
abbrev pub Shard : Type 0
Shard = List (Key × ℕ)

abbrev pub shard_count : ℕ
shard_count = 32

pub record Registry {ℓ} (T : Type ℓ) : Type ℓ where
  pub shards : List Shard
  pub slots : List (Slot T)

pub record Lease : Type 0 where
  pub key : Key
  pub slot : ℕ

-- `hash & 31`.
unfoldable pub shard_of : Key → ℕ
shard_of k = bit_xor (k.owner * 0x9e3779b9 % 2 ^ 64) k.session % shard_count

-- The hash map of a shard.
unfoldable pub lookup : Key → Shard → Option ℕ
lookup k [] = none
lookup k ((j, a) ∷ m) = if same_key j k then some a else lookup k m

unfoldable pub remove : Key → Shard → Shard
remove k [] = []
remove k ((j, a) ∷ m) = if same_key j k then remove k m else (j, a) ∷ remove k m

unfoldable pub insert : Key → ℕ → Shard → Shard
insert k a m = (k, a) ∷ remove k m

-- `Weak::ptr_eq`.
abbrev pub is_at : ℕ → Option ℕ → Bool
is_at a none = false
is_at a (some b) = a == b

module _ {ℓ} {T : Type ℓ} where
  unfoldable pub new : Registry T
  new = record { shards = replicate shard_count []; slots = [] }

  unfoldable pub shard : Registry T → Key → Shard
  shard r k = get_or r.shards (shard_of k) []

  unfoldable pub set_shard : Registry T → Key → Shard → Registry T
  set_shard r k m = record r { shards = set r.shards (shard_of k) m }

  -- The slot at a key, whether or not anyone still owns it.
  unfoldable pub weak_at : Registry T → Key → Option ℕ
  weak_at r k = lookup k (shard r k)

  -- `Weak::upgrade` succeeds while there is an owner.
  abbrev pub is_owned : Option (Slot T) → Bool
  is_owned none = false
  is_owned (some s) = ltb 0 s.strong

  unfoldable pub upgrade : Registry T → Option ℕ → Option ℕ
  upgrade r none = none
  upgrade r (some a) = if is_owned (get_elem? r.slots a) then some a else none

  abbrev pub update : (Slot T → Slot T) → ℕ → List (Slot T) → List (Slot T)
  update f a [] = []
  update f zero (s ∷ ss) = f s ∷ ss
  update f (suc a) (s ∷ ss) = s ∷ update f a ss

  abbrev pub change : (Slot T → Slot T) → ℕ → Registry T → Registry T
  change f a r = record r { slots = update f a r.slots }

  abbrev pub own : Slot T → Slot T
  own s = record s { strong = s.strong + 1 }

  abbrev pub disown : Slot T → Slot T
  disown s = record s { strong = s.strong - 1 }

  -- No one may fill the slot any more, and its value is gone.
  abbrev pub empty_out : Slot T → Slot T
  empty_out s = record s { active = false; value = none }

  unfoldable pub fresh : Slot T
  fresh = record { active = true; value = none; strong = 1 }

  unfoldable pub register : Registry T → Key → Registry T × Option Lease
  unfolding fresh
  register r k = elim (upgrade r (weak_at r k)) [
    | some _ ↦ (r, none)
    | none ↦ (
      set_shard (record r { slots = r.slots ++ fresh ∷ [] }) k
          (insert k (length r.slots) (shard r k)),
      some (record { key = k; slot = length r.slots }),
    )
  ]

  -- The first step of `publish` and `take`: the caller becomes an owner of the slot.
  unfoldable pub find : Registry T → Key → Registry T × Option ℕ
  find r k = elim (upgrade r (weak_at r k)) [ none ↦ (r, none) | some a ↦ (change own a r, some a) ]

  abbrev pub is_open : Option (Slot T) → Bool
  is_open none = false
  is_open (some s) = elim s.value [ none ↦ s.active | some _ ↦ false ]

  -- The second step of `publish`, on the slot that was found.
  unfoldable pub store : Registry T → ℕ → T → Registry T × Bool
  store r a v =
      if is_open (get_elem? r.slots a)
      then (change (λ s. disown (record s { value = some v })) a r, true)
      else (change disown a r, false)

  abbrev pub value_of : Option (Slot T) → Option T
  value_of none = none
  value_of (some s) = s.value

  -- The second step of `take`.
  unfoldable pub take_value : Registry T → ℕ → Registry T × Option T
  take_value r a = (change (λ s. disown (empty_out s)) a r, value_of (get_elem? r.slots a))

  unfoldable pub publish : Registry T → Key → T → Registry T × Bool
  publish r k v =
      let (q, found) = find r k in elim found [ none ↦ (q, false) | some a ↦ store q a v ]

  unfoldable pub take : Registry T → Key → Registry T × Option T
  take r k = let (q, found) = find r k in elim found [ none ↦ (q, none) | some a ↦ take_value q a ]

  -- `Lease::drop`, under both locks, and the end of its `Arc`.
  unfoldable pub drop_lease : Registry T → Lease → Registry T
  drop_lease r l =
      let unlisted =
        if is_at l.slot (weak_at r l.key)
        then set_shard r l.key (remove l.key (shard r l.key))
        else r in
      change (λ s. disown (empty_out s)) l.slot unlisted

  -- The waiting and the ready replies.
  abbrev pub tally : Option (Slot T) → ℕ × ℕ → ℕ × ℕ
  tally none (w, y) = (w, y)
  tally (some s) (w, y) =
      if ltb 0 s.strong && s.active
      then elim s.value [ none ↦ (w + 1, y) | some _ ↦ (w, y + 1) ]
      else (w, y)

  unfoldable pub count_shard : Registry T → Shard → ℕ × ℕ → ℕ × ℕ
  count_shard r [] n = n
  count_shard r ((k, a) ∷ m) n = count_shard r m (tally (get_elem? r.slots a) n)

  unfoldable pub count_all : Registry T → List Shard → ℕ × ℕ → ℕ × ℕ
  unfolding count_shard
  count_all r [] n = n
  count_all r (m ∷ ms) n = count_all r ms (count_shard r m n)

  unfoldable pub counts : Registry T → ℕ × ℕ
  unfolding count_all
  counts r = count_all r r.shards (0, 0)

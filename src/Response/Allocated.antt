-- ===== src/Response/Allocated.antt =====
-- Every lease and every call under way in crates/libs/lib-lualib/src/sqlx_response.rs has its slot.
use lrust.Base.{
  ℕ, zero, suc, ◌+◌, ◌≤◌, ◌<◌, ◌≡◌, List, [], ◌∷◌, ◌++◌, true, Option, none, some, arith, length,
  length-append, get_elem?, Option-cases, Bool-cases, inl, inr,
}
use lrust.Response.{
  Key, Slot, Registry, Lease, register, find, store, take_value, drop_lease, own, is_open, is_at,
  is_owned, weak_at, upgrade, set_shard, new,
}
use lrust.Response.Race.{
  Work, storing, taking, System, Step, registers, finds_to_store, finds_to_take, stores, takes,
  drops, Reach, here, next, length-update,
}

abbrev pub address : {T : Type 0} → Work T → ℕ
address (storing a v) = a
address (taking a) = a

-- All of a list's addresses are allocated.
abbrev pub Below {ℓ} : {A : Type ℓ} → (A → ℕ) → ℕ → List A → Type 0
Below f n [] = Unit
Below f n (x ∷ xs) = (f x < n) × Below f n xs

Below-mono {ℓ} :
    {A : Type ℓ} (f : A → ℕ) (m n : ℕ) (xs : List A) → m ≤ n → Below f m xs → Below f n xs
Below-mono f m n [] h b = tt
Below-mono f m n (x ∷ xs) h b = (omega (arith, b.0), Below-mono f m n xs h b.1)

pub Below-middle {ℓ} :
    {A : Type ℓ} (f : A → ℕ) (n : ℕ) (xs : List A) (x : A) (ys : List A)
    → Below f n (xs ++ x ∷ ys)
    → (f x < n) × Below f n (xs ++ ys)
Below-middle f n [] x ys b = b
Below-middle f n (z ∷ xs) x ys b = let (h, rest) = Below-middle f n xs x ys b.1 in (h, (b.0, rest))

module _ {T : Type 0} where
  pub record Allocated (s : System T) : Type 0 where
    pub leased : Below (λ l. l.slot) (length s.registry.slots) s.leases
    pub found : Below address (length s.registry.slots) s.pending

  register-slots :
      (r : Registry T) (k : Key) (l : Lease)
      → (register r k).1 ≡ some l
      → (l.slot ≡ length r.slots) × (length (register r k).0.slots ≡ length r.slots + 1)
  register-slots r k l e = elim (Option-cases (upgrade r (weak_at r k))) [
    | inl free ↦
        unfold register set_shard in
        let e' = rw (free, register) at e in rw (free, register) (cc e', length-append r.slots _)
    | inr (b, used) ↦ unfold register in absurd (let e' = rw (used, register) at e in cc e')
  ]

  is_owned-lt : (a : ℕ) (ss : List (Slot T)) → is_owned (get_elem? ss a) ≡ true → a < length ss
  is_owned-lt a [] h = cc
  is_owned-lt zero (c ∷ ss) h = omega arith
  is_owned-lt (suc a) (c ∷ ss) h = omega (arith, is_owned-lt a ss h)

  upgrade-eq-some :
      (r : Registry T) (o : Option ℕ) (a : ℕ) → upgrade r o ≡ some a → a < length r.slots
  upgrade-eq-some r none a e = unfold upgrade in cc
  upgrade-eq-some r (some b) a e = unfold upgrade in ground (arith, is_owned-lt b r.slots)

  find-slots :
      (r : Registry T) (k : Key) (a : ℕ)
      → (find r k).1 ≡ some a
      → (a < length r.slots) × (length (find r k).0.slots ≡ length r.slots)
  find-slots r k a e = elim (Option-cases (upgrade r (weak_at r k))) [
    | inl missing ↦ unfold find in absurd (let e' = rw (missing, find) at e in cc e')
    | inr (b, there) ↦
        unfold find in
        let e' = rw (there, find) at e in
        let same : b ≡ a = cc e' in
        rw (there, find)
          (omega (arith, same, upgrade-eq-some r _ b there), length-update own b r.slots)
  ]

  store-slots : (r : Registry T) (a : ℕ) (v : T) → length (store r a v).0.slots ≡ length r.slots
  unfolding store
  store-slots r a v = elim (Bool-cases (is_open (get_elem? r.slots a))) [
    | inl e ↦ rw e (length-update _ a r.slots)
    | inr e ↦ rw e (length-update _ a r.slots)
  ]

  drop_lease-slots : (r : Registry T) (l : Lease) → length (drop_lease r l).slots ≡ length r.slots
  drop_lease-slots r l = elim (Bool-cases (is_at l.slot (weak_at r l.key))) [
    | inl e ↦ unfold drop_lease set_shard in rw e (length-update _ l.slot r.slots)
    | inr e ↦ unfold drop_lease set_shard in rw e (length-update _ l.slot r.slots)
  ]

  take_value-slots : (r : Registry T) (a : ℕ) → length (take_value r a).0.slots ≡ length r.slots
  unfolding take_value
  take_value-slots r a = length-update _ a r.slots

  Step-Allocated : {s t : System T} → Step s t → Allocated s → Allocated t
  Step-Allocated {s = s} (registers k l e eq) h =
      let (at, more) = register-slots s.registry k l e in
      rw eq (record {
        leased = (omega arith, Below-mono (λ l. l.slot) _ _ s.leases (omega arith) h.leased);
        found = Below-mono address _ _ s.pending (omega arith) h.found;
      })
  Step-Allocated {s = s} (finds_to_store k a v e eq) h =
      let (lt, same) = find-slots s.registry k a e in
      rw eq (record {
        leased = Below-mono (λ l. l.slot) _ _ s.leases (omega (arith, same)) h.leased;
        found = (
          omega (arith, lt, same),
          Below-mono address _ _ s.pending (omega (arith, same)) h.found,
        );
      })
  Step-Allocated {s = s} (finds_to_take k a e eq) h =
      let (lt, same) = find-slots s.registry k a e in
      rw eq (record {
        leased = Below-mono (λ l. l.slot) _ _ s.leases (omega (arith, same)) h.leased;
        found = (
          omega (arith, lt, same),
          Below-mono address _ _ s.pending (omega (arith, same)) h.found,
        );
      })
  Step-Allocated {s = s} (stores a v xs ys e eq) h =
      let same = store-slots s.registry a v in
      rw eq (record {
        leased = rw same h.leased;
        found = rw same (Below-middle address _ xs _ ys (rw e at h.found)).1;
      })
  Step-Allocated {s = s} (takes a xs ys e eq) h =
      let same = take_value-slots s.registry a in
      rw eq (record {
        leased = rw same h.leased;
        found = rw same (Below-middle address _ xs _ ys (rw e at h.found)).1;
      })
  Step-Allocated {s = s} (drops l xs ys e eq) h =
      let same = drop_lease-slots s.registry l in
      rw eq (record {
        leased = rw same (Below-middle (λ l. l.slot) _ xs _ ys (rw e at h.leased)).1;
        found = rw same h.found;
      })

  pub Reach-Allocated : {s t : System T} → Reach s t → Allocated s → Allocated t
  Reach-Allocated here h = h
  Reach-Allocated (next r st) h = Step-Allocated st (Reach-Allocated r h)

  -- The system before its first call.
  abbrev pub start : System T
  start = record { registry = new; leases = []; pending = [] }

  pub start-Allocated : Allocated start
  start-Allocated = record { leased = tt; found = tt }

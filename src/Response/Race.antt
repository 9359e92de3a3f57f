-- ===== src/Response/Race.antt =====
-- Callers, workers and garbage collection run at once: the calls of
-- crates/libs/lib-lualib/src/sqlx_response.rs as interleaved steps. `publish` and `take` are two steps
-- each, so a lease may go away between them.
use mathlib.Core.Path.{subst}
use lrust.Base.{
  ℕ, zero, suc, ◌<◌, ◌≡◌, refl, sym, ap, List, [], ◌∷◌, ◌++◌, false, Option, none, some, arith,
  ◌==◌, length, get_elem?, Option-cases, Bool-cases, inl, inr, ==_iff,
}
use lrust.Response.{
  Key, Slot, Registry, Lease, register, find, store, take_value, drop_lease, update, own, disown,
  empty_out, is_open, is_at, weak_at, upgrade, set_shard,
}

-- What a slot becomes that nobody may fill any more.
abbrev pub IsAbandoned : {T : Type 0} → Option (Slot T) → Type 0
IsAbandoned none = ⊥
IsAbandoned (some s) = (s.active ≡ false) × (s.value ≡ none)

-- A call that has found its slot and has not yet used it.
pub data Work (T : Type 0) : Type 0 where
  storing : ℕ → T → Work T
  taking : ℕ → Work T

pub record System (T : Type 0) : Type 0 where
  pub registry : Registry T
  pub leases : List Lease
  pub pending : List (Work T)

module _ {T : Type 0} where
  -- A call that finds no slot, or that registers a key in use, changes nothing and is no step.
  pub data Step (s t : System T) : Type 0 where
    registers :
        (k : Key) (l : Lease)
        → (register s.registry k).1 ≡ some l
        → t ≡ record s { registry = (register s.registry k).0; leases = l ∷ s.leases }
        → Step s t
    finds_to_store :
        (k : Key) (a : ℕ) (v : T)
        → (find s.registry k).1 ≡ some a
        → t ≡ record s { registry = (find s.registry k).0; pending = storing a v ∷ s.pending }
        → Step s t
    finds_to_take :
        (k : Key) (a : ℕ)
        → (find s.registry k).1 ≡ some a
        → t ≡ record s { registry = (find s.registry k).0; pending = taking a ∷ s.pending }
        → Step s t
    stores :
        (a : ℕ) (v : T) (before after : List (Work T))
        → s.pending ≡ before ++ storing a v ∷ after
        → t ≡ record s { registry = (store s.registry a v).0; pending = before ++ after }
        → Step s t
    takes :
        (a : ℕ) (before after : List (Work T))
        → s.pending ≡ before ++ taking a ∷ after
        → t ≡ record s { registry = (take_value s.registry a).0; pending = before ++ after }
        → Step s t
    drops :
        (l : Lease) (before after : List Lease)
        → s.leases ≡ before ++ l ∷ after
        → t ≡ record s { registry = drop_lease s.registry l; leases = before ++ after }
        → Step s t

  pub data Reach (s : System T) : System T → Type 0 where
    here : Reach s s
    next : {t u : System T} → Reach s t → Step t u → Reach s u

  abbrev pub slot : System T → ℕ → Option (Slot T)
  slot s a = get_elem? s.registry.slots a

  -- A change that keeps abandoned slots abandoned.
  abbrev Keeps : (Slot T → Slot T) → Type 0
  Keeps f = (c : Slot T) → c.active ≡ false → c.value ≡ none → IsAbandoned (some (f c))

  update-IsAbandoned :
      (f : Slot T → Slot T) (a b : ℕ) (ss : List (Slot T))
      → Keeps f
      → IsAbandoned (get_elem? ss a)
      → IsAbandoned (get_elem? (update f b ss) a)
  update-IsAbandoned f a b [] k h = h
  update-IsAbandoned f zero zero (c ∷ ss) k h = k c h.0 h.1
  update-IsAbandoned f zero (suc b) (c ∷ ss) k h = h
  update-IsAbandoned f (suc a) zero (c ∷ ss) k h = h
  update-IsAbandoned f (suc a) (suc b) (c ∷ ss) k h = update-IsAbandoned f a b ss k h

  append-IsAbandoned :
      (a : ℕ) (ss ts : List (Slot T))
      → IsAbandoned (get_elem? ss a)
      → IsAbandoned (get_elem? (ss ++ ts) a)
  append-IsAbandoned a [] ts h = absurd h
  append-IsAbandoned zero (c ∷ ss) ts h = h
  append-IsAbandoned (suc a) (c ∷ ss) ts h = append-IsAbandoned a ss ts h

  pub empty_out-IsAbandoned :
      (a : ℕ) (ss : List (Slot T))
      → a < length ss
      → IsAbandoned (get_elem? (update (λ c. disown (empty_out c)) a ss) a)
  empty_out-IsAbandoned a [] h = elim h [ ]
  empty_out-IsAbandoned zero (c ∷ ss) h = (refl, refl)
  empty_out-IsAbandoned (suc a) (c ∷ ss) h = empty_out-IsAbandoned a ss (omega arith)

  pub length-update :
      (f : Slot T → Slot T) (a : ℕ) (ss : List (Slot T)) → length (update f a ss) ≡ length ss
  length-update f a [] = refl
  length-update f zero (c ∷ ss) = refl
  length-update f (suc a) (c ∷ ss) = ap suc (length-update f a ss)

  get_elem?-update_ne :
      (f : Slot T → Slot T) (a b : ℕ) (ss : List (Slot T))
      → (b == a) ≡ false
      → get_elem? (update f b ss) a ≡ get_elem? ss a
  get_elem?-update_ne f a b [] h = refl
  get_elem?-update_ne f zero zero (c ∷ ss) h = cc
  get_elem?-update_ne f zero (suc b) (c ∷ ss) h = refl
  get_elem?-update_ne f (suc a) zero (c ∷ ss) h = refl
  get_elem?-update_ne f (suc a) (suc b) (c ∷ ss) h = get_elem?-update_ne f a b ss (ground arith)

  -- The slots after each call, in terms of those before it.
  module _ (r : Registry T) (a : ℕ) (h : IsAbandoned (get_elem? r.slots a)) where
    register-IsAbandoned : (k : Key) → IsAbandoned (get_elem? (register r k).0.slots a)
    register-IsAbandoned k = elim (Option-cases (upgrade r (weak_at r k))) [
      | inl e ↦ unfold register set_shard in rw (e, register) (append-IsAbandoned a r.slots _ h)
      | inr (b, e) ↦ unfold register in rw (e, register) h
    ]

    find-IsAbandoned : (k : Key) → IsAbandoned (get_elem? (find r k).0.slots a)
    find-IsAbandoned k = elim (Option-cases (upgrade r (weak_at r k))) [
      | inl e ↦ unfold find in rw (e, find) h
      | inr (b, e) ↦
          unfold find in rw (e, find) (update-IsAbandoned own a b r.slots (λ c x y. (x, y)) h)
    ]

    pub is_open-abandoned : is_open (get_elem? r.slots a) ≡ false
    is_open-abandoned = elim (Option-cases (get_elem? r.slots a)) [
      | inl e ↦ absurd (rw e at h)
      | inr (c, e) ↦ rw e (let (x, y) = rw e at h in rw y x)
    ]

    store-IsAbandoned : (b : ℕ) (v : T) → IsAbandoned (get_elem? (store r b v).0.slots a)
    unfolding store
    store-IsAbandoned b v = elim (Bool-cases (is_open (get_elem? r.slots b))) [
      | inr shut ↦ rw shut (update-IsAbandoned disown a b r.slots (λ c x y. (x, y)) h)
      | inl can ↦ elim (Bool-cases (b == a)) [
        | inr other ↦ rw can (subst IsAbandoned (sym (get_elem?-update_ne _ a b r.slots other)) h)
        | inl same ↦ absurd (cc (can, is_open-abandoned, (==_iff b a).0 same))
      ]
    ]

    take_value-IsAbandoned : (b : ℕ) → IsAbandoned (get_elem? (take_value r b).0.slots a)
    unfolding take_value
    take_value-IsAbandoned b =
        update-IsAbandoned (λ c. disown (empty_out c)) a b r.slots (λ c x y. (refl, refl)) h

    drop_lease-IsAbandoned : (l : Lease) → IsAbandoned (get_elem? (drop_lease r l).slots a)
    drop_lease-IsAbandoned l = elim (Bool-cases (is_at l.slot (weak_at r l.key))) [
      | inl e ↦
          unfold drop_lease set_shard in
          rw e (
            update-IsAbandoned (λ c. disown (empty_out c)) a l.slot r.slots (λ c x y. (refl, refl))
              h)
      | inr e ↦
          unfold drop_lease set_shard in
          rw e (
            update-IsAbandoned (λ c. disown (empty_out c)) a l.slot r.slots (λ c x y. (refl, refl))
              h)
    ]

  -- No step of any caller fills an abandoned slot or makes it active again.
  Step-IsAbandoned :
      {s t : System T} → (a : ℕ) → Step s t → IsAbandoned (slot s a) → IsAbandoned (slot t a)
  Step-IsAbandoned {s = s} a (registers k l _ e) h = rw e (register-IsAbandoned s.registry a h k)
  Step-IsAbandoned {s = s} a (finds_to_store k b v _ e) h = rw e (find-IsAbandoned s.registry a h k)
  Step-IsAbandoned {s = s} a (finds_to_take k b _ e) h = rw e (find-IsAbandoned s.registry a h k)
  Step-IsAbandoned {s = s} a (stores b v _ _ _ e) h = rw e (store-IsAbandoned s.registry a h b v)
  Step-IsAbandoned {s = s} a (takes b _ _ _ e) h = rw e (take_value-IsAbandoned s.registry a h b)
  Step-IsAbandoned {s = s} a (drops l _ _ _ e) h = rw e (drop_lease-IsAbandoned s.registry a h l)

  pub Reach-IsAbandoned :
      {s t : System T} → (a : ℕ) → Reach s t → IsAbandoned (slot s a) → IsAbandoned (slot t a)
  Reach-IsAbandoned a here h = h
  Reach-IsAbandoned a (next r st) h = Step-IsAbandoned a st (Reach-IsAbandoned a r h)

-- ===== src/Response/Holds.antt =====
-- What the calls of crates/libs/lib-lualib/src/sqlx_response.rs do at a key whose slot is registered and owned.
use lrust.Base.{
  ℕ, zero, suc, ◌<◌, ◌≡◌, refl, ◌∙◌, ap, List, [], ◌∷◌, ◌++◌, Bool, true, false, Option, none, some,
  arith, length, get_elem?, lt→ltb,
}
use lrust.Response.{
  Key, Slot, Registry, register, find, store, take_value, publish, take, update, change, own,
  disown, empty_out, is_open, value_of, weak_at, upgrade, shard,
}

module _ {ℓ} {T : Type ℓ} where
  -- The slot `a` is registered at `k`, is owned, and has this activity and value.
  pub record Holds (r : Registry T) (k : Key) (a : ℕ) (active : Bool) (value : Option T)
      : Type ℓ where
    pub listed : weak_at r k ≡ some a
    pub cell : Slot T
    pub there : get_elem? r.slots a ≡ some cell
    pub owned : 0 < cell.strong
    pub active_is : cell.active ≡ active
    pub value_is : cell.value ≡ value

  get_elem?-update_self :
      (f : Slot T → Slot T) (a : ℕ) (ss : List (Slot T)) {c : Slot T}
      → get_elem? ss a ≡ some c
      → get_elem? (update f a ss) a ≡ some (f c)
  get_elem?-update_self f a [] e = cc
  get_elem?-update_self f zero (s ∷ ss) e = ap (λ o. elim o [ none ↦ none | some d ↦ some (f d) ]) e
  get_elem?-update_self f (suc a) (s ∷ ss) e = get_elem?-update_self f a ss e

  pub get_elem?-append_length :
      (ss : List (Slot T)) (c : Slot T) → get_elem? (ss ++ c ∷ []) (length ss) ≡ some c
  get_elem?-append_length [] c = refl
  get_elem?-append_length (s ∷ ss) c = get_elem?-append_length ss c

  module _ {r : Registry T} {k : Key} {a : ℕ} {active : Bool} {value : Option T}
      (h : Holds r k a active value) where
    upgrade-Holds : upgrade r (weak_at r k) ≡ some a
    upgrade-Holds = unfold upgrade in rw (h.listed, upgrade, h.there, lt→ltb 0 _ h.owned)

    find-Holds : find r k ≡ (change own a r, some a)
    find-Holds = unfold find in rw (upgrade-Holds, find)

    -- A key in use is refused.
    pub register-Holds : register r k ≡ (r, none)
    register-Holds = unfold register in rw (upgrade-Holds, register)

    found : get_elem? (update own a r.slots) a ≡ some (own h.cell)
    found = get_elem?-update_self own a r.slots h.there

    take-eq : take r k ≡ take_value (change own a r) a
    take-eq =
        unfold take in
        ap
          (λ (p : Registry T × Option ℕ). elim p.1 [
            | none ↦ (p.0, none)
            | some b ↦ take_value p.0 b
          ])
          find-Holds

    publish-eq : (v : T) → publish r k v ≡ store (change own a r) a v
    publish-eq v =
        unfold publish in
        ap
          (λ (p : Registry T × Option ℕ). elim p.1 [ none ↦ (p.0, false) | some b ↦ store p.0 b v ])
          find-Holds

    -- `take` gives what is there, and leaves nothing and nobody waiting.
    pub take-Holds : ((take r k).1 ≡ value) × Holds (take r k).0 k a false none
    take-Holds =
        unfold take_value weak_at shard in
        rw take-eq (
          ap value_of found ∙ h.value_is,
          record {
            listed = h.listed;
            cell = disown (empty_out (own h.cell));
            there = get_elem?-update_self _ a _ found;
            owned = omega (arith, h.owned);
            active_is = refl;
            value_is = refl;
          },
        )

    unchanged : Holds (change disown a (change own a r)) k a active value
    unfolding weak_at shard
    unchanged = record {
      listed = h.listed;
      cell = disown (own h.cell);
      there = get_elem?-update_self _ a _ found;
      owned = omega (arith, h.owned);
      active_is = h.active_is;
      value_is = h.value_is;
    }

    -- `publish` is refused where a reply is ready, or nobody waits.
    pub publish-Holds_closed :
        (v : T)
        → is_open (some h.cell) ≡ false
        → ((publish r k v).1 ≡ false) × Holds (publish r k v).0 k a active value
    publish-Holds_closed v shut = unfold store in rw (publish-eq v, found, shut) (refl, unchanged)

  pub publish-Holds_open :
      (r : Registry T) (k : Key) (a : ℕ) (v : T)
      → Holds r k a true none
      → ((publish r k v).1 ≡ true) × Holds (publish r k v).0 k a true (some v)
  publish-Holds_open r k a v h =
      unfold store weak_at shard in
      rw (publish-eq h v, found h, can)
        (
          refl,
          record {
            listed = h.listed;
            cell = disown (record (own h.cell) { value = some v });
            there = get_elem?-update_self _ a _ (found h);
            owned = omega (arith, h.owned);
            active_is = h.active_is;
            value_is = refl;
          },
        )
    where
      can : is_open (some h.cell) ≡ true
      can = rw h.value_is h.active_is

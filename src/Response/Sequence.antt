-- ===== src/Response/Sequence.antt =====
-- One reply from registration to delivery, through the calls of
-- crates/libs/lib-lualib/src/sqlx_response.rs in turn.
use mathlib.Core.Path.{subst}
use lrust.Base.{
  ℕ, ◌≡◌, refl, ◌∙◌, ap, [], ◌∷◌, ◌++◌, Bool, true, false, Option, none, some, arith, length,
  Option-cases, inl, inr, ==_refl,
}
use lrust.Response.{
  Key, Registry, Lease, register, find, store, take_value, drop_lease, publish, take, is_open,
  is_at, weak_at, upgrade, set_shard, shard, insert, fresh,
}
use lrust.Response.Keys.{
  HasShards, set_shard-HasShards, same_key_refl, weak_at-insert, weak_at-remove,
}
use lrust.Response.Holds.{
  Holds, get_elem?-append_length, register-Holds, take-Holds, publish-Holds_closed,
  publish-Holds_open,
}

module _ {ℓ} {T : Type ℓ} where
  -- The registry after an accepted registration.
  abbrev registered : Registry T → Key → Registry T
  registered r k =
      set_shard (record r { slots = r.slots ++ fresh ∷ [] }) k
        (insert k (length r.slots) (shard r k))

  register-free :
      (r : Registry T) (k : Key)
      → upgrade r (weak_at r k) ≡ none
      → register r k ≡ (registered r k, some (record { key = k; slot = length r.slots }))
  register-free r k free = unfold register in rw (free, register)

  registered-Holds :
      (r : Registry T) (k : Key) → HasShards r → Holds (registered r k) k (length r.slots) true none
  unfolding set_shard weak_at shard
  registered-Holds r k h = record {
    listed =
        weak_at-insert (record r { slots = r.slots ++ fresh ∷ [] }) k k (length r.slots) h
        ∙ rw (same_key_refl k);
    cell = fresh;
    there = get_elem?-append_length r.slots fresh;
    owned = unfold fresh in omega arith;
    active_is = unfold fresh in refl;
    value_is = unfold fresh in refl;
  }

  abbrev lease_of : Registry T × Option Lease → Option Lease
  lease_of p = p.1

  register-eq-some :
      (r : Registry T) (k : Key) (l : Lease)
      → HasShards r
      → (register r k).1 ≡ some l
      → Holds (register r k).0 k l.slot true none
  register-eq-some r k l hs e = elim (Option-cases (upgrade r (weak_at r k))) [
    | inl free ↦
        let new_lease : lease_of (register r k) ≡ some (record { key = k; slot = length r.slots }) =
          ap lease_of (register-free r k free) in
        let same : length r.slots ≡ l.slot = cc (new_lease, e) in
        rw (register-free r k free, ← same) (registered-Holds r k hs)
    | inr (b, used) ↦
        let refused : lease_of (register r k) ≡ none = unfold register in rw (used, register) in
        absurd (cc (refused, e))
  ]

  -- From a registration to its end: when `register` gives a lease for `k`, one `publish` at `k` is
  -- accepted and a second refused, `take` gives exactly the published reply, a further `take` gives
  -- none and a further `publish` is refused, and all along `k` cannot be registered again.
  pub register-publish-take :
      (r : Registry T) (k : Key) (l : Lease) (v w : T)
      → HasShards r
      → (register r k).1 ≡ some l
      → let r1 = (register r k).0 in
        let r2 = (publish r1 k v).0 in
        let r3 = (take r2 k).0 in
        ((publish r1 k v).1 ≡ true)
        × ((publish r2 k w).1 ≡ false)
        × ((take r2 k).1 ≡ some v)
        × ((take r3 k).1 ≡ none)
        × ((publish r3 k w).1 ≡ false)
        × ((register r1 k).1 ≡ none)
        × ((register r2 k).1 ≡ none)
        × ((register r3 k).1 ≡ none)
  register-publish-take r k l v w hs e =
      let h1 = register-eq-some r k l hs e in
      let (p2, h2) = publish-Holds_open (register r k).0 k l.slot v h1 in
      let (p2', _) = publish-Holds_closed h2 w (rw (h2.value_is, is_open)) in
      let (t3, h3) = take-Holds h2 in
      let (t4, _) = take-Holds h3 in
      let (p3', _) = publish-Holds_closed h3 w (rw (h3.value_is, is_open) h3.active_is) in
      (
        p2,
        p2',
        t3,
        t4,
        p3',
        ap lease_of (register-Holds h1),
        ap lease_of (register-Holds h2),
        ap lease_of (register-Holds h3),
      )

  lease_key : (r : Registry T) (k : Key) (l : Lease) → (register r k).1 ≡ some l → l.key ≡ k
  lease_key r k l e = elim (Option-cases (upgrade r (weak_at r k))) [
    | inl free ↦
        let new_lease : lease_of (register r k) ≡ some (record { key = k; slot = length r.slots }) =
          ap lease_of (register-free r k free) in
        cc (new_lease, e)
    | inr (b, used) ↦
        let refused : lease_of (register r k) ≡ none = unfold register in rw (used, register) in
        absurd (cc (refused, e))
  ]

  register-HasShards : (r : Registry T) (k : Key) → HasShards r → HasShards (register r k).0
  register-HasShards r k hs = elim (Option-cases (upgrade r (weak_at r k))) [
    | inl free ↦
        rw (register-free r k free)
          (set_shard-HasShards (record r { slots = r.slots ++ fresh ∷ [] }) k _ hs)
    | inr (b, used) ↦ unfold register in rw (used, register) hs
  ]

  weak_at-drop_lease :
      (q : Registry T) (l : Lease)
      → HasShards q
      → weak_at q l.key ≡ some l.slot
      → weak_at (drop_lease q l) l.key ≡ none
  weak_at-drop_lease q l hs e =
      let here : is_at l.slot (weak_at q l.key) ≡ true = rw (e, is_at) (==_refl l.slot) in
      unfold drop_lease weak_at shard in
      rw here (unfold weak_at shard in weak_at-remove q l.key l.key hs ∙ rw (same_key_refl l.key))

  module _ (q : Registry T) (k : Key) (gone : weak_at q k ≡ none) where
    upgrade-gone : upgrade q (weak_at q k) ≡ none
    upgrade-gone = unfold upgrade in rw (gone, upgrade)

    find-gone : find q k ≡ (q, none)
    find-gone = unfold find in rw (upgrade-gone, find)

    publish-gone : (v : T) → (publish q k v).1 ≡ false
    publish-gone v =
        unfold publish in
        ap
          (λ (p : Registry T × Option ℕ).
            (elim p.1 as (λ _. Registry T × Bool) [
              | none ↦ (p.0, false)
              | some b ↦ store p.0 b v
            ]).1)
          find-gone

    take-gone : (take q k).1 ≡ none
    take-gone =
        unfold take in
        ap
          (λ (p : Registry T × Option ℕ).
            (elim p.1 as (λ _. Registry T × Option T) [
              | none ↦ (p.0, none)
              | some b ↦ take_value p.0 b
            ]).1)
          find-gone

  -- Dropping the lease ends the key at once: when `register` has given the lease `l` for `k` and `l`
  -- is dropped, nothing is found at `k`, so a late `publish` is refused and a `take` gives none, until
  -- `k` is registered anew, which is accepted.
  pub drop_lease-frees :
      (r : Registry T) (k : Key) (l : Lease) (v : T)
      → HasShards r
      → (register r k).1 ≡ some l
      → let r1 = drop_lease (register r k).0 l in
        ((publish r1 k v).1 ≡ false)
        × ((take r1 k).1 ≡ none)
        × ((register r1 k).1 ≡ some (record { key = k; slot = length r1.slots }))
  drop_lease-frees r k l v hs e = (
    publish-gone dropped k gone v,
    take-gone dropped k gone,
    ap lease_of (register-free dropped k (upgrade-gone dropped k gone)),
  )
    where
      dropped : Registry T
      dropped = drop_lease (register r k).0 l

      kept : HasShards (register r k).0
      kept = register-HasShards r k hs

      gone : weak_at dropped k ≡ none
      gone =
          subst (λ j. weak_at dropped j ≡ none) (lease_key r k l e)
            (weak_at-drop_lease (register r k).0 l kept (
              ap (weak_at (register r k).0) (lease_key r k l e)
              ∙ (register-eq-some r k l hs e).listed))

-- ===== src/Response/Abandon.antt =====
-- Abandoned replies of crates/libs/lib-lualib/src/sqlx_response.rs under every interleaving.
use lrust.Base.{
  ℕ, ◌<◌, ◌≡◌, List, ◌∷◌, ◌++◌, false, none, length, get_elem?, Option-cases, Bool-cases, inl, inr,
}
use lrust.Response.{
  Registry, Lease, store, take_value, drop_lease, is_at, value_of, weak_at, set_shard,
}
use lrust.Response.Race.{
  IsAbandoned, Work, taking, System, Reach, slot, empty_out-IsAbandoned, is_open-abandoned,
  Reach-IsAbandoned,
}
use lrust.Response.Allocated.{address, Below-middle, Reach-Allocated, start, start-Allocated}

module _ {T : Type 0} where
  dropped-IsAbandoned :
      (r : Registry T) (l : Lease)
      → l.slot < length r.slots
      → IsAbandoned (get_elem? (drop_lease r l).slots l.slot)
  dropped-IsAbandoned r l h = elim (Bool-cases (is_at l.slot (weak_at r l.key))) [
    | inl e ↦ unfold drop_lease set_shard in rw e (empty_out-IsAbandoned l.slot r.slots h)
    | inr e ↦ unfold drop_lease set_shard in rw e (empty_out-IsAbandoned l.slot r.slots h)
  ]

  -- Nothing can be had from a slot, or put into it, any more.
  pub record IsClosed (s : System T) (a : ℕ) : Type 0 where
    pub empty : value_of (slot s a) ≡ none
    pub refuses : (v : T) → (store s.registry a v).1 ≡ false
    pub gives_none : (take_value s.registry a).1 ≡ none

  abandoned-IsClosed : (s : System T) (a : ℕ) → IsAbandoned (slot s a) → IsClosed s a
  abandoned-IsClosed s a h = record {
    empty = no_value;
    refuses = λ v. unfold store in rw (is_open-abandoned s.registry a h);
    gives_none = unfold take_value in no_value;
  }
    where
      no_value : value_of (slot s a) ≡ none
      no_value = elim (Option-cases (slot s a)) [
        | inl e ↦ absurd (rw e at h)
        | inr (c, e) ↦ rw e (rw e at h).1
      ]

  -- In any interleaving of callers and workers from an empty registry: once a lease is dropped, its
  -- slot holds no reply ever after. A worker that had found the slot before the drop is refused when
  -- it stores its reply after it, and a caller that takes from it gets nothing.
  pub dropped-IsClosed :
      {s t u : System T} (l : Lease) (before after : List Lease)
      → Reach start s
      → s.leases ≡ before ++ l ∷ after
      → t ≡ record s { registry = drop_lease s.registry l; leases = before ++ after }
      → Reach t u
      → IsClosed u l.slot
  dropped-IsClosed {s = s} {t = t} {u = u} l before after r e eq later =
      abandoned-IsClosed u l.slot (Reach-IsAbandoned l.slot later now)
    where
      lt : l.slot < length s.registry.slots
      lt =
          (Below-middle (λ l. l.slot) _ before l after
            (rw e at (Reach-Allocated r start-Allocated).leased)).0

      now : IsAbandoned (slot t l.slot)
      now = rw eq (dropped-IsAbandoned s.registry l lt)

  -- In any interleaving from an empty registry a reply is taken at most once: once a caller has taken
  -- what was in a slot, the slot holds no reply ever after, whatever workers still publish to it.
  pub taken-IsClosed :
      {s t u : System T} (a : ℕ) (before after : List (Work T))
      → Reach start s
      → s.pending ≡ before ++ taking a ∷ after
      → t ≡ record s { registry = (take_value s.registry a).0; pending = before ++ after }
      → Reach t u
      → IsClosed u a
  taken-IsClosed {s = s} {t = t} {u = u} a before after r e eq later =
      abandoned-IsClosed u a (Reach-IsAbandoned a later now)
    where
      lt : a < length s.registry.slots
      lt =
          (Below-middle address _ before (taking a) after
            (rw e at (Reach-Allocated r start-Allocated).found)).0

      now : IsAbandoned (slot t a)
      now = rw eq (unfold take_value in empty_out-IsAbandoned a s.registry.slots lt)

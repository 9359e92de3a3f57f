-- ===== src/Sqlx/Queue.antt =====
-- The queue and the counter of a connection of crates/libs/lib-lualib/src/lua_sqlx.rs against its
-- accepted requests.
use lrust.Base.{
  ◌^◌, ap, ℕ, ◌<◌, ◌≡◌, refl, ◌∙◌, List, [], ◌∷◌, ◌++◌, Bool, true, false, Option, none, some,
  Bool-cases, arith, inl, inr, leb, ◌==◌, if◌then◌else◌,
}
use lrust.Base.Time.{u64_mod}
use lrust.Response.{Registry, Lease}
use lrust.Sqlx.Types.{DatabaseRequest, DatabaseResponse}
use lrust.Sqlx.Actor.{decremented}
use lrust.Sqlx.Client.{
  Checked, good, bad, Reply, accepted, refused, failed, DatabaseConnection, incremented, send_error,
  response_guard, abandon_guard, try_send, guarded, enqueue, SendError, after_send, with_counter,
  registered,
}

abbrev pub is_accepted : Reply → Bool
is_accepted (accepted _ _) = true
is_accepted (refused _ _) = false
is_accepted (failed _) = false

decremented-incremented : (n : ℕ) → n < u64_mod → decremented (incremented n) ≡ n
decremented-incremented n h = omega (arith, h)

module _ {Row : Type 0} where
  -- The queue and the counter are those of `c`, or those of `c` with one more request.
  pub record Accounts (c : DatabaseConnection Row) (request : DatabaseRequest)
      (p : DatabaseConnection Row × Reply) : Type 0 where
    pub queue : p.0.queue ≡ (if is_accepted p.1 then c.queue ++ request ∷ [] else c.queue)
    pub counter :
        p.0.shared.counter
        ≡ (if is_accepted p.1 then incremented c.shared.counter else c.shared.counter)

  abandoned :
      (g : Option Lease) (c : DatabaseConnection Row)
      → ((abandon_guard g c).queue ≡ c.queue)
        × ((abandon_guard g c).shared.counter ≡ c.shared.counter)
  unfolding abandon_guard
  abandoned none c = (refl, refl)
  abandoned (some l) c = (refl, refl)

  after_send-Accounts :
      (session : ℕ) (guard : Option Lease) (request : DatabaseRequest) (c : DatabaseConnection Row)
      (e : Option SendError)
      → c.shared.counter < u64_mod
      → Accounts c request (after_send session guard request (with_counter incremented c) e)
  after_send-Accounts session guard request c none h = record { queue = refl; counter = refl }
  after_send-Accounts session guard request c (some e) h =
      let (q, n) = abandoned guard (with_counter incremented c) in
      record { queue = q; counter = ap decremented n ∙ decremented-incremented c.shared.counter h }

  -- Reserving the reply changes neither the queue nor the counter.
  Reserves : DatabaseConnection Row → DatabaseConnection Row × Checked (Option Lease) → Type 0
  Reserves c p = (p.0.queue ≡ c.queue) × (p.0.shared.counter ≡ c.shared.counter)

  registered-Reserves :
      (c : DatabaseConnection Row) (p : Registry (DatabaseResponse Row) × Option Lease)
      → Reserves c (registered c p)
  unfolding Reserves
  registered-Reserves c (r, none) = (refl, refl)
  registered-Reserves c (r, some l) = (refl, refl)

  response_guard-Reserves :
      (owner session : ℕ) (c : DatabaseConnection Row) → Reserves c (response_guard owner session c)
  response_guard-Reserves owner session c = elim (Bool-cases (session == 0)) [
    | inl z ↦ unfold response_guard Reserves in rw z (refl, refl)
    | inr z ↦ elim (Bool-cases (leb (2 ^ 63) session)) [
      | inl y ↦ unfold response_guard Reserves in rw (z, y) (refl, refl)
      | inr y ↦ unfold response_guard in rw (z, y) (registered-Reserves c _)
    ]
  ]

  guarded-Accounts :
      (session : ℕ) (request : DatabaseRequest) (c : DatabaseConnection Row)
      (p : DatabaseConnection Row × Checked (Option Lease))
      → c.shared.counter < u64_mod
      → Reserves c p
      → Accounts c request (guarded session request p)
  unfolding guarded try_send Reserves
  guarded-Accounts session request c (d, bad e) h (q, n) = record { queue = q; counter = n }
  guarded-Accounts session request c (d, good guard) h (q, n) =
      let a =
        after_send-Accounts session guard request d (send_error (with_counter incremented d))
          (omega (arith, h, n)) in
      let was_accepted =
        is_accepted
          (after_send session guard request (with_counter incremented d)
            (send_error (with_counter incremented d))).1 in
      record {
        queue =
            a.queue
            ∙ ap (λ (l : List DatabaseRequest). if was_accepted then l ++ request ∷ [] else l) q;
        counter = a.counter ∙ ap (λ (k : ℕ). if was_accepted then incremented k else k) n;
      }

  -- A request is in the queue, and counted, exactly when the call reports that it was accepted: a
  -- refused one leaves the queue and the counter as they were.
  pub enqueue-Accounts :
      (owner session : ℕ) (request : DatabaseRequest) (c : DatabaseConnection Row)
      → c.shared.counter < u64_mod
      → Accounts c request (enqueue owner session request c)
  enqueue-Accounts owner session request c h =
      unfold enqueue in
      guarded-Accounts session request c _ h (response_guard-Reserves owner session c)

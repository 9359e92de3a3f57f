-- ===== src/Response/Tests.antt =====
-- The runs of the tests in crates/libs/lib-lualib/src/sqlx_response.rs, and the theorems at concrete
-- registries.
use lrust.Base.{ℕ, ◌≡◌, refl, [], ◌∷◌, true, false, none, some, length}
use lrust.Response.{
  Key, Registry, Lease, register, find, store, take_value, drop_lease, publish, take, counts,
  weak_at, upgrade, set_shard, shard, shard_of, lookup, insert, remove, new, fresh,
}
use lrust.Response.Keys.{new-HasShards}
use lrust.Response.Sequence.{register-publish-take, drop_lease-frees}
use lrust.Response.Race.{
  System, storing, taking, registers, finds_to_store, finds_to_take, stores, Reach, here, next,
}
use lrust.Response.Allocated.{start}
use lrust.Response.Abandon.{IsClosed, dropped-IsClosed, taken-IsClosed}

abbrev key : Key
key = record { owner = 1; session = 8 }

abbrev lease : Lease
lease = record { key = key; slot = 0 }

-- All the calls, for tests by evaluation.
calls : Unit {0}
unfolding register find store take_value drop_lease publish take counts weak_at upgrade set_shard
    shard shard_of lookup insert remove new fresh
calls = tt

abbrev empty : Registry ℕ
empty = new

abbrev one : Registry ℕ
one = (register empty key).0

abbrev answered : Registry ℕ
answered = (publish one key 1024).0

waits_and_readies :
    ◌≡◌ {A = (ℕ × ℕ) × (ℕ × ℕ) × (ℕ × ℕ)}
      (counts one, counts answered, counts (drop_lease answered lease))
      ((1, 0), (0, 1), (0, 0))
unfolding calls
waits_and_readies = refl

register-publish-take_example :
    let r2 = (publish one key 7).0 in
    let r3 = (take r2 key).0 in
    ((publish one key 7).1 ≡ true)
    × ((publish r2 key 9).1 ≡ false)
    × ((take r2 key).1 ≡ some 7)
    × ((take r3 key).1 ≡ none)
    × ((publish r3 key 9).1 ≡ false)
    × ((register one key).1 ≡ none)
    × ((register r2 key).1 ≡ none)
    × ((register r3 key).1 ≡ none)
unfolding calls
register-publish-take_example = register-publish-take empty key lease 7 9 (new-HasShards ℕ) refl

drop_lease-frees_example :
    let r1 = drop_lease one lease in
    ((publish r1 key 7).1 ≡ false)
    × ((take r1 key).1 ≡ none)
    × ((register r1 key).1 ≡ some (record { key = key; slot = length r1.slots }))
unfolding calls
drop_lease-frees_example = drop_lease-frees empty key lease 7 (new-HasShards ℕ) refl

-- A worker finds the slot, and the caller gives up before the worker stores its reply.
abbrev waiting : System ℕ
waiting = record { registry = one; leases = lease ∷ []; pending = [] }

abbrev found : System ℕ
found = record { registry = (find one key).0; leases = lease ∷ []; pending = storing 0 7 ∷ [] }

abbrev given_up : System ℕ
given_up = record {
  registry = drop_lease (find one key).0 lease;
  leases = [];
  pending = storing 0 7 ∷ [];
}

abbrev late : System ℕ
late = record { registry = (store given_up.registry 0 7).0; leases = []; pending = [] }

waiting-Reach : Reach start waiting
unfolding calls
waiting-Reach = next here (registers key lease refl refl)

dropped-IsClosed_example : IsClosed late 0
unfolding calls
dropped-IsClosed_example =
    dropped-IsClosed {s = found} {t = given_up} {u = late} lease [] []
      (next waiting-Reach (finds_to_store key 0 7 refl refl)) refl refl
      (next here (stores 0 7 [] [] refl refl))

-- The caller takes before the worker's reply is there.
abbrev both : System ℕ
both = record {
  registry = (find found.registry key).0;
  leases = lease ∷ [];
  pending = taking 0 ∷ storing 0 7 ∷ [];
}

abbrev taken : System ℕ
taken = record {
  registry = (take_value both.registry 0).0;
  leases = lease ∷ [];
  pending = storing 0 7 ∷ [];
}

taken-IsClosed_example : IsClosed taken 0
unfolding calls
taken-IsClosed_example =
    taken-IsClosed {s = both} {t = taken} {u = taken} 0 [] (storing 0 7 ∷ [])
      (next (next waiting-Reach (finds_to_store key 0 7 refl refl)) (finds_to_take key 0 refl refl))
      refl refl here

-- ===== src/Buffer/Wrap.antt =====
-- Counts close to usize::MAX in crates/libs/lib-core/src/buffer.rs, where the guards' sums wrap.
use lrust.Base.{ℕ, ◌-◌, ◌≤◌, ◌<◌, ◌≡◌, true, arith, take, drop, le→ltb, le→leb}
use lrust.Base.Outcome.{done}
use lrust.Buffer.{Buffer, len, capacity, allocation, usize_mod, add_usize, set_len, consume, commit}
use lrust.Buffer.Access.{IsValid}

-- In a build without overflow checks, a count within the read position (for `consume`) or the length
-- (for `commit`) of 2 ^ 64 passes the guard: `consume` then moves the read position back over bytes
-- that were read, and `commit` drops bytes off the end of the data and reports success.
pub wrapped_counts :
    (j k : ℕ) (b : Buffer)
    → IsValid b
    → 0 < j
    → j ≤ b.rpos
    → 0 < k
    → k ≤ len b.vec
    → (consume (usize_mod - j) b ≡ record b { rpos = b.rpos - j })
      × (commit (usize_mod - k) b
          ≡ done (
            record b {
              vec = record {
                bytes = take (len b.vec - k) (allocation b.vec);
                spare = drop (len b.vec - k) (allocation b.vec);
              };
            },
            true,
          ))
unfolding consume commit set_len
wrapped_counts j k b v hj hj' hk hk' = (
  rw (back, le→ltb (len b.vec) (b.rpos - j) (omega (arith, v.within))),
  rw (
    off,
    le→ltb (capacity b.vec) (len b.vec - k) (omega arith),
    le→leb (len b.vec - k) (capacity b.vec) (omega arith),
  ),
)
  where
    back : add_usize b.rpos (usize_mod - j) ≡ b.rpos - j
    back = omega (arith, v.within, v.small)

    off : add_usize (len b.vec) (usize_mod - k) ≡ len b.vec - k
    off = omega (arith, v.within, v.small)

-- ===== src/Buffer/Tests.antt =====
-- Runs of the buffer on inputs like those of the tests in crates/libs/lib-core/src/buffer.rs, and the
-- theorems at such inputs, with an allocator that gives exactly the memory that is asked for.
use lrust.Base.{
  ℕ, ◌+◌, ◌-◌, ◌≤◌, ◌<◌, ◌≡◌, refl, ◌∷◌, [], true, false, some, none, Option, arith, length,
  replicate, length-replicate, List,
}
use lrust.Base.Int.{pos}
use lrust.Base.Text.{Bytes, codes}
use lrust.Base.Outcome.{Outcome, done, ◌>>=◌, Returns}
use lrust.Buffer.Access.{IsValid}
use lrust.Buffer.Prepare.{HasRoom, Appended, prepare-HasRoom, readable-write_slice}
use lrust.Buffer.Queue.{readable-write_front, read_lem}
use lrust.Buffer.Refine.{
  Op, writes, puts, reads, consumes, measures, nothing, taken, size, buffer_run, queue_step,
  queue_run, buffer_run-queue_run,
}
use lrust.Buffer.RoundTrip.{word_bytes, read_u32-write_slice}
use lrust.Buffer.Wrap.{wrapped_counts}
use lrust.Buffer.{
  Allocator, Buffer, readable, size_limit, usize_mod, with_capacity, write_slice, prepare, compact,
  reallocate, extend, commit, seek, read, write_front, consume, read_u32, buffer_len,
}

exact-lt : (n : ℕ) → n < size_limit → length (replicate {A = ℕ} n 0) < size_limit
exact-lt n h = omega (arith, length-replicate {A = ℕ} n 0)

exact-le : (n : ℕ) → n ≤ length (replicate {A = ℕ} n 0)
exact-le n = omega (arith, length-replicate {A = ℕ} n 0)

grown_exact-lt : (l c n : ℕ) → l + n < size_limit → l + length (replicate {A = ℕ} n 0) < size_limit
grown_exact-lt l c n h = omega (arith, length-replicate {A = ℕ} n 0)

abbrev exact : Allocator
exact = record {
  fresh = λ n. replicate n 0;
  fresh-le = exact-le;
  fresh-lt = exact-lt;
  grown = λ l c n. replicate n 0;
  grown-le = λ l c n. exact-le n;
  grown-lt = grown_exact-lt;
}

-- `test_buffer_1`: room for 12 bytes, 4 of them committed and passed, and text before and behind.
scenario : Outcome (Option Bytes × Option Bytes × ℕ)
unfolding with_capacity commit write_slice prepare compact reallocate extend seek write_front read
    buffer_len
scenario = do
  b ← with_capacity exact 12
  (b, _) ← commit 4 b
  b ← write_slice exact (codes "1234567") b
  let (b, _) = seek (pos 4) b
  (b, _) ← write_front (codes "bbbb") b
  (b, r) ← read 8 b
  b ← write_slice exact (codes "abcd") b
  (b, s) ← read 4 b
  done (r, s, buffer_len b)

scenario_runs : scenario ≡ done (some (codes "bbbb1234"), some (codes "567a"), 3)
unfolding scenario
scenario_runs = refl

-- Two bytes of headroom, three unread bytes, one spare byte.
abbrev small_buffer : Buffer
small_buffer = record { rpos = 2; vec = record { bytes = 0 ∷ 0 ∷ 1 ∷ 2 ∷ 3 ∷ []; spare = 9 ∷ [] } }

small_buffer-IsValid : IsValid small_buffer
small_buffer-IsValid = record { within = omega arith; small = omega arith }

-- The three ways to make room.
in_place : prepare exact 1 small_buffer ≡ done small_buffer
unfolding prepare
in_place = refl

compacted :
    prepare exact 3 small_buffer
    ≡ done (record { rpos = 0; vec = record { bytes = 1 ∷ 2 ∷ 3 ∷ []; spare = 2 ∷ 3 ∷ 9 ∷ [] } })
unfolding prepare compact
compacted = refl

reallocated :
    prepare exact 4 small_buffer
    ≡ done (record {
      rpos = 2;
      vec = record { bytes = 0 ∷ 0 ∷ 1 ∷ 2 ∷ 3 ∷ []; spare = 0 ∷ 0 ∷ 0 ∷ 0 ∷ [] };
    })
unfolding prepare reallocate
reallocated = refl

prepare-HasRoom_example : Returns (HasRoom 3 small_buffer) (prepare exact 3 small_buffer)
prepare-HasRoom_example = prepare-HasRoom exact 3 small_buffer small_buffer-IsValid (omega arith)

readable-write_slice_example :
    Returns
      (Appended (7 ∷ 8 ∷ 9 ∷ []) small_buffer)
      (write_slice exact (7 ∷ 8 ∷ 9 ∷ []) small_buffer)
readable-write_slice_example =
    readable-write_slice exact (7 ∷ 8 ∷ 9 ∷ []) small_buffer small_buffer-IsValid (omega arith)

read_lem_example : read 2 small_buffer ≡ done (record small_buffer { rpos = 4 }, some (1 ∷ 2 ∷ []))
read_lem_example = read_lem 2 small_buffer small_buffer-IsValid (omega arith)

readable-write_front_example :
    Returns
      (λ r. IsValid r.0 × (r.1 ≡ true) × (readable r.0 ≡ 5 ∷ 6 ∷ 1 ∷ 2 ∷ 3 ∷ []))
      (write_front (5 ∷ 6 ∷ []) small_buffer)
readable-write_front_example = readable-write_front (5 ∷ 6 ∷ []) small_buffer small_buffer-IsValid

abbrev ops : List Op
ops = writes (7 ∷ 8 ∷ []) ∷ reads 4 ∷ puts 6 ∷ measures ∷ reads 3 ∷ consumes 1 ∷ reads 1 ∷ []

ops_run :
    queue_run ops (1 ∷ 2 ∷ 3 ∷ [])
    ≡ nothing
      ∷ taken (some (1 ∷ 2 ∷ 3 ∷ 7 ∷ []))
      ∷ nothing
      ∷ size 2
      ∷ taken none
      ∷ nothing
      ∷ taken (some (6 ∷ []))
      ∷ []
unfolding queue_run queue_step
ops_run = refl

buffer_run-queue_run_example :
    buffer_run exact ops small_buffer ≡ done (queue_run ops (1 ∷ 2 ∷ 3 ∷ []))
buffer_run-queue_run_example =
    buffer_run-queue_run exact ops small_buffer small_buffer-IsValid (omega arith)

read_u32-write_slice_example :
    Returns
      (λ b'. read_u32 3 false b' ≡ done 3000000000)
      (write_slice exact (word_bytes false 3000000000) small_buffer)
read_u32-write_slice_example =
    read_u32-write_slice exact false 3000000000 small_buffer small_buffer-IsValid (omega arith)
      (omega arith)

wrapped_counts_example :
    (consume (usize_mod - 1) small_buffer ≡ record small_buffer { rpos = 1 })
    × (commit (usize_mod - 2) small_buffer
        ≡ done (
          record small_buffer { vec = record { bytes = 0 ∷ 0 ∷ 1 ∷ []; spare = 2 ∷ 3 ∷ 9 ∷ [] } },
          true,
        ))
wrapped_counts_example =
    wrapped_counts 1 2 small_buffer small_buffer-IsValid (omega arith) (omega arith) (omega arith)
      (omega arith)

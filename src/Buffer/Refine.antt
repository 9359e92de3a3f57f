-- ===== src/Buffer/Refine.antt =====
-- Runs of the buffer of crates/libs/lib-core/src/buffer.rs against a plain queue of bytes.
use native.Mathlib.Nat.{le_refl}
use lrust.Base.{
  ℕ, ◌+◌, ◌≤◌, ◌<◌, ◌≡◌, refl, ◌∙◌, sym, ap, List, ◌++◌, ◌∷◌, [], arith, length, drop, take, inl,
  inr, length-append, Bool-cases, leb, if◌then◌else◌, Option, none, some, leb→le,
}
use lrust.Base.Text.{Bytes}
use lrust.Base.Outcome.{Outcome, done, ◌>>=◌, Returns, Returns->>=, Returns-done}
use lrust.Buffer.{
  Allocator, Buffer, len, write_slice, write, readable, size_limit, read, consume, clear,
  buffer_len,
}
use lrust.Buffer.Access.{IsValid, length-readable}
use lrust.Buffer.Prepare.{Appended, readable-write_slice, readable-write}
use lrust.Buffer.Queue.{read_lem, consume_lem, advance_lem}

pub data Op : Type 0 where
  writes : Bytes → Op
  puts reads consumes : ℕ → Op
  clears measures : Op

pub data Reply : Type 0 where
  nothing : Reply
  taken : Option Bytes → Reply
  size : ℕ → Reply

-- The queue that the buffer stands for.
unfoldable pub queue_step : Op → Bytes → Bytes × Reply
queue_step (writes src) q = (q ++ src, nothing)
queue_step (puts c) q = (q ++ c ∷ [], nothing)
queue_step (reads n) q =
    if leb n (length q) then (drop n q, taken (some (take n q))) else (q, taken none)
queue_step (consumes n) q = if leb n (length q) then (drop n q, nothing) else (q, nothing)
queue_step clears q = ([], nothing)
queue_step measures q = (q, size (length q))

unfoldable pub queue_run : List Op → Bytes → List Reply
queue_run [] q = []
queue_run (op ∷ ops) q = (queue_step op q).1 ∷ queue_run ops (queue_step op q).0

module _ (A : Allocator) where
  unfoldable pub buffer_step : Op → Buffer → Outcome (Buffer × Reply)
  buffer_step (writes src) b = write_slice A src b >>= λ b'. done (b', nothing)
  buffer_step (puts c) b = write A c b >>= λ b'. done (b', nothing)
  buffer_step (reads n) b = read n b >>= λ r. done (r.0, taken r.1)
  buffer_step (consumes n) b = done (consume n b, nothing)
  buffer_step clears b = done (clear b, nothing)
  buffer_step measures b = done (b, size (buffer_len b))

  unfoldable pub buffer_run : List Op → Buffer → Outcome (List Reply)
  buffer_run [] b = done []
  buffer_run (op ∷ ops) b =
      let rest = λ (r : Buffer × Reply). buffer_run ops r.0 >>= λ rs. done (r.1 ∷ rs) in
      buffer_step op b >>= rest

-- The bytes that an operation adds at most, and whether its count is one that a caller can mean.
abbrev pub written : Op → ℕ
written (writes src) = length src
written (puts c) = 1
written _ = 0

abbrev pub InRange : Op → Type 0
InRange (reads n) = n < size_limit
InRange (consumes n) = n < size_limit
InRange _ = Unit

-- All counts are below isize::MAX, and all that is written fits behind `n` bytes.
abbrev pub Fits : ℕ → List Op → Type 0
Fits n [] = n < size_limit
Fits n (op ∷ ops) = InRange op × Fits (n + written op) ops

Fits-lt : (n : ℕ) (ops : List Op) → Fits n ops → n < size_limit
Fits-lt n [] h = h
Fits-lt n (op ∷ ops) h = omega (arith, Fits-lt (n + written op) ops h.1)

-- A step that agrees with the queue.
record Follows (op : Op) (b : Buffer) (r : Buffer × Reply) : Type 0 where
  valid : IsValid r.0
  state : readable r.0 ≡ (queue_step op (readable b)).0
  reply : r.1 ≡ (queue_step op (readable b)).1
  grows : len (r.0).vec ≤ len b.vec + written op

module _ (A : Allocator) where
  Appended-Follows :
      (op : Op) (src : Bytes) (b b' : Buffer)
      → written op ≡ length src
      → queue_step op (readable b) ≡ (readable b ++ src, nothing)
      → Appended src b b'
      → Follows op b (b', nothing)
  Appended-Follows op src b b' w e a = record {
    valid = a.valid;
    state = a.contents ∙ ap (λ (r : Bytes × Reply). r.0) (sym e);
    reply = ap (λ (r : Bytes × Reply). r.1) (sym e);
    grows = omega (arith, a.grows, w);
  }

  buffer_step-Follows :
      (op : Op) (b : Buffer)
      → IsValid b
      → InRange op
      → len b.vec + written op < size_limit
      → Returns (Follows op b) (buffer_step A op b)
  unfolding buffer_step
  buffer_step-Follows (writes src) b v r h =
      Returns->>= (Appended src b) _ _ _ (readable-write_slice A src b v h)
        λ b' (a : Appended src b b').
          Appended-Follows (writes src) src b b' refl (unfold queue_step in refl) a
  buffer_step-Follows (puts c) b v r h =
      Returns->>= (Appended (c ∷ []) b) _ _ _ (readable-write A c b v h)
        λ b' (a : Appended (c ∷ []) b b').
          Appended-Follows (puts c) (c ∷ []) b b' refl (unfold queue_step in refl) a
  buffer_step-Follows (reads n) b v r h =
      rw (read_lem n b v r) (elim (Bool-cases (leb n (length (readable b)))) [
        | inl all ↦
            let (v', e) = advance_lem n b v (leb→le _ _ all) in
            rw all (record {
              valid = v';
              state = unfold queue_step in rw all e;
              reply = unfold queue_step in rw all;
              grows = omega arith;
            })
        | inr few ↦ rw few (record {
          valid = v;
          state = unfold queue_step in rw few;
          reply = unfold queue_step in rw few;
          grows = omega arith;
        })
      ])
  buffer_step-Follows (consumes n) b v r h =
      rw (consume_lem n b v r) (elim (Bool-cases (leb n (length (readable b)))) [
        | inl all ↦
            let (v', e) = advance_lem n b v (leb→le _ _ all) in
            rw all (record {
              valid = v';
              state = unfold queue_step in rw all e;
              reply = unfold queue_step in rw all;
              grows = omega arith;
            })
        | inr few ↦ rw few (record {
          valid = v;
          state = unfold queue_step in rw few;
          reply = unfold queue_step in rw few;
          grows = omega arith;
        })
      ])
  buffer_step-Follows clears b v r h =
      unfold clear queue_step in
      record {
        valid = record {
          within = omega arith;
          small = omega (arith, length-append b.vec.bytes b.vec.spare, v.small);
        };
        state = refl;
        reply = refl;
        grows = omega arith;
      }
  buffer_step-Follows measures b v r h =
      unfold queue_step in
      record {
        valid = v;
        state = refl;
        reply = unfold buffer_len in ap size (omega (arith, length-readable b, v.within, v.small));
        grows = omega arith;
      }

  buffer_run-queue_run_from :
      (ops : List Op) (b : Buffer)
      → IsValid b
      → (n : ℕ) → len b.vec ≤ n
      → Fits n ops
      → buffer_run A ops b ≡ done (queue_run ops (readable b))
  unfolding buffer_run queue_run
  buffer_run-queue_run_from [] b v n h f = refl
  buffer_run-queue_run_from (op ∷ ops) b v n h f =
      let (r, e, s) =
        Returns-done (Follows op b) (buffer_step A op b)
          (buffer_step-Follows op b v f.0 (omega (arith, Fits-lt (n + written op) ops f.1))) in
      rw (
        e,
        buffer_run-queue_run_from ops r.0 s.valid (n + written op) (omega (arith, s.grows)) f.1,
        s.state,
        s.reply,
      )

-- In every run of appends, reads, skips, clears and size queries from a valid buffer, whose counts
-- are below isize::MAX and whose data fit a vector, the buffer answers exactly as a queue of bytes
-- that starts with its unread bytes, and no step panics or leaves the buffer's memory.
pub buffer_run-queue_run :
    (A : Allocator) (ops : List Op) (b : Buffer)
    → IsValid b
    → Fits (len b.vec) ops
    → buffer_run A ops b ≡ done (queue_run ops (readable b))
buffer_run-queue_run A ops b v f = buffer_run-queue_run_from A ops b v (len b.vec) (le_refl _) f

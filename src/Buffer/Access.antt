-- ===== src/Buffer/Access.antt =====
-- Facts about the memory of crates/libs/lib-core/src/buffer.rs: raw copies, and what a valid buffer is.
use lrust.Base.{
  ℕ, ◌+◌, ◌-◌, ◌≤◌, ◌<◌, ◌≡◌, ◌∙◌, ap, ◌++◌, append_assoc, arith, length, take, drop, le→ltb,
  le→leb, length-append, length-take, length-drop, drop-length_append, take-length_append,
}
use lrust.Base.Text.{Bytes}
use lrust.Base.Outcome.{done}
use lrust.Buffer.{Buffer, len, capacity, compact, copy_to, readable, size_limit}

-- The read position is within the data, and the allocation is one that `Vec` can have.
pub record IsValid (b : Buffer) : Type 0 where
  pub within : b.rpos ≤ len b.vec
  pub small : capacity b.vec < size_limit

pub length-copy_to :
    (at : ℕ) (src bytes : Bytes)
    → at + length src ≤ length bytes
    → length (copy_to at src bytes) ≡ length bytes
unfolding copy_to
length-copy_to at src bytes h = omega (
  arith,
  length-append (take at bytes) (src ++ drop (at + length src) bytes),
  length-append src (drop (at + length src) bytes),
  length-take at bytes,
  length-drop (at + length src) bytes,
)

drop-take_append :
    (at : ℕ) (bytes rest : Bytes) → at ≤ length bytes → drop at (take at bytes ++ rest) ≡ rest
drop-take_append at bytes rest h =
    ap (λ (k : ℕ). drop k (take at bytes ++ rest)) (omega (arith, length-take at bytes))
    ∙ drop-length_append (take at bytes) rest

-- From the place of a raw copy on, the bytes are the source, then those behind it.
pub drop-copy_to :
    (at : ℕ) (src bytes : Bytes)
    → at ≤ length bytes
    → drop at (copy_to at src bytes) ≡ src ++ drop (at + length src) bytes
unfolding copy_to
drop-copy_to at src bytes h = drop-take_append at bytes _ h

-- A copy to the front puts the source there.
pub take-copy_to : (src bytes rest : Bytes) → take (length src) (copy_to 0 src bytes ++ rest) ≡ src
unfolding copy_to
take-copy_to src bytes rest =
    ap (take (length src)) (append_assoc src _ rest) ∙ take-length_append src _

-- The allocation of a buffer while its unread bytes stand at its front too.
abbrev pub copied : Buffer → Bytes
copied b = copy_to 0 (readable b) b.vec.bytes ++ b.vec.spare

pub length-readable : (b : Buffer) → length (readable b) ≡ len b.vec - b.rpos
length-readable b = length-drop b.rpos b.vec.bytes

pub length-copied : (b : Buffer) → length (copied b) ≡ capacity b.vec
length-copied b = omega (
  arith,
  length-readable b,
  length-append (copy_to 0 (readable b) b.vec.bytes) b.vec.spare,
  length-copy_to 0 (readable b) b.vec.bytes,
)

-- Compaction keeps the unread bytes and the allocation, and puts the read position at 0.
pub compact_lem :
    (b : Buffer)
    → IsValid b
    → compact b
      ≡ done (record {
        rpos = 0;
        vec = record { bytes = readable b; spare = drop (length (readable b)) (copied b) };
      })
unfolding compact
compact_lem b v =
    rw (le→ltb (len b.vec) b.rpos v.within, ← length-readable b, le→leb _ _ fits)
      (rw (take-copy_to (readable b) b.vec.bytes b.vec.spare))
  where
    fits : length (readable b) ≤ length (copy_to 0 (readable b) b.vec.bytes) + length b.vec.spare
    fits = omega (arith, length-readable b, length-copy_to 0 (readable b) b.vec.bytes)

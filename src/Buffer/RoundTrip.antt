-- ===== src/Buffer/RoundTrip.antt =====
-- The fixed-width reads of crates/libs/lib-core/src/buffer.rs give back what was appended.
use lrust.Base.{
  ℕ, ◌+◌, ◌-◌, ◌/◌, ◌%◌, ◌^◌, ◌≤◌, ◌<◌, ◌≡◌, refl, ◌∙◌, sym, ap, ◌++◌, ◌∷◌, [], Bool, true, false,
  arith, length, drop, take, le→leb, length-append, drop-append_le, drop-drop, drop-length_append,
  take-length_append, append_assoc,
}
use lrust.Base.Int.{ℤ, pos, negsuc, ◌≤ℤ◌}
use lrust.Base.Text.{Bytes}
use lrust.Base.Outcome.{done, Returns, Returns-mono}
use lrust.Buffer.{
  Allocator, Buffer, len, capacity, allocation, readable, size_limit, add_usize, write_slice,
  raw_bytes, of_le, of_be, read_u32, read_i32, decode, signed,
}
use lrust.Buffer.Access.{IsValid, length-readable}
use lrust.Buffer.Prepare.{Appended, readable-write_slice}

-- A raw read behind the bytes that were unread before an append takes the appended bytes.
raw_bytes-Appended :
    (src : Bytes) (b b' : Buffer)
    → Appended src b b'
    → raw_bytes (length src) (length (readable b)) b' ≡ done src
unfolding raw_bytes
raw_bytes-Appended src b b' a = rw (exact, le→leb _ (capacity b'.vec) room) (ap done taken)
  where
    sizes : length (readable b') ≡ length (readable b) + length src
    sizes = ap length a.contents ∙ length-append (readable b) src

    exact : add_usize b'.rpos (length (readable b)) ≡ b'.rpos + length (readable b)
    exact = omega (arith, sizes, length-readable b', a.valid.within, a.valid.small)

    room : b'.rpos + length (readable b) + length src ≤ capacity b'.vec
    room = omega (arith, sizes, length-readable b', a.valid.within)

    behind : drop (b'.rpos + length (readable b)) (allocation b'.vec) ≡ src ++ b'.vec.spare
    behind =
        sym (drop-drop b'.rpos (length (readable b)) _ (allocation b'.vec) refl)
        ∙ ap (drop (length (readable b))) (
            drop-append_le b'.rpos b'.vec.bytes b'.vec.spare a.valid.within
            ∙ ap (λ (u : Bytes). u ++ b'.vec.spare) a.contents
            ∙ append_assoc (readable b) src b'.vec.spare)
        ∙ drop-length_append (readable b) (src ++ b'.vec.spare)

    taken : take (length src) (drop (b'.rpos + length (readable b)) (allocation b'.vec)) ≡ src
    taken = ap (take (length src)) behind ∙ take-length_append src b'.vec.spare

-- The four bytes of a 32-bit word, least significant first (`to_le_bytes`) or last (`to_be_bytes`).
abbrev pub word_bytes : Bool → ℕ → Bytes
word_bytes true n = n % 256 ∷ n / 2 ^ 8 % 256 ∷ n / 2 ^ 16 % 256 ∷ n / 2 ^ 24 % 256 ∷ []
word_bytes false n = n / 2 ^ 24 % 256 ∷ n / 2 ^ 16 % 256 ∷ n / 2 ^ 8 % 256 ∷ n % 256 ∷ []

-- The bit pattern of an i32.
abbrev pub pattern32 : ℤ → ℕ
pattern32 (pos n) = n
pattern32 (negsuc n) = 2 ^ 32 - n - 1

decode-word_bytes : (le : Bool) (n : ℕ) → n < 2 ^ 32 → decode le (word_bytes le n) ≡ n
unfolding of_le of_be
decode-word_bytes true n h = omega arith
decode-word_bytes false n h = omega arith

raw_word :
    (le : Bool) (n : ℕ) (b b' : Buffer)
    → Appended (word_bytes le n) b b'
    → raw_bytes 4 (length (readable b)) b' ≡ done (word_bytes le n)
raw_word true n b b' a = raw_bytes-Appended (word_bytes true n) b b' a
raw_word false n b b' a = raw_bytes-Appended (word_bytes false n) b b' a

write_word :
    (A : Allocator) (le : Bool) (n : ℕ) (b : Buffer)
    → IsValid b
    → len b.vec + 4 < size_limit
    → Returns (Appended (word_bytes le n) b) (write_slice A (word_bytes le n) b)
write_word A true n b v h = readable-write_slice A (word_bytes true n) b v h
write_word A false n b v h = readable-write_slice A (word_bytes false n) b v h

pattern32-lt : (z : ℤ) → negsuc (2 ^ 31 - 1) ≤ℤ z → z ≤ℤ pos (2 ^ 31 - 1) → pattern32 z < 2 ^ 32
pattern32-lt (pos n) lo hi = omega arith
pattern32-lt (negsuc n) lo hi = omega arith

signed-pattern32 :
    (z : ℤ) → negsuc (2 ^ 31 - 1) ≤ℤ z → z ≤ℤ pos (2 ^ 31 - 1) → signed (2 ^ 32) (pattern32 z) ≡ z
signed-pattern32 (pos n) lo hi = ground arith
signed-pattern32 (negsuc n) lo hi = ground arith

-- A 32-bit word that `write_slice` appends to a valid buffer with room, in either byte order, is read
-- back at its offset by `read_u32` in the same order, for every word below 2 ^ 32.
pub read_u32-write_slice :
    (A : Allocator) (le : Bool) (n : ℕ) (b : Buffer)
    → IsValid b
    → len b.vec + 4 < size_limit
    → n < 2 ^ 32
    → Returns
        (λ b'. read_u32 (length (readable b)) le b' ≡ done n)
        (write_slice A (word_bytes le n) b)
read_u32-write_slice A le n b v h small =
    Returns-mono (Appended (word_bytes le n) b)
      (λ b'. read_u32 (length (readable b)) le b' ≡ done n) _ (λ b' a. reads b' a)
      (write_word A le n b v h)
  where
    reads :
        (b' : Buffer)
        → Appended (word_bytes le n) b b'
        → read_u32 (length (readable b)) le b' ≡ done n
    reads b' a =
        unfold read_u32 in rw (raw_word le n b b' a) (ap done (decode-word_bytes le n small))

-- The same for `read_i32` and every i32, through its two's complement.
read_i32-write_slice :
    (A : Allocator) (le : Bool) (z : ℤ) (b : Buffer)
    → IsValid b
    → len b.vec + 4 < size_limit
    → negsuc (2 ^ 31 - 1) ≤ℤ z
    → z ≤ℤ pos (2 ^ 31 - 1)
    → Returns
        (λ b'. read_i32 (length (readable b)) le b' ≡ done z)
        (write_slice A (word_bytes le (pattern32 z)) b)
read_i32-write_slice A le z b v h lo hi =
    Returns-mono (Appended (word_bytes le (pattern32 z)) b)
      (λ b'. read_i32 (length (readable b)) le b' ≡ done z) _ (λ b' a. reads b' a)
      (write_word A le (pattern32 z) b v h)
  where
    reads :
        (b' : Buffer)
        → Appended (word_bytes le (pattern32 z)) b b'
        → read_i32 (length (readable b)) le b' ≡ done z
    reads b' a =
        unfold read_i32 in
        rw (raw_word le (pattern32 z) b b' a) (
          ap done (
            ap (signed (2 ^ 32)) (decode-word_bytes le (pattern32 z) (pattern32-lt z lo hi))
            ∙ signed-pattern32 z lo hi))

-- ===== src/Buffer/Defs.antt =====
-- `Buffer` of crates/libs/lib-core/src/buffer.rs, but for its fixed-width reads.
use lrust.Base.{
  ℕ, suc, ◌+◌, ◌-◌, ◌%◌, ◌^◌, ◌≤◌, ◌<◌, [], ◌∷◌, ◌++◌, Bool, true, false, Option, none, some, ltb,
  leb, ◌==◌, if◌then◌else◌, length, take, drop,
}
use lrust.Base.Outcome.{Outcome, done, panic, fault, ◌>>=◌}
use lrust.Base.Int.{ℤ, pos, negsuc}
use lrust.Base.Text.{Bytes}

abbrev pub usize_mod : ℕ
usize_mod = 2 ^ 64

-- `a + b` and `a - b` on usize.
abbrev pub add_usize : ℕ → ℕ → ℕ
add_usize a b = (a + b) % usize_mod

abbrev pub sub_usize : ℕ → ℕ → ℕ
sub_usize a b = (a + usize_mod - b) % usize_mod

pub record Vector : Type 0 where
  pub bytes : Bytes
  pub spare : Bytes

abbrev pub len : Vector → ℕ
len v = length v.bytes

abbrev pub capacity : Vector → ℕ
capacity v = length v.bytes + length v.spare

-- A vector holds at most isize::MAX bytes.
abbrev pub size_limit : ℕ
size_limit = 2 ^ 63

-- What `Vec` promises of its memory: `with_capacity(n)` has room for n bytes at least, and a vector
-- of `len` bytes that lacks the room for n more gets it. The bytes of new memory are arbitrary.
pub record Allocator : Type 0 where
  pub fresh : ℕ → Bytes
  pub fresh-le : (n : ℕ) → n ≤ length (fresh n)
  pub fresh-lt : (n : ℕ) → n < size_limit → length (fresh n) < size_limit
  pub grown : ℕ → ℕ → ℕ → Bytes
  pub grown-le : (len cap n : ℕ) → n ≤ length (grown len cap n)
  pub grown-lt :
      (len cap n : ℕ) → len + n < size_limit → len + length (grown len cap n) < size_limit

-- `set_len`: the bytes of the allocation do not change.
abbrev pub allocation : Vector → Bytes
allocation v = v.bytes ++ v.spare

unfoldable pub set_len : ℕ → Vector → Outcome Vector
set_len n v =
    if leb n (capacity v)
    then done (record { bytes = take n (allocation v); spare = drop n (allocation v) })
    else fault

-- A write of `src` at `at` through a raw pointer into the bytes below the length.
unfoldable pub copy_to : ℕ → Bytes → Bytes → Bytes
copy_to at src bytes = take at bytes ++ (src ++ drop (at + length src) bytes)

pub record Buffer : Type 0 where
  pub rpos : ℕ
  pub vec : Vector

abbrev pub default_reserve : ℕ
default_reserve = 128

unfoldable pub from_slice : Bytes → Buffer
from_slice bytes = record { rpos = 0; vec = record { bytes = bytes; spare = [] } }

-- `data` and `as_slice`, once the read position is within the data.
abbrev pub readable : Buffer → Bytes
readable b = drop b.rpos b.vec.bytes

-- `write_front` and `write_front_byte`. The guard keeps the write within the bytes before the read
-- position, so within the allocation while the read position is.
unfoldable pub write_front : Bytes → Buffer → Outcome (Buffer × Bool)
unfolding copy_to
write_front src b =
    if ltb b.rpos (length src)
    then done (b, false)
    else (let at = b.rpos - length src in
        if leb b.rpos (len b.vec)
        then done (
          record {
            rpos = at;
            vec = record { bytes = copy_to at src b.vec.bytes; spare = b.vec.spare };
          },
          true,
        )
        else fault)

unfoldable pub write_front_byte : ℕ → Buffer → Outcome (Buffer × Bool)
unfolding copy_to
write_front_byte c b =
    if b.rpos == 0
    then done (b, false)
    else if leb b.rpos (len b.vec)
    then done (
      record {
        rpos = b.rpos - 1;
        vec = record { bytes = copy_to (b.rpos - 1) (c ∷ []) b.vec.bytes; spare = b.vec.spare };
      },
      true,
    )
    else fault

-- `Vec::with_capacity(count)` panics above isize::MAX bytes; the copy reads `count` bytes from the
-- read position through a raw pointer.
unfoldable pub read : ℕ → Buffer → Outcome (Buffer × Option Bytes)
read count b =
    if ltb (len b.vec) (add_usize b.rpos count)
    then done (b, none)
    else if leb size_limit count
    then panic
    else if leb (b.rpos + count) (capacity b.vec)
    then done (
      record b { rpos = add_usize b.rpos count },
      some (take count (drop b.rpos (allocation b.vec))),
    )
    else fault

unfoldable pub consume : ℕ → Buffer → Buffer
consume count b =
    if ltb (len b.vec) (add_usize b.rpos count)
    then b
    else record b { rpos = add_usize b.rpos count }

-- `pos.unsigned_abs()` of `negsuc n` is n + 1.
unfoldable pub seek : ℤ → Buffer → Buffer × Bool
seek (negsuc n) b =
    if ltb b.rpos (suc n) then (b, false) else (record b { rpos = b.rpos - suc n }, true)
seek (pos n) b =
    if ltb (len b.vec) (add_usize b.rpos n)
    then (b, false)
    else (record b { rpos = add_usize b.rpos n }, true)

-- `Vec::clear` keeps the allocation.
unfoldable pub clear : Buffer → Buffer
clear b = record { rpos = 0; vec = record { bytes = []; spare = allocation b.vec } }

unfoldable pub buffer_len : Buffer → ℕ
buffer_len b = sub_usize (len b.vec) b.rpos

unfoldable pub is_empty : Buffer → Bool
is_empty b = len b.vec == b.rpos

unfoldable pub commit : ℕ → Buffer → Outcome (Buffer × Bool)
unfolding set_len
commit size b =
    if ltb (capacity b.vec) (add_usize (len b.vec) size)
    then done (b, false)
    else set_len (add_usize (len b.vec) size) b.vec >>= λ v. done (record b { vec = v }, true)

unfoldable pub revert : ℕ → Buffer → Outcome Buffer
unfolding set_len
revert size b =
    if ltb (len b.vec) (add_usize b.rpos size)
    then panic
    else set_len (sub_usize (len b.vec) size) b.vec >>= λ v. done (record b { vec = v })

-- The unread bytes are moved to the front of the allocation.
unfoldable pub compact : Buffer → Outcome Buffer
unfolding copy_to set_len
compact b =
    if ltb (len b.vec) b.rpos
    then fault
    else (let moved : Vector = record {
      bytes = copy_to 0 (readable b) b.vec.bytes;
      spare = b.vec.spare;
    } in
        set_len (len b.vec - b.rpos) moved >>= λ v. done (record { rpos = 0; vec = v }))

module _ (A : Allocator) where
  -- `Vec::with_capacity` panics above isize::MAX bytes.
  unfoldable pub with_capacity : ℕ → Outcome Buffer
  with_capacity n =
      if leb size_limit n
      then panic
      else done (record { rpos = 0; vec = record { bytes = []; spare = A.fresh n } })

  -- `new` and `default`.
  unfoldable pub new : Outcome Buffer
  unfolding with_capacity
  new = with_capacity default_reserve

  -- All bytes, read ones too, are copied to a new allocation.
  unfoldable pub reallocate : ℕ → Buffer → Outcome Buffer
  reallocate required b =
      if leb size_limit required
      then panic
      else done (record b {
        vec = record { bytes = b.vec.bytes; spare = drop (len b.vec) (A.fresh required) };
      })

  -- What `prepare` does to the buffer; the slice that it returns is the first `size` spare bytes.
  unfoldable pub prepare : ℕ → Buffer → Outcome Buffer
  prepare size b =
      let tail = capacity b.vec - len b.vec in
      if ltb tail size
      then (if leb size (add_usize tail b.rpos)
          then compact b
          else reallocate (add_usize (len b.vec) size) b)
      else done b

  -- `Vec::extend_from_slice` and `Vec::push`, which panic on a length above isize::MAX.
  unfoldable pub extend : Bytes → Vector → Outcome Vector
  extend src v =
      if leb (length src) (length v.spare)
      then done (record { bytes = v.bytes ++ src; spare = drop (length src) v.spare })
      else if leb size_limit (len v + length src)
      then panic
      else done (record {
        bytes = v.bytes ++ src;
        spare = drop (length src) (A.grown (len v) (capacity v) (length src));
      })

  -- `write_slice`, and `write_str` and `write_chars` on the bytes of the text.
  unfoldable pub write_slice : Bytes → Buffer → Outcome Buffer
  write_slice src b =
      prepare (length src) b >>= λ p. extend src p.vec >>= λ v. done (record p { vec = v })

  unfoldable pub write : ℕ → Buffer → Outcome Buffer
  write c b = extend (c ∷ []) b.vec >>= λ v. done (record b { vec = v })

-- `unsafe_write` has no check: the caller has prepared the room.
unfoldable pub unsafe_write : ℕ → Buffer → Outcome Buffer
unsafe_write c b = elim b.vec.spare [
  | [] ↦ fault
  | _ ∷ rest ↦ done (record b { vec = record { bytes = b.vec.bytes ++ c ∷ []; spare = rest } })
]

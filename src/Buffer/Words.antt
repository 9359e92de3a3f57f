-- ===== src/Buffer/Words.antt =====
-- The fixed-width reads of crates/libs/lib-core/src/buffer.rs, on a little-endian machine.
use lrust.Base.{
  ℕ, ◌+◌, ◌-◌, ◌*◌, ◌^◌, [], ◌∷◌, Bool, true, false, none, some, ltb, leb, if◌then◌else◌, take,
  drop, get_elem?,
}
use lrust.Base.Outcome.{Outcome, done, panic, fault, ◌>>=◌}
use lrust.Base.Int.{ℤ, pos, negsuc}
use lrust.Base.Text.{Bytes}
use lrust.Buffer.Defs.{Buffer, allocation, capacity, add_usize}

-- The bounds-checked index `data[rpos + pos]`.
unfoldable pub read_u8 : ℕ → Buffer → Outcome ℕ
read_u8 at b = elim (get_elem? b.vec.bytes (add_usize b.rpos at)) [ none ↦ panic | some c ↦ done c ]

-- n bytes at the read position plus `at`, through a raw pointer.
unfoldable pub raw_bytes : ℕ → ℕ → Buffer → Outcome Bytes
raw_bytes n at b =
    if leb (add_usize b.rpos at + n) (capacity b.vec)
    then done (take n (drop (add_usize b.rpos at) (allocation b.vec)))
    else fault

-- The numbers that bytes stand for, least significant first and most significant first.
unfoldable pub of_le : Bytes → ℕ
of_le [] = 0
of_le (c ∷ cs) = c + 256 * of_le cs

unfoldable pub of_be : ℕ → Bytes → ℕ
of_be acc [] = acc
of_be acc (c ∷ cs) = of_be (acc * 256 + c) cs

-- The bytes are copied into an integer of the machine's order; `to_be` swaps them.
abbrev pub decode : Bool → Bytes → ℕ
decode true bytes = of_le bytes
decode false bytes = of_be 0 bytes

-- Two's complement of the given number of values.
abbrev pub signed : ℕ → ℕ → ℤ
signed values w = if ltb (w + w) values then pos w else negsuc (values - w - 1)

unfoldable pub read_u16 : ℕ → Bool → Buffer → Outcome ℕ
unfolding of_le of_be
read_u16 at le b = raw_bytes 2 at b >>= λ bytes. done (decode le bytes)

unfoldable pub read_u32 : ℕ → Bool → Buffer → Outcome ℕ
unfolding of_le of_be
read_u32 at le b = raw_bytes 4 at b >>= λ bytes. done (decode le bytes)

unfoldable pub read_i16 : ℕ → Bool → Buffer → Outcome ℤ
unfolding of_le of_be
read_i16 at le b = raw_bytes 2 at b >>= λ bytes. done (signed (2 ^ 16) (decode le bytes))

unfoldable pub read_i32 : ℕ → Bool → Buffer → Outcome ℤ
unfolding of_le of_be
read_i32 at le b = raw_bytes 4 at b >>= λ bytes. done (signed (2 ^ 32) (decode le bytes))

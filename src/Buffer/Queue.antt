-- ===== src/Buffer/Queue.antt =====
-- The buffer of crates/libs/lib-core/src/buffer.rs as a queue of bytes: what each operation does to
-- the unread bytes, and a refinement of whole runs.
use lrust.Base.{
  ℕ, ◌+◌, ◌-◌, ◌≤◌, ◌<◌, ◌≡◌, refl, ◌∙◌, sym, ap, ◌++◌, arith, length, drop, take, inl, inr,
  Bool-cases, leb, if◌then◌else◌, none, some, drop-append_le, take-append_le, drop-drop, lt→ltb,
  le→ltb, le→leb, lt→leb, leb→le,
}
use lrust.Base.Text.{Bytes}
use lrust.Base.Outcome.{done, Returns}
use lrust.Buffer.{
  Buffer, len, capacity, allocation, readable, size_limit, copy_to, add_usize, read, consume,
  write_front,
}
use lrust.Buffer.Access.{IsValid, length-readable, drop-copy_to, length-copy_to}

-- The bytes that the raw copy of `read` takes are unread ones, and not spare memory.
read_bytes :
    (count : ℕ) (b : Buffer)
    → IsValid b
    → count ≤ length (readable b)
    → take count (drop b.rpos (allocation b.vec)) ≡ take count (readable b)
read_bytes count b v h =
    ap (take count) (drop-append_le b.rpos b.vec.bytes b.vec.spare v.within)
    ∙ take-append_le count (readable b) b.vec.spare h

-- `read(count)` below isize::MAX bytes: with that many unread bytes it returns the first of them, in
-- order, and goes past them; with fewer it returns none and changes nothing. It never panics and
-- never reads outside the data.
pub read_lem :
    (count : ℕ) (b : Buffer)
    → IsValid b
    → count < size_limit
    → read count b
      ≡ done (
          if leb count (length (readable b))
          then (record b { rpos = b.rpos + count }, some (take count (readable b)))
          else (b, none))
unfolding read
read_lem count b v h = elim (Bool-cases (leb count (length (readable b)))) [
  | inl all ↦
      let fits : b.rpos + count ≤ len b.vec =
        omega (arith, leb→le _ _ all, length-readable b, v.within) in
      rw (
        all,
        exact,
        le→ltb (len b.vec) (b.rpos + count) fits,
        lt→leb size_limit count h,
        le→leb (b.rpos + count) (capacity b.vec) (omega arith),
        read_bytes count b v (leb→le _ _ all),
      )
  | inr few ↦
      rw (few, exact, lt→ltb (len b.vec) (b.rpos + count) (ground (arith, length-readable b)))
]
  where
    exact : add_usize b.rpos count ≡ b.rpos + count
    exact = omega (arith, v.within, v.small)

-- `consume(count)` below isize::MAX bytes: with that many unread bytes it goes past them, and with
-- fewer it changes nothing.
pub consume_lem :
    (count : ℕ) (b : Buffer)
    → IsValid b
    → count < size_limit
    → consume count b
      ≡ (if leb count (length (readable b)) then record b { rpos = b.rpos + count } else b)
unfolding consume
consume_lem count b v h = elim (Bool-cases (leb count (length (readable b)))) [
  | inl all ↦ rw (
    all,
    exact,
    le→ltb (len b.vec) (b.rpos + count)
        (omega (arith, leb→le _ _ all, length-readable b, v.within)),
  )
  | inr few ↦
      rw (few, exact, lt→ltb (len b.vec) (b.rpos + count) (ground (arith, length-readable b)))
]
  where
    exact : add_usize b.rpos count ≡ b.rpos + count
    exact = omega (arith, v.within, v.small)

-- Going past unread bytes keeps a buffer valid, and takes them off its front.
pub advance_lem :
    (count : ℕ) (b : Buffer)
    → IsValid b
    → count ≤ length (readable b)
    → IsValid (record b { rpos = b.rpos + count })
      × (readable (record b { rpos = b.rpos + count }) ≡ drop count (readable b))
advance_lem count b v h = (
  record { within = omega (arith, length-readable b, v.within); small = v.small },
  sym (drop-drop b.rpos count (b.rpos + count) b.vec.bytes refl),
)

-- `write_front(src)` on a valid buffer: with that many bytes before the read position it returns true
-- and puts `src` before the unread bytes, and otherwise it returns false and changes nothing. It
-- never writes outside the allocation, and the buffer stays valid.
pub readable-write_front :
    (src : Bytes) (b : Buffer)
    → IsValid b
    → Returns
        (λ r.
          IsValid r.0
          × (r.1 ≡ leb (length src) b.rpos)
          × (readable r.0 ≡ (if leb (length src) b.rpos then src ++ readable b else readable b)))
        (write_front src b)
unfolding write_front
readable-write_front src b v = elim (Bool-cases (leb (length src) b.rpos)) [
  | inl room ↦
      rw (room, le→ltb b.rpos (length src) (leb→le _ _ room), le→leb b.rpos (len b.vec) v.within)
        (
          record {
            within = omega (arith, kept (leb→le _ _ room), v.within);
            small = omega (arith, kept (leb→le _ _ room), v.small);
          },
          refl,
          front (leb→le _ _ room),
        )
  | inr none_left ↦ rw (none_left, lt→ltb b.rpos (length src) (ground arith)) (v, refl, refl)
]
  where
    kept : length src ≤ b.rpos → length (copy_to (b.rpos - length src) src b.vec.bytes) ≡ len b.vec
    kept h = length-copy_to (b.rpos - length src) src b.vec.bytes (omega (arith, v.within))

    front :
        length src ≤ b.rpos
        → drop (b.rpos - length src) (copy_to (b.rpos - length src) src b.vec.bytes)
          ≡ src ++ readable b
    front h =
        drop-copy_to (b.rpos - length src) src b.vec.bytes (omega (arith, v.within))
        ∙ ap (λ (k : ℕ). src ++ drop k b.vec.bytes) (omega arith)

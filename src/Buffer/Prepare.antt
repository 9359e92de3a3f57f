-- ===== src/Buffer/Prepare.antt =====
-- `prepare` and the appends of crates/libs/lib-core/src/buffer.rs.
use native.Mathlib.Nat.{le_refl}
use lrust.Base.{
  ℕ, ◌+◌, ◌-◌, ◌≤◌, ◌<◌, ◌≡◌, refl, ◌∙◌, ap, ◌++◌, ◌∷◌, [], arith, length, drop, inl, inr,
  Bool-cases, ltb, leb, length-append, length-drop, drop-append_le, lt→leb, leb→le,
}
use lrust.Base.Text.{Bytes}
use lrust.Base.Outcome.{Returns, Returns->>=}
use lrust.Buffer.{
  Allocator, Buffer, Vector, len, capacity, compact, reallocate, prepare, extend, write_slice,
  write, readable, size_limit, add_usize,
}
use lrust.Buffer.Access.{IsValid, copied, length-readable, length-copied, compact_lem}

-- A valid buffer with room for `size` more bytes and the unread bytes of `before`.
pub record HasRoom (size : ℕ) (before b : Buffer) : Type 0 where
  pub valid : IsValid b
  pub room : size ≤ length b.vec.spare
  pub same : readable b ≡ readable before
  pub shrinks : len b.vec ≤ len before.vec

-- A valid buffer with the unread bytes of `before` and then `src`.
pub record Appended (src : Bytes) (before b : Buffer) : Type 0 where
  pub valid : IsValid b
  pub contents : readable b ≡ readable before ++ src
  pub grows : len b.vec ≤ len before.vec + length src

module _ (A : Allocator) where
  compact-HasRoom :
      (size : ℕ) (b : Buffer)
      → IsValid b
      → size ≤ length b.vec.spare + b.rpos
      → Returns (HasRoom size b) (compact b)
  compact-HasRoom size b v h = rw (compact_lem b v) (record {
    valid = record { within = omega arith; small = omega (arith, sizes) };
    room = omega (arith, sizes);
    same = refl;
    shrinks = omega (arith, sizes);
  })
    where
      sizes :
          (length (readable b) ≡ len b.vec - b.rpos)
          × (length (drop (length (readable b)) (copied b)) ≡ capacity b.vec - length (readable b))
      sizes = (
        length-readable b,
        omega (arith, length-drop (length (readable b)) (copied b), length-copied b),
      )

  reallocate-HasRoom :
      (size : ℕ) (b : Buffer)
      → IsValid b
      → len b.vec + size < size_limit
      → Returns (HasRoom size b) (reallocate A (len b.vec + size) b)
  unfolding reallocate
  reallocate-HasRoom size b v h = rw (lt→leb size_limit (len b.vec + size) h) (record {
    valid = record { within = v.within; small = omega (arith, tail, A.fresh-lt _ h) };
    room = omega (arith, tail, A.fresh-le (len b.vec + size));
    same = refl;
    shrinks = le_refl _;
  })
    where
      tail :
          length (drop (len b.vec) (A.fresh (len b.vec + size)))
          ≡ length (A.fresh (len b.vec + size)) - len b.vec
      tail = length-drop (len b.vec) (A.fresh (len b.vec + size))

  -- While the data and `size` more bytes fit a vector, `prepare` returns (it neither panics nor
  -- touches memory that is not the buffer's), leaves room for `size` bytes behind the data, and keeps
  -- the unread bytes as they are, whichever way it makes the room.
  pub prepare-HasRoom :
      (size : ℕ) (b : Buffer)
      → IsValid b
      → len b.vec + size < size_limit
      → Returns (HasRoom size b) (prepare A size b)
  unfolding prepare
  prepare-HasRoom size b v h = elim (Bool-cases (ltb (capacity b.vec - len b.vec) size)) [
    | inr enough ↦
        rw enough (record { valid = v; room = ground arith; same = refl; shrinks = le_refl _ })
    | inl lacking ↦ elim (Bool-cases (leb size (add_usize (capacity b.vec - len b.vec) b.rpos))) [
      | inl front ↦ rw (lacking, front) (compact-HasRoom size b v (ground arith))
      | inr no_front ↦ rw (lacking, no_front, exact) (reallocate-HasRoom size b v h)
    ]
  ]
    where
      exact : add_usize (len b.vec) size ≡ len b.vec + size
      exact = omega arith

  extend_lem :
      (src : Bytes) (b : Buffer)
      → IsValid b
      → len b.vec + length src < size_limit
      → Returns
          (λ w. (w.bytes ≡ b.vec.bytes ++ src) × (capacity w < size_limit))
          (extend A src b.vec)
  unfolding extend
  extend_lem src b v h = elim (Bool-cases (leb (length src) (length b.vec.spare))) [
    | inl fits ↦ rw fits (
      refl,
      omega (
        arith,
        leb→le _ _ fits,
        length-append b.vec.bytes src,
        length-drop (length src) b.vec.spare,
        v.small,
      ),
    )
    | inr full ↦
        rw (full, lt→leb size_limit (len b.vec + length src) h)
          (
            refl,
            omega (
              arith,
              length-append b.vec.bytes src,
              length-drop (length src) (A.grown (len b.vec) (capacity b.vec) (length src)),
              A.grown-lt (len b.vec) (capacity b.vec) (length src) h,
            ),
          )
  ]

  -- While the data and `src` fit a vector, `write_slice` returns a valid buffer whose unread bytes
  -- are those of before with `src` behind them: no unread byte is lost, moved out of order or
  -- overwritten, whether the buffer was compacted, reallocated or left in place.
  pub readable-write_slice :
      (src : Bytes) (b : Buffer)
      → IsValid b
      → len b.vec + length src < size_limit
      → Returns (Appended src b) (write_slice A src b)
  unfolding write_slice
  readable-write_slice src b v h =
      Returns->>= (HasRoom (length src) b) _ (prepare A (length src) b) _
        (prepare-HasRoom (length src) b v h)
        λ p (r : HasRoom (length src) b p).
          Returns->>= (λ w. (w.bytes ≡ p.vec.bytes ++ src) × (capacity w < size_limit)) _ _ _
            (extend_lem src p r.valid (omega (arith, r.room, r.valid.small)))
            λ w (e : (w.bytes ≡ p.vec.bytes ++ src) × (capacity w < size_limit)). appended p w r e
    where
      appended :
          (p : Buffer) (w : Vector)
          → HasRoom (length src) b p
          → (w.bytes ≡ p.vec.bytes ++ src) × (capacity w < size_limit)
          → Appended src b (record p { vec = w })
      appended p w r e = record {
        valid = record {
          within = omega (arith, ap length e.0, length-append p.vec.bytes src, r.valid.within);
          small = e.1;
        };
        contents =
            ap (drop p.rpos) e.0
            ∙ drop-append_le p.rpos p.vec.bytes src r.valid.within
            ∙ ap (λ (u : Bytes). u ++ src) r.same;
        grows = omega (arith, ap length e.0, length-append p.vec.bytes src, r.shrinks);
      }

  -- The same for `write`, with one byte: while the data and the byte fit a vector, it returns a valid
  -- buffer whose unread bytes are those of before and then the byte.
  pub readable-write :
      (c : ℕ) (b : Buffer)
      → IsValid b
      → len b.vec + 1 < size_limit
      → Returns (Appended (c ∷ []) b) (write A c b)
  unfolding write
  readable-write c b v h =
      Returns->>= (λ w. (w.bytes ≡ b.vec.bytes ++ c ∷ []) × (capacity w < size_limit)) _ _ _
        (extend_lem (c ∷ []) b v h)
        λ w (e : (w.bytes ≡ b.vec.bytes ++ c ∷ []) × (capacity w < size_limit)). record {
          valid = record {
            within = omega (arith, ap length e.0, length-append b.vec.bytes (c ∷ []), v.within);
            small = e.1;
          };
          contents = ap (drop b.rpos) e.0 ∙ drop-append_le b.rpos b.vec.bytes (c ∷ []) v.within;
          grows = omega (arith, ap length e.0, length-append b.vec.bytes (c ∷ []));
        }

-- ===== src/Sqlx/Columns/Unique.antt =====
-- `ensure_unique_columns` of crates/libs/lib-lualib/src/lua_sqlx.rs.
use lrust.Base.{
  ◌≡◌, ◌≢◌, refl, sym, ap, ◌∙◌, Bool, true, false, ◌||◌, List, [], ◌∷◌, Option, none, some,
  if◌then◌else◌, arith, inl, inr, Bool-cases, ◌↔◌,
}
use lrust.Base.Check.{same_bytes-eq}
use lrust.Base.Text.{Bytes, same_bytes}
use lrust.Sqlx.Columns.{has_name, duplicate_after, ensure_unique_columns}

-- No name of the list is k.
abbrev pub IsAbsent : Bytes → List Bytes → Type 0
IsAbsent k [] = Unit
IsAbsent k (n ∷ ns) = (n ≢ k) × IsAbsent k ns

-- Every name differs from all before it.
abbrev pub AreDistinct : List Bytes → List Bytes → Type 0
AreDistinct before [] = Unit
AreDistinct before (n ∷ ns) = IsAbsent n before × AreDistinct (n ∷ before) ns

same_bytes_refl : (s : Bytes) → same_bytes s s ≡ true
same_bytes_refl [] = refl
same_bytes_refl (c ∷ s) = ground (arith, same_bytes_refl s)

or_false : (a b : Bool) → (a || b) ≡ false → (a ≡ false) × (b ≡ false)
or_false true b h = absurd (ground arith)
or_false false b h = (refl, h)

same_bytes-ne : (s t : Bytes) → same_bytes s t ≡ false → s ≢ t
same_bytes-ne s t h e =
    absurd (ground (arith, sym h ∙ ap (same_bytes s) (sym e) ∙ same_bytes_refl s))

ne-same_bytes : (s t : Bytes) → s ≢ t → same_bytes s t ≡ false
ne-same_bytes s t h = elim (Bool-cases (same_bytes s t)) [
  | inl e ↦ absurd (h (same_bytes-eq s t e))
  | inr e ↦ e
]

has_name-IsAbsent : (k : Bytes) (ns : List Bytes) → has_name k ns ≡ false → IsAbsent k ns
unfolding has_name
has_name-IsAbsent k [] h = tt
has_name-IsAbsent k (n ∷ ns) h =
    let q = or_false (same_bytes n k) (has_name k ns) h in
    (same_bytes-ne n k (q.0), has_name-IsAbsent k ns (q.1))

IsAbsent-has_name : (k : Bytes) (ns : List Bytes) → IsAbsent k ns → has_name k ns ≡ false
unfolding has_name
IsAbsent-has_name k [] h = refl
IsAbsent-has_name k (n ∷ ns) h = rw (ne-same_bytes n k h.0) (IsAbsent-has_name k ns h.1)

no_name :
    (b : Bool) (n : Bytes) (later : Option Bytes)
    → (if b then some n else later) ≡ none
    → (b ≡ false) × (later ≡ none)
no_name true n later h = absurd (ground arith)
no_name false n later h = (refl, h)

duplicate_after-AreDistinct :
    (before ns : List Bytes) → duplicate_after before ns ≡ none → AreDistinct before ns
unfolding duplicate_after
duplicate_after-AreDistinct before [] h = tt
duplicate_after-AreDistinct before (n ∷ ns) h =
    let q = no_name (has_name n before) n (duplicate_after (n ∷ before) ns) h in
    (has_name-IsAbsent n before (q.0), duplicate_after-AreDistinct (n ∷ before) ns (q.1))

AreDistinct-duplicate_after :
    (before ns : List Bytes) → AreDistinct before ns → duplicate_after before ns ≡ none
unfolding duplicate_after
AreDistinct-duplicate_after before [] h = refl
AreDistinct-duplicate_after before (n ∷ ns) h =
    rw (IsAbsent-has_name n before h.0) (AreDistinct-duplicate_after (n ∷ before) ns h.1)

-- No duplicate is reported exactly when every column's name differs from all before it.
pub ensure_unique_columns_iff :
    (columns : List Bytes) → (ensure_unique_columns columns ≡ none) ↔ AreDistinct [] columns
unfolding ensure_unique_columns
ensure_unique_columns_iff columns =
    (duplicate_after-AreDistinct [] columns, AreDistinct-duplicate_after [] columns)

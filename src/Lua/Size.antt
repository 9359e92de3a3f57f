-- ===== src/Lua/Size.antt =====
-- `lua_array_size` of crates/libs/lib-lua-sys/src/laux.rs: which tables are arrays.
use mathlib.Core.Path.{subst}
use lrust.Base.{
  ℕ, ◌≡◌, ◌≢◌, ◌≤◌, refl, sym, ap, ◌∙◌, Bool, true, false, List, [], ◌∷◌, Option, none, some, arith,
  inl, inr, Bool-cases, and_cases, if◌then◌else◌,
}
use lrust.Base.Int.{ℤ, pos, negsuc, ◌==ℤ◌, leb_ℤ, ltb_ℤ}
use lrust.Lua.{
  LuaValue, nil, integer, is_there, Entry, LuaTable, key_is, rawgeti, has_next, first_key, is_index,
  all_indices, checked_size, size_after_border, unmarked_size, array_size,
}

-- A key from 1 to n.
abbrev pub IsIndex : ℕ → LuaValue → Type 0
IsIndex n k = (i : ℕ) × (k ≡ integer (pos i)) × (1 ≤ i) × (i ≤ n)

abbrev pub AreIndices : ℕ → List Entry → Type 0
AreIndices n [] = Unit
AreIndices n ((k, v) ∷ es) = IsIndex n k × AreIndices n es

is_index-IsIndex : (n : ℕ) (k : LuaValue) → is_index n k ≡ true → IsIndex n k
unfolding is_index
is_index-IsIndex n (integer (pos i)) h = (i, refl, ground arith, ground arith)
is_index-IsIndex n (integer (negsuc i)) h = absurd (ground arith)
is_index-IsIndex n k h = absurd (ground arith)

all_indices-AreIndices : (n : ℕ) (es : List Entry) → all_indices n es ≡ true → AreIndices n es
unfolding all_indices
all_indices-AreIndices n [] h = tt
all_indices-AreIndices n ((k, v) ∷ es) h = (
  is_index-IsIndex n k (and_cases _ _ h).0,
  all_indices-AreIndices n es (and_cases (is_index n k) _ h).1,
)

abbrev no_array : Bool × ℕ
no_array = (false, 0)

abbrev settled_size : Bool → Bool → ℕ → Bool × ℕ
settled_size a b r = if a then no_array else if b then (true, r) else no_array

settled : (a b : Bool) (r n : ℕ) → settled_size a b r ≡ (true, n) → (n ≡ r) × (b ≡ true)
settled true b r n h = absurd (ground arith)
settled false true r n h = (sym (ap (λ (q : Bool × ℕ). q.1) h), refl)
settled false false r n h = absurd (ground arith)

checked_size-true :
    (first : ℤ) (t : LuaTable) (n : ℕ)
    → checked_size first t ≡ (true, n)
    → (n ≡ t.rawlen) × AreIndices n t.entries
unfolding checked_size
checked_size-true first t n h =
    let q = settled (ltb_ℤ (pos t.rawlen) first) (all_indices t.rawlen t.entries) t.rawlen n h in
    (q.0, rw q.0 (all_indices-AreIndices t.rawlen t.entries q.1))

some_eq : {A : Type 0} (x y : A) → some x ≡ some y → x ≡ y
some_eq {A = A} x y h = ap (get x) h
  where
    get : A → Option A → A
    get d none = d
    get d (some a) = a

after_border-true :
    (first : ℤ) (t : LuaTable) (n : ℕ) (o : Option Bool)
    → size_after_border first t o ≡ some (true, n)
    → (n ≡ t.rawlen) × AreIndices n t.entries
unfolding size_after_border
after_border-true first t n none h = absurd (ground arith)
after_border-true first t n (some true) h = absurd (ground arith)
after_border-true first t n (some false) h =
    checked_size-true first t n (some_eq (checked_size first t) (true, n) h)

unmarked_size-true :
    (es : List Entry) (t : LuaTable) (n : ℕ)
    → unmarked_size es t ≡ some (true, n)
    → (n ≡ t.rawlen) × AreIndices n t.entries
unfolding unmarked_size
unmarked_size-true [] t n h = absurd (ground arith)
unmarked_size-true ((k, v) ∷ es) t n h =
    three (leb_ℤ (first_key k) (pos 0)) (first_key k ==ℤ pos 1) h
  where
    three :
        (a b : Bool)
        → (if a
            then some (false, 0)
            else if b
            then size_after_border (first_key k) t (has_next (pos t.rawlen) t.entries)
            else some (checked_size (first_key k) t))
          ≡ some (true, n)
        → (n ≡ t.rawlen) × AreIndices n t.entries
    three true b g = absurd (ground arith)
    three false true g = after_border-true (first_key k) t n (has_next (pos t.rawlen) t.entries) g
    three false false g =
        checked_size-true (first_key k) t n (some_eq (checked_size (first_key k) t) (true, n) g)

-- A table without the two marks that passes for an array of n elements has length n, and all its
-- keys are integers from 1 to n.
pub array_size-AreIndices :
    (t : LuaTable) (n : ℕ)
    → t.has_array ≡ false
    → array_size t ≡ some (true, n)
    → (n ≡ t.rawlen) × AreIndices n t.entries
unfolding array_size
array_size-AreIndices t n unmarked h =
    unmarked_size-true t.entries t n (plain t.has_array t.has_object unmarked h)
  where
    plain :
        (a b : Bool)
        → a ≡ false
        → (if a
            then some (true, t.rawlen)
            else if b
            then some (false, 0)
            else unmarked_size t.entries t)
          ≡ some (true, n)
        → unmarked_size t.entries t ≡ some (true, n)
    plain true b u g = absurd (ground arith)
    plain false true u g = absurd (ground arith)
    plain false false u g = g

has_next-some :
    (n : ℤ) (es : List Entry) → rawgeti n es ≢ nil → (b : Bool) × (has_next n es ≡ some b)
unfolding has_next rawgeti
has_next-some n [] h = absurd (h refl)
has_next-some n ((k, v) ∷ es) h = elim (Bool-cases (key_is n k)) [
  | inl e ↦ (is_there es, rw e refl)
  | inr e ↦ let q = has_next-some n es (λ g. h (rw e g)) in (q.0, rw e q.1)
]

first_key-one :
    (k v : LuaValue) (es : List Entry)
    → (first_key k ==ℤ pos 1) ≡ true
    → rawgeti (pos 1) ((k, v) ∷ es) ≡ v
unfolding first_key rawgeti key_is
first_key-one (integer n) v es h = rw h refl
first_key-one k v es h = absurd (ground arith)

abbrev pub HoldNoNil : List Entry → Type 0
HoldNoNil [] = Unit
HoldNoNil ((k, v) ∷ es) = (v ≢ nil) × HoldNoNil es

-- What Lua's manual says of a table: it holds no nil, and its length is a border, 0 only where
-- nothing is at 1, and else a key at which something is.
pub record IsLuaTable (t : LuaTable) : Type 0 where
  pub full : HoldNoNil t.entries
  pub empty : t.rawlen ≡ 0 → rawgeti (pos 1) t.entries ≡ nil
  pub border : t.rawlen ≢ 0 → rawgeti (pos t.rawlen) t.entries ≢ nil

unmarked_size-Returns :
    (es : List Entry) (t : LuaTable)
    → t.entries ≡ es
    → IsLuaTable t
    → (o : Bool × ℕ) × (unmarked_size es t ≡ some o)
unfolding unmarked_size size_after_border
unmarked_size-Returns [] t e w = ((false, 0), refl)
unmarked_size-Returns ((k, v) ∷ es) t e w = elim (Bool-cases (leb_ℤ (first_key k) (pos 0))) [
  | inl a ↦ ((false, 0), rw a refl)
  | inr a ↦ elim (Bool-cases (first_key k ==ℤ pos 1)) [
    | inl b ↦
        sized
          (has_next-some (pos t.rawlen) t.entries (
            w.border (λ z.
              (subst HoldNoNil e w.full).0
                (sym (first_key-one k v es b) ∙ ap (rawgeti (pos 1)) (sym e) ∙ w.empty z))))
          a b
    | inr b ↦ (checked_size (first_key k) t, rw (a, b) refl)
  ]
]
  where
    sized :
        (c : Bool) × (has_next (pos t.rawlen) t.entries ≡ some c)
        → leb_ℤ (first_key k) (pos 0) ≡ false
        → (first_key k ==ℤ pos 1) ≡ true
        → (o : Bool × ℕ) × (unmarked_size ((k, v) ∷ es) t ≡ some o)
    sized (true, c) a b = ((false, 0), rw (a, b, c) refl)
    sized (false, c) a b = (checked_size (first_key k) t, rw (a, b, c) refl)

-- On a table of Lua the function raises no error.
pub array_size-Returns : (t : LuaTable) → IsLuaTable t → (o : Bool × ℕ) × (array_size t ≡ some o)
unfolding array_size
array_size-Returns t w = marked t.has_array t.has_object
  where
    marked :
        (a b : Bool)
        → (o : Bool × ℕ) × ((if a
              then some (true, t.rawlen)
              else if b
              then some (false, 0)
              else unmarked_size t.entries t)
            ≡ some o)
    marked true b = ((true, t.rawlen), refl)
    marked false true = ((false, 0), refl)
    marked false false = unmarked_size-Returns t.entries t refl w

-- ===== src/Sqlx/Params/Sound.antt =====
-- The JSON that crates/libs/lib-lualib/src/lua_sqlx.rs makes of a Lua value can be written as JSON:
-- its numbers are finite, its texts and names are UTF-8, and no object has two members of one name.
use lrust.Base.{
  ℕ, zero, suc, ◌≡◌, refl, ◌∙◌, Bool, true, false, ◌==◌, if◌then◌else◌, List, [], ◌∷◌, Option, none,
  some, inl, inr, Bool-cases,
}
use lrust.Base.Check.{same_bytes_comm}
use lrust.Base.Int.{ℤ}
use lrust.Base.Text.{Bytes, same_bytes, codes, to_string_ℤ}
use lrust.Lua.{
  LuaValue, nil, boolean, light_user_data, number, integer, string, table, Entry, LuaTable, Heap,
  array_size, array_values,
}
use lrust.Sqlx.Types.{JsonValue, JsonValues, JsonFields}
use lrust.Sqlx.Client.{Checked, good, bad}
use lrust.Sqlx.Options.{◌>>=◌}
use lrust.Sqlx.Params.{Platform, utf8_string, checked_text}
use lrust.Sqlx.Params.Json.{
  json_string, insert, key_text, value_to_json, elements_to_json, members_to_json, object_or_empty,
  sized_to_json, lua_table_to_json, lua_value_to_json,
}

-- No member of these has the name k.
abbrev pub IsNew : Bytes → JsonFields → Type 0
IsNew k JsonFields.end = Unit
IsNew k (JsonFields.field j v fs) = (same_bytes j k ≡ false) × IsNew k fs

-- A name of a member: UTF-8, or the decimal text of an integer.
pub data IsName (p : Platform) : Bytes → Type 0 where
  utf8_name : {k : Bytes} → p.utf8_error k ≡ none → IsName p k
  number_name : (n : ℤ) → IsName p (to_string_ℤ n)

mutual
  pub IsSound : Platform → JsonValue → Type 0
  IsSound p JsonValue.null = Unit
  IsSound p (JsonValue.boolean b) = Unit
  IsSound p (JsonValue.integer n) = Unit
  IsSound p (JsonValue.float x) = p.is_finite x ≡ true
  IsSound p (JsonValue.string s) = p.utf8_error s ≡ none
  IsSound p (JsonValue.array vs) = AreSound p vs
  IsSound p (JsonValue.object fs) = AreMembers p fs

  pub AreSound : Platform → JsonValues → Type 0
  AreSound p JsonValues.nil = Unit
  AreSound p (JsonValues.cons v vs) = IsSound p v × AreSound p vs

  pub AreMembers : Platform → JsonFields → Type 0
  AreMembers p JsonFields.end = Unit
  AreMembers p (JsonFields.field k v fs) =
      (IsName p k × IsNew k fs) × (IsSound p v × AreMembers p fs)

-- What a conversion gives, if it gives something, has the property.
abbrev pub IfGood : {A : Type 0} → (A → Type 0) → Checked A → Type 0
IfGood P (good a) = P a
IfGood P (bad e) = Unit

pub IfGood-bind :
    {A B : Type 0} (P : A → Type 0) (Q : B → Type 0) (m : Checked A) (f : A → Checked B)
    → IfGood P m
    → ((a : A) → P a → IfGood Q (f a))
    → IfGood Q (m >>= f)
unfolding ◌>>=◌
IfGood-bind P Q (good a) f h g = g a h
IfGood-bind P Q (bad e) f h g = tt

insert-IsNew :
    (j k : Bytes) (v : JsonValue) (fs : JsonFields)
    → same_bytes k j ≡ false
    → IsNew j fs
    → IsNew j (insert k v fs)
unfolding insert
insert-IsNew j k v JsonFields.end d h = (d, tt)
insert-IsNew j k v (JsonFields.field i x fs) d h = elim (Bool-cases (same_bytes i k)) [
  | inl e ↦ rw e h
  | inr e ↦ rw e (h.0, insert-IsNew j k v fs d h.1)
]

insert-AreMembers :
    (p : Platform) (k : Bytes) (v : JsonValue) (fs : JsonFields)
    → IsName p k
    → IsSound p v
    → AreMembers p fs
    → AreMembers p (insert k v fs)
unfolding insert IsSound
insert-AreMembers p k v JsonFields.end t h g = ((t, tt), (h, tt))
insert-AreMembers p k v (JsonFields.field i x fs) t h g = elim (Bool-cases (same_bytes i k)) [
  | inl e ↦ rw e (g.0, (h, g.1.1))
  | inr e ↦ rw e (
    (g.0.0, insert-IsNew i k v fs (same_bytes_comm k i ∙ e) g.0.1),
    (g.1.0, insert-AreMembers p k v fs t h g.1.1),
  )
]

text-IsSound :
    (p : Platform) (s context : Bytes) (o : Option Bytes)
    → p.utf8_error s ≡ o
    → IfGood (IsSound p) (json_string (checked_text s context o))
unfolding IsSound
text-IsSound p s context none e = e
text-IsSound p s context (some m) e = tt

module _ (p : Platform) where
  value_to_json-IsSound :
      (tables : ℕ → Checked JsonValue)
      → ((a : ℕ) → IfGood (IsSound p) (tables a))
      → (v : LuaValue) → IfGood (IsSound p) (value_to_json p tables v)
  unfolding value_to_json IsSound utf8_string
  value_to_json-IsSound tables h nil = tt
  value_to_json-IsSound tables h (boolean b) = tt
  value_to_json-IsSound tables h (integer n) = tt
  value_to_json-IsSound tables h (number x) = finite x (p.is_finite x) refl
    where
      finite :
          (x : ℕ) (b : Bool)
          → p.is_finite x ≡ b
          → IfGood
              (IsSound p)
              (if b then good (JsonValue.float x) else bad (codes "SQL JSON number must be finite"))
      finite x true e = e
      finite x false e = tt
  value_to_json-IsSound tables h (string s) =
      text-IsSound p s (codes "SQL JSON string") (p.utf8_error s) refl
  value_to_json-IsSound tables h (table a) = h a
  value_to_json-IsSound tables h (light_user_data a) = elim (Bool-cases (a == 0)) [
    | inl e ↦ rw e tt
    | inr e ↦ rw e tt
  ]
  value_to_json-IsSound tables h v = tt

  text-IsName :
      (s context : Bytes) (o : Option Bytes)
      → p.utf8_error s ≡ o
      → IfGood (IsName p) (checked_text s context o)
  text-IsName s context none e = utf8_name e
  text-IsName s context (some m) e = tt

  key_text-IsName : (k : LuaValue) → IfGood (IsName p) (key_text p k)
  unfolding key_text utf8_string
  key_text-IsName (string k) = text-IsName k (codes "SQL JSON object key") (p.utf8_error k) refl
  key_text-IsName (integer n) = number_name n
  key_text-IsName k = tt

  module _ (one : LuaValue → Checked JsonValue)
      (h : (v : LuaValue) → IfGood (IsSound p) (one v)) where
    elements_to_json-AreSound : (vs : List LuaValue) → IfGood (AreSound p) (elements_to_json one vs)
    unfolding elements_to_json AreSound
    elements_to_json-AreSound [] = tt
    elements_to_json-AreSound (v ∷ vs) =
        IfGood-bind (IsSound p) (AreSound p) (one v) _ (h v) (λ x g.
          IfGood-bind (AreSound p) (AreSound p) (elements_to_json one vs) _
            (elements_to_json-AreSound vs) (λ xs k. (g, k)))

    members_to_json-AreMembers :
        (es : List Entry) (fs : JsonFields)
        → AreMembers p fs
        → IfGood (AreMembers p) (members_to_json p one es fs)
    unfolding members_to_json
    members_to_json-AreMembers [] fs g = g
    members_to_json-AreMembers ((k, v) ∷ es) fs g =
        IfGood-bind (IsName p) (AreMembers p) (key_text p k) _ (key_text-IsName k) (λ n t.
          IfGood-bind (IsSound p) (AreMembers p) (one v) _ (h v) (λ x s.
            members_to_json-AreMembers es (insert n x fs) (insert-AreMembers p n x fs t s g)))

    sized_to_json-IsSound :
        (t : LuaTable) (n : Option (Bool × ℕ)) → IfGood (IsSound p) (sized_to_json p one t n)
    unfolding sized_to_json IsSound
    sized_to_json-IsSound t none = tt
    sized_to_json-IsSound t (some (true, n)) =
        IfGood-bind (AreSound p) (IsSound p) (elements_to_json one (array_values n 1 t)) _
          (elements_to_json-AreSound (array_values n 1 t)) (λ xs k. k)
    sized_to_json-IsSound t (some (false, n)) =
        IfGood-bind (AreMembers p) (IsSound p) (members_to_json p one t.entries JsonFields.end) _
          (members_to_json-AreMembers t.entries JsonFields.end tt) fields
      where
        fields : (fs : JsonFields) → AreMembers p fs → IsSound p (object_or_empty fs)
        fields JsonFields.end k = tt
        fields (JsonFields.field j v fs) k = k

  pub lua_table_to_json-IsSound :
      (h : Heap) (left a : ℕ) → IfGood (IsSound p) (lua_table_to_json p h left a)
  unfolding lua_table_to_json
  lua_table_to_json-IsSound h zero a = tt
  lua_table_to_json-IsSound h (suc left) a = elim (Bool-cases (p.has_room (suc left))) [
    | inl e ↦ rw e (
        sized_to_json-IsSound _
          (value_to_json-IsSound (lua_table_to_json p h left) (lua_table_to_json-IsSound h left))
          (h a) (array_size (h a)))
    | inr e ↦ rw e tt
  ]

  -- The JSON made of a Lua value, tables that hold themselves included, can be written as JSON: its
  -- numbers are finite, its texts and the names of its members are UTF-8 or the decimal texts of
  -- integers, and no object in it has two members of one name.
  pub lua_value_to_json-IsSound :
      (h : Heap) (left : ℕ) (v : LuaValue) → IfGood (IsSound p) (lua_value_to_json p h left v)
  unfolding lua_value_to_json
  lua_value_to_json-IsSound h left =
      value_to_json-IsSound (lua_table_to_json p h left) (lua_table_to_json-IsSound h left)

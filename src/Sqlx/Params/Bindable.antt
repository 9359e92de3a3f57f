-- ===== src/Sqlx/Params/Bindable.antt =====
-- What fits the type of a parameter in crates/libs/lib-lualib/src/lua_sqlx.rs, and the elements of
-- arrays, which fit.
use lrust.Base.{
  ℕ, suc, ◌^◌, ◌<◌, ◌≡◌, refl, Bool, true, false, not, ◌&&◌, leb, if◌then◌else◌, List, [], ◌∷◌,
  Option, none, some, inl, inr, Bool-cases, leb→le,
}
use lrust.Base.Int.{ℤ, pos, negsuc}
use lrust.Base.Text.{Bytes, codes}
use lrust.Lua.{LuaValue, integer, string, LuaTable, Heap, array_size, array_values, is_there}
use lrust.Sqlx.Types.{
  QueryParams, text_param, json_param, pg_int2_array, pg_int4_array, pg_text_array, pg_json_array,
  JsonValue,
}
use lrust.Sqlx.Client.{Checked, good, bad}
use lrust.Sqlx.Options.{◌>>=◌}
use lrust.Sqlx.Params.{Platform}
use lrust.Sqlx.Params.Json.{lua_value_to_json}
use lrust.Sqlx.Params.Arrays.{
  at_element, try_from, to_int, to_text, collect, collect_sized, collect_pg_array, gathered,
  if_valid, to_option, is_null,
}
use lrust.Sqlx.Params.Sound.{IsSound, IfGood, IfGood-bind, lua_value_to_json-IsSound}

abbrev pub AllSome : {A : Type 0} → (A → Type 0) → List (Option A) → Type 0
AllSome P [] = Unit
AllSome P (none ∷ xs) = AllSome P xs
AllSome P (some a ∷ xs) = P a × AllSome P xs

-- An integer from -limit to limit - 1.
abbrev pub IsWithin : ℕ → ℤ → Type 0
IsWithin limit (pos n) = n < limit
IsWithin limit (negsuc n) = n < limit

abbrev pub IsText : Platform → Bytes → Type 0
IsText p s = p.utf8_error s ≡ none

abbrev pub IsBindable : Platform → QueryParams → Type 0
IsBindable p (text_param s) = IsText p s
IsBindable p (json_param v) = IsSound p v
IsBindable p (pg_int2_array xs) = AllSome (IsWithin (2 ^ 15)) xs
IsBindable p (pg_int4_array xs) = AllSome (IsWithin (2 ^ 31)) xs
IsBindable p (pg_text_array xs) = AllSome (IsText p) xs
IsBindable p (pg_json_array xs) = AllSome (IsSound p) xs
IsBindable p q = Unit

-- What a conversion of an element gives has the property.
abbrev pub IfSome : {A : Type 0} → (A → Type 0) → Option A → Type 0
IfSome P none = Unit
IfSome P (some a) = P a

AllSome-cons :
    {A : Type 0} (P : A → Type 0) (x : Option A) (xs : List (Option A))
    → IfSome P x
    → AllSome P xs
    → AllSome P (x ∷ xs)
AllSome-cons P none xs h g = g
AllSome-cons P (some a) xs h g = (h, g)

element-IfSome :
    {A : Type 0} (P : A → Type 0) (i : ℕ) (expected : Bytes) (o : Option A)
    → IfSome P o
    → IfGood (IfSome P) (at_element i expected o >>= λ a. good (some a))
unfolding at_element ◌>>=◌
element-IfSome P i expected none h = tt
element-IfSome P i expected (some a) h = h

collect-AllSome :
    {A : Type 0} (P : A → Type 0) (expected : Bytes) (convert : LuaValue → Option A)
    → ((v : LuaValue) → IfSome P (convert v))
    → (i : ℕ) (vs : List LuaValue) → IfGood (AllSome P) (collect expected convert i vs)
unfolding collect
collect-AllSome P expected convert h i [] = tt
collect-AllSome P expected convert h i (v ∷ vs) =
    IfGood-bind (IfSome P) (AllSome P) _ _ (first (is_null v)) (λ x g.
      IfGood-bind (AllSome P) (AllSome P) (collect expected convert (suc i) vs) _
        (collect-AllSome P expected convert h (suc i) vs) (λ xs k. AllSome-cons P x xs g k))
  where
    first :
        (b : Bool)
        → IfGood
            (IfSome P)
            (if b then good none else (at_element i expected (convert v) >>= λ a. good (some a)))
    first true = tt
    first false = element-IfSome P i expected (convert v) (h v)

pub IfGood-if :
    {A : Type 0} (P : A → Type 0) (b : Bool) (x y : Checked A)
    → IfGood P x
    → IfGood P y
    → IfGood P (if b then x else y)
IfGood-if P true x y h g = h
IfGood-if P false x y h g = g

pub IfGood-any : {A : Type 0} (m : Checked A) → IfGood (λ a. Unit) m
IfGood-any (good a) = tt
IfGood-any (bad e) = tt

pub AllSome-any : {A : Type 0} (xs : List (Option A)) → AllSome (λ a. Unit) xs
AllSome-any [] = tt
AllSome-any (none ∷ xs) = AllSome-any xs
AllSome-any (some a ∷ xs) = (tt, AllSome-any xs)

pub to_int-IsWithin : (limit : ℕ) (v : LuaValue) → IfSome (IsWithin limit) (to_int limit v)
unfolding to_int try_from
to_int-IsWithin limit (integer (pos n)) = elim (Bool-cases (leb (suc n) limit)) [
  | inl e ↦ rw e (leb→le (suc n) limit e)
  | inr e ↦ rw e tt
]
to_int-IsWithin limit (integer (negsuc n)) = elim (Bool-cases (leb (suc n) limit)) [
  | inl e ↦ rw e (leb→le (suc n) limit e)
  | inr e ↦ rw e tt
]
to_int-IsWithin limit v = tt

module _ (p : Platform) (h : Heap) where
  pub to_text-IsText : (v : LuaValue) → IfSome (IsText p) (to_text p v)
  unfolding to_text
  to_text-IsText (string s) = valid s (p.utf8_error s) refl
    where
      valid :
          (s : Bytes) (o : Option Bytes)
          → p.utf8_error s ≡ o
          → IfSome (IsText p) (if_valid (some s) o)
      valid s none e = e
      valid s (some m) e = tt
  to_text-IsText v = tt

  pub to_json-IsSound : (v : LuaValue) → IfSome (IsSound p) (to_option (lua_value_to_json p h 64 v))
  to_json-IsSound v = kept (lua_value_to_json p h 64 v) (lua_value_to_json-IsSound p h 64 v)
    where
      kept : (m : Checked JsonValue) → IfGood (IsSound p) m → IfSome (IsSound p) (to_option m)
      kept (good x) g = g
      kept (bad e) g = tt

  pub gathered-IsBindable :
      {A : Type 0} (P : A → Type 0) (t : LuaTable) (param : List (Option A) → QueryParams)
      (expected : Bytes) (convert : LuaValue → Option A)
      → ((v : LuaValue) → IfSome P (convert v))
      → ((xs : List (Option A)) → AllSome P xs → IsBindable p (param xs))
      → IfGood (IsBindable p) (gathered p h t param expected convert)
  unfolding gathered collect_pg_array collect_sized
  gathered-IsBindable P t param expected convert each whole =
      IfGood-bind (AllSome P) (IsBindable p) (collect_sized p expected convert t (array_size t))
        (λ xs. good (param xs)) (sized (array_size t)) whole
    where
      sized : (n : Option (Bool × ℕ)) → IfGood (AllSome P) (collect_sized p expected convert t n)
      sized none = tt
      sized (some (is_array, n)) =
          IfGood-if (AllSome P) (not is_array && is_there t.entries)
            (bad (codes "sqlx.array values must be a Lua sequence"))
            (collect expected convert 1 (array_values n 1 t)) tt
            (collect-AllSome P expected convert each 1 (array_values n 1 t))

-- ===== src/Sqlx/Safe/Leaves.antt =====
-- What calls of crates/libs/lib-lualib/src/sqlx_lua.rs leave on the stack of their caller.
use mathlib.Core.Path.{subst}
use lrust.Base.{
  arith, length-drop, ℕ, suc, ◌+◌, ◌-◌, ◌≡◌, refl, ap, sym, ◌∙◌, Bool, true, false, List, [], ◌∷◌,
  ◌++◌, Option, none, some, length, drop, replicate, map, length-append, length-replicate,
  append_assoc,
}
use lrust.Base.Int.{ℤ}
use lrust.Sqlx.Safe.Calls.{input, push_inputs, adjusted, outcome, pcall, protect, dispatch}
use lrust.Lua.{nil, LuaValue, function, light_user_data}
use lrust.Sqlx.Safe.{
  value_at, Machine, Op, Environment, Exit, returned, unwound, Lua, ◌>>=◌, pure, checkstack,
  push_value, pop, and_then,
}

-- So many values above a stack on a return. On unwinding, the stack is still below what is there,
-- with the error on top where there is one.
unfoldable pub Kept : {A : Type 0} → ℕ → List LuaValue → Exit A → Type 0
Kept k s (returned a m) = (vs : List LuaValue) × (m.stack ≡ vs ++ s) × (length vs ≡ k)
Kept k s (unwound true m) = (e : LuaValue) × (vs : List LuaValue) × (m.stack ≡ e ∷ (vs ++ s))
Kept k s (unwound false m) = (vs : List LuaValue) × (m.stack ≡ vs ++ s)

-- A computation leaves k values above the stack that it finds.
unfoldable pub Leaves : {A : Type 0} → ℕ → Lua A → Type 0
unfolding Kept
Leaves k x = (m : Machine) → Kept k m.stack (x m)

-- A stack above a stack above s is above s.
onto :
    {t u : List LuaValue} (s ws vs : List LuaValue)
    → u ≡ ws ++ t
    → t ≡ vs ++ s
    → u ≡ (ws ++ vs) ++ s
onto s ws vs f e = f ∙ ap (λ (t : List LuaValue). ws ++ t) e ∙ sym (append_assoc ws vs s)

-- The same, of a computation that takes j values off the stack that it finds.
unfoldable pub Takes : {A : Type 0} → ℕ → ℕ → Lua A → Type 0
unfolding Kept
Takes j k x =
    (m : Machine) (vs s : List LuaValue) → m.stack ≡ vs ++ s → length vs ≡ j → Kept k s (x m)

Kept-below :
    {A : Type 0} (j k : ℕ) (s t vs : List LuaValue) (r : Exit A)
    → t ≡ vs ++ s
    → length vs ≡ j
    → Kept k t r
    → Kept (k + j) s r
unfolding Kept
Kept-below j k s t vs (returned a m) e l (ws, f, n) =
    (ws ++ vs, onto s ws vs f e, omega (arith, length-append ws vs))
Kept-below j k s t vs (unwound true m) e l (x, ws, f) =
    (x, ws ++ vs, f ∙ ap (λ (t : List LuaValue). x ∷ t) (onto s ws vs refl e))
Kept-below j k s t vs (unwound false m) e l (ws, f) = (ws ++ vs, onto s ws vs f e)

pub Leaves-Takes : {A : Type 0} (j k : ℕ) (x : Lua A) → Leaves k x → Takes j (k + j) x
unfolding Leaves Takes
Leaves-Takes j k x h m vs s e l = Kept-below j k s m.stack vs (x m) e l (h m)

pub Takes-Leaves : {A : Type 0} (k : ℕ) (x : Lua A) → Takes 0 k x → Leaves k x
unfolding Leaves Takes
Takes-Leaves k x h m = h m [] m.stack refl refl

Kept-bind :
    {A B : Type 0} (i j k : ℕ) (s t vs : List LuaValue) (r : Exit A) (f : A → Lua B)
    → t ≡ vs ++ s
    → length vs ≡ j
    → Kept i t r
    → ((a : A) → Takes (i + j) k (f a))
    → Kept k s (and_then r f)
unfolding Kept Takes
Kept-bind i j k s t vs (returned a m) f e l (ws, g, n) h =
    h a m (ws ++ vs) s (onto s ws vs g e) (omega (arith, length-append ws vs))
Kept-bind {B = B} i j k s t vs (unwound true m) f e l p h =
    Kept-below {A = B} j k s t vs (unwound true m) e l p
Kept-bind {B = B} i j k s t vs (unwound false m) f e l p h =
    Kept-below {A = B} j k s t vs (unwound false m) e l p

pub bind-Takes :
    {A B : Type 0} (i j k : ℕ) (x : Lua A) (f : A → Lua B)
    → Leaves i x
    → ((a : A) → Takes (i + j) k (f a))
    → Takes j k (x >>= f)
unfolding Leaves Takes ◌>>=◌
bind-Takes i j k x f g h m vs s e l = Kept-bind i j k s m.stack vs (x m) f e l (g m) h

pub pure-Leaves : {A : Type 0} (a : A) → Leaves 0 (pure a)
unfolding Leaves Kept pure
pure-Leaves a m = ([], refl, refl)

checkstack-cases :
    (env : Environment) (n : ℕ) (m : Machine) (b : Bool)
    → Kept 0 m.stack (elim b as (λ b. Exit Unit) [ true ↦ returned tt m | false ↦ unwound false m ])
unfolding Kept
checkstack-cases env n m true = ([], refl, refl)
checkstack-cases env n m false = ([], refl)

pub checkstack-Leaves : (env : Environment) (n : ℕ) → Leaves 0 (checkstack env n)
unfolding Leaves checkstack
checkstack-Leaves env n m = checkstack-cases env n m (env.has_room m n)

pub push_value-Leaves : (v : LuaValue) → Leaves 1 (push_value v)
unfolding Leaves Kept push_value
push_value-Leaves v m = (v ∷ [], refl, refl)

pub drop-length : (vs s : List LuaValue) → drop (length vs) (vs ++ s) ≡ s
drop-length [] s = refl
drop-length (v ∷ vs) s = drop-length vs s

pub pop-Takes : (n : ℕ) → Takes n 0 (pop n)
unfolding Takes Kept pop
pop-Takes n m vs s e l = ([], rw (e, sym l, drop-length vs s), refl)

pub push_inputs-Leaves : (vs : List LuaValue) → Leaves (length vs) (push_inputs vs)
unfolding push_inputs
push_inputs-Leaves [] = pure-Leaves tt
push_inputs-Leaves (v ∷ vs) =
    let more : Leaves (length vs) (push_inputs vs) = push_inputs-Leaves vs in
    let rest : (u : Unit {0}) → Takes 1 (suc (length vs)) (push_inputs vs) = λ u.
      subst (λ n. Takes 1 n (push_inputs vs)) (omega arith)
        (Leaves-Takes 1 (length vs) (push_inputs vs) more) in
    Takes-Leaves (suc (length vs)) (push_value v >>= λ u. push_inputs vs) (
      bind-Takes 1 0 (suc (length vs)) (push_value v) (λ u. push_inputs vs) (push_value-Leaves v)
        rest)

length-adjusted : (k : ℕ) (vs : List LuaValue) → length (adjusted (some k) vs) ≡ k
length-adjusted k vs = omega (
  arith,
  length-drop (length vs - k) (replicate (k - length vs) nil ++ vs),
  length-append (replicate (k - length vs) nil) vs,
  length-replicate (k - length vs) nil,
)

outcome-Kept :
    (env : Environment) (op : Op) (t x : LuaValue) (k : ℕ) (rest : List LuaValue) (m : Machine)
    (e : Option LuaValue)
    → Kept k rest (outcome env op t x (some k) rest m e)
unfolding Kept dispatch
outcome-Kept env op t x k rest m (some e) = (e, [], refl)
outcome-Kept env op t x k rest m none = (_, refl, length-adjusted k _)

pcall-Takes : (env : Environment) (op : Op) (n k : ℕ) → Takes (n + 2) k (pcall env op n (some k))
unfolding Takes pcall
pcall-Takes env op n k m vs s e l =
    let dropped : drop (n + 2) m.stack ≡ s = rw (e, sym l, drop-length vs s) in
    subst (λ rest. Kept k rest (pcall env op n (some k) m)) dropped
      (outcome-Kept env op (input (n - 1) m.stack) (input (n - 2) m.stack) k (drop (n + 2) m.stack)
        m (env.raises m op))

length-map : (f : ℤ → LuaValue) (is : List ℤ) → length (map f is) ≡ length is
length-map f [] = refl
length-map f (i ∷ is) = ap suc (length-map f is)

pub protect-Leaves :
    (env : Environment) (op : Op) (is : List ℤ) (k : ℕ) → Leaves k (protect env op is (some k))
unfolding Leaves protect Takes
protect-Leaves env op is k m =
    let vs = map (λ i. value_at i m) is in
    let inputs : Leaves (length is) (push_inputs vs) =
      subst (λ n. Leaves n (push_inputs vs)) (length-map (λ i. value_at i m) is)
        (push_inputs-Leaves vs) in
    bind-Takes 0 0 k (checkstack env (length is + 4)) _ (checkstack-Leaves env (length is + 4))
      (λ u. bind-Takes 1 0 k (push_value (function 0)) _ (push_value-Leaves (function 0)) (λ u.
        bind-Takes 1 1 k (push_value (light_user_data 1)) _ (push_value-Leaves (light_user_data 1))
          (λ u.
            bind-Takes (length is) 2 k (push_inputs vs) (λ u. pcall env op (length is) (some k))
              inputs (λ u. pcall-Takes env op (length is) k))))
      m [] m.stack refl refl

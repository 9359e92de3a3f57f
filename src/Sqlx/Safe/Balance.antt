-- ===== src/Sqlx/Safe/Balance.antt =====
-- The stack after each operation of `OutputTable` and each read of `TableRead` in
-- crates/libs/lib-lualib/src/sqlx_lua.rs.
use lrust.Base.{
  ℕ, ◌+◌, ◌-◌, ◌≡◌, refl, ap, ◌∙◌, arith, true, false, List, [], ◌∷◌, ◌++◌, some, length,
  length-append, drop, replicate,
}
use lrust.Base.Int.{ℤ}
use lrust.Lua.{LuaValue, nil, string}
use lrust.Sqlx.Safe.{
  push_op, table_op, insert_op, set_value_op, set_index_op, get_op, shape_op, Environment, Exit,
  returned, unwound, Lua, ◌>>=◌, checkstack, push_value, settop, value_at,
}
use lrust.Sqlx.Safe.Calls.{protect}
use lrust.Sqlx.Safe.Leaves.{
  Kept, Leaves, Takes, Leaves-Takes, Takes-Leaves, bind-Takes, pure-Leaves, checkstack-Leaves,
  push_value-Leaves, pop-Takes, protect-Leaves, drop-length,
}
use lrust.Sqlx.Safe.Tables.{
  top_index, push, new, insert, insert_x, rawseti, restore, scoped, raw_get, array_shape,
}

-- A computation and another that takes what it leaves.
after-Leaves :
    {A B : Type 0} (i k : ℕ) (x : Lua A) (f : A → Lua B)
    → Leaves i x
    → ((a : A) → Takes (i + 0) k (f a))
    → Leaves k (x >>= f)
after-Leaves i k x f g h = Takes-Leaves k (x >>= f) (bind-Takes i 0 k x f g h)

-- The stack is as it was when its height is again.
settop-above :
    (vs s t : List LuaValue)
    → t ≡ vs ++ s
    → replicate (length s - length t) nil ++ drop (length t - length s) t ≡ s
settop-above vs s t e =
    let size : length t ≡ length vs + length s = ap length e ∙ length-append vs s in
    let none_below : length s - length t ≡ 0 = omega arith in
    let above : length t - length s ≡ length vs = omega arith in
    rw (none_below, above, e, drop-length vs s)

restore-Kept :
    {A : Type 0} (k : ℕ) (s : List LuaValue) (r : Exit A)
    → Kept k s r
    → Kept 0 s (restore (length s) r)
unfolding Kept settop
restore-Kept k s (returned a m) (vs, e, l) = ([], settop-above vs s m.stack e, refl)
restore-Kept k s (unwound true m) p = p
restore-Kept k s (unwound false m) p = p

scoped-Leaves : {A : Type 0} (k : ℕ) (body : Lua A) → Leaves k body → Leaves 0 (scoped body)
unfolding Leaves scoped
scoped-Leaves k body h m = restore-Kept k m.stack (body m) (h m)

raw_get-Leaves :
    {A : Type 0} (env : Environment) (i : ℤ) (key : LuaValue) (j : ℕ) (read : LuaValue → Lua A)
    → ((v : LuaValue) → Leaves j (read v))
    → Leaves 0 (raw_get env i key read)
unfolding raw_get Takes
raw_get-Leaves env i key j read h =
    let op = get_op key in
    scoped-Leaves (j + 1) _ (
      after-Leaves 1 (j + 1) (protect env op (i ∷ []) (some 1)) _ (protect-Leaves env op (i ∷ []) 1)
        (λ r m. Leaves-Takes 1 j (read (value_at top_index m)) (h (value_at top_index m)) m))

insert_x-Leaves :
    (env : Environment) (i : ℤ) (k : LuaValue) (body : Lua Unit)
    → Leaves 1 body
    → Leaves 0 (insert_x env i k body)
unfolding insert_x
insert_x-Leaves env i k body h =
    let set = set_value_op k in
    after-Leaves 1 0 body _ h (λ u.
      bind-Takes 0 1 0 (protect env set (i ∷ top_index ∷ []) (some 0)) _
        (protect-Leaves env set (i ∷ top_index ∷ []) 0) (λ r. pop-Takes 1))

rawseti-Takes : (env : Environment) (i : ℤ) (n : ℕ) → Takes 1 0 (rawseti env i n)
unfolding rawseti
rawseti-Takes env i n =
    let set = set_index_op n in
    bind-Takes 0 1 0 (protect env set (i ∷ top_index ∷ []) (some 0)) _
      (protect-Leaves env set (i ∷ top_index ∷ []) 0) (λ r. pop-Takes 1)

insert-Leaves : (env : Environment) (i : ℤ) (k v : LuaValue) → Leaves 0 (insert env i k v)
unfolding insert
insert-Leaves env i k v =
    after-Leaves 0 0 (protect env (insert_op k v) (i ∷ []) (some 0)) _
      (protect-Leaves env (insert_op k v) (i ∷ []) 0) (λ r. Leaves-Takes 0 0 _ (pure-Leaves tt))

array_shape-Leaves : (env : Environment) (i : ℤ) → Leaves 0 (array_shape env i)
unfolding array_shape
array_shape-Leaves env i =
    after-Leaves 0 0 (protect env shape_op (i ∷ []) (some 0)) _
      (protect-Leaves env shape_op (i ∷ []) 0) (λ r. Leaves-Takes 0 0 _ (pure-Leaves _))

new-Leaves : (env : Environment) → Leaves 1 (new env)
unfolding new Takes Kept
new-Leaves env =
    after-Leaves 1 1 (protect env table_op [] (some 1)) _ (protect-Leaves env table_op [] 1)
      (λ r m vs s e l. (vs, e, l))

push_scalar-Leaves :
    (env : Environment) (v : LuaValue) → Leaves 1 (checkstack env 1 >>= λ u. push_value v)
push_scalar-Leaves env v =
    after-Leaves 0 1 (checkstack env 1) _ (checkstack-Leaves env 1)
      (λ u. Leaves-Takes 0 1 _ (push_value-Leaves v))

push-Leaves : (env : Environment) (v : LuaValue) → Leaves 1 (push env v)
unfolding push
push-Leaves env (string x) =
    after-Leaves 1 1 (protect env (push_op (string x)) [] (some 1)) _
      (protect-Leaves env (push_op (string x)) [] 1) (λ r. Leaves-Takes 1 0 _ (pure-Leaves tt))
push-Leaves env v = push_scalar-Leaves env v

-- Whatever the environment answers, a push and a new table leave one value, and an insertion, the
-- shape of a table and a read with its scope leave none; `rawseti` takes the value that it stores.
-- The values that the caller had are below it. They are also there when the operation unwinds, below
-- the error where one is on the stack. The code that an insertion or a read is given has to keep its
-- caller's values likewise, and leaves one value above them for an insertion.
pub operations-Leaves :
    {A : Type 0} (env : Environment) (i : ℤ) (k v : LuaValue) (n j : ℕ) (body : Lua Unit)
    (read : LuaValue → Lua A)
    → Leaves 1 body
    → ((x : LuaValue) → Leaves j (read x))
    → Leaves 1 (push env v)
      × Leaves 1 (new env)
      × Leaves 0 (insert env i k v)
      × Leaves 0 (insert_x env i k body)
      × Takes 1 0 (rawseti env i n)
      × Leaves 0 (array_shape env i)
      × Leaves 0 (raw_get env i k read)
operations-Leaves env i k v n j body read f g = (
  push-Leaves env v,
  new-Leaves env,
  insert-Leaves env i k v,
  insert_x-Leaves env i k body f,
  rawseti-Takes env i n,
  array_shape-Leaves env i,
  raw_get-Leaves env i k j read g,
)

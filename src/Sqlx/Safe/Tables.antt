-- ===== src/Sqlx/Safe/Tables.antt =====
-- `push`, `OutputTable`, `StackScope`, `TableRead`, `Pairs` and `Values` of
-- crates/libs/lib-lualib/src/sqlx_lua.rs.
--
-- A value that is read is used while its scope lives, so a read takes the code that uses it.
use lrust.Base.{
  ℕ, suc, ◌+◌, ◌-◌, ◌==◌, Bool, true, false, [], ◌∷◌, ◌++◌, Option, none, some, take, drop,
}
use lrust.Base.Int.{ℤ, pos, negsuc}
use lrust.Lua.{LuaValue, nil, integer, string}
use lrust.Sqlx.Safe.{
  Machine, push_op, table_op, insert_op, set_value_op, set_index_op, get_op, meta_op, shape_op,
  next_op, Environment, Exit, returned, unwound, Lua, ◌>>=◌, pure, height, with_stack, checkstack,
  push_value, settop, pop, value_at,
}
use lrust.Sqlx.Safe.Calls.{Report, shape, more, get_entry, entries_of, protect}

abbrev pub top_index : ℤ
top_index = negsuc 0

-- `push`: a string allocates.
unfoldable pub push : Environment → LuaValue → Lua Unit
unfolding protect checkstack push_value ◌>>=◌ pure
push env (string s) = protect env (push_op (string s)) [] (some 1) >>= λ r. pure tt
push env v = checkstack env 1 >>= λ u. push_value v

-- `OutputTable`: the table's index. Its operations are from `new` on.
unfoldable pub new : Environment → Lua ℤ
unfolding protect ◌>>=◌
new env = protect env table_op [] (some 1) >>= λ r m. returned (pos (height m)) m

unfoldable pub insert : Environment → ℤ → LuaValue → LuaValue → Lua Unit
unfolding protect ◌>>=◌ pure
insert env i k v = protect env (insert_op k v) (i ∷ []) (some 0) >>= λ r. pure tt

unfoldable pub insert_x : Environment → ℤ → LuaValue → Lua Unit → Lua Unit
unfolding protect pop ◌>>=◌
insert_x env i k body =
    body >>= λ u. protect env (set_value_op k) (i ∷ top_index ∷ []) (some 0) >>= λ r. pop 1

unfoldable pub rawseti : Environment → ℤ → ℕ → Lua Unit
unfolding protect pop ◌>>=◌
rawseti env i n = protect env (set_index_op n) (i ∷ top_index ∷ []) (some 0) >>= λ r. pop 1

-- `StackScope`: the stack's height again on an ordinary exit.
abbrev pub restore : {A : Type 0} → ℕ → Exit A → Exit A
unfolding settop
restore n (returned a m) = elim (settop n m) [
  | returned u after ↦ returned a after
  | unwound e after ↦ unwound e after
]
restore n (unwound e m) = unwound e m

unfoldable pub scoped : {A : Type 0} → Lua A → Lua A
unfolding settop
scoped body m = restore (height m) (body m)

unfoldable pub raw_get : {A : Type 0} → Environment → ℤ → LuaValue → (LuaValue → Lua A) → Lua A
unfolding protect scoped value_at ◌>>=◌
raw_get env i k read =
    scoped (protect env (get_op k) (i ∷ []) (some 1) >>= λ r m. read (value_at top_index m) m)

-- A field that is nil ends its scope at once.
abbrev when_field : {A : Type 0} → ℕ → (Option LuaValue → Lua A) → LuaValue → Lua A
unfolding settop ◌>>=◌
when_field top read nil m = (settop top >>= λ u. read none) m
when_field top read v m = restore top (read (some v) m)

unfoldable pub meta_field : {A : Type 0} → Environment → ℤ → (Option LuaValue → Lua A) → Lua A
unfolding protect settop value_at ◌>>=◌
meta_field env i read m =
    (protect env meta_op (i ∷ []) (some 1) >>= λ r n.
    when_field (height m) read (value_at top_index n) n)
      m

abbrev shape_in : Report → Bool × ℕ
shape_in (shape (some s)) = s
shape_in r = (false, 0)

unfoldable pub array_shape : Environment → ℤ → Lua (Bool × ℕ)
unfolding protect ◌>>=◌ pure
array_shape env i = protect env shape_op (i ∷ []) (some 0) >>= λ r. pure (shape_in r)

-- `Pairs` and `Values`, with the height of their scope.
pub record Pairs : Type 0 where
  pub pairs_table : ℤ
  pub scope_top : ℕ
  pub is_done : Bool

unfoldable pub pairs : Environment → ℤ → Lua Pairs
unfolding checkstack push_value ◌>>=◌
pairs env i = checkstack env 3 >>= λ u m.
    (push_value nil >>= λ v.
    returned (record { pairs_table = i; scope_top = height m; is_done = false }))
      m

-- `lua_remove`.
unfoldable pub remove : ℕ → Lua Unit
remove i m =
    let d = height m - i in returned tt (with_stack (take d m.stack ++ drop (suc d) m.stack) m)

abbrev pub Next : Type 0
Next = Option (LuaValue × LuaValue) × Pairs

abbrev pub found_pair : Pairs → Report → Lua Next
unfolding remove value_at ◌>>=◌
found_pair p (more true) = remove (p.scope_top + 1) >>= λ u m.
    returned (some (value_at (negsuc 1) m, value_at top_index m), p) m
found_pair p r = returned (none, record p { is_done = true })

unfoldable pub next_pair : Environment → Pairs → Lua Next
unfolding protect settop ◌>>=◌ pure
next_pair env p = elim p.is_done [
  | true ↦ pure (none, p)
  | false ↦ settop (p.scope_top + 1) >>= λ u.
      protect env next_op (p.pairs_table ∷ top_index ∷ []) none >>= found_pair p
]

pub record Values : Type 0 where
  pub values_table : ℤ
  pub values_top : ℕ
  pub position : ℕ
  pub len : ℕ

unfoldable pub values : Environment → ℤ → ℕ → Lua Values
unfolding checkstack ◌>>=◌
values env i n = checkstack env 1 >>= λ u m.
    returned (record { values_table = i; values_top = height m; position = 0; len = n }) m

-- `lua_rawgeti`.
abbrev pub item : ℤ → ℕ → Machine → LuaValue
unfolding get_entry value_at
item i n m = get_entry (integer (pos n)) (entries_of (value_at i m) m)

unfoldable pub next_value : Environment → Values → Lua (Option LuaValue × Values)
unfolding settop push_value value_at get_entry ◌>>=◌
next_value env p = settop p.values_top >>= λ u m. elim (p.position == p.len) [
  | true ↦ returned (none, p) m
  | false ↦
      let v = item p.values_table (suc p.position) m in
      (push_value v >>= λ w. returned (some v, record p { position = suc p.position })) m
]

-- ===== src/Sqlx/Safe.antt =====
-- crates/libs/lib-lualib/src/sqlx_lua.rs: the Lua operations that may raise an error, each in a
-- protected call, so that no error jumps over Rust's destructors.
--
-- A stack is a list with its top first. Whether Lua has room on its stack, and whether an operation
-- fails and with what error, is up to the environment, a function of the whole state. A userdata is
-- not modelled.
pub mod Calls
pub mod Tables
pub mod Leaves
pub mod Balance
mod Tests
use lrust.Base.{ℕ, ◌-◌, Bool, true, false, List, ◌∷◌, ◌++◌, Option, length, get_or, drop, replicate}
use lrust.Base.Int.{ℤ, pos, negsuc}
use lrust.Lua.{LuaValue, absent, nil, Entry, Heap}

pub record Machine : Type 0 where
  pub stack : List LuaValue
  pub heap : Heap
  pub next_address : ℕ

-- The operations of `dispatch`; the inputs are the table, and the value or key above it.
pub data Op : Type 0 where
  push_op : LuaValue → Op
  table_op : Op
  insert_op : LuaValue → LuaValue → Op
  set_value_op : LuaValue → Op
  set_index_op : ℕ → Op
  get_op : LuaValue → Op
  meta_op : Op
  shape_op : Op
  next_op : Op

-- Room for so many values; the error that an operation raises; the length that Lua answers for a
-- table with these entries.
pub record Environment : Type 0 where
  pub has_room : Machine → ℕ → Bool
  pub raises : Machine → Op → Option LuaValue
  pub border : List Entry → ℕ

-- A call returns, or unwinds as a `LuaFailure`, with the error on top of the stack or without one.
pub data Exit (A : Type 0) : Type 0 where
  returned : A → Machine → Exit A
  unwound : Bool → Machine → Exit A

abbrev pub Lua : Type 0 → Type 0
Lua A = Machine → Exit A

abbrev pub and_then : {A B : Type 0} → Exit A → (A → Lua B) → Exit B
and_then (returned a m) f = f a m
and_then (unwound e m) f = unwound e m

infixl 5 ◌>>=◌
unfoldable pub ◌>>=◌ : {A B : Type 0} → Lua A → (A → Lua B) → Lua B
(x >>= f) m = and_then (x m) f

unfoldable pub pure : {A : Type 0} → A → Lua A
pure a m = returned a m

abbrev pub height : Machine → ℕ
height m = length m.stack

abbrev pub with_stack : List LuaValue → Machine → Machine
with_stack s m = record m { stack = s }

-- `checkstack`.
unfoldable pub checkstack : Environment → ℕ → Lua Unit
checkstack env n m = elim (env.has_room m n) [ true ↦ returned tt m | false ↦ unwound false m ]

unfoldable pub push_value : LuaValue → Lua Unit
push_value v m = returned tt (with_stack (v ∷ m.stack) m)

-- `lua_settop`: nil in the places above a lower stack.
unfoldable pub settop : ℕ → Lua Unit
settop n m =
    let kept = drop (height m - n) m.stack in
    returned tt (with_stack (replicate (n - height m) nil ++ kept) m)

unfoldable pub pop : ℕ → Lua Unit
pop n m = returned tt (with_stack (drop n m.stack) m)

-- The value at an index from the bottom, or below zero from the top.
unfoldable pub value_at : ℤ → Machine → LuaValue
value_at (pos i) m = get_or m.stack (height m - i) absent
value_at (negsuc k) m = get_or m.stack k absent

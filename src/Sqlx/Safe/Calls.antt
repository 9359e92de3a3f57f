-- ===== src/Sqlx/Safe/Calls.antt =====
-- `dispatch` and `protect` of crates/libs/lib-lualib/src/sqlx_lua.rs.
use lrust.Base.{
  ℕ, suc, ◌+◌, ◌-◌, ◌==◌, Bool, true, false, if◌then◌else◌, List, [], ◌∷◌, ◌++◌, Option, none, some,
  length, get_or, drop, replicate, map,
}
use lrust.Base.Int.{ℤ, pos, ◌==ℤ◌}
use lrust.Base.Text.{same_bytes}
use lrust.Lua.{
  LuaValue, absent, nil, boolean, number, integer, string, table, function, light_user_data, Entry,
  LuaTable, Heap, array_size,
}
use lrust.Sqlx.Safe.{
  Machine, Op, push_op, table_op, insert_op, set_value_op, set_index_op, get_op, meta_op, shape_op,
  next_op, Environment, Exit, returned, unwound, Lua, ◌>>=◌, pure, with_stack, checkstack,
  push_value, value_at,
}

unfoldable pub same_value : LuaValue → LuaValue → Bool
same_value (integer a) (integer b) = a ==ℤ b
same_value (string a) (string b) = same_bytes a b
same_value (number a) (number b) = a == b
same_value (boolean true) (boolean true) = true
same_value (boolean false) (boolean false) = true
same_value (table a) (table b) = a == b
same_value a b = false

-- `lua_rawget` and `lua_rawset` of a value that is not nil.
unfoldable pub get_entry : LuaValue → List Entry → LuaValue
unfolding same_value
get_entry k [] = nil
get_entry k ((j, v) ∷ es) = let rest = get_entry k es in if same_value j k then v else rest

unfoldable pub set_entry : LuaValue → LuaValue → List Entry → List Entry
unfolding same_value
set_entry k v [] = (k, v) ∷ []
set_entry k v ((j, x) ∷ es) =
    let rest = set_entry k v es in if same_value j k then (j, v) ∷ es else (j, x) ∷ rest

abbrev first : List Entry → List LuaValue
first [] = []
first ((k, v) ∷ es) = v ∷ k ∷ []

-- The entry after the key k, its value on top; nothing at the end. A key that the table does not have
-- is an error of `lua_next`, one of those that the environment raises.
unfoldable pub next_entry : LuaValue → List Entry → List LuaValue
unfolding same_value
next_entry nil es = first es
next_entry k [] = []
next_entry k ((j, v) ∷ es) = let rest = next_entry k es in if same_value j k then first es else rest

unfoldable pub update : ℕ → LuaTable → Heap → Heap
update a t h b = if b == a then t else h b

-- What an operation reports beside the values that it leaves.
pub data Report : Type 0 where
  nothing : Report
  shape : Option (Bool × ℕ) → Report
  more : Bool → Report

-- The values left, top first, and the tables after it.
pub record Done : Type 0 where
  pub results : List LuaValue
  pub after : Machine
  pub report : Report

abbrev leaving : List LuaValue → Machine → Done
leaving vs m = record { results = vs; after = m; report = nothing }

abbrev set_in : Environment → LuaValue → LuaValue → LuaValue → Machine → Machine
set_in env (table a) k v m =
    let es = set_entry k v ((m.heap a).entries) in
    record m { heap = update a (record (m.heap a) { entries = es; rawlen = env.border es }) m.heap }
set_in env t k v m = m

abbrev pub entries_of : LuaValue → Machine → List Entry
entries_of (table a) m = (m.heap a).entries
entries_of t m = []

abbrev shape_of : LuaValue → Machine → Option (Bool × ℕ)
shape_of (table a) m = array_size (m.heap a)
shape_of t m = some (false, 0)

abbrev mark_of : LuaValue → Machine → LuaValue
mark_of (table a) m = if (m.heap a).has_sqlx_array then boolean true else nil
mark_of t m = nil

abbrev is_more : List LuaValue → Bool
is_more [] = false
is_more (v ∷ vs) = true

abbrev empty_table : Environment → LuaTable
empty_table env = record {
  entries = [];
  rawlen = env.border [];
  has_array = false;
  has_object = false;
  has_redis = false;
  has_sqlx_array = false;
}

-- An operation that does not fail, on its table and the other input.
unfoldable pub dispatch : Environment → Op → LuaValue → LuaValue → Machine → Done
unfolding update set_entry get_entry next_entry
dispatch env (push_op v) t x m = leaving (v ∷ []) m
dispatch env table_op t x m = leaving (table m.next_address ∷ []) (record m {
  heap = update m.next_address (empty_table env) m.heap;
  next_address = suc m.next_address;
})
dispatch env (insert_op k v) t x m = leaving [] (set_in env t k v m)
dispatch env (set_value_op k) t x m = leaving [] (set_in env t k x m)
dispatch env (set_index_op i) t x m = leaving [] (set_in env t (integer (pos i)) x m)
dispatch env (get_op k) t x m = leaving (get_entry k (entries_of t m) ∷ []) m
dispatch env meta_op t x m = leaving (mark_of t m ∷ []) m
dispatch env shape_op t x m = record { results = []; after = m; report = shape (shape_of t m) }
dispatch env next_op t x m =
    let vs = next_entry x (entries_of t m) in
    record { results = vs; after = m; report = more (is_more vs) }

-- `lua_pcall` with `n` inputs above the function and the operation: `results` values are wanted, or
-- all.
abbrev pub adjusted : Option ℕ → List LuaValue → List LuaValue
adjusted none vs = vs
adjusted (some n) vs = drop (length vs - n) (replicate (n - length vs) nil ++ vs)

abbrev pub input : ℕ → List LuaValue → LuaValue
input n s = get_or s n absent

abbrev pub finish : Option ℕ → List LuaValue → Done → Exit Report
finish wanted rest d = returned d.report (with_stack (adjusted wanted d.results ++ rest) d.after)

abbrev pub outcome :
    Environment
    → Op
    → LuaValue
    → LuaValue
    → Option ℕ
    → List LuaValue
    → Machine
    → Option LuaValue
    → Exit Report
outcome env op t x wanted rest m (some e) = unwound true (with_stack (e ∷ rest) m)
outcome env op t x wanted rest m none = finish wanted rest (dispatch env op t x m)

unfoldable pub pcall : Environment → Op → ℕ → Option ℕ → Lua Report
unfolding dispatch
pcall env op n wanted m =
    outcome env op (input (n - 1) m.stack) (input (n - 2) m.stack) wanted (drop (n + 2) m.stack) m
      (env.raises m op)

-- The values at these indices of a stack, pushed in turn.
unfoldable pub push_inputs : List LuaValue → Lua Unit
unfolding push_value ◌>>=◌ pure
push_inputs [] = pure tt
push_inputs (v ∷ vs) = push_value v >>= λ u. push_inputs vs

unfoldable pub protect : Environment → Op → List ℤ → Option ℕ → Lua Report
unfolding checkstack push_value push_inputs pcall value_at ◌>>=◌
protect env op inputs wanted m =
    (checkstack env (length inputs + 4) >>= λ u. push_value (function 0) >>= λ u.
    push_value (light_user_data 1) >>= λ u.
    push_inputs (map (λ i. value_at i m) inputs) >>= λ u. pcall env op (length inputs) wanted)
      m

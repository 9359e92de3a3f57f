-- ===== src/Lua.antt =====
-- The Lua values and tables that crates/libs/lib-lua-sys/src/laux.rs hands to the sources.
--
-- Lua itself is not modelled: a table is what its API tells of it.
pub mod Size
mod Tests
use lrust.Base.{
  ℕ, zero, suc, Bool, true, false, ◌&&◌, if◌then◌else◌, List, [], ◌∷◌, Option, none, some,
}
use lrust.Base.Int.{ℤ, pos, ◌==ℤ◌, leb_ℤ, ltb_ℤ}
use lrust.Base.Text.{Bytes, codes}

-- A float is its bit pattern. A table is its address, since tables are shared and may hold
-- themselves; other references are addresses too, of which the sources only test for null.
pub data LuaValue : Type 0 where
  absent : LuaValue
  nil : LuaValue
  boolean : Bool → LuaValue
  light_user_data : ℕ → LuaValue
  number : ℕ → LuaValue
  integer : ℤ → LuaValue
  string : Bytes → LuaValue
  table : ℕ → LuaValue
  function : ℕ → LuaValue
  user_data : ℕ → LuaValue
  thread : ℕ → LuaValue

abbrev pub Entry : Type 0
Entry = LuaValue × LuaValue

-- The entries in the order of `lua_next`, what `lua_rawlen` answers, and which of the
-- metafields that the sources ask for are there.
pub record LuaTable : Type 0 where
  pub entries : List Entry
  pub rawlen : ℕ
  pub has_array : Bool
  pub has_object : Bool
  pub has_redis : Bool
  pub has_sqlx_array : Bool

-- The tables by their addresses.
abbrev pub Heap : Type 0
Heap = ℕ → LuaTable

unfoldable pub name : LuaValue → Bytes
name absent = codes "none"
name nil = codes "nil"
name (boolean b) = codes "boolean"
name (light_user_data a) = codes "lightuserdata"
name (number n) = codes "number"
name (integer n) = codes "number"
name (string s) = codes "string"
name (table a) = codes "table"
name (function a) = codes "function"
name (user_data a) = codes "userdata"
name (thread a) = codes "thread"

-- Lua's name of the type of a value.
unfoldable pub type_name : LuaValue → Bytes
type_name absent = codes "no value"
type_name nil = codes "nil"
type_name (boolean b) = codes "boolean"
type_name (light_user_data a) = codes "userdata"
type_name (number x) = codes "number"
type_name (integer n) = codes "number"
type_name (string s) = codes "string"
type_name (table a) = codes "table"
type_name (function a) = codes "function"
type_name (user_data a) = codes "userdata"
type_name (thread a) = codes "thread"

unfoldable pub key_is : ℤ → LuaValue → Bool
key_is n (integer k) = k ==ℤ n
key_is n k = false

-- `lua_rawgeti`.
unfoldable pub rawgeti : ℤ → List Entry → LuaValue
unfolding key_is
rawgeti n [] = nil
rawgeti n ((k, v) ∷ es) = if key_is n k then v else rawgeti n es

abbrev pub is_there : List Entry → Bool
is_there [] = false
is_there (e ∷ es) = true

-- Whether `lua_next` finds an entry after the integer key n; without that key it raises an error.
unfoldable pub has_next : ℤ → List Entry → Option Bool
unfolding key_is
has_next n [] = none
has_next n ((k, v) ∷ es) = if key_is n k then some (is_there es) else has_next n es

unfoldable pub first_key : LuaValue → ℤ
first_key (integer k) = k
first_key k = pos 0

unfoldable pub is_index : ℕ → LuaValue → Bool
is_index len (integer k) = ltb_ℤ (pos 0) k && leb_ℤ k (pos len)
is_index len k = false

unfoldable pub all_indices : ℕ → List Entry → Bool
unfolding is_index
all_indices len [] = true
all_indices len ((k, v) ∷ es) = is_index len k && all_indices len es

unfoldable pub checked_size : ℤ → LuaTable → Bool × ℕ
unfolding all_indices
checked_size first t =
    if ltb_ℤ (pos t.rawlen) first
    then (false, 0)
    else if all_indices t.rawlen t.entries
    then (true, t.rawlen)
    else (false, 0)

unfoldable pub size_after_border : ℤ → LuaTable → Option Bool → Option (Bool × ℕ)
unfolding checked_size
size_after_border first t none = none
size_after_border first t (some true) = some (false, 0)
size_after_border first t (some false) = some (checked_size first t)

unfoldable pub unmarked_size : List Entry → LuaTable → Option (Bool × ℕ)
unfolding first_key size_after_border has_next checked_size
unmarked_size [] t = some (false, 0)
unmarked_size ((k, v) ∷ es) t =
    if leb_ℤ (first_key k) (pos 0)
    then some (false, 0)
    else if first_key k ==ℤ pos 1
    then size_after_border (first_key k) t (has_next (pos t.rawlen) t.entries)
    else some (checked_size (first_key k) t)

-- `lua_array_size`: whether the table is an array, and its length; none for an error that Lua raises.
unfoldable pub array_size : LuaTable → Option (Bool × ℕ)
unfolding unmarked_size
array_size t =
    if t.has_array
    then some (true, t.rawlen)
    else if t.has_object
    then some (false, 0)
    else unmarked_size t.entries t

-- The values of `expected_array_iter`: those at the keys from the first, as many as asked for.
unfoldable pub array_values : ℕ → ℕ → LuaTable → List LuaValue
unfolding rawgeti
array_values zero i t = []
array_values (suc n) i t = rawgeti (pos i) t.entries ∷ array_values n (suc i) t

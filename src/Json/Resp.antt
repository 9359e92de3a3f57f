-- ===== src/Json/Resp.antt =====
-- `concat_resp` of crates/libs/lib-lualib/src/lua_json.rs: a command in Redis's protocol, and the
-- hash of its key.
--
-- The buffer is only written at its end, so it is the bytes written so far. `number_text` is the
-- text of a float.
pub mod Reader
pub mod RoundTrip
use Prim.Native.Nat.{bit_xor}
use lrust.Base.{
  ℕ, zero, suc, ◌+◌, ◌-◌, ◌*◌, ◌/◌, ◌%◌, ◌^◌, Bool, true, false, not, ◌&&◌, ◌||◌, ltb, ◌==◌,
  if◌then◌else◌, List, [], ◌∷◌, ◌++◌, Option, none, some, length, get_or,
}
use lrust.Base.Text.{Bytes, codes, to_string, to_string_ℤ}
use lrust.Lua.{
  LuaValue, absent, nil, boolean, light_user_data, number, integer, string, table, function,
  user_data, thread, LuaTable, Heap, name, array_size, array_values,
}
use lrust.Json.Encode.{
  JsonOptions, Encoding, Failure, message, written, failed, raised, unfinished, ◌>>=◌, encode_table,
  push,
}

abbrev word : ℕ
word = 2 ^ 64

abbrev multiplier : ℕ
multiplier = 0xc6a4a7935bd1e995

-- The hash h with k mixed into it.
unfoldable pub hash_combine_u64 : ℕ → ℕ → ℕ
hash_combine_u64 h k =
    let k1 = k * multiplier % word in
    let k2 = bit_xor k1 (k1 / 2 ^ 47) in
    let k3 = k2 * multiplier % word in (bit_xor h k3 * multiplier % word + 0xe6546b64) % word

unfoldable pub hash_bytes : ℕ → ℕ → Bytes → ℕ
unfolding hash_combine_u64
hash_bytes seed basis [] = seed
hash_bytes seed basis (b ∷ s) =
    let basis1 = bit_xor basis b * 1099511628211 % word in
    hash_bytes (hash_combine_u64 seed basis1) basis1 s

unfoldable pub hash_string : Bytes → ℕ
unfolding hash_bytes
hash_string s = hash_bytes 0 14695981039346656037 s

unfoldable pub write_resp : Bytes → Bytes → Bytes
write_resp w cmd = w ++ codes "\r\n$" ++ to_string (length cmd) ++ codes "\r\n" ++ cmd

-- The values that `array_iter` of a table yields; none where Lua raises an error.
unfoldable pub array_items : LuaTable → Option (Bool × ℕ) → Option (List LuaValue)
array_items t none = none
array_items t (some (is_array, n)) = some (array_values n 1 t)

unfoldable pub write_each :
    (LuaValue → Bytes → Encoding) → Option (List LuaValue) → Bytes → Encoding
write_each one none w = failed raised
write_each one (some []) w = written w
write_each one (some (v ∷ vs)) w = one v w >>= write_each one (some vs)

unfoldable pub after_table : Bytes → Encoding → Encoding
unfolding write_resp
after_table w (written t) = written (write_resp w t)
after_table w (failed f) = failed f

-- The fuel bounds the nesting of tables with `__redis`, which the code does not.
unfoldable pub concat_resp_one : (ℕ → Bytes) → JsonOptions → Heap → ℕ → LuaValue → Bytes → Encoding
unfolding write_resp write_each array_items after_table
concat_resp_one number_text options h fuel nil w = written (w ++ codes "\r\n$-1")
concat_resp_one number_text options h fuel (number x) w = written (write_resp w (number_text x))
concat_resp_one number_text options h fuel (integer n) w = written (write_resp w (to_string_ℤ n))
concat_resp_one number_text options h fuel (boolean b) w =
    written (write_resp w (if b then codes "true" else codes "false"))
concat_resp_one number_text options h fuel (string s) w = written (write_resp w s)
concat_resp_one number_text options h zero (table a) w = failed unfinished
concat_resp_one number_text options h (suc fuel) (table a) w =
    let one = concat_resp_one number_text options h fuel in
    if (h a).has_redis
    then write_each one (array_items (h a) (array_size (h a))) w
    else after_table w (encode_table number_text options false h 65 0 a [])
concat_resp_one number_text options h fuel v w =
    failed (message (codes "concat_resp_one: unsupport value type :" ++ name v))

-- `lua_opt::<&str>`.
abbrev pub opt_str : LuaValue → Option Bytes
opt_str (string s) = some s
opt_str v = none

-- An argument that is not there has the type None.
abbrev is_table : LuaValue → Bool
is_table (table a) = true
is_table v = false

unfoldable pub starts_with_h : Bytes → Bool
starts_with_h [] = false
starts_with_h (c ∷ s) = (c == b'h') || (c == b'H')

-- The argument whose text is hashed, of `n` arguments, after the key.
unfoldable pub hash_part : ℕ → Bytes → List LuaValue → Option Bytes
unfolding starts_with_h
hash_part n key args =
    if ltb 2 n && starts_with_h key
    then opt_str (get_or args 2 absent)
    else if ltb 1 n
    then opt_str (get_or args 1 absent)
    else none

abbrev hash_of : Option Bytes → ℕ
hash_of none = 1
hash_of (some s) = hash_string s

unfoldable pub key_hash : List LuaValue → Option Bytes → ℕ
unfolding hash_part
key_hash args none = 1
key_hash args (some []) = 1
key_hash args (some (c ∷ s)) =
    let part = hash_of (hash_part (length args) (c ∷ s) args) in
    if is_table (get_or args 1 absent) then 1 else part

-- `(x as i64).abs()` as a bit pattern, in a build without overflow checks.
abbrev pub abs_i64 : ℕ → ℕ
abs_i64 x = if ltb x (2 ^ 63) then x else 2 ^ 64 - x

-- No arguments give no results; otherwise a buffer and a hash, or an error.
pub data Command : Type 0 where
  nothing : Command
  command : Bytes → ℕ → Command
  rejected : Failure → Command

abbrev pub close_command : ℕ → Encoding → Command
close_command hash (written w) = command (w ++ codes "\r\n") (abs_i64 hash)
close_command hash (failed f) = rejected f

unfoldable pub concat_resp : (ℕ → Bytes) → JsonOptions → Heap → ℕ → List LuaValue → Command
unfolding concat_resp_one write_each key_hash
concat_resp number_text options h fuel [] = nothing
concat_resp number_text options h fuel (v ∷ vs) = close_command (key_hash (v ∷ vs) (opt_str v)) (
    write_each (concat_resp_one number_text options h fuel) (some (v ∷ vs))
      (push [] b'*' ++ to_string (length (v ∷ vs))))

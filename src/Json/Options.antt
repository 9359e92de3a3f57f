-- ===== src/Json/Options.antt =====
-- The options of crates/libs/lib-lualib/src/lua_json.rs, and `concat`, which joins the parts of a
-- text.
use mathlib.Core.Path.{◌≡◌, refl, subst}
use lrust.Base.{Bool, true, false, if◌then◌else◌, [], ◌++◌, Option, none, some, ℕ}
use lrust.Base.Text.{same_bytes, Bytes, codes, to_string_ℤ}
use lrust.Lua.{LuaValue, boolean, number, integer, string, table, Heap, array_size, type_name}
use lrust.Json.Encode.{JsonOptions, Encoding, written, failed, message, raised, encode_table}
use lrust.Json.Resp.{array_items, write_each}

-- The options that a Lua state begins with.
abbrev pub initial : JsonOptions
initial = record { empty_as_array = true; enable_number_key = true; enable_sparse_array = false }

-- The new options and the value that is returned, the one before; or the message of an error.
pub data Setting : Type 0 where
  changed : JsonOptions → Bool → Setting
  refused : Bytes → Setting

abbrev unwrap_or : Option Bool → Bool → Bool
unwrap_or none d = d
unwrap_or (some b) d = b

-- By the key: each of the first three, and any other.
unfoldable chosen : Bool → Bool → Bool → Bytes → Option Bool → JsonOptions → Setting
chosen true b c key v o = changed (record o { empty_as_array = unwrap_or v true }) o.empty_as_array
chosen false true c key v o =
    changed (record o { enable_number_key = unwrap_or v true }) o.enable_number_key
chosen false false true key v o =
    changed (record o { enable_sparse_array = unwrap_or v false }) o.enable_sparse_array
chosen false false false key v o = refused (codes "invalid json option key: " ++ key)

unfoldable pub set_options : Bytes → Option Bool → JsonOptions → Setting
unfolding chosen
set_options key v o =
    chosen (same_bytes key (codes "encode_empty_as_array"))
      (same_bytes key (codes "enable_number_key")) (same_bytes key (codes "enable_sparse_array"))
      key v o

Undone : Bool → Bool → Bool → Bytes → JsonOptions → Bool → Setting → Type 0
Undone a b c key o v (changed p old) = chosen a b c key (some old) p ≡ changed o v
Undone a b c key o v (refused e) = Unit

chosen-Undone :
    (a b c : Bool) (key : Bytes) (v : Bool) (o : JsonOptions)
    → Undone a b c key o v (chosen a b c key (some v) o)
unfolding chosen Undone
chosen-Undone true b c key v o = refl
chosen-Undone false true c key v o = refl
chosen-Undone false false true key v o = refl
chosen-Undone false false false key v o = tt

-- Setting an option again to the value that was returned undoes the change: it gives back the first
-- options, and returns the value that the first call had set.
pub set_options-undo :
    (key : Bytes) (v old : Bool) (o p : JsonOptions)
    → set_options key (some v) o ≡ changed p old
    → set_options key (some old) p ≡ changed o v
unfolding set_options Undone
set_options-undo key v old o p h = subst (Undone _ _ _ key o v) h (chosen-Undone _ _ _ key v o)

-- One part of a text, tables as JSON.
unfoldable pub concat_one : (ℕ → Bytes) → JsonOptions → Heap → LuaValue → Bytes → Encoding
unfolding type_name
concat_one number_text options h (string s) w = written (w ++ s)
concat_one number_text options h (number x) w = written (w ++ number_text x)
concat_one number_text options h (integer n) w = written (w ++ to_string_ℤ n)
concat_one number_text options h (boolean b) w =
    written (w ++ (if b then codes "true" else codes "false"))
concat_one number_text options h (table a) w = encode_table number_text options false h 65 0 a w
concat_one number_text options h v w =
    failed (message (codes "json.concat: unsupport value type :" ++ type_name v))

-- What the buffer that is returned holds, for a string or for a table of parts.
unfoldable pub concat : (ℕ → Bytes) → JsonOptions → Heap → LuaValue → Encoding
unfolding concat_one array_items write_each
concat number_text options h (string s) = written s
concat number_text options h (table a) =
    write_each (concat_one number_text options h) (array_items (h a) (array_size (h a))) []
concat number_text options h v = failed raised

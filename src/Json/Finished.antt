-- ===== src/Json/Finished.antt =====
-- The encoder of crates/libs/lib-lualib/src/lua_json.rs ends on every heap, tables that hold
-- themselves included: its depth limit bounds its nesting.
use lrust.Base.{
  ℕ, zero, suc, ◌+◌, ◌≤◌, ◌≡◌, Bool, true, false, not, ◌&&◌, ltb, List, [], ◌∷◌, ◌++◌, Option, none,
  some, arith, inl, inr, Bool-cases, ltb-le,
}
use lrust.Base.Text.{Bytes}
use lrust.Lua.{
  LuaValue, nil, boolean, light_user_data, number, integer, string, table, LuaTable, Heap, Entry,
  array_size, array_values,
}
use lrust.Json.Encode.{JsonOptions, Encoding, written, failed, message, raised, encode, is_nil}
use lrust.Json.Render.{
  Pieces, pieces, gap, stopped, prepend, Style, framed, element, elements, member_text, member,
  members, object_text, array_text, sized_text, value_text, table_text,
}
use lrust.Json.Equal.{encode_one-value_text}
use lrust.Json.Equal.Frame.{after}

-- The text of a value, or an error of the code or of Lua.
pub data IsFinished : Encoding → Type 0 where
  text : (t : Bytes) → IsFinished (written t)
  error : (m : Bytes) → IsFinished (failed (message m))
  lua_error : IsFinished (failed raised)

abbrev ArePieces : Pieces → Type 0
ArePieces (pieces ts) = Unit
ArePieces gap = Unit
ArePieces (stopped f) = IsFinished (failed f)

abbrev AreMembers : Pieces → Type 0
AreMembers (pieces ts) = Unit
AreMembers gap = false ≡ true
AreMembers (stopped f) = IsFinished (failed f)

framed-IsFinished :
    (before behind : Bytes) (e : Encoding) → IsFinished e → IsFinished (framed before behind e)
framed-IsFinished before behind (written t) h = text (before ++ t ++ behind)
framed-IsFinished before behind (failed f) h = h

prepend-ArePieces :
    (e : Encoding) (ps : Pieces) → IsFinished e → ArePieces ps → ArePieces (prepend e ps)
prepend-ArePieces (written t) (pieces ts) h g = tt
prepend-ArePieces (written t) gap h g = tt
prepend-ArePieces (written t) (stopped f) h g = g
prepend-ArePieces (failed f) ps h g = h

prepend-AreMembers :
    (e : Encoding) (ps : Pieces) → IsFinished e → AreMembers ps → AreMembers (prepend e ps)
prepend-AreMembers (written t) (pieces ts) h g = tt
prepend-AreMembers (written t) gap h g = g
prepend-AreMembers (written t) (stopped f) h g = g
prepend-AreMembers (failed f) ps h g = h

module _ (s : Style) (ends : (v : LuaValue) → IsFinished (s.text v)) where
  elements-ArePieces : (vs : List LuaValue) → ArePieces (elements s vs)
  unfolding elements element
  elements-ArePieces [] = tt
  elements-ArePieces (v ∷ vs) = elim (Bool-cases (is_nil v && not s.options.enable_sparse_array)) [
    | inl e ↦ rw e tt
    | inr e ↦ rw e (
        prepend-ArePieces (element s v) (elements s vs) (framed-IsFinished _ _ (s.text v) (ends v))
          (elements-ArePieces vs))
  ]

  member-IsFinished : (e : Entry) → IsFinished (member s e)
  unfolding member member_text
  member-IsFinished (string key, v) = framed-IsFinished _ _ (s.text v) (ends v)
  member-IsFinished (integer key, v) = elim (Bool-cases s.options.enable_number_key) [
    | inl e ↦ rw e (framed-IsFinished _ _ (s.text v) (ends v))
    | inr e ↦ rw e (error _)
  ]
  member-IsFinished (key, v) = text _

  members-AreMembers : (es : List Entry) → AreMembers (members s es)
  unfolding members
  members-AreMembers [] = tt
  members-AreMembers (e ∷ es) =
      prepend-AreMembers (member s e) (members s es) (member-IsFinished e) (members-AreMembers es)

  object_text-IsFinished : (ps : Pieces) → AreMembers ps → IsFinished (object_text s ps)
  unfolding object_text
  object_text-IsFinished (pieces []) h = text _
  object_text-IsFinished (pieces (t ∷ ts)) h = text _
  object_text-IsFinished gap h = absurd (ground arith)
  object_text-IsFinished (stopped f) h = h

  array_text-IsFinished :
      (t : LuaTable) (ps : Pieces) → ArePieces ps → IsFinished (array_text s t ps)
  unfolding array_text
  array_text-IsFinished t (pieces []) h = text _
  array_text-IsFinished t (pieces (u ∷ us)) h = text _
  array_text-IsFinished t gap h =
      object_text-IsFinished (members s t.entries) (members-AreMembers t.entries)
  array_text-IsFinished t (stopped f) h = h

  sized_text-IsFinished : (t : LuaTable) (n : Option (Bool × ℕ)) → IsFinished (sized_text s t n)
  unfolding sized_text
  sized_text-IsFinished t none = lua_error
  sized_text-IsFinished t (some (true, n)) =
      array_text-IsFinished t (elements s (array_values n 1 t))
        (elements-ArePieces (array_values n 1 t))
  sized_text-IsFinished t (some (false, n)) =
      object_text-IsFinished (members s t.entries) (members-AreMembers t.entries)

module _ (number_text : ℕ → Bytes) (options : JsonOptions) (fmt : Bool) (h : Heap) where
  value_text-IsFinished :
      (tables : ℕ → Encoding)
      → ((a : ℕ) → IsFinished (tables a))
      → (v : LuaValue) → IsFinished (value_text tables number_text v)
  unfolding value_text
  value_text-IsFinished tables ends (boolean b) = text _
  value_text-IsFinished tables ends (number x) = text _
  value_text-IsFinished tables ends (integer n) = text _
  value_text-IsFinished tables ends (string s) = text _
  value_text-IsFinished tables ends (table a) = ends a
  value_text-IsFinished tables ends nil = text _
  value_text-IsFinished tables ends (light_user_data a) = text _
  value_text-IsFinished tables ends v = error _

  table_text-IsFinished :
      (fuel depth a : ℕ)
      → 65 ≤ fuel + depth
      → depth ≤ 64
      → IsFinished (table_text number_text options fmt h fuel depth a)
  unfolding table_text
  table_text-IsFinished zero depth a enough low = absurd (omega arith)
  table_text-IsFinished (suc fuel) depth a enough low = elim (Bool-cases (ltb 64 (suc depth))) [
    | inl e ↦ rw e (error _)
    | inr e ↦ rw e (
        sized_text-IsFinished _
          (value_text-IsFinished (table_text number_text options fmt h fuel (suc depth)) (λ b.
            table_text-IsFinished fuel (suc depth) b (omega arith)
              (omega (arith, ltb-le 64 (suc depth) e))))
          (h a) (array_size (h a)))
  ]

after-IsFinished : (e : Encoding) → IsFinished e → IsFinished (after [] e)
after-IsFinished (written t) g = g
after-IsFinished (failed f) g = g

-- For every heap, tables that hold themselves included, the encoder ends: its result is a text, the
-- message of an error, or an error that Lua raised.
pub encode-IsFinished :
    (number_text : ℕ → Bytes) (options : JsonOptions) (fmt : Bool) (h : Heap) (v : LuaValue)
    → IsFinished (encode number_text options fmt h v)
unfolding encode
encode-IsFinished number_text options fmt h v =
    rw (encode_one-value_text number_text options fmt h 65 0 v []) (
      after-IsFinished _ (
        value_text-IsFinished number_text options fmt h (table_text number_text options fmt h 65 0)
          (λ a. table_text-IsFinished number_text options fmt h 65 0 a (omega arith) (omega arith))
          v))

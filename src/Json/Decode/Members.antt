-- ===== src/Json/Decode/Members.antt =====
-- What `decode_one` of crates/libs/lib-lualib/src/lua_json.rs puts where in its tables.
use lrust.Base.{
  ℕ, suc, ◌≡◌, refl, sym, ap, ◌∙◌, true, false, ◌==◌, if◌then◌else◌, [], ◌∷◌, Option, none, some,
  arith, inl, inr, Bool-cases, ==_iff,
}
use lrust.Base.Int.{ℤ, pos, negsuc, ◌==ℤ◌}
use lrust.Base.Check.{same_bytes-eq}
use lrust.Sqlx.Types.{JsonValue, JsonValues, JsonFields}
use lrust.Base.Text.{Bytes}
use lrust.Lua.{LuaValue, integer, string}
use lrust.Json.Encode.{JsonOptions}
use lrust.Json.Decode.{
  Decoded, leaf, new_table, Table, no_entry, entry, same_key, rawset, rawget, member_key,
  decode_one,
}

==ℤ-eq : (m n : ℤ) → (m ==ℤ n) ≡ true → m ≡ n
==ℤ-eq (pos a) (pos b) h = ap pos ((==_iff a b).0 h)
==ℤ-eq (negsuc a) (negsuc b) h = ap negsuc ((==_iff a b).0 h)
==ℤ-eq (pos a) (negsuc b) h = absurd (ground arith)
==ℤ-eq (negsuc a) (pos b) h = absurd (ground arith)

same_key-eq : (j k : LuaValue) → same_key j k ≡ true → j ≡ k
unfolding same_key
same_key-eq (integer m) (integer n) h = ap integer (==ℤ-eq m n h)
same_key-eq (string s) (string t) h = ap string (same_bytes-eq s t h)
same_key-eq j k h = absurd (ground arith)

differ : {A : Type 0} → false ≡ true → A
differ h = absurd (ground arith)

pub rawget-rawset :
    (k j : LuaValue) (v : Decoded) (t : Table)
    → rawget k (rawset j v t) ≡ (if same_key j k then some v else rawget k t)
unfolding rawget rawset
rawget-rawset k j v no_entry = refl
rawget-rawset k j v (entry i x t) = elim (Bool-cases (same_key i j)) [
  | inl e ↦ elim (Bool-cases (same_key j k)) [
    | inl f ↦ rw (e, f, same_key-eq i j e, f) refl
    | inr f ↦ rw (e, f, same_key-eq i j e, f) refl
  ]
  | inr e ↦ elim (Bool-cases (same_key i k)) [
    | inl f ↦ elim (Bool-cases (same_key j k)) [
      | inl g ↦ differ (sym e ∙ ap (same_key i) (same_key-eq j k g) ∙ f)
      | inr g ↦ rw (e, f, g) refl
    ]
    | inr f ↦ rw (e, f) (rawget-rawset k j v t)
  ]
]

abbrev pub later : Option JsonValue → Option JsonValue → Option JsonValue
later none d = d
later (some x) d = some x

-- The key of a name.
unfoldable pub key_of : JsonOptions → Bytes → LuaValue
key_of options [] = string []
key_of options (c ∷ n) = member_key options c n

-- The members that have a name.
pub named : JsonFields → JsonFields
named JsonFields.end = JsonFields.end
named (JsonFields.field [] v fs) = named fs
named (JsonFields.field (c ∷ n) v fs) = JsonFields.field (c ∷ n) v (named fs)

-- The last member whose name has the Lua key k.
pub last_member : JsonOptions → LuaValue → JsonFields → Option JsonValue
unfolding key_of
last_member options k JsonFields.end = none
last_member options k (JsonFields.field n v fs) =
    later (last_member options k fs) (if same_key (key_of options n) k then some v else none)

-- The element number k of an array whose first has the number i.
pub element : ℕ → ℕ → JsonValues → Option JsonValue
element k i JsonValues.nil = none
element k i (JsonValues.cons v vs) = later (element k (suc i) vs) (if i == k then some v else none)

abbrev pub decoded : JsonOptions → Option JsonValue → Option Decoded → Option Decoded
decoded options none d = d
decoded options (some v) d = some (decode_one options v)

abbrev pub entries : Decoded → Table
entries (new_table t) = t
entries (leaf v) = no_entry

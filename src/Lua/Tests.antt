-- ===== src/Lua/Tests.antt =====
-- `lua_array_size` at a concrete table.
use lrust.Base.{ℕ, ◌≡◌, refl, Bool, true, false, [], ◌∷◌, some, arith}
use lrust.Base.Int.{pos}
use lrust.Lua.{boolean, integer, LuaTable, array_size, rawgeti}
use lrust.Lua.Size.{AreIndices, IsLuaTable, array_size-AreIndices, array_size-Returns}

abbrev pair : LuaTable
pair = record {
  entries = (integer (pos 1), boolean true) ∷ (integer (pos 2), boolean false) ∷ [];
  rawlen = 2;
  has_array = false;
  has_object = false;
  has_redis = false;
  has_sqlx_array = false;
}

pair_size : array_size pair ≡ some (true, 2)
unfolding array_size
pair_size = refl

array_size-AreIndices_example : (2 ≡ pair.rawlen) × AreIndices 2 pair.entries
array_size-AreIndices_example = array_size-AreIndices pair 2 refl pair_size

pair-IsLuaTable : IsLuaTable pair
unfolding rawgeti
pair-IsLuaTable = record {
  full = ((λ h. absurd (ground arith)), ((λ h. absurd (ground arith)), tt));
  empty = λ h. absurd (omega arith);
  border = λ g h. absurd (ground arith);
}

array_size-Returns_example : (o : Bool × ℕ) × (array_size pair ≡ some o)
array_size-Returns_example = array_size-Returns pair pair-IsLuaTable

-- ===== src/Sqlx/Safe/Tests.antt =====
-- Operations of crates/libs/lib-lualib/src/sqlx_lua.rs on concrete stacks.
use lrust.Base.{◌≡◌, refl, true, false, List, [], ◌∷◌, none, some, length}
use lrust.Base.Int.{pos}
use lrust.Base.Text.{codes}
use lrust.Lua.{LuaValue, nil, boolean, integer, string, table, Entry}
use lrust.Sqlx.Safe.{Machine, Environment, Exit, returned, unwound, Lua, ◌>>=◌, pure, push_value}
use lrust.Sqlx.Safe.Leaves.{Leaves, Takes, push_value-Leaves, pure-Leaves}
use lrust.Sqlx.Safe.Tables.{push, new, insert, insert_x, rawseti, raw_get, array_shape}
use lrust.Sqlx.Safe.Balance.{operations-Leaves}

abbrev calm : Environment
calm = record { has_room = λ m n. true; raises = λ m op. none; border = length {A = Entry} }

abbrev full : Environment
full = record calm { has_room = λ m n. false }

abbrev out_of_memory : Environment
out_of_memory = record calm { raises = λ m op. some (boolean false) }

abbrev start : Machine
start = record {
  stack = integer (pos 5) ∷ [];
  heap = λ a. record {
    entries = [];
    rawlen = 0;
    has_array = false;
    has_object = false;
    has_redis = false;
    has_sqlx_array = false;
  };
  next_address = 9;
}

abbrev stack_of : {A : Type 0} → Exit A → List LuaValue
stack_of (returned a m) = m.stack
stack_of (unwound e m) = m.stack

abbrev build : Environment → Lua LuaValue
unfolding new insert insert_x push_value raw_get ◌>>=◌ pure
build env = new env >>= λ i. insert env i (integer (pos 1)) (boolean true) >>= λ u.
    insert_x env i (integer (pos 2)) (push_value (integer (pos 7))) >>= λ u.
    raw_get env i (integer (pos 2)) pure

abbrev answer : {A : Type 0} → Exit A → List A
answer (returned a m) = a ∷ []
answer (unwound e m) = []

build-test : answer (build calm start) ≡ integer (pos 7) ∷ []
unfolding build ◌>>=◌ pure
build-test = refl

build_stack-test : stack_of (build calm start) ≡ table 9 ∷ integer (pos 5) ∷ []
unfolding build ◌>>=◌ pure
build_stack-test = refl

out_of_memory-test : stack_of (new out_of_memory start) ≡ boolean false ∷ integer (pos 5) ∷ []
unfolding new
out_of_memory-test = refl

full-test : stack_of (new full start) ≡ integer (pos 5) ∷ []
unfolding new
full-test = refl

operations-Leaves_example :
    Leaves 1 (push calm (boolean true))
    × Leaves 1 (new calm)
    × Leaves 0 (insert calm (pos 2) (string (codes "id")) (boolean true))
    × Leaves 0 (insert_x calm (pos 2) (string (codes "id")) (push_value nil))
    × Takes 1 0 (rawseti calm (pos 2) 4)
    × Leaves 0 (array_shape calm (pos 2))
    × Leaves 0 (raw_get calm (pos 2) (string (codes "id")) (pure {A = LuaValue}))
operations-Leaves_example =
    operations-Leaves calm (pos 2) (string (codes "id")) (boolean true) 4 0 (push_value nil)
      (pure {A = LuaValue}) (push_value-Leaves nil) (pure-Leaves {A = LuaValue})

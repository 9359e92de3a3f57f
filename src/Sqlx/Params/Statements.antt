-- ===== src/Sqlx/Params/Statements.antt =====
-- The arguments of a statement in crates/libs/lib-lualib/src/lua_sqlx.rs: its text and its parameters,
-- for a query and for a transaction.
use lrust.Base.{ℕ, Bool, List, [], ◌∷◌, ◌++◌, none, some}
use lrust.Base.Text.{Bytes, codes, to_string}
use lrust.Lua.{LuaValue, string, Heap}
use lrust.Sqlx.Types.{QueryParams, DatabaseQuery}
use lrust.Sqlx.Client.{
  Checked, good, bad, TransactionQuerys, DatabaseConnection, Reply, enqueue_query,
}
use lrust.Sqlx.Options.{◌>>=◌}
use lrust.Sqlx.Params.{Platform, utf8_string}
use lrust.Sqlx.Params.Query.{get_query_param}

-- The argument number `index`.
unfoldable pub checked_string : Platform → ℕ → LuaValue → Checked Bytes
unfolding utf8_string
checked_string p index (string s) = utf8_string p s (codes "SQLx string")
checked_string p index v =
    bad (codes "SQLx argument #" ++ to_string index ++ codes " must be a string")

-- The parameters, up to the first bad one.
unfoldable pub get_query_params : Platform → Heap → List LuaValue → Checked (List QueryParams)
unfolding ◌>>=◌ get_query_param
get_query_params p h [] = good []
get_query_params p h (v ∷ vs) =
    get_query_param p h v >>= λ q. get_query_params p h vs >>= λ qs. good (q ∷ qs)

-- `query_impl` or `execute_impl` on a statement and its parameters, as they are in Lua.
unfoldable pub run_statement :
    {Row : Type 0}
    → Platform
    → Heap
    → Bool
    → Checked ℕ
    → Checked ℕ
    → LuaValue
    → List LuaValue
    → DatabaseConnection Row
    → DatabaseConnection Row × Reply
unfolding enqueue_query checked_string get_query_params
run_statement p h execute_only owner session sql params c =
    enqueue_query execute_only owner session (checked_string p 4 sql) (get_query_params p h params)
      c

abbrev collected : Bytes
collected = codes "SQLx transaction has been collected"

abbrev append_query : TransactionQuerys → DatabaseQuery → Checked TransactionQuerys
append_query none q = bad collected
append_query (some qs) q = good (some (qs ++ (q ∷ [])))

-- `push_transaction_query_impl`: a transaction with one more statement.
unfoldable pub push_transaction_query :
    Platform → Heap → TransactionQuerys → LuaValue → List LuaValue → Checked TransactionQuerys
unfolding ◌>>=◌ checked_string get_query_params
push_transaction_query p h querys sql params = checked_string p 2 sql >>= λ text.
    get_query_params p h params >>= λ binds.
    append_query querys (record { sql = text; binds = binds })

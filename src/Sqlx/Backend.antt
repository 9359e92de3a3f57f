-- ===== src/Sqlx/Backend.antt =====
-- `DatabaseBackend` of crates/libs/lib-lualib/src/lua_sqlx.rs: connecting, binding, and running a
-- request on a connection.
--
-- The three arms of each `match self` differ in the arguments they accept, in the reply's type, and in
-- the row id that they report; each stands in a helper by clauses on the kind of connection.
use lrust.Base.{
  ℕ, ◌+◌, ◌-◌, ◌^◌, zero, suc, List, [], ◌∷◌, ◌++◌, ◌||◌, Option, none, some, min, length,
  if◌then◌else◌,
}
use lrust.Base.Int.{ℤ, pos, negsuc}
use lrust.Base.Text.{Bytes, codes}
use lrust.Sqlx.Types.{
  NullType, QueryParams, null_param, bool_param, int_param, float_param, text_param, json_param,
  bytes_param, DatabaseQuery, io, configuration, Result, ok, err, DatabaseResponse, pg_rows,
  mysql_rows, sqlite_rows, disconnected_error, row_limit_exceeded, executed, transaction_done,
  starts_with,
}
use lrust.Sqlx.Driver.{
  closes, BackendKind, my_sql, postgres, sqlite, Statement, prepared, raw_sql, connects, begins,
  executes, fetches, next_row, commits, rolls_back, Await, ready, elapsed, QueryResult, Driver,
  DatabaseBackend, Exit, value, failure, cancelled, Async, pure, throw, ◌>>=◌, ◌>>◌, match_result,
  lift, call, note, start_execution,
}

-- The driver that a URL selects.
unfoldable pub url_kind : Bytes → Option BackendKind
url_kind url =
    if starts_with (codes "mysql://") url
    then some my_sql
    else if starts_with (codes "postgres://") url || starts_with (codes "postgresql://") url
    then some postgres
    else if starts_with (codes "sqlite:") url
    then some sqlite
    else none

-- `connect_with_timeout` under the request's deadline.
unfoldable pub connect_exit :
    Await (Await (Result (Unit {0}))) → ℕ → BackendKind → Exit DatabaseBackend
connect_exit (ready (ready (ok _))) n kind = value (record { kind = kind; conn = n })
connect_exit (ready (ready (err e))) n kind = failure e
connect_exit (ready elapsed) n kind = failure (io (codes "Connection error: deadline has elapsed"))
connect_exit elapsed n kind = cancelled

-- Whether a parameter can be bound to a query for MySQL or SQLite.
unfoldable pub bind : QueryParams → Result QueryParams
bind (null_param NullType.timestamp_tz) =
    err (configuration (codes "timezone-aware null is only supported by PostgreSQL"))
bind (null_param NullType.time_tz) =
    err (configuration (codes "timezone-aware null is only supported by PostgreSQL"))
bind (null_param kind) = ok (null_param kind)
bind (bool_param b) = ok (bool_param b)
bind (int_param i) = ok (int_param i)
bind (float_param f) = ok (float_param f)
bind (text_param s) = ok (text_param s)
bind (json_param j) = ok (json_param j)
bind (bytes_param b) = ok (bytes_param b)
bind _ =
    err (configuration (codes "PostgreSQL array parameter used with a non-PostgreSQL connection"))

unfoldable pub bind_all : List QueryParams → Result (List QueryParams)
bind_all [] = ok []
bind_all (p ∷ ps) = elim (bind p) [
  | err e ↦ err e
  | ok a ↦ elim (bind_all ps) [ err e ↦ err e | ok as' ↦ ok (a ∷ as') ]
]

unfoldable pub make_query : DatabaseQuery → Result Statement
make_query q = elim (bind_all q.binds) [ err e ↦ err e | ok args ↦ ok (prepared q.sql args) ]

unfoldable pub make_pg_query : DatabaseQuery → Result Statement
make_pg_query q = ok (prepared q.sql q.binds)

unfoldable pub make_for : BackendKind → DatabaseQuery → Result Statement
make_for my_sql q = make_query q
make_for postgres q = make_pg_query q
make_for sqlite q = make_query q

-- `u64::try_from(rowid).ok()`.
abbrev pub rowid : ℤ → Option ℕ
rowid (pos n) = some n
rowid (negsuc n) = none

unfoldable pub insert_id : BackendKind → QueryResult → Option ℕ
insert_id my_sql r = some r.last_insert_id
insert_id postgres r = none
insert_id sqlite r = rowid r.last_insert_rowid

abbrev pub saturating_add : ℕ → ℕ → ℕ
saturating_add a b = min (a + b) (2 ^ 64 - 1)

module _ {Row : Type 0} where
  unfoldable pub rows_response : BackendKind → List Row → DatabaseResponse Row
  rows_response my_sql rows = mysql_rows rows
  rows_response postgres rows = pg_rows rows
  rows_response sqlite rows = sqlite_rows rows

  -- What a stream's `try_next` leads to.
  abbrev pub on_row :
      Async (DatabaseResponse Row)
      → (Row → Async (DatabaseResponse Row))
      → Option Row
      → Async (DatabaseResponse Row)
  on_row over more none = over
  on_row over more (some row) = more row

module _ {Row : Type 0} (w : Driver Row) where
  unfoldable pub connect : Bytes → Async DatabaseBackend
  connect url t = elim (url_kind url) [
    | none ↦ (t, failure (configuration (codes "Unsupported database type")))
    | some kind ↦ (
      record t { history = connects kind url ∷ t.history },
      connect_exit (w.connect (connects kind url ∷ t.history)) (length t.history) kind,
    )
  ]

  -- The rows of a stream behind `rows`, while there is room for `room` more: `room` is max_rows less
  -- rows.len(), so that rows.len() >= max_rows where it is 0.
  unfoldable pub collect : BackendKind → ℕ → ℕ → ℕ → List Row → Async (DatabaseResponse Row)
  collect kind conn max_rows zero rows =
      call w.fetch_row (next_row conn)
      >>= on_row (pure (rows_response kind rows)) (λ row. pure (row_limit_exceeded max_rows))
  collect kind conn max_rows (suc room) rows =
      call w.fetch_row (next_row conn)
      >>= on_row (pure (rows_response kind rows))
          (λ row. collect kind conn max_rows room (rows ++ row ∷ []))

  unfoldable pub query : DatabaseBackend → DatabaseQuery → ℕ → Async (DatabaseResponse Row)
  query b q max_rows = do
    statement ← lift (make_for b.kind q)
    start_execution
    note (fetches b.conn statement)
    collect b.kind b.conn max_rows max_rows []

  unfoldable pub execute : DatabaseBackend → DatabaseQuery → Async (DatabaseResponse Row)
  execute b q = do
    statement ← lift (make_for b.kind q)
    start_execution
    result ← call w.execute (executes b.conn statement)
    pure (executed result.rows_affected (insert_id b.kind result))

  unfoldable pub batch : DatabaseBackend → Bytes → Async (DatabaseResponse Row)
  batch b sql = do
    start_execution
    result ← call w.execute (executes b.conn (raw_sql sql))
    pure (executed result.rows_affected (insert_id b.kind result))

  -- The loop over the statements of a transaction, with the count of rows affected so far.
  unfoldable pub execute_each : DatabaseBackend → List DatabaseQuery → ℕ → Async ℕ
  execute_each b [] rows_affected = pure rows_affected
  execute_each b (q ∷ qs) rows_affected = do
    statement ← lift (make_for b.kind q)
    start_execution
    result ← call w.execute (executes b.conn statement)
    execute_each b qs (saturating_add rows_affected result.rows_affected)

  unfoldable pub transaction : DatabaseBackend → List DatabaseQuery → Async (DatabaseResponse Row)
  transaction b requests = do
    call w.begin (begins b.conn)
    match_result (execute_each b requests 0)
        (λ rows_affected.
          match_result (call w.commit (commits b.conn)) (λ _. pure (transaction_done rows_affected))
            (λ e. pure (disconnected_error e)))
        (λ e.
          match_result (call w.rollback (rolls_back b.conn)) (λ _. throw e)
            (λ e'. pure (disconnected_error e')))

-- `close` waits up to a second for the connection to close, and ignores how it went.
unfoldable pub close : DatabaseBackend → Async (Unit {0})
close b = note (closes b.conn)

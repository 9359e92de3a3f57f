-- ===== src/Sqlx/Replies.antt =====
-- The replies that the calls on a connection in crates/libs/lib-lualib/src/lua_sqlx.rs return as values.
use lrust.Base.{ℕ, zero, suc, ◌≡◌, refl, List, [], ◌∷◌, Bool, true, false, Option, none, some}
use lrust.Sqlx.Types.{
  Result, ok, err, DatabaseQuery, DatabaseRequest, query_request, execute_request, batch_request,
  transaction_request, close_request, Error, DatabaseResponse, pg_rows, mysql_rows, sqlite_rows,
  disconnected_error, row_limit_exceeded, executed, transaction_done,
}
use lrust.Sqlx.Driver.{
  Call, History, Await, ready, elapsed, exit_of, call, lift, note, start_execution, BackendKind,
  my_sql, postgres, sqlite, Driver, DatabaseBackend, Turn, Exit, value, failure, cancelled,
  panicked, Async, and_then, pure, throw, ◌>>=◌, on_result, match_result,
}
use lrust.Sqlx.Backend.{
  rows_response, on_row, collect, query, execute, batch, execute_each, transaction,
}
use lrust.Sqlx.Actor.{DatabaseHandlerContext, perform}

-- The replies of a request that ran.
unfoldable pub is_outcome : {Row : Type 0} → DatabaseResponse Row → Bool
is_outcome (pg_rows _) = true
is_outcome (mysql_rows _) = true
is_outcome (sqlite_rows _) = true
is_outcome (disconnected_error _) = true
is_outcome (row_limit_exceeded _) = true
is_outcome (executed _ _) = true
is_outcome (transaction_done _) = true
is_outcome _ = false

abbrev pub AllValues : {A : Type 0} → (A → Type 0) → Exit A → Type 0
AllValues Q (value a) = Q a
AllValues Q (failure e) = Unit
AllValues Q cancelled = Unit
AllValues Q panicked = ⊥

-- There is no panic, and if a value is returned, it satisfies Q.
pub record Gives {A : Type 0} (Q : A → Type 0) (m : Async A) : Type 0 where
  pub at : (t : Turn) → AllValues Q (m t).1

abbrev Any : {A : Type 0} → A → Type 0
Any a = Unit

module _ {A B : Type 0} {Q : B → Type 0} where
  and_then-Gives :
      (f : A → Async B) (p : Turn × Exit A)
      → AllValues Any p.1
      → ((a : A) → Gives Q (f a))
      → AllValues Q (and_then f p).1
  and_then-Gives f (t, value a) g h = (h a).at t
  and_then-Gives f (t, failure e) g h = tt
  and_then-Gives f (t, cancelled) g h = tt
  and_then-Gives f (t, panicked) g h = g

  Gives->>= :
      (m : Async A) (f : A → Async B) → Gives Any m → ((a : A) → Gives Q (f a)) → Gives Q (m >>= f)
  unfolding ◌>>=◌
  Gives->>= m f g h = record { at = λ t. and_then-Gives f (m t) (g.at t) h }

  on_result-Gives :
      (f : A → Async B) (g : Error → Async B) (p : Turn × Exit A)
      → AllValues Any p.1
      → ((a : A) → Gives Q (f a))
      → ((e : Error) → Gives Q (g e))
      → AllValues Q (on_result f g p).1
  on_result-Gives f g (t, value a) o h k = (h a).at t
  on_result-Gives f g (t, failure e) o h k = (k e).at t
  on_result-Gives f g (t, cancelled) o h k = tt
  on_result-Gives f g (t, panicked) o h k = o

  Gives-match_result :
      (m : Async A) (f : A → Async B) (g : Error → Async B)
      → Gives Any m
      → ((a : A) → Gives Q (f a))
      → ((e : Error) → Gives Q (g e))
      → Gives Q (match_result m f g)
  unfolding match_result
  Gives-match_result m f g o h k = record { at = λ t. on_result-Gives f g (m t) (o.at t) h k }

module _ {A : Type 0} where
  exit_of-Any : (a : Await (Result A)) → AllValues Any (exit_of a)
  exit_of-Any (ready (ok a)) = tt
  exit_of-Any (ready (err e)) = tt
  exit_of-Any elapsed = tt

  Gives-call : (f : History → Await (Result A)) (c : Call) → Gives Any (call f c)
  unfolding call
  Gives-call f c = record { at = λ t. exit_of-Any (f (c ∷ t.history)) }

  lift-Any : (r : Result A) (t : Turn) → AllValues Any (lift r t).1
  unfolding lift
  lift-Any (ok a) t = tt
  lift-Any (err e) t = tt

  Gives-lift : (r : Result A) → Gives Any (lift r)
  Gives-lift r = record { at = lift-Any r }

  Gives-pure-Any : (a : A) → Gives Any (pure a)
  unfolding pure
  Gives-pure-Any a = record { at = λ t. tt }

Gives-note : (c : Call) → Gives Any (note c)
unfolding note
Gives-note c = record { at = λ t. tt }

Gives-start_execution : Gives Any start_execution
unfolding start_execution
Gives-start_execution = record { at = λ t. tt }

module _ {A : Type 0} {Q : A → Type 0} where
  Gives-pure : (a : A) → Q a → Gives Q (pure a)
  unfolding pure
  Gives-pure a q = record { at = λ t. q }

  Gives-throw : (e : Error) → Gives Q (throw e)
  unfolding throw
  Gives-throw e = record { at = λ t. tt }

abbrev IsOutcome : {Row : Type 0} → DatabaseResponse Row → Type 0
IsOutcome r = is_outcome r ≡ true

-- A request for the database.
abbrev pub IsWork : DatabaseRequest → Type 0
IsWork close_request = ⊥
IsWork _ = Unit

module _ {Row : Type 0} where
  rows_response-IsOutcome :
      (kind : BackendKind) (rows : List Row) → IsOutcome (rows_response kind rows)
  unfolding rows_response is_outcome
  rows_response-IsOutcome my_sql rows = refl
  rows_response-IsOutcome postgres rows = refl
  rows_response-IsOutcome sqlite rows = refl

  Gives-on_row :
      {Q : DatabaseResponse Row → Type 0} (over : Async (DatabaseResponse Row))
      (more : Row → Async (DatabaseResponse Row)) (o : Option Row)
      → Gives Q over
      → ((r : Row) → Gives Q (more r))
      → Gives Q (on_row over more o)
  Gives-on_row over more none h k = h
  Gives-on_row over more (some r) h k = k r

ruleset gives_rules = (
  Gives->>=, Gives-match_result, Gives-pure, Gives-throw, Gives-on_row, Gives-call, Gives-lift,
  Gives-pure-Any, Gives-note, Gives-start_execution, rows_response-IsOutcome,
)

module _ {Row : Type 0} (w : Driver Row) where
  collect-Gives :
      (kind : BackendKind) (conn max_rows room : ℕ) (rows : List Row)
      → Gives IsOutcome (collect w kind conn max_rows room rows)
  unfolding collect is_outcome
  collect-Gives kind conn max_rows zero rows = search gives_rules
  collect-Gives kind conn max_rows (suc room) rows =
      search (gives_rules, collect-Gives kind conn max_rows room)

  execute_each-Gives :
      (b : DatabaseBackend) (qs : List DatabaseQuery) (n : ℕ) → Gives Any (execute_each w b qs n)
  unfolding execute_each
  execute_each-Gives b [] n = search gives_rules
  execute_each-Gives b (q ∷ qs) n = search (gives_rules, execute_each-Gives b qs)

  pub perform-Gives :
      (context : DatabaseHandlerContext) (op : DatabaseRequest) (b : DatabaseBackend)
      → IsWork op
      → Gives IsOutcome (perform w context op b)
  unfolding perform query execute batch transaction is_outcome
  perform-Gives context (query_request _ _ q) b h = search (gives_rules, collect-Gives)
  perform-Gives context (execute_request _ _ q) b h = search gives_rules
  perform-Gives context (batch_request _ _ sql) b h = search gives_rules
  perform-Gives context (transaction_request _ _ qs) b h = search (gives_rules, execute_each-Gives)
  perform-Gives context close_request b h = absurd h

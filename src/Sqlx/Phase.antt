-- ===== src/Sqlx/Phase.antt =====
-- The phase of a request in crates/libs/lib-lualib/src/lua_sqlx.rs: until `execution_started` is set no
-- statement goes out, and once it is set it stays.
use lrust.Base.{ℕ, zero, suc, ◌≡◌, refl, ◌∙◌, List, [], ◌∷◌, true, false, Option, none, some}
use lrust.Base.Text.{Bytes}
use lrust.Sqlx.Types.{
  DatabaseQuery, DatabaseRequest, query_request, execute_request, batch_request,
  transaction_request, close_request, DatabaseResponse, Result,
}
use lrust.Sqlx.Driver.{
  BackendKind, Call, begins, commits, rolls_back, History, Await, Driver, DatabaseBackend, Turn,
  Async, ◌>>=◌, call, note, start_execution,
}
use lrust.Sqlx.Backend.{on_row, collect, query, execute, batch, execute_each, transaction}
use lrust.Sqlx.Actor.{DatabaseHandlerContext, perform}
use lrust.Sqlx.Steps.{statements, IsPreorder, Keeps, keeps_rules}

-- Once marked, it stays marked.
abbrev pub Marked : Turn → Turn → Type 0
Marked t u = t.execution_started ≡ true → u.execution_started ≡ true

-- A turn that is not marked was not marked before, and nothing has gone out.
abbrev pub Quiet : Turn → Turn → Type 0
Quiet t u =
    u.execution_started ≡ false
    → (t.execution_started ≡ false) × (statements u.history ≡ statements t.history)

Marked-IsPreorder : IsPreorder Marked
Marked-IsPreorder = record { reflexive = λ t h. h; transitive = λ s t u h k e. k (h e) }

Quiet-IsPreorder : IsPreorder Quiet
Quiet-IsPreorder = record {
  reflexive = λ t h. (h, refl);
  transitive = λ s t u h k e. let (a, b) = k e in let (c, d) = h a in (c, b ∙ d);
}

-- Calls that carry no statement.
record IsSilent (c : Call) : Type 0 where
  silent : (h : History) → statements (c ∷ h) ≡ statements h

begins-IsSilent : (n : ℕ) → IsSilent (begins n)
unfolding statements
begins-IsSilent n = record { silent = λ h. refl }

commits-IsSilent : (n : ℕ) → IsSilent (commits n)
unfolding statements
commits-IsSilent n = record { silent = λ h. refl }

rolls_back-IsSilent : (n : ℕ) → IsSilent (rolls_back n)
unfolding statements
rolls_back-IsSilent n = record { silent = λ h. refl }

module _ {A : Type 0} where
  call-Marked : (f : History → Await (Result A)) (c : Call) → Keeps Marked (call f c)
  unfolding call
  call-Marked f c = record { at = λ t h. h }

  call-Quiet : (f : History → Await (Result A)) (c : Call) → IsSilent c → Keeps Quiet (call f c)
  unfolding call
  call-Quiet f c s = record { at = λ t h. (h, s.silent t.history) }

  -- What runs once the phase is marked may send statements.
  started-Quiet :
      (k : Unit {0} → Async A)
      → ((x : Unit {0}) → Keeps Marked (k x))
      → Keeps Quiet (start_execution >>= k)
  unfolding ◌>>=◌
  started-Quiet k marks = record {
    at = λ t h. absurd (cc (h, (marks tt).at (record t { execution_started = true }) refl));
  }

note-Marked : (c : Call) → Keeps Marked (note c)
unfolding note
note-Marked c = record { at = λ t h. h }

start_execution-Marked : Keeps Marked start_execution
unfolding start_execution
start_execution-Marked = record { at = λ t h. refl }

abbrev Response : Type 0 → Type 0
Response Row = DatabaseResponse Row

module _ {Row : Type 0} where
  on_row-Marked :
      (over : Async (Response Row)) (more : Row → Async (Response Row)) (o : Option Row)
      → Keeps Marked over
      → ((r : Row) → Keeps Marked (more r))
      → Keeps Marked (on_row over more o)
  on_row-Marked over more none h k = h
  on_row-Marked over more (some r) h k = k r

ruleset marked_rules = (
  keeps_rules, Marked-IsPreorder, call-Marked, note-Marked, start_execution-Marked, on_row-Marked,
)

ruleset quiet_rules = (
  keeps_rules, Quiet-IsPreorder, call-Quiet, started-Quiet, begins-IsSilent, commits-IsSilent,
  rolls_back-IsSilent,
)

module _ {Row : Type 0} (w : Driver Row) where
  collect-Marked :
      (kind : BackendKind) (conn max_rows room : ℕ) (rows : List Row)
      → Keeps Marked (collect w kind conn max_rows room rows)
  unfolding collect
  collect-Marked kind conn max_rows zero rows = search marked_rules
  collect-Marked kind conn max_rows (suc room) rows =
      search (marked_rules, collect-Marked kind conn max_rows room)

  query-Quiet : (b : DatabaseBackend) (q : DatabaseQuery) (n : ℕ) → Keeps Quiet (query w b q n)
  unfolding query
  query-Quiet b q n = search (marked_rules, quiet_rules, collect-Marked)

  execute-Quiet : (b : DatabaseBackend) (q : DatabaseQuery) → Keeps Quiet (execute w b q)
  unfolding execute
  execute-Quiet b q = search (marked_rules, quiet_rules)

  batch-Quiet : (b : DatabaseBackend) (sql : Bytes) → Keeps Quiet (batch w b sql)
  unfolding batch
  batch-Quiet b sql = search (marked_rules, quiet_rules)

  execute_each-Marked :
      (b : DatabaseBackend) (qs : List DatabaseQuery) (n : ℕ) → Keeps Marked (execute_each w b qs n)
  unfolding execute_each
  execute_each-Marked b [] n = search marked_rules
  execute_each-Marked b (q ∷ qs) n = search (marked_rules, execute_each-Marked b qs)

  execute_each-Quiet :
      (b : DatabaseBackend) (qs : List DatabaseQuery) (n : ℕ) → Keeps Quiet (execute_each w b qs n)
  unfolding execute_each
  execute_each-Quiet b [] n = search quiet_rules
  execute_each-Quiet b (q ∷ qs) n = search (quiet_rules, marked_rules, execute_each-Marked b qs)

  transaction-Quiet :
      (b : DatabaseBackend) (qs : List DatabaseQuery) → Keeps Quiet (transaction w b qs)
  unfolding transaction
  transaction-Quiet b qs = search (quiet_rules, execute_each-Quiet)

  module _ (context : DatabaseHandlerContext) where
    pub perform-Quiet :
        (op : DatabaseRequest) (b : DatabaseBackend) → Keeps Quiet (perform w context op b)
    unfolding perform
    perform-Quiet (query_request _ _ q) b = query-Quiet b q context.max_rows
    perform-Quiet (execute_request _ _ q) b = execute-Quiet b q
    perform-Quiet (batch_request _ _ sql) b = batch-Quiet b sql
    perform-Quiet (transaction_request _ _ qs) b = transaction-Quiet b qs
    perform-Quiet close_request b = record { at = λ t h. (h, refl) }

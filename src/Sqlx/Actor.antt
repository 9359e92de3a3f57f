-- ===== src/Sqlx/Actor.antt =====
-- `database_handler` and `finish_request` of crates/libs/lib-lualib/src/lua_sqlx.rs.
use lrust.Base.{
  ℕ, ◌+◌, ◌-◌, ◌%◌, List, [], ◌∷◌, ◌++◌, Bool, true, false, ◌&&◌, Option, none, some, ltb, ◌==◌,
  if◌then◌else◌,
}
use lrust.Base.Outcome.{Outcome, done, panic, fault}
use lrust.Base.Text.{Bytes, codes, to_string}
use lrust.Base.Time.{u64_mod}
use lrust.Retry.Backoff.{ReconnectBackoff, failed, reset, retry_after_ms}
use lrust.Retry.LogGate.{ConnectionLogGate}
use lrust.Retry.LogGate as Gate
use lrust.Response.{Registry, publish}
use lrust.Sqlx.Types.{
  DatabaseRequest, query_request, execute_request, batch_request, transaction_request,
  close_request, Error, io, DatabaseResponse, error, error_before_execution, connect_failed,
  reconnect_cooldown, disconnected_error, timed_out, timed_out_before_execution, row_limit_exceeded,
  requires_disconnect, classify_execution,
}
use lrust.Sqlx.Driver.{
  reads_clock, History, Driver, DatabaseBackend, Turn, Exit, value, failure, cancelled, panicked,
  Async, ◌>>=◌, ◌>>◌,
}
use lrust.Sqlx.Backend.{connect, query, execute, batch, transaction}

pub record DatabaseHandlerContext : Type 0 where
  pub protocol_type : ℕ
  pub connection_name : Bytes
  pub database_url : Bytes
  pub request_timeout : ℕ
  pub max_rows : ℕ

-- What the actor keeps from one request to the next.
pub record Actor : Type 0 where
  pub backend : Option DatabaseBackend
  pub reconnect : ReconnectBackoff
  pub connection_logs : ConnectionLogGate
  pub history : History

-- `send_integer_message`.
pub record Message : Type 0 where
  pub protocol_type : ℕ
  pub receiver : ℕ
  pub session : ℕ

-- What actors share with their callers; the counter is its 64-bit pattern.
pub record Shared (Row : Type 0) : Type 0 where
  pub counter : ℕ
  pub responses : Registry (DatabaseResponse Row)
  pub messages : List Message
  pub logs : List (ℕ × Bytes)

-- `fetch_sub(1)` on a 64-bit counter wraps.
abbrev pub decremented : ℕ → ℕ
decremented n = (n + (u64_mod - 1)) % u64_mod

unfoldable pub owner_of : DatabaseRequest → ℕ
owner_of (query_request o s q) = o
owner_of (execute_request o s q) = o
owner_of (batch_request o s q) = o
owner_of (transaction_request o s q) = o
owner_of close_request = 0

unfoldable pub session_of : DatabaseRequest → ℕ
session_of (query_request o s q) = s
session_of (execute_request o s q) = s
session_of (batch_request o s q) = s
session_of (transaction_request o s q) = s
session_of close_request = 0

unfoldable pub operation_of : DatabaseRequest → Bytes
operation_of (query_request o s q) = codes "query"
operation_of (execute_request o s q) = codes "execute"
operation_of (batch_request o s q) = codes "batch"
operation_of (transaction_request o s q) = codes "transaction"
operation_of close_request = []

abbrev pub is_none {ℓ} : {A : Type ℓ} → Option A → Bool
is_none none = true
is_none (some a) = false

-- `backend.insert(connection)`.
abbrev pub insert_backend : DatabaseBackend → Async DatabaseBackend
insert_backend b t = (record t { backend = some b }, value b)

abbrev pub connection_ready : Async (Unit {0})
connection_ready t = (record t { connecting = false; reconnect = reset t.reconnect }, value tt)

-- The turn as the timed future finds it.
abbrev pub opening : Actor → Turn
opening a = record {
  backend = a.backend;
  connecting = is_none a.backend;
  reconnect = a.reconnect;
  execution_started = false;
  history = reads_clock ∷ a.history;
}

abbrev pub connect_error : {A : Type 0} → Exit A → Outcome Error
connect_error (value r) = panic
connect_error (failure e) = done e
connect_error cancelled = done (io (codes "request timed out while reconnecting"))
connect_error panicked = panic

module _ {Row : Type 0} where
  unfoldable pub send_response : ℕ → ℕ → ℕ → DatabaseResponse Row → Shared Row → Shared Row
  send_response protocol_type owner session response s =
      let (r, accepted) =
        publish s.responses (record { owner = owner; session = session }) response in
      if session == 0
      then s
      else if accepted
      then record s {
        responses = r;
        messages =
            s.messages
            ++ record { protocol_type = protocol_type; receiver = owner; session = session } ∷ [];
      }
      else record s { responses = r }

  unfoldable pub is_connect_failure : DatabaseResponse Row → Bool
  is_connect_failure (connect_failed _ _) = true
  is_connect_failure (reconnect_cooldown _) = true
  is_connect_failure _ = false

  -- The turn's end: the phase decides what the response promises, and a connection that may be in the
  -- middle of something is dropped.
  unfoldable pub retire :
      ConnectionLogGate → Turn × DatabaseResponse Row → Actor × DatabaseResponse Row
  retire logs (t, raw) =
      let response = classify_execution raw t.execution_started in
      (
        record {
          backend = if requires_disconnect response then none else t.backend;
          reconnect = t.reconnect;
          connection_logs = logs;
          history = t.history;
        },
        response,
      )

  abbrev pub retire_done :
      ConnectionLogGate
      → Outcome (Turn × DatabaseResponse Row)
      → Outcome (Actor × DatabaseResponse Row)
  retire_done logs (done p) = done (retire logs p)
  retire_done logs panic = panic
  retire_done logs fault = fault

module _ {Row : Type 0} (w : Driver Row) where
  unfoldable pub message_of : DatabaseResponse Row → Option Bytes
  message_of (error e) = some (w.display e)
  message_of (error_before_execution e) = some (w.display e)
  message_of (disconnected_error e) = some (w.display e)
  message_of (timed_out m) = some m
  message_of (timed_out_before_execution m) = some m
  message_of (connect_failed e ms) = some (
      codes "connection failed: "
      ++ w.display e
      ++ codes "; retry after "
      ++ to_string ms
      ++ codes " ms (SQL not submitted)")
  message_of (reconnect_cooldown ms) =
      some (
        codes "reconnect cooldown: retry after " ++ to_string ms ++ codes " ms (SQL not submitted)")
  message_of (row_limit_exceeded n) =
      some (codes "query result exceeded max_rows (" ++ to_string n ++ codes ")")
  message_of _ = none

module _ {Row : Type 0} (w : Driver Row) (context : DatabaseHandlerContext) where
  -- `format!("Database '{}' error: {message}; suppressed connection errors: {suppressed}")`.
  unfoldable pub log_line : Bytes → ℕ → Bytes
  log_line message suppressed =
      codes "Database '"
      ++ context.connection_name
      ++ codes "' error: "
      ++ message
      ++ codes "; suppressed connection errors: "
      ++ to_string suppressed

  abbrev pub logged : ℕ → ℕ → Option Bytes → Shared Row → Shared Row
  logged owner suppressed none s = s
  logged owner suppressed (some message) s = record s {
    logs = s.logs ++ (owner, log_line message suppressed) ∷ [];
  }

  unfoldable pub log_response : ℕ → DatabaseResponse Row → ℕ → Shared Row → Shared Row
  log_response owner response suppressed s = logged owner suppressed (message_of w response) s

  -- A connection failure is reported with the count of those that were not, or not at all.
  abbrev pub log_failure : ℕ → DatabaseResponse Row → Option ℕ → Shared Row → Shared Row
  log_failure owner response none s = s
  log_failure owner response (some count) s = log_response owner response count s

  unfoldable pub finish_request :
      ℕ → ℕ → DatabaseResponse Row → Actor → Shared Row → Actor × Shared Row
  finish_request owner session response a s0 =
      let s = record s0 { counter = decremented s0.counter } in
      let h = reads_clock ∷ a.history in
      let (gate, reported) = Gate.take a.connection_logs (w.now h) in
      if session == 0
      then if is_connect_failure response
        then (
          record a { connection_logs = gate; history = h },
          log_failure owner response reported s,
        )
        else (a, log_response owner response 0 s)
      else (a, send_response context.protocol_type owner session response s)

  unfoldable pub perform : DatabaseRequest → DatabaseBackend → Async (DatabaseResponse Row)
  perform (query_request _ _ q) b = query w b q context.max_rows
  perform (execute_request _ _ q) b = execute w b q
  perform (batch_request _ _ sql) b = batch w b sql
  perform (transaction_request _ _ queries) b = transaction w b queries
  perform close_request b = λ t. (t, panicked)

  unfoldable pub obtain : Async DatabaseBackend
  obtain t = elim t.backend [
    | some b ↦ (t, value b)
    | none ↦ (connect w context.database_url >>= insert_backend) t
  ]

  -- The future under the request's deadline.
  unfoldable pub timed_request : DatabaseRequest → Async (DatabaseResponse Row)
  timed_request op = do b ← obtain; connection_ready; perform op b

  unfoldable pub timeout_message : DatabaseRequest → Bytes
  timeout_message op =
      operation_of op
      ++ codes " timed out after "
      ++ to_string context.request_timeout
      ++ codes " ms"

  unfoldable pub settled :
      DatabaseRequest → Exit (DatabaseResponse Row) → Outcome (DatabaseResponse Row)
  settled op (value r) = done r
  settled op (failure e) = done (error e)
  settled op cancelled = done (timed_out (timeout_message op))
  settled op panicked = panic

  -- The response to the end of the timed future. Two clock readings follow a failed connect: one
  -- starts the cooldown, and one says how much of it is left.
  unfoldable pub conclude :
      DatabaseRequest → Turn → Exit (DatabaseResponse Row) → Outcome (Turn × DatabaseResponse Row)
  conclude op t x =
      let h1 = reads_clock ∷ t.history in
      let h2 = reads_clock ∷ h1 in
      let r = failed t.reconnect (w.now h1) in
      if t.connecting
      then elim (connect_error x) [
        | done e ↦ done (
          record t { reconnect = r; history = h2 },
          connect_failed e (retry_after_ms r (w.now h2)),
        )
        | panic ↦ panic
        | fault ↦ fault
      ]
      else elim (settled op x) [
        | done response ↦ done (t, response)
        | panic ↦ panic
        | fault ↦ fault
      ]

  unfoldable pub run_turn : DatabaseRequest → Actor → Outcome (Actor × DatabaseResponse Row)
  run_turn op a =
      let (t, x) = timed_request op (opening a) in retire_done a.connection_logs (conclude op t x)

  -- The milliseconds of cooldown left when a request is taken up.
  unfoldable pub cooldown : Actor → ℕ
  cooldown a = retry_after_ms a.reconnect (w.now (reads_clock ∷ a.history))

  -- One request that is not `Close`, up to its response.
  unfoldable pub serve : DatabaseRequest → Actor → Outcome (Actor × DatabaseResponse Row)
  serve op a =
      if is_none a.backend && ltb 0 (cooldown a)
      then done (record a { history = reads_clock ∷ a.history }, reconnect_cooldown (cooldown a))
      else run_turn op a

  abbrev pub finish :
      DatabaseRequest
      → Shared Row
      → Outcome (Actor × DatabaseResponse Row)
      → Outcome (Actor × Shared Row)
  finish op s (done (a, response)) =
      done (finish_request (owner_of op) (session_of op) response a s)
  finish op s panic = panic
  finish op s fault = fault

  -- One request that is not `Close`, reply included.
  unfoldable pub handle_work : DatabaseRequest → Actor → Shared Row → Outcome (Actor × Shared Row)
  handle_work op a s = finish op s (serve op a)

  abbrev pub continue_with :
      (Actor → Shared Row → Outcome (Actor × Shared Row))
      → Outcome (Actor × Shared Row)
      → Outcome (Actor × Shared Row)
  continue_with next (done (a, s)) = next a s
  continue_with next panic = panic
  continue_with next fault = fault

  -- The requests that `recv` yields, in turn. `Close` only closes the receiving end.
  unfoldable pub handle_all :
      List DatabaseRequest → Actor → Shared Row → Outcome (Actor × Shared Row)
  handle_all [] a s = done (a, s)
  handle_all (close_request ∷ ops) a s = handle_all ops a s
  handle_all (op ∷ ops) a s = continue_with (handle_all ops) (handle_work op a s)

-- ===== src/Sqlx/Tests.antt =====
-- Requests of crates/libs/lib-lualib/src/lua_sqlx.rs against concrete drivers.
use lrust.Base.{true, ◌↔◌, ℕ, ◌≡◌, refl, [], ◌∷◌, ◌++◌, false, none, some, length, take}
use lrust.Base.Int.{pos}
use lrust.Base.Outcome.{done}
use lrust.Base.Text.{codes, to_string, digits_onto}
use lrust.Retry.Backoff.{ReconnectBackoff, reset, failed, retry_after_ms}
use lrust.Retry.Backoff as Backoff
use lrust.Retry.LogGate.{ConnectionLogGate}
use lrust.Retry.LogGate as Gate
use lrust.Sqlx.Types.{
  DatabaseResponse, int_param, DatabaseQuery, DatabaseRequest, transaction_request, ok, err,
  database, requires_disconnect, classify_execution, connection_error, code_is_fatal,
  error_requires_disconnect, error, timed_out_before_execution, transaction_done,
}
use lrust.Sqlx.Driver.{
  sqlite, prepared, reads_clock, begins, executes, commits, rolls_back, ready, elapsed, Driver,
  DatabaseBackend, Turn, ◌>>=◌,
}
use lrust.Sqlx.Backend.{
  url_kind, connect_exit, bind, bind_all, make_query, make_pg_query, make_for, insert_id,
  rows_response, connect, collect, query, execute, batch, execute_each, transaction,
}
use lrust.Sqlx.Actor.{
  DatabaseHandlerContext, Actor, is_none, is_connect_failure, operation_of, perform, obtain,
  timed_request, timeout_message, settled, conclude, retire, run_turn, cooldown, serve,
}
use lrust.Sqlx.Steps.{statements}
use lrust.Sqlx.Unsubmitted.{serve-unsubmitted}
use lrust.Sqlx.Sends.{serve-sends, planned}
use lrust.Sqlx.Served.{Served, serve-Served}
use lrust.Sqlx.Loses.{Loses}
use lrust.Sqlx.After.{serve-backend, serve-reconnect}
use lrust.Sqlx.Transaction.{Ending, transaction-Ending}

-- All the calls, for tests by evaluation.
calls : Unit {0}
unfolding url_kind connect_exit bind bind_all make_query make_pg_query make_for insert_id
    rows_response connect collect query execute batch execute_each transaction perform obtain
    timed_request timeout_message settled conclude retire run_turn cooldown serve operation_of
    requires_disconnect classify_execution connection_error code_is_fatal error_requires_disconnect
    is_connect_failure reset failed retry_after_ms statements to_string digits_onto ◌>>=◌
    Backoff.new Gate.new
calls = tt

abbrev pub context : DatabaseHandlerContext
context = record {
  protocol_type = 4;
  connection_name = codes "main";
  database_url = codes "sqlite:main.db";
  request_timeout = 30;
  max_rows = 2;
}

-- A driver that accepts everything, and has no rows.
abbrev pub willing : Driver ℕ
willing = record {
  now = length;
  connect = λ h. ready (ready (ok tt));
  begin = λ h. ready (ok tt);
  execute =
      λ h. ready (ok (record { rows_affected = 1; last_insert_id = 5; last_insert_rowid = pos 5 }));
  fetch_row = λ h. ready (ok none);
  commit = λ h. ready (ok tt);
  rollback = λ h. ready (ok tt);
  display = λ e. [];
}

-- Its BEGIN does not return in time.
abbrev slow_begin : Driver ℕ
slow_begin = record willing { begin = λ h. elapsed }

-- It refuses every statement.
abbrev refusing : Driver ℕ
refusing = record willing {
  execute = λ h. ready (err (database (some (codes "23505")) (codes "duplicate")));
}

abbrev link : DatabaseBackend
link = record { kind = sqlite; conn = 0 }

abbrev idle : Actor
idle = record {
  backend = some link;
  reconnect = record { initial = 250; max = 5000; delay = 0; retry_at = none };
  connection_logs = record { interval = 5; next_log = none; suppressed = 0 };
  history = [];
}

abbrev insert_one : DatabaseQuery
insert_one = record { sql = codes "INSERT"; binds = int_param (pos 1) ∷ [] }

abbrev pub two_inserts : DatabaseRequest
two_inserts = transaction_request 1 8 (insert_one ∷ insert_one ∷ [])

abbrev sent : Actor
sent = record idle {
  history =
      commits 0
      ∷ executes 0 (prepared (codes "INSERT") (int_param (pos 1) ∷ []))
      ∷ executes 0 (prepared (codes "INSERT") (int_param (pos 1) ∷ []))
      ∷ begins 0
      ∷ reads_clock
      ∷ [];
}

abbrev cut : Actor
cut = record idle { backend = none; history = begins 0 ∷ reads_clock ∷ [] }

abbrev undone : Actor
undone = record idle {
  history =
      rolls_back 0
      ∷ executes 0 (prepared (codes "INSERT") (int_param (pos 1) ∷ []))
      ∷ begins 0
      ∷ reads_clock
      ∷ [];
}

commits_both : serve willing context two_inserts idle ≡ done (sent, transaction_done 2)
unfolding calls
commits_both = refl

rolls_back_first :
    serve refusing context two_inserts idle
    ≡ done (undone, error (database (some (codes "23505")) (codes "duplicate")))
unfolding calls
rolls_back_first = refl

serve-unsubmitted_example : statements cut.history ≡ statements idle.history
unfolding calls
serve-unsubmitted_example =
    serve-unsubmitted slow_begin context two_inserts idle cut
      (timed_out_before_execution (codes "transaction timed out after 30 ms")) tt refl refl

serve-sends_example :
    (kind : _) × (n : ℕ) × (statements sent.history
      ≡ statements idle.history ++ take n (planned kind two_inserts))
unfolding calls
serve-sends_example = serve-sends willing context two_inserts idle sent (transaction_done 2) tt refl

serve-backend_example :
    (is_none cut.backend ≡ true)
    ↔ Loses {Row = ℕ} (timed_out_before_execution (codes "transaction timed out after 30 ms"))
unfolding calls
serve-backend_example =
    serve-backend slow_begin context two_inserts idle cut
      (timed_out_before_execution (codes "transaction timed out after 30 ms")) tt refl

serve-reconnect_example : undone.reconnect ≡ reset idle.reconnect
unfolding calls
serve-reconnect_example =
    serve-reconnect refusing context two_inserts idle undone
      (error (database (some (codes "23505")) (codes "duplicate"))) tt refl refl

abbrev opened : Turn
opened = record {
  backend = some link;
  connecting = false;
  reconnect = idle.reconnect;
  execution_started = false;
  history = [];
}

transaction-Ending_example :
    Ending refusing link
      (insert_one ∷ insert_one ∷ [])
      opened
      (transaction refusing link (insert_one ∷ insert_one ∷ []) opened)
transaction-Ending_example = transaction-Ending refusing link (insert_one ∷ insert_one ∷ []) opened

-- Without a connection, the next attempt due.
abbrev pub offline : Actor
offline = record idle { backend = none }

serve-Served_example :
    (p : Actor × DatabaseResponse ℕ) × (serve willing context two_inserts offline ≡ done p)
    × Served willing context two_inserts offline p
serve-Served_example = serve-Served willing context two_inserts offline tt

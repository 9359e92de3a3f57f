-- ===== src/Sqlx/QueueTests.antt =====
-- Accepting and serving requests of crates/libs/lib-lualib/src/lua_sqlx.rs, at concrete connections.
use lrust.Base.{◌≡◌, some, refl, none, ℕ, [], ◌∷◌, true, false, arith}
use lrust.Response as Responses
use lrust.Sqlx.Options.Bounds.{AreUsable, connect_options-schedule}
use lrust.Retry.Backoff.{new}
use lrust.Retry.Backoff.Schedule.{fail_all}
use lrust.Sqlx.Types.{close_request, batch_request}
use lrust.Base.Text.{codes}
use lrust.Sqlx.Actor.{Shared, handle_all}
use lrust.Sqlx.Client.{DatabaseConnection, enqueue}
use lrust.Base.Int.{pos}
use lrust.Sqlx.Options.{ConnectOptions, connect_options, positive_option, bounded_option, ◌>>=◌}
use lrust.Sqlx.Queue.{Accounts, enqueue-Accounts}
use lrust.Sqlx.Drained.{IsDrained, handle_all-IsDrained}
use lrust.Sqlx.Tests.{willing, context, offline, two_inserts}

abbrev shared : Shared ℕ
shared = record { counter = 2; responses = Responses.new; messages = []; logs = [] }

-- One place is left.
abbrev connection : DatabaseConnection ℕ
connection = record {
  closing = false;
  receiving = true;
  capacity = 3;
  queue = two_inserts ∷ two_inserts ∷ [];
  shared = shared;
}

enqueue-Accounts_example :
    Accounts connection
      (batch_request 1 8 (codes "VACUUM"))
      (enqueue 1 8 (batch_request 1 8 (codes "VACUUM")) connection)
enqueue-Accounts_example =
    enqueue-Accounts 1 8 (batch_request 1 8 (codes "VACUUM")) connection (omega arith)

handle_all-IsDrained_example :
    IsDrained willing context
      (two_inserts ∷ close_request ∷ two_inserts ∷ [])
      offline
      shared
      (handle_all willing context (two_inserts ∷ close_request ∷ two_inserts ∷ []) offline shared)
handle_all-IsDrained_example =
    handle_all-IsDrained willing context (two_inserts ∷ close_request ∷ two_inserts ∷ []) offline
      shared (omega arith) (omega arith)

abbrev defaults : ConnectOptions
defaults = record {
  connect_timeout = pos 5000;
  request_timeout = pos 30000;
  max_rows = pos 100000;
  queue_capacity = pos 100;
  reconnect_initial_delay = pos 250;
  reconnect_max_delay = pos 5000;
  reconnect_log_interval = pos 5000;
}

connect_options-schedule_example :
    AreUsable defaults
    × ((fail_all (new 250000000 5000000000) (7 ∷ 8 ∷ 9 ∷ [])).delay ≡ 1000000000)
    × ((fail_all (new 250000000 5000000000) (7 ∷ 8 ∷ 9 ∷ [])).retry_at ≡ some 1000000009)
unfolding connect_options positive_option bounded_option ◌>>=◌
connect_options-schedule_example = connect_options-schedule (λ i. none) defaults (7 ∷ 8 ∷ []) 9 refl

-- ===== src/Sqlx/Driver.antt =====
-- What crates/libs/lib-lualib/src/lua_sqlx.rs takes from the crates `sqlx` and `tokio`, and from the
-- clock, and the state of one timed request.
--
-- The driver is a parameter: functions that answer each call from the history of all calls so far, so
-- it may answer in any way at all. Every `await` may also be the point where the deadline passes.
use lrust.Base.{ℕ, List, ◌∷◌, Bool, true, Option}
use lrust.Base.Int.{ℤ}
use lrust.Base.Text.{Bytes}
use lrust.Retry.Backoff.{ReconnectBackoff}
use lrust.Sqlx.Types.{QueryParams, Error, Result, ok, err}

pub data BackendKind : Type 0 where
  my_sql postgres sqlite : BackendKind

-- SQL with its bound arguments, or several statements as raw text.
pub data Statement : Type 0 where
  prepared : Bytes → List QueryParams → Statement
  raw_sql : Bytes → Statement

-- A call of the driver, or a reading of the clock. A connection is known by its number.
pub data Call : Type 0 where
  reads_clock : Call
  connects : BackendKind → Bytes → Call
  begins : ℕ → Call
  executes : ℕ → Statement → Call
  fetches : ℕ → Statement → Call
  next_row : ℕ → Call
  commits : ℕ → Call
  rolls_back : ℕ → Call
  closes : ℕ → Call

-- The calls so far, the latest first.
abbrev pub History : Type 0
History = List Call

-- How an `await` under a deadline ends.
pub data Await (A : Type 0) : Type 0 where
  ready : A → Await A
  elapsed : Await A

pub record QueryResult : Type 0 where
  pub rows_affected : ℕ
  pub last_insert_id : ℕ
  pub last_insert_rowid : ℤ

-- `connect` is under the connect timeout, which is under the request's.
pub record Driver (Row : Type 0) : Type 0 where
  pub now : History → ℕ
  pub connect : History → Await (Await (Result (Unit {0})))
  pub begin : History → Await (Result (Unit {0}))
  pub execute : History → Await (Result QueryResult)
  pub fetch_row : History → Await (Result (Option Row))
  pub commit : History → Await (Result (Unit {0}))
  pub rollback : History → Await (Result (Unit {0}))
  pub display : Error → Bytes

-- A connection that the actor owns.
pub record DatabaseBackend : Type 0 where
  pub kind : BackendKind
  pub conn : ℕ

-- What one timed request reads and writes.
pub record Turn : Type 0 where
  pub backend : Option DatabaseBackend
  pub connecting : Bool
  pub reconnect : ReconnectBackoff
  pub execution_started : Bool
  pub history : History

-- The end of asynchronous code: a value, an error passed on by `?`, its cancellation at an `await`,
-- after which none of it runs, or a panic.
pub data Exit (A : Type 0) : Type 0 where
  value : A → Exit A
  failure : Error → Exit A
  cancelled : Exit A
  panicked : Exit A

abbrev pub Async : Type 0 → Type 0
Async A = Turn → Turn × Exit A

unfoldable pub pure : {A : Type 0} → A → Async A
pure a t = (t, value a)

unfoldable pub throw : {A : Type 0} → Error → Async A
throw e t = (t, failure e)

-- The rest of a block, where its first part ended.
abbrev pub and_then : {A B : Type 0} → (A → Async B) → Turn × Exit A → Turn × Exit B
and_then f (t, value a) = f a t
and_then f (t, failure e) = (t, failure e)
and_then f (t, cancelled) = (t, cancelled)
and_then f (t, panicked) = (t, panicked)

abbrev pub on_result :
    {A B : Type 0} → (A → Async B) → (Error → Async B) → Turn × Exit A → Turn × Exit B
on_result f g (t, value a) = f a t
on_result f g (t, failure e) = g e t
on_result f g (t, cancelled) = (t, cancelled)
on_result f g (t, panicked) = (t, panicked)

-- `match m.await { Ok(a) => f(a), Err(e) => g(e) }`.
unfoldable pub match_result : {A B : Type 0} → Async A → (A → Async B) → (Error → Async B) → Async B
match_result m f g t = on_result f g (m t)

unfoldable pub lift : {A : Type 0} → Result A → Async A
lift (ok a) t = (t, value a)
lift (err e) t = (t, failure e)

abbrev pub exit_of : {A : Type 0} → Await (Result A) → Exit A
exit_of (ready (ok a)) = value a
exit_of (ready (err e)) = failure e
exit_of elapsed = cancelled

-- A call of the driver, awaited.
unfoldable pub call : {A : Type 0} → (History → Await (Result A)) → Call → Async A
call f c t = (record t { history = c ∷ t.history }, exit_of (f (c ∷ t.history)))

-- A call that is not awaited.
unfoldable pub note : Call → Async (Unit {0})
note c t = (record t { history = c ∷ t.history }, value tt)

unfoldable pub start_execution : Async (Unit {0})
start_execution t = (record t { execution_started = true }, value tt)

-- Opening this opens the other ways to build a timed request.
infixl 5 ◌>>=◌ ◌>>◌
unfoldable pub ◌>>=◌ : {A B : Type 0} → Async A → (A → Async B) → Async B
unfolding pure throw lift call note start_execution match_result
◌>>=◌ m f t = and_then f (m t)

abbrev pub ◌>>◌ : {B : Type 0} → Async (Unit {0}) → Async B → Async B
m >> k = m >>= λ _. k

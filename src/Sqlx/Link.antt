-- ===== src/Sqlx/Link.antt =====
-- How a request of crates/libs/lib-lualib/src/lua_sqlx.rs gets its connection, and what it does to the
-- actor's link: the connection, whether it is being made, and the backoff.
use lrust.Base.{
  ap, sym, ℕ, zero, suc, ◌≡◌, refl, ◌∙◌, List, [], ◌∷◌, false, Option, none, some, Option-cases,
  ◌⊎◌, inl, inr, length,
}
use lrust.Base.Text.{Bytes, codes}
use lrust.Base.Outcome.{done}
use lrust.Retry.Backoff.{reset}
use lrust.Sqlx.Types.{
  DatabaseQuery, DatabaseRequest, query_request, execute_request, batch_request,
  transaction_request, close_request, DatabaseResponse, Error, configuration, Result, ok, err,
}
use lrust.Sqlx.Driver.{
  BackendKind, Call, connects, History, Await, ready, elapsed, Driver, DatabaseBackend, Turn, Exit,
  value, failure, cancelled, panicked, Async, and_then, ◌>>=◌, ◌>>◌, call, note, start_execution,
}
use lrust.Sqlx.Backend.{
  connect, connect_exit, url_kind, on_row, collect, query, execute, batch, execute_each,
  transaction,
}
use lrust.Sqlx.Actor.{
  DatabaseHandlerContext, perform, obtain, connection_ready, insert_backend, timed_request,
  connect_error,
}
use lrust.Sqlx.Steps.{IsPreorder, Keeps, keeps_rules}

-- The connection, its state and the backoff are untouched.
pub record SameLink (t u : Turn) : Type 0 where
  pub backend : u.backend ≡ t.backend
  pub connecting : u.connecting ≡ t.connecting
  pub reconnect : u.reconnect ≡ t.reconnect

SameLink-IsPreorder : IsPreorder SameLink
SameLink-IsPreorder = record {
  reflexive = λ t. record { backend = refl; connecting = refl; reconnect = refl };
  transitive = λ s t u h k. record {
    backend = k.backend ∙ h.backend;
    connecting = k.connecting ∙ h.connecting;
    reconnect = k.reconnect ∙ h.reconnect;
  };
}

call-SameLink : {A : Type 0} (f : History → Await (Result A)) (c : Call) → Keeps SameLink (call f c)
unfolding call
call-SameLink f c = record {
  at = λ t. record { backend = refl; connecting = refl; reconnect = refl };
}

note-SameLink : (c : Call) → Keeps SameLink (note c)
unfolding note
note-SameLink c = record {
  at = λ t. record { backend = refl; connecting = refl; reconnect = refl };
}

start_execution-SameLink : Keeps SameLink start_execution
unfolding start_execution
start_execution-SameLink = record {
  at = λ t. record { backend = refl; connecting = refl; reconnect = refl };
}

module _ {Row : Type 0} where
  on_row-SameLink :
      (over : Async (DatabaseResponse Row)) (more : Row → Async (DatabaseResponse Row))
      (o : Option Row)
      → Keeps SameLink over
      → ((r : Row) → Keeps SameLink (more r))
      → Keeps SameLink (on_row over more o)
  on_row-SameLink over more none h k = h
  on_row-SameLink over more (some r) h k = k r

ruleset link_rules = (
  keeps_rules, SameLink-IsPreorder, call-SameLink, note-SameLink, start_execution-SameLink,
  on_row-SameLink,
)

-- What follows a failed attempt does not run.
and_then-failed :
    {A B : Type 0} (f : A → Async B) (t : Turn) (x : Exit A) (e : Error)
    → connect_error x ≡ done e
    → ((and_then f (t, x)).0 ≡ t) × (connect_error (and_then f (t, x)).1 ≡ done e)
and_then-failed f t (value a) e h = cc
and_then-failed f t (failure d) e h = (refl, h)
and_then-failed f t cancelled e h = (refl, h)
and_then-failed f t panicked e h = cc

module _ {Row : Type 0} (w : Driver Row) where
  collect-SameLink :
      (kind : BackendKind) (conn max_rows room : ℕ) (rows : List Row)
      → Keeps SameLink (collect w kind conn max_rows room rows)
  unfolding collect
  collect-SameLink kind conn max_rows zero rows = search link_rules
  collect-SameLink kind conn max_rows (suc room) rows =
      search (link_rules, collect-SameLink kind conn max_rows room)

  execute_each-SameLink :
      (b : DatabaseBackend) (qs : List DatabaseQuery) (n : ℕ)
      → Keeps SameLink (execute_each w b qs n)
  unfolding execute_each
  execute_each-SameLink b [] n = search link_rules
  execute_each-SameLink b (q ∷ qs) n = search (link_rules, execute_each-SameLink b qs)

  module _ (context : DatabaseHandlerContext) where
    pub perform-SameLink :
        (op : DatabaseRequest) (b : DatabaseBackend) → Keeps SameLink (perform w context op b)
    unfolding perform query execute batch transaction
    perform-SameLink (query_request _ _ q) b = search (link_rules, collect-SameLink)
    perform-SameLink (execute_request _ _ q) b = search link_rules
    perform-SameLink (batch_request _ _ sql) b = search link_rules
    perform-SameLink (transaction_request _ _ qs) b = search (link_rules, execute_each-SameLink)
    perform-SameLink close_request b = record {
      at = λ t. record { backend = refl; connecting = refl; reconnect = refl };
    }

    -- The calls of an attempt to connect: none for a URL that no driver serves.
    abbrev pub attempt : Bytes → Option BackendKind → History → History
    attempt url none h = h
    attempt url (some kind) h = connects kind url ∷ h

    -- The attempt failed, and the operation never began.
    pub record Unconnected (t : Turn) (p : Turn × Exit (DatabaseResponse Row)) : Type 0 where
      pub was_none : t.backend ≡ none
      pub turn : p.0 ≡ record t {
        history = attempt context.database_url (url_kind context.database_url) t.history;
      }
      pub reason : Error
      pub failed : connect_error p.1 ≡ done reason

    -- There is a connection, and the operation runs on it.
    pub record Connected (op : DatabaseRequest) (t : Turn) (p : Turn × Exit (DatabaseResponse Row))
        : Type 0 where
      pub link : DatabaseBackend
      pub before : History
      pub origin :
          ((t.backend ≡ some link) × (before ≡ t.history))
          ⊎ ((t.backend ≡ none)
              × (before ≡ attempt context.database_url (url_kind context.database_url) t.history))
      pub run :
          p
          ≡ perform w context op link (record t {
            backend = some link;
            connecting = false;
            reconnect = reset t.reconnect;
            history = before;
          })

    -- How an attempt to connect ends.
    connect_exit-cases :
        (a : Await (Await (Result (Unit {0})))) (n : ℕ) (kind : BackendKind)
        → (connect_exit a n kind ≡ value (record { kind = kind; conn = n }))
          ⊎ ((e : Error) × (connect_error (connect_exit a n kind) ≡ done e))
    unfolding connect_exit
    connect_exit-cases (ready (ready (ok x))) n kind = inl refl
    connect_exit-cases (ready (ready (err e))) n kind = inr (e, refl)
    connect_exit-cases (ready elapsed) n kind = inr (_, refl)
    connect_exit-cases elapsed n kind = inr (_, refl)

    obtained :
        (op : DatabaseRequest) (t u : Turn) (b : DatabaseBackend)
        → obtain w context t ≡ (u, value b)
        → timed_request w context op t
          ≡ perform w context op b (record u { connecting = false; reconnect = reset u.reconnect })
    unfolding timed_request ◌>>=◌
    obtained op t u b e =
        ap (and_then (λ (d : DatabaseBackend). connection_ready >> perform w context op d)) e

    missed :
        (op : DatabaseRequest) (t u : Turn) (x : Exit DatabaseBackend) (e : Error)
        → obtain w context t ≡ (u, x)
        → connect_error x ≡ done e
        → ((timed_request w context op t).0 ≡ u)
          × (connect_error (timed_request w context op t).1 ≡ done e)
    unfolding timed_request ◌>>=◌
    missed op t u x e eq h = rw eq (
        and_then-failed (λ (d : DatabaseBackend). connection_ready >> perform w context op d) u x e
          h)

    obtain-some :
        (t : Turn) (b : DatabaseBackend) → t.backend ≡ some b → obtain w context t ≡ (t, value b)
    obtain-some t b e = unfold obtain in rw e

    obtain-none :
        (t : Turn)
        → t.backend ≡ none
        → obtain w context t ≡ and_then insert_backend (connect w context.database_url t)
    obtain-none t e = unfold obtain ◌>>=◌ in rw e

    connect-no_kind :
        (t : Turn)
        → url_kind context.database_url ≡ none
        → (e : Error) × (connect w context.database_url t ≡ (t, failure e))
    unfolding connect
    connect-no_kind t k = (configuration (codes "Unsupported database type"), rw (k, connect))

    connect-kind :
        (t : Turn) (kind : BackendKind)
        → url_kind context.database_url ≡ some kind
        → let h = connects kind context.database_url ∷ t.history in
          connect w context.database_url t
          ≡ (record t { history = h }, connect_exit (w.connect h) (length t.history) kind)
    unfolding connect
    connect-kind t kind k = rw (k, connect)

    abbrev url : Bytes
    url = context.database_url

    unconnected :
        (op : DatabaseRequest) (t u : Turn) (x : Exit DatabaseBackend) (e : Error)
        → t.backend ≡ none
        → connect w url t ≡ (u, x)
        → connect_error x ≡ done e
        → u ≡ record t { history = attempt url (url_kind url) t.history }
        → Unconnected t (timed_request w context op t)
    unconnected op t u x e was c h eq =
        let (at, failed) = and_then-failed insert_backend u x e h in
        let (turn, error) =
          missed op t _ _ e (obtain-none t was ∙ ap (and_then insert_backend) c) failed in
        record { was_none = was; turn = turn ∙ at ∙ eq; reason = e; failed = error }

    -- Every timed request either fails to connect or runs its operation on a connection.
    pub timed_request-cases :
        (op : DatabaseRequest) (t : Turn)
        → Unconnected t (timed_request w context op t)
          ⊎ Connected op t (timed_request w context op t)
    timed_request-cases op t = elim (Option-cases t.backend) [
      | inr (b, e) ↦ inr (record {
        link = b;
        before = t.history;
        origin = inl (e, refl);
        run =
            obtained op t t b (obtain-some t b e)
            ∙ ap
                (λ (o : Option DatabaseBackend).
                  perform w context op b
                    (record t { backend = o; connecting = false; reconnect = reset t.reconnect }))
                e;
      })
      | inl e ↦ elim (Option-cases (url_kind url)) [
        | inl k ↦
            let (reason, c) = connect-no_kind t k in
            inl (
              unconnected op t t _ reason e c refl (
                ap (λ (o : Option BackendKind). record t { history = attempt url o t.history })
                  (sym k)))
        | inr (kind, k) ↦
            let seen = ap (λ (o : Option BackendKind). attempt url o t.history) (sym k) in
            elim (connect_exit-cases (w.connect (connects kind url ∷ t.history)) (length t.history)
              kind) [
                | inl v ↦ inr (record {
                  link = record { kind = kind; conn = length t.history };
                  before = connects kind url ∷ t.history;
                  origin = inr (e, seen);
                  run = obtained op t _ _ (
                      obtain-none t e
                      ∙ ap (and_then insert_backend) (connect-kind t kind k)
                      ∙ ap
                          (λ (x : Exit DatabaseBackend).
                            and_then insert_backend
                              (record t { history = connects kind url ∷ t.history }, x))
                          v);
                })
                | inr (reason, v) ↦ inl (
                    unconnected op t _ _ reason e (connect-kind t kind k) v
                      (ap (λ (h : History). record t { history = h }) seen))
              ]
      ]
    ]

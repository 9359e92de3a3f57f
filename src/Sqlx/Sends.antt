-- ===== src/Sqlx/Sends.antt =====
-- What a request of crates/libs/lib-lualib/src/lua_sqlx.rs sends: its own statements, in order, each at
-- most once.
use lrust.Base.{
  ap, sym, ℕ, zero, suc, ◌≡◌, refl, ◌∙◌, List, [], ◌∷◌, ◌++◌, append_assoc, append-nil, Option,
  none, some, take,
}
use lrust.Base.Outcome.{done}
use lrust.Sqlx.Types.{
  DatabaseQuery, DatabaseRequest, query_request, execute_request, batch_request,
  transaction_request, close_request, DatabaseResponse, Error, Result, ok, err,
}
use lrust.Sqlx.Driver.{
  BackendKind, my_sql, Statement, raw_sql, reads_clock, begins, commits, rolls_back, executes,
  fetches, next_row, History, Await, Driver, DatabaseBackend, Turn, Exit, value, failure, cancelled,
  panicked, Async, and_then, ◌>>=◌, on_result, match_result, lift, call, note, start_execution,
}
use lrust.Sqlx.Backend.{
  make_for, on_row, collect, query, execute, batch, execute_each, transaction, url_kind,
}
use lrust.Sqlx.Actor.{DatabaseHandlerContext, Actor, perform, retire, serve}
use lrust.Sqlx.Replies.{IsWork}
use lrust.Sqlx.Served.{cooling, connect_fails, ran}
use lrust.Sqlx.Unsubmitted.{serve-eq-done, Ran-before, statements-attempt, statements-clocks}
use lrust.Sqlx.Steps.{statements, IsPreorder, Keeps, keeps_rules}

-- The statements that a request asks for, up to the first that cannot be bound.
abbrev pub bound_first : Result Statement → List Statement → List Statement
bound_first (ok s) ss = s ∷ ss
bound_first (err e) ss = []

abbrev pub planned_each : BackendKind → List DatabaseQuery → List Statement
planned_each kind [] = []
planned_each kind (q ∷ qs) = bound_first (make_for kind q) (planned_each kind qs)

abbrev pub planned : BackendKind → DatabaseRequest → List Statement
planned kind (query_request _ _ q) = bound_first (make_for kind q) []
planned kind (execute_request _ _ q) = bound_first (make_for kind q) []
planned kind (batch_request _ _ sql) = raw_sql sql ∷ []
planned kind (transaction_request _ _ qs) = planned_each kind qs
planned kind close_request = []

-- Nothing is sent.
pub record Same (t u : Turn) : Type 0 where
  pub same : statements u.history ≡ statements t.history

Same-IsPreorder : IsPreorder Same
Same-IsPreorder = record {
  reflexive = λ t. record { same = refl };
  transitive = λ s t u h k. record { same = k.same ∙ h.same };
}

-- Some first part of the statements is sent, in order.
abbrev pub Sent : List Statement → Turn → Turn → Type 0
Sent ss t u = (n : ℕ) × (statements u.history ≡ statements t.history ++ take n ss)

pub record Sends {A : Type 0} (ss : List Statement) (m : Async A) : Type 0 where
  pub at : (t : Turn) → Sent ss t (m t).0

module _ {A : Type 0} where
  begins-Same : (f : History → Await (Result A)) (n : ℕ) → Keeps Same (call f (begins n))
  unfolding call statements
  begins-Same f n = record { at = λ t. record { same = refl } }

  commits-Same : (f : History → Await (Result A)) (n : ℕ) → Keeps Same (call f (commits n))
  unfolding call statements
  commits-Same f n = record { at = λ t. record { same = refl } }

  rolls_back-Same : (f : History → Await (Result A)) (n : ℕ) → Keeps Same (call f (rolls_back n))
  unfolding call statements
  rolls_back-Same f n = record { at = λ t. record { same = refl } }

  next_row-Same : (f : History → Await (Result A)) (n : ℕ) → Keeps Same (call f (next_row n))
  unfolding call statements
  next_row-Same f n = record { at = λ t. record { same = refl } }

start_execution-Same : Keeps Same start_execution
unfolding start_execution
start_execution-Same = record { at = λ t. record { same = refl } }

module _ {Row : Type 0} where
  on_row-Same :
      (over : Async (DatabaseResponse Row)) (more : Row → Async (DatabaseResponse Row))
      (o : Option Row)
      → Keeps Same over
      → ((r : Row) → Keeps Same (more r))
      → Keeps Same (on_row over more o)
  on_row-Same over more none h k = h
  on_row-Same over more (some r) h k = k r

ruleset same_rules = (
  keeps_rules, Same-IsPreorder, begins-Same, commits-Same, rolls_back-Same, next_row-Same,
  start_execution-Same, on_row-Same,
)

module _ {A : Type 0} {ss : List Statement} where
  Sends-nothing : (m : Async A) → Keeps Same m → Sends ss m
  Sends-nothing m h = record { at = λ t. (0, (h.at t).same ∙ sym (append-nil _)) }

module _ {A B : Type 0} (ss : List Statement) where
  after-Sent :
      (f : A → Async B) (s : Turn) (p : Turn × Exit A)
      → Same s p.0
      → ((a : A) → Sends ss (f a))
      → Sent ss s (and_then f p).0
  after-Sent f s (t, value a) h k =
      let (n, e) = (k a).at t in (n, e ∙ ap (λ (l : List Statement). l ++ take n ss) h.same)
  after-Sent f s (t, failure e) h k = (0, h.same ∙ sym (append-nil _))
  after-Sent f s (t, cancelled) h k = (0, h.same ∙ sym (append-nil _))
  after-Sent f s (t, panicked) h k = (0, h.same ∙ sym (append-nil _))

  Sends-after :
      (m : Async A) (f : A → Async B)
      → Keeps Same m
      → ((a : A) → Sends ss (f a))
      → Sends ss (m >>= f)
  unfolding ◌>>=◌
  Sends-after m f h k = record { at = λ t. after-Sent f t (m t) (h.at t) k }

  and_then-Sent :
      (f : A → Async B) (g : Error → Async B) (s : Turn) (p : Turn × Exit A)
      → Sent ss s p.0
      → ((a : A) → Keeps Same (f a))
      → ((e : Error) → Keeps Same (g e))
      → Sent ss s (on_result f g p).0
  and_then-Sent f g s (t, value a) (n, e) h k = (n, ((h a).at t).same ∙ e)
  and_then-Sent f g s (t, failure d) (n, e) h k = (n, ((k d).at t).same ∙ e)
  and_then-Sent f g s (t, cancelled) e h k = e
  and_then-Sent f g s (t, panicked) e h k = e

  Sends-before :
      (m : Async A) (f : A → Async B) (g : Error → Async B)
      → Sends ss m
      → ((a : A) → Keeps Same (f a))
      → ((e : Error) → Keeps Same (g e))
      → Sends ss (match_result m f g)
  unfolding match_result
  Sends-before m f g h k l = record { at = λ t. and_then-Sent f g t (m t) (h.at t) k l }

-- The statement that goes out is the first of those that are left.
first-Sent :
    {A B : Type 0} (s : Statement) (ss : List Statement) (f : A → Async B) (t : Turn)
    (p : Turn × Exit A)
    → statements p.0.history ≡ statements t.history ++ s ∷ []
    → ((a : A) → Sends ss (f a))
    → Sent (s ∷ ss) t (and_then f p).0
first-Sent s ss f t (u, value a) h k =
    let (n, e) = (k a).at u in
    (
      suc n,
      e
          ∙ ap (λ (l : List Statement). l ++ take n ss) h
          ∙ append_assoc (statements t.history) (s ∷ []) (take n ss),
    )
first-Sent s ss f t (u, failure e) h k = (1, h)
first-Sent s ss f t (u, cancelled) h k = (1, h)
first-Sent s ss f t (u, panicked) h k = (1, h)

Sends-executes :
    {A B : Type 0} (s : Statement) (ss : List Statement) (g : History → Await (Result A)) (conn : ℕ)
    (f : A → Async B)
    → ((a : A) → Sends ss (f a))
    → Sends (s ∷ ss) (call g (executes conn s) >>= f)
unfolding ◌>>=◌ statements
Sends-executes s ss g conn f k = record {
  at = λ t. first-Sent s ss f t (call g (executes conn s) t) refl k;
}

Sends-fetches :
    {B : Type 0} (s : Statement) (ss : List Statement) (conn : ℕ) (f : Unit {0} → Async B)
    → ((a : Unit {0}) → Sends ss (f a))
    → Sends (s ∷ ss) (note (fetches conn s) >>= f)
unfolding ◌>>=◌ statements
Sends-fetches s ss conn f k = record {
  at = λ t. first-Sent s ss f t (note (fetches conn s) t) refl k;
}

-- A statement that cannot be bound ends the request.
Sends-lift :
    {B : Type 0} (m : Result Statement) (ss : List Statement) (f : Statement → Async B)
    → ((s : Statement) → Sends (s ∷ ss) (f s))
    → Sends (bound_first m ss) (lift m >>= f)
unfolding ◌>>=◌
Sends-lift (ok s) ss f k = k s
Sends-lift (err e) ss f k = record { at = λ t. (0, sym (append-nil _)) }

ruleset sends_rules = (Sends-lift, Sends-executes, Sends-fetches, same_rules)

module _ {Row : Type 0} (w : Driver Row) where
  collect-Same :
      (kind : BackendKind) (conn max_rows room : ℕ) (rows : List Row)
      → Keeps Same (collect w kind conn max_rows room rows)
  unfolding collect
  collect-Same kind conn max_rows zero rows = search same_rules
  collect-Same kind conn max_rows (suc room) rows =
      search (same_rules, collect-Same kind conn max_rows room)

  execute_each-Sends :
      (b : DatabaseBackend) (qs : List DatabaseQuery) (n : ℕ)
      → Sends (planned_each b.kind qs) (execute_each w b qs n)
  unfolding execute_each
  execute_each-Sends b [] n = Sends-nothing _ (search same_rules)
  execute_each-Sends b (q ∷ qs) n = Sends-lift _ _ _ λ s.
      Sends-after _ _ _ start_execution-Same
        λ _. Sends-executes _ _ _ _ _ λ r. execute_each-Sends b qs _

  module _ (context : DatabaseHandlerContext) where
    perform-Sends :
        (op : DatabaseRequest) (b : DatabaseBackend)
        → Sends (planned b.kind op) (perform w context op b)
    unfolding perform query execute batch transaction
    perform-Sends (query_request _ _ q) b = Sends-lift _ _ _ λ s.
        Sends-after _ _ _ start_execution-Same
          λ _. Sends-fetches _ _ _ _ λ _. Sends-nothing _ (collect-Same _ _ _ _ _)
    perform-Sends (execute_request _ _ q) b = Sends-lift _ _ _ λ s.
        Sends-after _ _ _ start_execution-Same
          λ _. Sends-executes _ _ _ _ _ λ r. Sends-nothing _ (search same_rules)
    perform-Sends (batch_request _ _ sql) b =
        Sends-after _ _ _ start_execution-Same
          λ _. Sends-executes _ _ _ _ _ λ r. Sends-nothing _ (search same_rules)
    perform-Sends (transaction_request _ _ qs) b = Sends-after _ _ _ (begins-Same _ _) λ _.
        Sends-before _ _ _ _ (execute_each-Sends b qs 0) (λ n. search same_rules)
          (λ e. search same_rules)
    perform-Sends close_request b = record { at = λ t. (0, sym (append-nil _)) }

    -- Serving a request sends some first part of the statements that it asks for, in their order, and
    -- nothing else: none is left out between two that are sent, none is sent twice, and none is sent
    -- again after an error, a timeout or a reconnect.
    pub serve-sends :
        (op : DatabaseRequest) (a b : Actor) (r : DatabaseResponse Row)
        → IsWork op
        → serve w context op a ≡ done (b, r)
        → (kind : BackendKind) × (n : ℕ) × (statements b.history
            ≡ statements a.history ++ take n (planned kind op))
    unfolding retire
    serve-sends op a b r work e = elim (serve-eq-done w context op a (b, r) work e) [
      | cooling c ↦ (
        my_sql,
        0,
        ap (λ (q : Actor × DatabaseResponse Row). statements q.0.history) c.result
            ∙ unfold statements in sym (append-nil _),
      )
      | connect_fails f ↦ (
        my_sql,
        0,
        ap (λ (q : Actor × DatabaseResponse Row). statements q.0.history) f.result
            ∙ statements-clocks w context f.before
            ∙ ap statements f.tried
            ∙ statements-attempt w context context.database_url (url_kind context.database_url)
                (reads_clock ∷ a.history)
            ∙ unfold statements in sym (append-nil _),
      )
      | ran x ↦
          let (n, s) = (perform-Sends op x.link).at _ in
          (
            x.link.kind,
            n,
            ap (λ (q : Actor × DatabaseResponse Row). statements q.0.history) x.result
                ∙ ap (λ (q : Turn × Exit (DatabaseResponse Row)). statements q.0.history)
                    (sym x.run)
                ∙ s
                ∙ ap (λ (l : List Statement). l ++ take n (planned x.link.kind op))
                    (Ran-before w context op a (b, r) x),
          )
    ]

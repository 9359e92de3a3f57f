-- ===== src/Sqlx/Transaction.antt =====
-- Transactions of crates/libs/lib-lualib/src/lua_sqlx.rs: what each way to end says of the database.
use lrust.Base.{
  true, ap, sym, ℕ, suc, ◌≡◌, refl, ◌∙◌, List, [], ◌∷◌, ◌++◌, append_assoc, append-nil, length, ◌⊎◌,
  inl, inr,
}
use lrust.Sqlx.Types.{
  DatabaseQuery, DatabaseResponse, disconnected_error, transaction_done, Error, Result, ok, err,
}
use lrust.Sqlx.Driver.{
  Statement, begins, commits, rolls_back, executes, History, Await, ready, elapsed, QueryResult,
  Driver, DatabaseBackend, Turn, Exit, value, failure, cancelled, panicked, Async, and_then,
  exit_of, pure, throw, ◌>>=◌, ◌>>◌, on_result, match_result, lift, call, start_execution,
}
use lrust.Sqlx.Backend.{make_for, saturating_add, execute_each, transaction}
use lrust.Sqlx.Sends.{bound_first, planned_each}
use lrust.Sqlx.Steps.{statements}

-- If the loop over the statements returns, it has sent all of them.
abbrev Complete : List Statement → ℕ → Turn → Turn × Exit ℕ → Type 0
Complete ss k t (u, value n) = (statements u.history ≡ statements t.history ++ ss) × (length ss ≡ k)
Complete ss k t (u, failure e) = Unit
Complete ss k t (u, cancelled) = Unit
Complete ss k t (u, panicked) = ⊥

module _ {Row : Type 0} (w : Driver Row) (b : DatabaseBackend) where
  -- How a transaction ends, and what the driver acknowledged before it did.
  pub data Ending (qs : List DatabaseQuery) (t : Turn)
      : Turn × Exit (DatabaseResponse Row) → Type 0 where
    committed :
        {u : Turn} {n : ℕ} (h : History)
        → u.history ≡ commits b.conn ∷ h
        → w.commit u.history ≡ ready (ok tt)
        → statements u.history ≡ statements t.history ++ planned_each b.kind qs
        → length (planned_each b.kind qs) ≡ length qs
        → Ending qs t (u, value (transaction_done n))
    not_begun :
        {u : Turn} {e : Error}
        → u.history ≡ begins b.conn ∷ t.history
        → w.begin u.history ≡ ready (err e)
        → Ending qs t (u, failure e)
    rolled_back :
        {u : Turn} {e : Error} (h : History)
        → u.history ≡ rolls_back b.conn ∷ h
        → w.rollback u.history ≡ ready (ok tt)
        → Ending qs t (u, failure e)
    unsettled :
        {u : Turn} {e : Error}
        → (w.commit u.history ≡ ready (err e)) ⊎ (w.rollback u.history ≡ ready (err e))
        → Ending qs t (u, value (disconnected_error e))
    cut_off : {u : Turn} → Ending qs t (u, cancelled)

  next-Complete :
      (s : Statement) (ss : List Statement) (k : ℕ) (t u : Turn) (f : QueryResult → Async ℕ)
      (a : Await (Result QueryResult))
      → statements u.history ≡ statements t.history ++ s ∷ []
      → ((r : QueryResult) → Complete ss k u (f r u))
      → Complete (s ∷ ss) (suc k) t (and_then f (u, exit_of a))
  next-Complete s ss k t u f (ready (ok r)) h c = extend s ss k t u (f r u) h (c r)
    where
      extend :
          (s : Statement) (ss : List Statement) (k : ℕ) (t u : Turn) (p : Turn × Exit ℕ)
          → statements u.history ≡ statements t.history ++ s ∷ []
          → Complete ss k u p
          → Complete (s ∷ ss) (suc k) t p
      extend s ss k t u (v, value n) h (e, l) = (
        e
            ∙ ap (λ (l : List Statement). l ++ ss) h
            ∙ append_assoc (statements t.history) (s ∷ []) ss,
        ap suc l,
      )
      extend s ss k t u (v, failure e) h c = tt
      extend s ss k t u (v, cancelled) h c = tt
      extend s ss k t u (v, panicked) h c = c
  next-Complete s ss k t u f (ready (err e)) h c = tt
  next-Complete s ss k t u f elapsed h c = tt

  bound-Complete :
      (m : Result Statement) (ss : List Statement) (k : ℕ) (t : Turn) (f : Statement → Async ℕ)
      → ((s : Statement) → Complete (s ∷ ss) (suc k) t (f s t))
      → Complete (bound_first m ss) (suc k) t ((lift m >>= f) t)
  unfolding ◌>>=◌
  bound-Complete (ok s) ss k t f c = c s
  bound-Complete (err e) ss k t f c = tt

  execute_each-Complete :
      (qs : List DatabaseQuery) (n : ℕ) (t : Turn)
      → Complete (planned_each b.kind qs) (length qs) t (execute_each w b qs n t)
  unfolding execute_each ◌>>=◌ statements
  execute_each-Complete [] n t = (sym (append-nil _), refl)
  execute_each-Complete (q ∷ qs) n t =
      bound-Complete (make_for b.kind q) (planned_each b.kind qs) (length qs) t
        (λ s. start_execution >> (call w.execute (executes b.conn s) >>= rest))
        λ s.
          next-Complete s (planned_each b.kind qs) (length qs) t
            (record t { execution_started = true; history = executes b.conn s ∷ t.history }) rest
            (w.execute (executes b.conn s ∷ t.history)) refl
            λ r.
              execute_each-Complete qs (saturating_add n r.rows_affected)
                (record t { execution_started = true; history = executes b.conn s ∷ t.history })
    where
      rest : QueryResult → Async ℕ
      rest r = execute_each w b qs (saturating_add n r.rows_affected)

  module _ (qs : List DatabaseQuery) (t : Turn) where
    commit_ends :
        (n : ℕ) (u : Turn) (a : Await (Result (Unit {0})))
        → w.commit (commits b.conn ∷ u.history) ≡ a
        → (statements u.history ≡ statements t.history ++ planned_each b.kind qs)
          × (length (planned_each b.kind qs) ≡ length qs)
        → Ending qs t (
            on_result
              (λ x. pure (transaction_done n))
              (λ e. pure (disconnected_error e))
              (record u { history = commits b.conn ∷ u.history }, exit_of a))
    unfolding pure
    commit_ends n u (ready (ok x)) e (s, l) = committed u.history refl e (unfold statements in s) l
    commit_ends n u (ready (err d)) e s = unsettled (inl e)
    commit_ends n u elapsed e s = cut_off

    rollback_ends :
        (d : Error) (u : Turn) (a : Await (Result (Unit {0})))
        → w.rollback (rolls_back b.conn ∷ u.history) ≡ a
        → Ending qs t (
            on_result
              (λ x. throw d)
              (λ e. pure (disconnected_error e))
              (record u { history = rolls_back b.conn ∷ u.history }, exit_of a))
    unfolding pure throw
    rollback_ends d u (ready (ok x)) e = rolled_back u.history refl e
    rollback_ends d u (ready (err c)) e = unsettled (inr e)
    rollback_ends d u elapsed e = cut_off

    loop_ends :
        (u : Turn) (p : Turn × Exit ℕ)
        → statements u.history ≡ statements t.history
        → Complete (planned_each b.kind qs) (length qs) u p
        → Ending qs t (
            on_result
              (λ rows_affected.
                match_result
                  (call w.commit (commits b.conn))
                  (λ x. pure (transaction_done rows_affected))
                  (λ e. pure (disconnected_error e)))
              (λ e.
                match_result
                  (call w.rollback (rolls_back b.conn))
                  (λ x. throw e)
                  (λ d. pure (disconnected_error d)))
              p)
    unfolding ◌>>=◌
    loop_ends u (v, value n) h (s, l) =
        commit_ends n v _ refl (s ∙ ap (λ (l : List Statement). l ++ planned_each b.kind qs) h, l)
    loop_ends u (v, failure e) h c = rollback_ends e v _ refl
    loop_ends u (v, cancelled) h c = cut_off
    loop_ends u (v, panicked) h c = absurd c

    begin_ends :
        (a : Await (Result (Unit {0})))
        → w.begin (begins b.conn ∷ t.history) ≡ a
        → Ending qs t (
            and_then
              (λ x.
                match_result
                  (execute_each w b qs 0)
                  (λ rows_affected.
                    match_result
                      (call w.commit (commits b.conn))
                      (λ x. pure (transaction_done rows_affected))
                      (λ e. pure (disconnected_error e)))
                  (λ e.
                    match_result
                      (call w.rollback (rolls_back b.conn))
                      (λ x. throw e)
                      (λ d. pure (disconnected_error d))))
              (record t { history = begins b.conn ∷ t.history }, exit_of a))
    unfolding ◌>>=◌
    begin_ends (ready (ok x)) e =
        loop_ends (record t { history = begins b.conn ∷ t.history }) _ (unfold statements in refl)
          (execute_each-Complete qs 0 (record t { history = begins b.conn ∷ t.history }))
    begin_ends (ready (err d)) e = not_begun refl e
    begin_ends elapsed e = cut_off

    -- A transaction that reports success has sent all its statements after BEGIN, in order, and has had
    -- its COMMIT acknowledged. One that fails either had its BEGIN refused or has had its ROLLBACK
    -- acknowledged before the error is reported; where the COMMIT or the ROLLBACK was itself refused,
    -- the reply is `DisconnectedError` with that error.
    pub transaction-Ending : Ending qs t (transaction w b qs t)
    unfolding transaction ◌>>=◌
    transaction-Ending = begin_ends _ refl

-- ===== src/Sqlx/Unsubmitted.antt =====
-- The promise of the replies of crates/libs/lib-lualib/src/lua_sqlx.rs that say the SQL was not
-- submitted, and the state in which each reply leaves the actor.
use mathlib.Core.Path.{subst}
use lrust.Base.{
  ap, sym, ◌≡◌, refl, ◌∙◌, ◌∷◌, Bool, true, false, Option, none, some, Bool-cases, inl, inr,
}
use lrust.Base.Text.{Bytes}
use lrust.Base.Outcome.{done}
use lrust.Sqlx.Types.{
  DatabaseRequest, DatabaseResponse, pg_rows, mysql_rows, sqlite_rows, executed, transaction_done,
  disconnected_error, row_limit_exceeded, connected, closed_response, error, timed_out,
  error_before_execution, timed_out_before_execution, connect_failed, reconnect_cooldown,
  classify_execution,
}
use lrust.Sqlx.Driver.{BackendKind, reads_clock, History, Driver, Turn, Exit}
use lrust.Sqlx.Backend.{url_kind}
use lrust.Sqlx.Actor.{DatabaseHandlerContext, Actor, retire, serve}
use lrust.Sqlx.Replies.{is_outcome, IsWork}
use lrust.Sqlx.Link.{attempt}
use lrust.Sqlx.Served.{
  IsRaw, outcome, erred, late, Ran, Served, cooling, connect_fails, ran, serve-Served,
}
use lrust.Sqlx.Phase.{perform-Quiet}
use lrust.Sqlx.Steps.{statements}

-- The replies that tell the caller that none of its SQL was submitted.
abbrev pub says_unsubmitted : {Row : Type 0} → DatabaseResponse Row → Bool
says_unsubmitted (error_before_execution _) = true
says_unsubmitted (timed_out_before_execution _) = true
says_unsubmitted (connect_failed _ _) = true
says_unsubmitted (reconnect_cooldown _) = true
says_unsubmitted _ = false

module _ {Row : Type 0} where
  outcome-says : (r : DatabaseResponse Row) → is_outcome r ≡ true → says_unsubmitted r ≡ false
  unfolding is_outcome
  outcome-says (pg_rows _) h = refl
  outcome-says (mysql_rows _) h = refl
  outcome-says (sqlite_rows _) h = refl
  outcome-says (disconnected_error _) h = refl
  outcome-says (row_limit_exceeded _) h = refl
  outcome-says (executed _ _) h = refl
  outcome-says (transaction_done _) h = refl
  outcome-says (connected _) h = refl
  outcome-says closed_response h = refl
  outcome-says (error _) h = refl
  outcome-says (timed_out _) h = refl
  outcome-says (error_before_execution _) h = cc
  outcome-says (timed_out_before_execution _) h = cc
  outcome-says (connect_failed _ _) h = cc
  outcome-says (reconnect_cooldown _) h = cc

module _ {Row : Type 0} (w : Driver Row) (context : DatabaseHandlerContext) where
  -- What a reply of `serve` is like.
  pub serve-eq-done :
      (op : DatabaseRequest) (a : Actor) (p : Actor × DatabaseResponse Row)
      → IsWork op
      → serve w context op a ≡ done p
      → Served w context op a p
  serve-eq-done op a p work e =
      let (q, f, s) = serve-Served w context op a work in
      let same : q ≡ p = cc (e, f) in subst (Served w context op a) same s

  raw-says : (r : DatabaseResponse Row) → IsRaw w context r → says_unsubmitted r ≡ false
  raw-says r (outcome h) = outcome-says r h
  raw-says _ (erred e) = refl
  raw-says _ late = refl

  pub statements-attempt :
      (url : Bytes) (k : Option BackendKind) (h : History)
      → statements (attempt w context url k h) ≡ statements h
  unfolding statements
  statements-attempt url none h = refl
  statements-attempt url (some kind) h = refl

  -- Up to the operation itself nothing goes out.
  pub Ran-before :
      (op : DatabaseRequest) (a : Actor) (p : Actor × DatabaseResponse Row)
      → (r : Ran w context op a p) → statements r.before ≡ statements a.history
  Ran-before op a p r = elim r.origin [
    | inl (_, e) ↦ ap statements e ∙ unfold statements in refl
    | inr (_, e) ↦
        ap statements e
        ∙ statements-attempt context.database_url (url_kind context.database_url)
            (reads_clock ∷ a.history)
        ∙ unfold statements in refl
  ]

  Ran-unsubmitted :
      (op : DatabaseRequest) (a : Actor) (p : Actor × DatabaseResponse Row)
      → Ran w context op a p
      → says_unsubmitted p.1 ≡ true
      → statements p.0.history ≡ statements a.history
  unfolding retire
  Ran-unsubmitted op a p r says = elim (Bool-cases r.turn.execution_started) [
    | inl started ↦
        let reply : p.1 ≡ r.raw =
          ap (λ (q : Actor × DatabaseResponse Row). q.1) r.result
          ∙ ap (classify_execution r.raw) started
          ∙ unfold classify_execution in refl in
        absurd (cc (says, ap says_unsubmitted reply, raw-says r.raw r.is_raw))
    | inr quiet ↦
        let at = (perform-Quiet w context op r.link).at _ in
        let turn = ap (λ (q : Turn × Exit (DatabaseResponse Row)). q.0) r.run in
        let (_, same) = at (ap (λ (t : Turn). t.execution_started) turn ∙ quiet) in
        ap (λ (q : Actor × DatabaseResponse Row). statements q.0.history) r.result
        ∙ ap (λ (t : Turn). statements t.history) (sym turn)
        ∙ same
        ∙ Ran-before op a p r
  ]

  pub statements-clocks : (h : History) → statements (reads_clock ∷ reads_clock ∷ h) ≡ statements h
  unfolding statements
  statements-clocks h = refl

  -- A reply that says that the SQL was not submitted is true: whatever the driver answered, at whatever
  -- point the deadline passed, no statement went to the database between taking up the request and
  -- that reply.
  pub serve-unsubmitted :
      (op : DatabaseRequest) (a b : Actor) (r : DatabaseResponse Row)
      → IsWork op
      → serve w context op a ≡ done (b, r)
      → says_unsubmitted r ≡ true
      → statements b.history ≡ statements a.history
  serve-unsubmitted op a b r work e says = elim (serve-eq-done op a (b, r) work e) [
    | cooling c ↦
        ap (λ (q : Actor × DatabaseResponse Row). statements q.0.history) c.result
        ∙ unfold statements in refl
    | connect_fails f ↦
        ap (λ (q : Actor × DatabaseResponse Row). statements q.0.history) f.result
        ∙ statements-clocks f.before
        ∙ ap statements f.tried
        ∙ statements-attempt context.database_url (url_kind context.database_url)
            (reads_clock ∷ a.history)
        ∙ unfold statements in refl
    | ran x ↦ Ran-unsubmitted op a (b, r) x says
  ]

-- ===== src/Sqlx/After.antt =====
-- The actor of crates/libs/lib-lualib/src/lua_sqlx.rs after each reply: whether it still has its
-- connection, and its backoff.
use lrust.Base.{
  ap, sym, ◌≡◌, refl, ◌∙◌, ◌↔◌, Bool, true, false, ◌||◌, Option, none, some, if◌then◌else◌,
}
use lrust.Base.Outcome.{done}
use lrust.Retry.Backoff.{reset}
use lrust.Sqlx.Types.{
  DatabaseRequest, DatabaseResponse, pg_rows, mysql_rows, sqlite_rows, executed, transaction_done,
  disconnected_error, row_limit_exceeded, connected, closed_response, error, timed_out,
  error_before_execution, timed_out_before_execution, connect_failed, reconnect_cooldown,
  requires_disconnect, classify_execution,
}
use lrust.Sqlx.Driver.{Driver, DatabaseBackend}
use lrust.Sqlx.Actor.{DatabaseHandlerContext, Actor, is_none, is_connect_failure, retire, serve}
use lrust.Sqlx.Replies.{is_outcome, IsWork}
use lrust.Sqlx.Served.{IsRaw, outcome, erred, late, cooling, connect_fails, ran}
use lrust.Sqlx.Unsubmitted.{serve-eq-done}
use lrust.Sqlx.Loses.{Loses, loses_iff}

module _ {Row : Type 0} where
  outcome-connects :
      (r : DatabaseResponse Row) (started : Bool)
      → is_outcome r ≡ true
      → is_connect_failure (classify_execution r started) ≡ false
  unfolding is_outcome is_connect_failure classify_execution
  outcome-connects (pg_rows _) true h = refl
  outcome-connects (pg_rows _) false h = refl
  outcome-connects (mysql_rows _) true h = refl
  outcome-connects (mysql_rows _) false h = refl
  outcome-connects (sqlite_rows _) true h = refl
  outcome-connects (sqlite_rows _) false h = refl
  outcome-connects (disconnected_error _) true h = refl
  outcome-connects (disconnected_error _) false h = refl
  outcome-connects (row_limit_exceeded _) true h = refl
  outcome-connects (row_limit_exceeded _) false h = refl
  outcome-connects (executed _ _) true h = refl
  outcome-connects (executed _ _) false h = refl
  outcome-connects (transaction_done _) true h = refl
  outcome-connects (transaction_done _) false h = refl
  outcome-connects (connected _) started h = cc
  outcome-connects closed_response started h = cc
  outcome-connects (error _) started h = cc
  outcome-connects (timed_out _) started h = cc
  outcome-connects (error_before_execution _) started h = cc
  outcome-connects (timed_out_before_execution _) started h = cc
  outcome-connects (connect_failed _ _) started h = cc
  outcome-connects (reconnect_cooldown _) started h = cc

module _ {Row : Type 0} (w : Driver Row) (context : DatabaseHandlerContext) where
  raw-connects :
      (r : DatabaseResponse Row) (started : Bool)
      → IsRaw w context r
      → is_connect_failure (classify_execution r started) ≡ false
  unfolding is_connect_failure classify_execution
  raw-connects r started (outcome h) = outcome-connects r started h
  raw-connects _ true (erred e) = refl
  raw-connects _ false (erred e) = refl
  raw-connects _ true late = refl
  raw-connects _ false late = refl

  dropped :
      (o : Option DatabaseBackend) (link : DatabaseBackend) (lost failure : Bool)
      → o ≡ some link
      → failure ≡ false
      → is_none (if lost then none else o) ≡ (lost || failure)
  dropped o link true failure e f = refl
  dropped o link false failure e f = ap is_none e ∙ sym f

  retired :
      (op : DatabaseRequest) (a b : Actor) (r : DatabaseResponse Row)
      → IsWork op
      → serve w context op a ≡ done (b, r)
      → is_none b.backend ≡ (requires_disconnect r || is_connect_failure r)
  retired op a b r work e = elim (serve-eq-done w context op a (b, r) work e) [
    | cooling c ↦
        ap (λ (q : Actor × DatabaseResponse Row). is_none q.0.backend) c.result
        ∙ ap is_none c.was_none
        ∙ unfold requires_disconnect is_connect_failure in
          ap
            (λ (q : Actor × DatabaseResponse Row).
              requires_disconnect q.1 || is_connect_failure q.1)
            (sym c.result)
    | connect_fails f ↦
        ap (λ (q : Actor × DatabaseResponse Row). is_none q.0.backend) f.result
        ∙ unfold requires_disconnect is_connect_failure in
          ap
            (λ (q : Actor × DatabaseResponse Row).
              requires_disconnect q.1 || is_connect_failure q.1)
            (sym f.result)
    | ran x ↦
        ap (λ (q : Actor × DatabaseResponse Row). is_none q.0.backend) x.result
        ∙ unfold retire in
          dropped x.turn.backend x.link
            (requires_disconnect (classify_execution x.raw x.turn.execution_started)) _ x.backend
            (raw-connects x.raw x.turn.execution_started x.is_raw)
          ∙ unfold retire in
            ap
              (λ (q : Actor × DatabaseResponse Row).
                requires_disconnect q.1 || is_connect_failure q.1)
              (sym x.result)
  ]

  -- After the reply to a request other than Close the actor has no connection exactly when the reply
  -- is one of these: a timeout, of the request or before its execution; too many rows; a transaction
  -- whose end is not known; an error of the transport, of the pool or of a lost session, by its
  -- SQLSTATE code; a failed connect or the cooldown.
  pub serve-backend :
      (op : DatabaseRequest) (a b : Actor) (r : DatabaseResponse Row)
      → IsWork op
      → serve w context op a ≡ done (b, r)
      → (is_none b.backend ≡ true) ↔ Loses r
  serve-backend op a b r work e =
      let same = retired op a b r work e in
      let (lost, loses) = loses_iff r in (λ h. lost (sym same ∙ h), λ h. same ∙ loses h)

  -- Only a failed connect starts a cooldown: any other reply, an SQL error or a timeout included, comes
  -- from a working connection and leaves the backoff reset.
  pub serve-reconnect :
      (op : DatabaseRequest) (a b : Actor) (r : DatabaseResponse Row)
      → IsWork op
      → serve w context op a ≡ done (b, r)
      → is_connect_failure r ≡ false
      → b.reconnect ≡ reset a.reconnect
  serve-reconnect op a b r work e h = elim (serve-eq-done w context op a (b, r) work e) [
    | cooling c ↦
        let refused = ap (λ (q : Actor × DatabaseResponse Row). is_connect_failure q.1) c.result in
        absurd (unfold is_connect_failure in cc (h, refused))
    | connect_fails f ↦
        let refused = ap (λ (q : Actor × DatabaseResponse Row). is_connect_failure q.1) f.result in
        absurd (unfold is_connect_failure in cc (h, refused))
    | ran x ↦
        ap (λ (q : Actor × DatabaseResponse Row). q.0.reconnect) x.result
        ∙ unfold retire in x.reconnect
  ]

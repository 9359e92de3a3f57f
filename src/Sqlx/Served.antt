-- ===== src/Sqlx/Served.antt =====
-- How `database_handler` of crates/libs/lib-lualib/src/lua_sqlx.rs serves one request: the three ways it
-- can go.
use lrust.Base.{
  ap, ◌≡◌, refl, ◌∙◌, ◌∷◌, Bool, true, false, ◌&&◌, Option, none, some, ltb, Bool-cases, ◌⊎◌, inl,
  inr,
}
use lrust.Base.Outcome.{done}
use lrust.Retry.Backoff.{failed, reset, retry_after_ms}
use lrust.Retry.LogGate.{ConnectionLogGate}
use lrust.Sqlx.Types.{
  requires_disconnect, classify_execution, DatabaseRequest, DatabaseResponse, Error, connect_failed,
  reconnect_cooldown, error, timed_out,
}
use lrust.Sqlx.Driver.{
  reads_clock, History, Driver, DatabaseBackend, Turn, Exit, value, failure, cancelled, panicked,
}
use lrust.Sqlx.Backend.{url_kind}
use lrust.Sqlx.Actor.{
  DatabaseHandlerContext, Actor, is_none, perform, connect_error, timed_request, settled, conclude,
  retire, retire_done, opening, run_turn, cooldown, serve,
}
use lrust.Sqlx.Replies.{is_outcome, IsWork, AllValues, perform-Gives}
use lrust.Sqlx.Link.{perform-SameLink, attempt, Unconnected, Connected, timed_request-cases}

module _ {Row : Type 0} (w : Driver Row) (context : DatabaseHandlerContext) where
  -- The raw replies of a request that ran on a connection: its outcome, its error, or its timeout.
  pub data IsRaw : DatabaseResponse Row → Type 0 where
    outcome : {r : DatabaseResponse Row} → is_outcome r ≡ true → IsRaw r
    erred : (e : Error) → IsRaw (error e)
    late : {m : _} → IsRaw (timed_out m)

  -- The request ran on the connection `link`.
  pub record Ran (op : DatabaseRequest) (a : Actor) (p : Actor × DatabaseResponse Row)
      : Type 0 where
    pub link : DatabaseBackend
    pub before : History
    pub origin :
        ((a.backend ≡ some link) × (before ≡ reads_clock ∷ a.history))
        ⊎ ((a.backend ≡ none)
            × (before
                ≡ attempt w context context.database_url
                    (url_kind context.database_url)
                    (reads_clock ∷ a.history)))
    pub turn : Turn
    pub exit : Exit (DatabaseResponse Row)
    pub run :
        perform w context op link (record {
          backend = some link;
          connecting = false;
          reconnect = reset a.reconnect;
          execution_started = false;
          history = before;
        })
        ≡ (turn, exit)
    pub raw : DatabaseResponse Row
    pub settles : settled w context op exit ≡ done raw
    pub is_raw : IsRaw raw
    pub backend : turn.backend ≡ some link
    pub reconnect : turn.reconnect ≡ reset a.reconnect
    pub result : p ≡ retire a.connection_logs (turn, raw)

  -- There was no connection, and none could be made.
  pub record Failed (a : Actor) (p : Actor × DatabaseResponse Row) : Type 0 where
    pub was_none : a.backend ≡ none
    pub reason : Error
    pub before : History
    pub tried :
        before
        ≡ attempt w context context.database_url
            (url_kind context.database_url)
            (reads_clock ∷ a.history)
    pub result :
        let h1 = reads_clock ∷ before in
        let r = failed a.reconnect (w.now h1) in
        p ≡ (
          record {
            backend = none;
            reconnect = r;
            connection_logs = a.connection_logs;
            history = reads_clock ∷ h1;
          },
          connect_failed reason (retry_after_ms r (w.now (reads_clock ∷ h1))),
        )

  -- There was no connection, and the next attempt is not due.
  pub record Cooling (a : Actor) (p : Actor × DatabaseResponse Row) : Type 0 where
    pub was_none : a.backend ≡ none
    pub waits : ltb 0 (cooldown w context a) ≡ true
    pub result : p ≡ (
      record a { history = reads_clock ∷ a.history },
      reconnect_cooldown (cooldown w context a),
    )

  pub data Served (op : DatabaseRequest) (a : Actor) (p : Actor × DatabaseResponse Row)
      : Type 0 where
    cooling : Cooling a p → Served op a p
    connect_fails : Failed a p → Served op a p
    ran : Ran op a p → Served op a p

  settled-raw :
      (op : DatabaseRequest) (x : Exit (DatabaseResponse Row))
      → AllValues (λ r. is_outcome r ≡ true) x
      → (raw : DatabaseResponse Row) × (settled w context op x ≡ done raw) × IsRaw raw
  unfolding settled
  settled-raw op (value r) h = (r, refl, outcome h)
  settled-raw op (failure e) h = (error e, refl, erred e)
  settled-raw op cancelled h = (_, refl, late)
  settled-raw op panicked h = absurd h

  conclude-connected :
      (op : DatabaseRequest) (t : Turn) (x : Exit (DatabaseResponse Row))
      (raw : DatabaseResponse Row)
      → t.connecting ≡ false
      → settled w context op x ≡ done raw
      → conclude w context op t x ≡ done (t, raw)
  conclude-connected op t x raw h e = unfold conclude in simp (h, e)

  conclude-failed :
      (op : DatabaseRequest) (t : Turn) (x : Exit (DatabaseResponse Row)) (e : Error)
      → t.connecting ≡ true
      → connect_error x ≡ done e
      → let h1 = reads_clock ∷ t.history in
        let r = failed t.reconnect (w.now h1) in
        conclude w context op t x
        ≡ done (
          record t { reconnect = r; history = reads_clock ∷ h1 },
          connect_failed e (retry_after_ms r (w.now (reads_clock ∷ h1))),
        )
  conclude-failed op t x e h f = unfold conclude in simp (h, f)

  run_turn-eq :
      (op : DatabaseRequest) (a : Actor) (q : Turn × DatabaseResponse Row)
      → (let (t, x) = timed_request w context op (opening a) in conclude w context op t x ≡ done q)
      → run_turn w context op a ≡ done (retire a.connection_logs q)
  run_turn-eq op a q e = unfold run_turn in ap (retire_done a.connection_logs) e

  run_turn-Ran :
      (op : DatabaseRequest) (a : Actor)
      → IsWork op
      → Connected w context op (opening a) (timed_request w context op (opening a))
      → (p : Actor × DatabaseResponse Row) × (run_turn w context op a ≡ done p) × Ran op a p
  run_turn-Ran op a work c =
      let start : Turn = record {
        backend = some c.link;
        connecting = false;
        reconnect = reset a.reconnect;
        execution_started = false;
        history = c.before;
      } in
      let (u, x) = perform w context op c.link start in
      let same = (perform-SameLink w context op c.link).at start in
      let (raw, s, is_raw) = settled-raw op x ((perform-Gives w context op c.link work).at start) in
      (
        retire a.connection_logs (u, raw),
        run_turn-eq op a (u, raw) (rw c.run (conclude-connected op u x raw same.connecting s)),
        record {
          link = c.link;
          before = c.before;
          origin = c.origin;
          turn = u;
          exit = x;
          run = refl;
          raw = raw;
          settles = s;
          is_raw = is_raw;
          backend = same.backend;
          reconnect = same.reconnect;
          result = refl;
        },
      )

  -- The end of a turn that found no connection.
  abbrev given_up : ConnectionLogGate → Error → Turn → Actor × DatabaseResponse Row
  given_up logs e t =
      let h1 = reads_clock ∷ t.history in
      let r = failed t.reconnect (w.now h1) in
      retire logs (
        record t { reconnect = r; history = reads_clock ∷ h1 },
        connect_failed e (retry_after_ms r (w.now (reads_clock ∷ h1))),
      )

  given_up-none :
      (a : Actor) (e : Error) (h : History)
      → a.backend ≡ none
      → let h1 = reads_clock ∷ h in
        let r = failed a.reconnect (w.now h1) in
        given_up a.connection_logs e (record (opening a) { history = h }) ≡ (
          record {
            backend = none;
            reconnect = r;
            connection_logs = a.connection_logs;
            history = reads_clock ∷ h1;
          },
          connect_failed e (retry_after_ms r (w.now (reads_clock ∷ h1))),
        )
  unfolding retire requires_disconnect classify_execution
  given_up-none a e h n = rw n

  run_turn-Failed :
      (op : DatabaseRequest) (a : Actor)
      → Unconnected w context (opening a) (timed_request w context op (opening a))
      → (p : Actor × DatabaseResponse Row) × (run_turn w context op a ≡ done p) × Failed a p
  run_turn-Failed op a c =
      let (t, x) = timed_request w context op (opening a) in
      let connecting : t.connecting ≡ true =
        ap (λ (u : Turn). u.connecting) c.turn ∙ ap is_none c.was_none in
      let e = conclude-failed op t x c.reason connecting c.failed in
      let (p, q) : (q : Turn × DatabaseResponse Row) × (conclude w context op t x ≡ done q) =
        (_, e) in
      (
        retire a.connection_logs p,
        run_turn-eq op a p q,
        record {
          was_none = c.was_none;
          reason = c.reason;
          before = _;
          tried = refl;
          result =
              ap (given_up a.connection_logs c.reason) c.turn
              ∙ given_up-none a c.reason
                  (attempt w context context.database_url (url_kind context.database_url)
                    (reads_clock ∷ a.history))
                  c.was_none;
        },
      )

  -- A request other than `Close` always gets a reply, and neither `unreachable!` is reached.
  pub serve-Served :
      (op : DatabaseRequest) (a : Actor)
      → IsWork op
      → (p : Actor × DatabaseResponse Row) × (serve w context op a ≡ done p) × Served op a p
  serve-Served op a work = elim (Bool-cases (is_none a.backend && ltb 0 (cooldown w context a))) [
    | inl e ↦
        let (was, waits) = cooling_parts a.backend _ e in
        (
          (
            record a { history = reads_clock ∷ a.history },
            reconnect_cooldown (cooldown w context a),
          ),
          unfold serve in rw e,
          cooling (record { was_none = was; waits = waits; result = refl }),
        )
    | inr e ↦ elim (timed_request-cases w context op (opening a)) [
      | inl c ↦
          let (p, q, f) = run_turn-Failed op a c in (p, unfold serve in rw e q, connect_fails f)
      | inr c ↦ let (p, q, f) = run_turn-Ran op a work c in (p, unfold serve in rw e q, ran f)
    ]
  ]
    where
      cooling_parts :
          (o : Option DatabaseBackend) (b : Bool)
          → (is_none o && b) ≡ true
          → (o ≡ none) × (b ≡ true)
      cooling_parts none b h = (refl, h)
      cooling_parts (some d) b h = cc

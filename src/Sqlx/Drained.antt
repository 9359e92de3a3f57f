-- ===== src/Sqlx/Drained.antt =====
-- A run of the actor of crates/libs/lib-lualib/src/lua_sqlx.rs over the requests of its channel: each
-- gets the reply that serving it gives.
use lrust.Base.Text.{Bytes}
use lrust.Base.{
  ap, ℕ, suc, ◌+◌, ◌-◌, ◌≤◌, ◌<◌, ◌≡◌, refl, ◌∙◌, List, [], ◌∷◌, ◌++◌, true, false, Option, none,
  some, Bool-cases, arith, inl, inr, ◌==◌, if◌then◌else◌,
}
use lrust.Base.Time.{u64_mod}
use lrust.Base.Outcome.{Outcome, done}
use lrust.Response.{publish}
use lrust.Sqlx.Types.{
  DatabaseRequest, query_request, execute_request, batch_request, transaction_request,
  close_request, DatabaseResponse,
}
use lrust.Sqlx.Driver.{Driver, reads_clock}
use lrust.Retry.LogGate as Gate
use lrust.Sqlx.Actor.{
  DatabaseHandlerContext, Actor, Shared, decremented, owner_of, session_of, send_response,
  is_connect_failure, log_response, logged, log_failure, message_of, finish_request, finish,
  handle_work, continue_with, handle_all, serve, log_failure,
}
use lrust.Sqlx.Replies.{IsWork}
use lrust.Sqlx.Served.{serve-Served}

decremented-pred :
    (n k : ℕ)
    → suc k ≤ n
    → n < u64_mod
    → (decremented n ≡ n - 1) × (k ≤ decremented n) × (decremented n < u64_mod)
decremented-pred n k h b = (omega (arith, h, b), omega (arith, h, b), omega (arith, h, b))

abbrev pub work_count : List DatabaseRequest → ℕ
work_count [] = 0
work_count (close_request ∷ ops) = work_count ops
work_count (query_request _ _ _ ∷ ops) = suc (work_count ops)
work_count (execute_request _ _ _ ∷ ops) = suc (work_count ops)
work_count (batch_request _ _ _ ∷ ops) = suc (work_count ops)
work_count (transaction_request _ _ _ ∷ ops) = suc (work_count ops)

module _ {Row : Type 0} (w : Driver Row) (context : DatabaseHandlerContext) where
  -- What finishing a request with the reply r does to what is shared: the counter falls, and a caller
  -- with a session gets r published under its key and, if that is accepted, a message; without a
  -- session nothing is published.
  pub record Finishes (op : DatabaseRequest) (r : DatabaseResponse Row) (s t : Shared Row)
      : Type 0 where
    pub counter : t.counter ≡ decremented s.counter
    pub responses : t.responses ≡ (
        if session_of op == 0
        then s.responses
        else (publish s.responses (record { owner = owner_of op; session = session_of op }) r).0)
    pub messages : t.messages ≡ (
        if session_of op == 0
        then s.messages
        else if (publish s.responses (record { owner = owner_of op; session = session_of op }) r).1
        then s.messages
          ++ record {
            protocol_type = context.protocol_type;
            receiver = owner_of op;
            session = session_of op;
          }
            ∷ []
        else s.messages)

  -- A run over these requests from an actor and what it shares to others: in their order, every
  -- request but Close is served once and finished with the reply of its serving.
  pub data Serves : List DatabaseRequest → Actor → Shared Row → Actor → Shared Row → Type 0 where
    idle : (a : Actor) (s : Shared Row) → Serves [] a s a s
    closes :
        {ops : List DatabaseRequest} {a b : Actor} {s t : Shared Row}
        → Serves ops a s b t
        → Serves (close_request ∷ ops) a s b t
    replies :
        {op : DatabaseRequest} {ops : List DatabaseRequest} {a c d b : Actor} {s m t : Shared Row}
        (r : DatabaseResponse Row)
        → IsWork op
        → serve w context op a ≡ done (c, r)
        → Finishes op r s m
        → d.backend ≡ c.backend
        → d.reconnect ≡ c.reconnect
        → Serves ops d m b t
        → Serves (op ∷ ops) a s b t

  -- The run ends, every request was served, and the counter is lower by their number.
  unfoldable pub IsDrained :
      List DatabaseRequest → Actor → Shared Row → Outcome (Actor × Shared Row) → Type 0
  IsDrained ops a s o =
      (p : Actor × Shared Row) × (o ≡ done p)
      × Serves ops a s p.0 p.1
      × (p.1.counter + work_count ops ≡ s.counter)

  -- Writing to the log changes nothing else.
  Keeps : Shared Row → Shared Row → Type 0
  Keeps s t = (t.counter ≡ s.counter) × (t.responses ≡ s.responses) × (t.messages ≡ s.messages)

  logged-Keeps : (o n : ℕ) (m : Option Bytes) (s : Shared Row) → Keeps s (logged w context o n m s)
  unfolding Keeps
  logged-Keeps o n none s = (refl, refl, refl)
  logged-Keeps o n (some m) s = (refl, refl, refl)

  log_failure-Keeps :
      (o : ℕ) (r : DatabaseResponse Row) (n : Option ℕ) (s : Shared Row)
      → Keeps s (log_failure w context o r n s)
  unfolding log_response Keeps
  log_failure-Keeps o r none s = (refl, refl, refl)
  log_failure-Keeps o r (some n) s = logged-Keeps o n (message_of w r) s

  Keeps-Finishes :
      (op : DatabaseRequest) (r : DatabaseResponse Row) (s t : Shared Row)
      → (session_of op == 0) ≡ true
      → Keeps (record s { counter = decremented s.counter }) t
      → Finishes op r s t
  unfolding Keeps
  Keeps-Finishes op r s t z (c, q, m) = record {
    counter = c;
    responses = rw z q;
    messages = rw z m;
  }

  sends-Finishes :
      (op : DatabaseRequest) (r : DatabaseResponse Row) (s : Shared Row)
      → (session_of op == 0) ≡ false
      → Finishes op r s (
          send_response context.protocol_type
            (owner_of op)
            (session_of op)
            r
            (record s { counter = decremented s.counter }))
  unfolding send_response
  sends-Finishes op r s z =
      elim (Bool-cases
        (publish s.responses (record { owner = owner_of op; session = session_of op }) r).1) [
          | inl y ↦ record {
            counter = rw (z, y) refl;
            responses = rw (z, y) refl;
            messages = rw (z, y) refl;
          }
          | inr y ↦ record {
            counter = rw (z, y) refl;
            responses = rw (z, y) refl;
            messages = rw (z, y) refl;
          }
        ]

  finish_request-Finishes :
      (op : DatabaseRequest) (r : DatabaseResponse Row) (a : Actor) (s : Shared Row)
      → let p = finish_request w context (owner_of op) (session_of op) r a s in
        Finishes op r s p.1 × (p.0.backend ≡ a.backend) × (p.0.reconnect ≡ a.reconnect)
  finish_request-Finishes op r a s = elim (Bool-cases (session_of op == 0)) [
    | inl z ↦ elim (Bool-cases (is_connect_failure r)) [
      | inl y ↦
          unfold finish_request in
          rw (z, y)
            (
              Keeps-Finishes op r s _ z (
                  log_failure-Keeps (owner_of op) r
                    (Gate.take a.connection_logs (w.now (reads_clock ∷ a.history))).1
                    (record s { counter = decremented s.counter })),
              refl,
              refl,
            )
      | inr y ↦
          unfold finish_request log_response in
          rw (z, y)
            (
              Keeps-Finishes op r s _ z (
                  logged-Keeps (owner_of op) 0 (message_of w r)
                    (record s { counter = decremented s.counter })),
              refl,
              refl,
            )
    ]
    | inr z ↦ unfold finish_request in rw z (sends-Finishes op r s z, refl, refl)
  ]

  after_work :
      (op : DatabaseRequest) (ops : List DatabaseRequest) (a : Actor) (s : Shared Row)
      → IsWork op
      → suc (work_count ops) ≤ s.counter
      → s.counter < u64_mod
      → ((b : Actor) (t : Shared Row)
          → work_count ops ≤ t.counter
          → t.counter < u64_mod
          → IsDrained ops b t (handle_all w context ops b t))
      → (p : Actor × Shared Row) × (continue_with w context
            (handle_all w context ops)
            (handle_work w context op a s)
          ≡ done p)
        × Serves (op ∷ ops) a s p.0 p.1
        × (p.1.counter + suc (work_count ops) ≡ s.counter)
  unfolding IsDrained
  after_work op ops a s work h bound rest =
      let ((c, r), e, served) = serve-Served w context op a work in
      let q = finish_request w context (owner_of op) (session_of op) r c s in
      let worked : handle_work w context op a s ≡ done q =
        unfold handle_work in ap (finish w context op s) e in
      let (finishes, backend, reconnect) = finish_request-Finishes op r c s in
      let (less, enough, fits) = decremented-pred s.counter (work_count ops) h bound in
      let (p, f, serves, m) =
        rest q.0 q.1 (omega (arith, enough, finishes.counter))
          (omega (arith, fits, finishes.counter)) in
      (
        p,
        ap (continue_with w context (handle_all w context ops)) worked ∙ f,
        replies r work e finishes backend reconnect serves,
        omega (arith, m, finishes.counter, less, h),
      )

  -- The run of the actor over the requests that its channel yields ends, whatever the driver does: in
  -- their order every request but Close is served once, and finished with the reply of its serving,
  -- which is published under the caller's key if it has a session. In the end the counter is lower by
  -- the number of these requests, when it was at least that number.
  pub handle_all-IsDrained :
      (ops : List DatabaseRequest) (a : Actor) (s : Shared Row)
      → work_count ops ≤ s.counter
      → s.counter < u64_mod
      → IsDrained ops a s (handle_all w context ops a s)
  unfolding handle_all IsDrained
  handle_all-IsDrained [] a s h bound = ((a, s), refl, idle a s, omega arith)
  handle_all-IsDrained (close_request ∷ ops) a s h bound =
      let (p, e, serves, m) = handle_all-IsDrained ops a s h bound in (p, e, closes serves, m)
  handle_all-IsDrained (query_request x y z ∷ ops) a s h bound =
      after_work (query_request x y z) ops a s tt h bound (handle_all-IsDrained ops)
  handle_all-IsDrained (execute_request x y z ∷ ops) a s h bound =
      after_work (execute_request x y z) ops a s tt h bound (handle_all-IsDrained ops)
  handle_all-IsDrained (batch_request x y z ∷ ops) a s h bound =
      after_work (batch_request x y z) ops a s tt h bound (handle_all-IsDrained ops)
  handle_all-IsDrained (transaction_request x y z ∷ ops) a s h bound =
      after_work (transaction_request x y z) ops a s tt h bound (handle_all-IsDrained ops)

-- ===== src/Sqlx/Client.antt =====
-- The Lua side of a connection in crates/libs/lib-lualib/src/lua_sqlx.rs: putting a request into the
-- actor's channel, and closing.
--
-- An argument that Lua code passed is given as the result of reading it. The channel is tokio's bounded
-- channel: a queue with a capacity, whose `try_send` never waits.
use lrust.Base.{
  true, false, ℕ, ◌+◌, ◌^◌, ◌%◌, List, [], ◌∷◌, ◌++◌, Bool, Option, none, some, leb, ◌==◌,
  if◌then◌else◌, length,
}
use lrust.Base.Text.{Bytes, codes}
use lrust.Base.Time.{u64_mod}
use lrust.Response.{Registry, Lease, register, drop_lease}
use lrust.Sqlx.Types.{
  QueryParams, DatabaseQuery, DatabaseRequest, query_request, execute_request, batch_request,
  transaction_request, DatabaseResponse,
}
use lrust.Sqlx.Actor.{Shared, decremented}

-- `Result<_, String>`.
pub data Checked (A : Type 0) : Type 0 where
  good : A → Checked A
  bad : Bytes → Checked A

-- What a call leaves on the Lua stack.
pub data Reply : Type 0 where
  accepted : ℕ → Option Lease → Reply
  refused : (kind message : Bytes) → Reply
  failed : Bytes → Reply

pub data SendError : Type 0 where
  full closed : SendError

-- The channel of a connection, with its flag and what it shares with its actor.
pub record DatabaseConnection (Row : Type 0) : Type 0 where
  pub closing : Bool
  pub receiving : Bool
  pub capacity : ℕ
  pub queue : List DatabaseRequest
  pub shared : Shared Row

-- `TransactionQuerys`; none is one that Lua has collected.
abbrev pub TransactionQuerys : Type 0
TransactionQuerys = Option (List DatabaseQuery)

abbrev pub incremented : ℕ → ℕ
incremented n = (n + 1) % u64_mod

-- `Sender::try_send`.
abbrev pub send_error : {Row : Type 0} → DatabaseConnection Row → Option SendError
send_error c =
    if c.receiving
    then (if leb c.capacity (length c.queue) then some full else none)
    else some closed

abbrev pub kind_of : SendError → Bytes
kind_of full = codes "BUSY"
kind_of closed = codes "CLOSED"

abbrev pub message_of : SendError → Bytes
message_of full = codes "no available capacity"
message_of closed = codes "channel closed"

abbrev pub is_closing : Reply
is_closing = refused (codes "CLOSED") (codes "database connection is closing")

-- What becomes of a transaction's statements: an accepted request takes them, and a refused one gives
-- them back.
abbrev pub left_over : Reply → List DatabaseQuery → TransactionQuerys
left_over (accepted _ _) qs = some []
left_over (refused _ _) qs = some qs
left_over (failed _) qs = some qs

-- A call that fails before it reads the statements leaves them.
abbrev pub untouched : Checked TransactionQuerys → TransactionQuerys
untouched (good q) = q
untouched (bad e) = none

module _ {Row : Type 0} where
  abbrev pub with_counter : (ℕ → ℕ) → DatabaseConnection Row → DatabaseConnection Row
  with_counter f c = record c { shared = record (c.shared) { counter = f c.shared.counter } }

  abbrev pub with_responses :
      Registry (DatabaseResponse Row) → DatabaseConnection Row → DatabaseConnection Row
  with_responses r c = record c { shared = record (c.shared) { responses = r } }

  abbrev pub registered :
      DatabaseConnection Row
      → Registry (DatabaseResponse Row) × Option Lease
      → DatabaseConnection Row × Checked (Option Lease)
  registered c (r, none) = (c, bad (codes "SQLx response session is already in use"))
  registered c (r, some l) = (with_responses r c, good (some l))

  -- `response_guard`: session 0 wants no reply, and a negative session is refused.
  unfoldable pub response_guard :
      ℕ → ℕ → DatabaseConnection Row → DatabaseConnection Row × Checked (Option Lease)
  response_guard owner session c =
      if session == 0
      then (c, good none)
      else if leb (2 ^ 63) session
      then (c, bad (codes "SQLx session must be a positive native integer"))
      else registered c (register c.shared.responses (record { owner = owner; session = session }))

  unfoldable pub abandon_guard : Option Lease → DatabaseConnection Row → DatabaseConnection Row
  abandon_guard none c = c
  abandon_guard (some l) c = with_responses (drop_lease c.shared.responses l) c

  abbrev pub after_send :
      ℕ
      → Option Lease
      → DatabaseRequest
      → DatabaseConnection Row
      → Option SendError
      → DatabaseConnection Row × Reply
  after_send session guard request c none =
      (record c { queue = c.queue ++ request ∷ [] }, accepted session guard)
  after_send session guard request c (some e) =
      (with_counter decremented (abandon_guard guard c), refused (kind_of e) (message_of e))

  -- From the counter's increment on: the request is in the channel, or nothing is left of it.
  unfoldable pub try_send :
      ℕ → Option Lease → DatabaseRequest → DatabaseConnection Row → DatabaseConnection Row × Reply
  try_send session guard request c0 =
      let c = with_counter incremented c0 in after_send session guard request c (send_error c)

  unfoldable pub guarded :
      ℕ
      → DatabaseRequest
      → DatabaseConnection Row × Checked (Option Lease)
      → DatabaseConnection Row × Reply
  guarded session request (c, bad e) = (c, failed e)
  guarded session request (c, good guard) = try_send session guard request c

  unfoldable pub enqueue :
      ℕ → ℕ → DatabaseRequest → DatabaseConnection Row → DatabaseConnection Row × Reply
  enqueue owner session request c = guarded session request (response_guard owner session c)

  -- `enqueue_query`; the parameters are read up to the first bad one.
  unfoldable pub enqueue_query :
      Bool
      → Checked ℕ
      → Checked ℕ
      → Checked Bytes
      → Checked (List QueryParams)
      → DatabaseConnection Row
      → DatabaseConnection Row × Reply
  enqueue_query execute_only (bad e) session sql params c = (c, failed e)
  enqueue_query execute_only (good owner) (bad e) sql params c = (c, failed e)
  enqueue_query execute_only (good owner) (good session) sql params c =
      if c.closing then (c, is_closing) else elim sql [
        | bad e ↦ (c, failed e)
        | good text ↦ elim params [
          | bad e ↦ (c, failed e)
          | good binds ↦
              let query : DatabaseQuery = record { sql = text; binds = binds } in
              enqueue owner session
                (if execute_only
                  then execute_request owner session query
                  else query_request owner session query)
                c
        ]
      ]

  unfoldable pub query_impl :
      Checked ℕ
      → Checked ℕ
      → Checked Bytes
      → Checked (List QueryParams)
      → DatabaseConnection Row
      → DatabaseConnection Row × Reply
  query_impl = enqueue_query false

  unfoldable pub execute_impl :
      Checked ℕ
      → Checked ℕ
      → Checked Bytes
      → Checked (List QueryParams)
      → DatabaseConnection Row
      → DatabaseConnection Row × Reply
  execute_impl = enqueue_query true

  unfoldable pub batch_impl :
      Checked ℕ
      → Checked ℕ
      → Checked Bytes
      → DatabaseConnection Row
      → DatabaseConnection Row × Reply
  batch_impl (bad e) session sql c = (c, failed e)
  batch_impl (good owner) (bad e) sql c = (c, failed e)
  batch_impl (good owner) (good session) (bad e) c = (c, failed e)
  batch_impl (good owner) (good session) (good sql) c =
      if c.closing
      then (c, is_closing)
      else enqueue owner session (batch_request owner session sql) c

  unfoldable pub transaction_impl :
      Checked ℕ
      → Checked ℕ
      → Checked TransactionQuerys
      → DatabaseConnection Row
      → DatabaseConnection Row × Reply × TransactionQuerys
  transaction_impl (bad e) session querys c = (c, failed e, untouched querys)
  transaction_impl (good owner) (bad e) querys c = (c, failed e, untouched querys)
  transaction_impl (good owner) (good session) (bad e) c = (c, failed e, none)
  transaction_impl (good owner) (good session) (good none) c =
      (c, failed (codes "SQLx transaction has been collected"), none)
  transaction_impl (good owner) (good session) (good (some qs)) c =
      let (d, reply) = enqueue owner session (transaction_request owner session qs) c in
      if c.closing then (c, is_closing, some qs) else (d, reply, left_over reply qs)

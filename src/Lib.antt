-- ===== src/Lib.antt =====
-- A verification of the core of lrust, a Rust library that gives a Lua runtime asynchronous SQL,
-- documents, HTTP, WebSocket and JSON.
--
-- The parts that are modelled, and how they work together:
--
-- - Buffer: crates/libs/lib-core/src/buffer.rs. A growable byte buffer with a read position and room
--   for writing in front. A vector is its bytes and its allocation; the allocator is a parameter, and a
--   call may return, panic, or leave the buffer's memory (`Outcome`, Base/Outcome).
-- - Retry: crates/libs/lib-lualib/src/sqlx_retry.rs. `Backoff` decides when a lost connection may be
--   made again, and `LogGate` how often failures are logged. A clock reading is an argument, in
--   nanoseconds.
-- - Response: crates/libs/lib-lualib/src/sqlx_response.rs. The registry where a reply waits for its Lua
--   caller. Sequence has the calls in turn; Race and Abandon have them interleaved, as a step relation
--   over callers, workers and dropped leases.
-- - Sqlx: crates/libs/lib-lualib/src/lua_sqlx.rs. One actor per connection. Types has the data
--   (`DatabaseRequest`, `DatabaseResponse`, the classification of replies), Driver what is taken from
--   the crates sqlx and tokio, Backend the methods of `DatabaseBackend`, Actor `database_handler` and
--   `finish_request`, and Client the calls that put a request into the channel (`enqueue_query`,
--   `batch_impl`, `transaction_impl`), Options the options of `connect_impl`, Columns the names of
--   column types, Params the parameters of statements (`get_query_param`) and Results JSON results
--   (`push_json_value`). An actor takes its backoff and its log gate from Retry and sends
--   its replies through Response.
-- - PgTime: crates/libs/lib-lualib/src/sqlx_pg_datetime.rs. PostgreSQL's dates and times as text.
--   Calendar has the rules of the Gregorian calendar, with which the dates are compared.
-- - Sqlx/Safe: crates/libs/lib-lualib/src/sqlx_lua.rs, on a stack with its top first. Calls has
--   dispatch and protect, Tables push, OutputTable, the reads with their scope and the iterators. Leaves
--   counts the values that a call leaves. A panic of LuaFailure is an exit of its own (`unwound`).
-- - Lua: crates/libs/lib-lua-sys/src/laux.rs. Lua's values and tables as its API shows them, and
--   `lua_array_size`, which tells arrays from other tables. A table is its entries in the order of
--   `lua_next` and what Lua answers for its length; tables stand on a heap, so they may be shared and
--   hold themselves.
-- - Json: crates/libs/lib-lualib/src/lua_json.rs. Encode has `encode_one` with the loops for arrays and
--   objects, Render a reference printer and Equal the comparison of the two, Grammar the grammar of
--   JSON, Strings a reader of its strings, Decode `decode_one`, Options `set_options` and `concat`, and
--   Resp `concat_resp`, which writes commands for Redis. A writer is the bytes written so far. Rust's
--   text of a float is a parameter.
-- - Base: numbers, lists, texts and durations that the parts share.
--
-- The SQL driver is a parameter: functions from the history of all calls so far to an answer, so that
-- every sequence of answers, errors and elapsed deadlines is one of its runs; no hypothesis is made of
-- it. A timed request is a function on a state (`Turn`) that ends with a value, an error, its
-- cancellation at an await, or a panic.
--
-- Bounds. Words and counters keep their wrap-around; a count or a session is its bit pattern. The row
-- loop of `query` recurses on the room that is left below max_rows, and the digits of a number on a
-- fuel one above the number, which is more than it has digits. The encoder recurses on a fuel of 65 for
-- the nesting of tables, one more than its depth limit, and never runs out of it. `concat_resp_one`
-- has a fuel for tables with `__redis`, whose nesting the code does not bound; where no table has
-- `__redis` a fuel of 1 is enough. The JSON of a parameter recurses on the levels of nesting that its
-- limit of 64 leaves.
--
-- Not modelled: the conversion of rows to Lua values but for JSON, connecting and
-- closing by name, userdata, and the other clients (MongoDB, SQL Server, WebSocket, HTTP, Excel, crypto); of
-- JSON the parser, which is a crate, and the reading of a text from a file; of Lua the interpreter:
-- its stack and tables are as its manual has them, and its memory and errors are parameters.
-- What a third-party crate does with a connection that is dropped is not modelled either.
pub mod Base
pub mod Buffer
pub mod Retry
pub mod Response
pub mod PgTime
pub mod Lua
pub mod Json
pub mod Sqlx

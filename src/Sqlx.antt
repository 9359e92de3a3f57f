-- ===== src/Sqlx.antt =====
-- crates/libs/lib-lualib/src/lua_sqlx.rs: asynchronous SQL for Lua.
--
-- Each connection is an actor: it owns one physical connection and serves the requests of its
-- channel in order, each under a deadline, and reconnects when the connection is lost.
pub mod Types
pub mod Driver
pub mod Backend
pub mod Actor
pub mod Steps
pub mod Phase
pub mod Replies
pub mod Link
pub mod Served
pub mod Unsubmitted
pub mod Sends
pub mod After
pub mod Loses
pub mod Transaction
pub mod Columns
pub mod Client
pub mod Options
pub mod Queue
pub mod Drained
pub mod Params
pub mod Results
pub mod Safe
mod Tests
mod QueueTests

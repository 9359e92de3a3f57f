-- ===== src/Response.antt =====
-- crates/libs/lib-lualib/src/sqlx_response.rs: the registry in which the replies to asynchronous SQL
-- requests wait for their Lua callers.
--
-- A slot on the heap is an entry of a list, and its address the index. An `Arc` of a slot counts in
-- `strong`, and a `Weak` is the bare address. A call that holds a lock throughout is one step;
-- `publish` and `take` look a slot up under the shard's lock and use it under the slot's lock, so they
-- are two steps each, between which other calls may run.
mod Defs
pub mod Keys
pub mod Holds
pub mod Sequence
pub mod Race
pub mod Allocated
pub mod Abandon
mod Tests
unfoldable pub use Defs.*

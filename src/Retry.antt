-- ===== src/Retry.antt =====
-- crates/libs/lib-lualib/src/sqlx_retry.rs: the reconnect backoff of a connection's actor, and the
-- gate on its connection logs. Both are plain state, driven by the clock readings of their callers.
pub mod Backoff
pub mod LogGate
mod Tests

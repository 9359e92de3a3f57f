-- ===== src/Buffer.antt =====
-- crates/libs/lib-core/src/buffer.rs: a byte buffer with a read position.
--
-- A `Vec<u8>` is its allocation: the bytes below its length, and the spare bytes up to its capacity,
-- which `commit` and `set_len` can bring to light. The allocator is a parameter. A `usize` has 64
-- bits; sums of them wrap, as in a build without overflow checks. What reads or writes through a raw
-- pointer outside the allocation, or sets a length above the capacity, is a `fault`.
mod Defs
mod Words
pub mod Access
pub mod Queue
pub mod Refine
pub mod Prepare
pub mod Wrap
pub mod RoundTrip
mod Tests
unfoldable pub use Defs.*
unfoldable pub use Words.*

-- ===== src/Test.antt =====
-- The crate fox-test: load tests, collection runs and assertions.
pub mod Pool
pub mod Load
pub mod Collection
pub mod Ordering
pub mod Assert
pub mod Endpoint
mod Tests

-- ===== src/Mock.antt =====
-- fox-mock/src/server.rs: the local mock server.
pub mod Definition
pub mod Match
pub mod Resolve
pub mod Store
pub mod Index
pub mod Equivalence
pub mod Priority
pub mod Template
pub mod Server
mod Tests

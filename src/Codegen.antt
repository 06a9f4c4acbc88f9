-- ===== src/Codegen.antt =====
-- The crate fox-codegen: type definitions from a JSON sample.
pub mod Naming
pub mod Types
pub mod Registry
pub mod Emit
pub mod Escape
pub mod Api
pub mod Curl
mod Tests

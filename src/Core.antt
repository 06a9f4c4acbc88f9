-- ===== src/Core.antt =====
-- The crate fox-core: the request model and what the standard and foreign libraries supply.
pub mod External
pub mod Json
pub mod Method
pub mod Variable
pub mod Model
pub mod Samples
mod Tests
pub mod Curl
pub mod Url

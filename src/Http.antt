-- ===== src/Http.antt =====
-- The crate fox-http.
pub mod Cookie
pub mod Signature
pub mod Ws
mod Tests

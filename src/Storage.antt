-- ===== src/Storage.antt =====
-- The crate fox-storage, over abstract tables.
pub mod Folders

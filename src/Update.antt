-- ===== src/Update.antt =====
-- internal/update: whether a release is newer.
pub mod Version

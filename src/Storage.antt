-- ===== src/Storage.antt =====
-- internal/storage: the checks of body metadata that guard every write and every read.
pub mod Metadata

-- ===== src/Storage.antt =====
-- src/orchestra/storage: the interface of an artifact store, and the store in files.
pub mod Interface
pub mod Files

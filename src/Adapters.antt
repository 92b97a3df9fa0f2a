-- ===== src/Adapters.antt =====
-- src/orchestra/adapters/livecodebench/
pub mod Tasks
pub mod Loader
pub mod Final
pub mod Mapper

-- ===== src/Executors.antt =====
-- src/orchestra/executors/
pub mod Models
pub mod Publish
pub mod Selector
pub mod Transform
pub mod Harness
pub mod Registry

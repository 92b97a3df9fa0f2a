-- ===== src/Sandbox.antt =====
-- src/orchestra/sandbox/
pub mod Worker
pub mod Timeout
pub mod Environment
pub mod Official
pub mod Docker
pub mod Mock

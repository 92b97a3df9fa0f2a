-- ===== src/Llm.antt =====
-- src/orchestra/llm/
pub mod Retry
pub mod Mock

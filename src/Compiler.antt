-- ===== src/Compiler.antt =====
-- src/orchestra/ir/compiler.py: each child models one block of `GraphCompiler.compile`, and its own
-- children hold the proofs about that block.
pub mod Checks
pub mod Wiring
pub mod Entries
pub mod Waves
pub mod Reach
pub mod Compile

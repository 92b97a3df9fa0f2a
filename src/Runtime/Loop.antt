-- ===== src/Runtime/Loop.antt =====
-- src/orchestra/runtime/native_async.py: NativeAsyncRuntime.execute.
pub mod Events
pub mod Round
pub mod Execute
pub mod Waves
pub mod Rounds
pub mod Ending
pub mod Finished
pub mod Resume
pub mod Outcome

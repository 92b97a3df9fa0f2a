-- ===== src/Runtime.antt =====
-- src/orchestra/runtime: state, scheduling, committing, checkpoints and the wave loop.
pub mod State
pub mod Scheduler
pub mod Committer
pub mod Checkpoint
pub mod Loop
pub mod Measures

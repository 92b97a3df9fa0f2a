-- ===== src/Tests.antt =====
-- Small inputs, what the model does on them, and the theorems at those inputs.
mod Graphs
mod Compiling
mod Running
mod Executing
mod Judging
mod Loading
mod Evaluating
mod Commanding
mod Reporting

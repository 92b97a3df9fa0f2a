-- ===== src/Cli.antt =====
-- src/orchestra/cli/
pub mod Evaluate
pub mod Run
pub mod Settings
pub mod Prepare

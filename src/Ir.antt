-- ===== src/Ir.antt =====
-- src/orchestra/ir: the typed graph that the compiler checks and the runtime executes.
pub mod Schemas
pub mod Artifacts
pub mod Edges
pub mod Nodes
pub mod Contracts
pub mod Graph

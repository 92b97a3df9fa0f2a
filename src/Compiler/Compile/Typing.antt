-- ===== src/Compiler/Compile/Typing.antt =====
-- src/orchestra/ir/compiler.py: the types of the edges of an accepted graph.
use codename_madagascar.Prelude.{◌≡◌, IsDistinct, string_eq, ok}
use codename_madagascar.Ir.Graph.{OrchestraGraph}
use codename_madagascar.Compiler.Checks.{GraphCompiler}
use codename_madagascar.Compiler.Compile.{CompiledGraph, node_ids, edge_ids, compile}
use codename_madagascar.Compiler.Compile.Inversion.{compile-IsWired}
use codename_madagascar.Compiler.Compile.Wired.{IsAllTyped, wired_typed}

-- In an accepted graph node names and edge names are distinct, and every edge joins two of its
-- nodes at slots that they declare, of one type, with a condition on a field of that type's schema.
pub compile-IsAllTyped :
    (c : GraphCompiler) (graph : OrchestraGraph) (g : CompiledGraph)
    → compile c graph ≡ ok g
    → IsDistinct (node_ids graph) × IsDistinct (edge_ids graph) × IsAllTyped graph graph.edges
compile-IsAllTyped c graph g e =
    let (w, entries, wired, _) = compile-IsWired c graph g e in
    (wired.distinct_nodes, wired.distinct_edges, wired_typed c graph w entries wired)

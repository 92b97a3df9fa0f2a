-- ===== src/Compiler/Compile/Wired.antt =====
-- src/orchestra/ir/compiler.py: what the checks and the wiring give the algorithms that follow.
use mathlib.Core.Path.{fun_ext}
use mathlib.Core.List.{Memᴰ}
use codename_madagascar.Prelude.Integers.{pos}
use codename_madagascar.Prelude.{
  ◌<◌, ◌≡◌, refl, ap, ◌∙◌, String, true, List, [], ◌∷◌, map, count, contains, string_eq, arith,
  eq_iff, All, All-map, Bool-cases, inl, inr, ◌==◌,
}
use codename_madagascar.Ir.Nodes.{NodeSpec}
use codename_madagascar.Ir.Edges.{EdgeSpec}
use codename_madagascar.Ir.Graph.{OrchestraGraph}
use codename_madagascar.Compiler.Checks.{GraphCompiler}
use codename_madagascar.Compiler.Checks.Edges.{NodeAt, IsTyped, check_edge-IsTyped}
use codename_madagascar.Compiler.Wiring.{Wiring, unwired}
use codename_madagascar.Compiler.Wiring.Tables.{Extends, wire_edges-Extends}
use codename_madagascar.Compiler.Waves.Rounds.{targets_of, waiting}
use codename_madagascar.Compiler.Waves.Layers.{Degrees}
use codename_madagascar.Compiler.Compile.{node_ids}
use codename_madagascar.Compiler.Compile.Inversion.{IsWired}

count-named :
    (k : String) (node : NodeSpec) (nodes : List NodeSpec)
    → Memᴰ node nodes
    → node.node_id ≡ k
    → 0 < count k (map (λ (n : NodeSpec). n.node_id) nodes)
count-named k node [] m same = elim m [ ]
count-named k node (n ∷ nodes) (Memᴰ.head e) same =
    let named = ap (λ (m : NodeSpec). m.node_id) e in ground (arith, eq_iff n.node_id k)
count-named k node (n ∷ nodes) (Memᴰ.tail m) same = omega (arith, count-named k node nodes m same)

pub count-NodeAt :
    (graph : OrchestraGraph) (k : String) {node : NodeSpec}
    → NodeAt graph.nodes k node
    → 0 < count k (node_ids graph)
count-NodeAt graph k {node} h = count-named k node graph.nodes h.planned h.named

abbrev pub IsAllTyped : OrchestraGraph → List EdgeSpec → Type 0
IsAllTyped graph edges = All (λ (edge : EdgeSpec). IsTyped graph.nodes edge) edges

module _ (graph : OrchestraGraph) where
  pub sources_known :
      (edges : List EdgeSpec)
      → IsAllTyped graph edges
      → All (λ (e : EdgeSpec). 0 < count e.source_node (node_ids graph)) edges
  sources_known [] h = tt
  sources_known (e ∷ es) h = (count-NodeAt graph _ (h.0.from_node), sources_known es h.1)

  pub waiting_known :
      (edges : List EdgeSpec) (v : String)
      → IsAllTyped graph edges
      → 0 < count v (waiting edges [])
      → 0 < count v (node_ids graph)
  waiting_known [] v h w = absurd (omega arith)
  waiting_known (e ∷ es) v h w = elim (Bool-cases (e.destination_node == v)) [
    | inl here ↦ rw (← (eq_iff e.destination_node v).0 here) (count-NodeAt graph _ (h.0.to_node))
    | inr later ↦ waiting_known es v h.1 (ground arith)
  ]

  pub targets_known :
      (edges : List EdgeSpec) (u v : String)
      → IsAllTyped graph edges
      → contains (targets_of edges u) v ≡ true
      → 0 < count v (node_ids graph)
  targets_known [] u v h k = cc
  targets_known (e ∷ es) u v h k = elim (Bool-cases (e.destination_node == v)) [
    | inl here ↦ rw (← (eq_iff e.destination_node v).0 here) (count-NodeAt graph _ (h.0.to_node))
    | inr later ↦ targets_known es u v h.1 (ground arith)
  ]

module _ (c : GraphCompiler) (graph : OrchestraGraph) (w : Wiring) (entries : List String)
    (h : IsWired c graph w entries) where
  extends : Extends unwired graph.edges w
  extends = (wire_edges-Extends _ _ _ h.wired).0

  pub wired_typed : IsAllTyped graph graph.edges
  wired_typed =
      All-map _ _ (λ edge. check_edge-IsTyped graph.nodes edge) graph.edges
        (wire_edges-Extends _ _ _ h.wired).1

  pub wired_adjacency : w.adjacency ≡ targets_of graph.edges
  wired_adjacency = fun_ext (λ u. extends.adjacent u)

  pub wired_Degrees : Degrees graph.edges [] w.indegree
  wired_Degrees v = extends.entered v 0 refl ∙ ap pos (omega arith)

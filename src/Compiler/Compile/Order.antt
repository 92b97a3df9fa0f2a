-- ===== src/Compiler/Compile/Order.antt =====
-- src/orchestra/ir/compiler.py: the waves of an accepted graph, and when a cycle is reported.
use codename_madagascar.Prelude.{
  ℕ, suc, ◌<◌, ◌≡◌, ◌≢◌, refl, ap, ◌∙◌, String, Option, some, List, [], ◌∷◌, map, length, SameItems,
  concat, count, string_eq, nat_eq, ok, err, arith,
}
use codename_madagascar.Ir.Nodes.{NodeSpec}
use codename_madagascar.Ir.Graph.{OrchestraGraph}
use codename_madagascar.Compiler.Checks.{GraphCompiler, contains_cycle}
use codename_madagascar.Compiler.Wiring.{Wiring}
use codename_madagascar.Compiler.Waves.{wave_loop, first_wave}
use codename_madagascar.Compiler.Waves.Rounds.{targets_of, waiting}
use codename_madagascar.Compiler.Waves.Layers.{IsLayered}
use codename_madagascar.Compiler.Waves.Kahn.{
  IsRanking, kahn-IsLayered, kahn-SameItems, kahn_total, kahn_acyclic,
}
use codename_madagascar.Compiler.Compile.{CompiledGraph, node_ids, finish, compile}
use codename_madagascar.Compiler.Compile.Inversion.{IsWired, compile-IsWired, finish-IsFinal}
use codename_madagascar.Compiler.Compile.Wired.{
  wired_typed, wired_adjacency, wired_Degrees, waiting_known, sources_known,
}
use codename_madagascar.Compiler.Compile.Errors.{compile-late}

pub length-node_ids :
    (nodes : List NodeSpec) → length (map (λ (n : NodeSpec). n.node_id) nodes) ≡ length nodes
length-node_ids [] = refl
length-node_ids (n ∷ nodes) = ap suc (length-node_ids nodes)

module _ (c : GraphCompiler) (graph : OrchestraGraph) (w : Wiring) (entries : List String)
    (h : IsWired c graph w entries) where
  abbrev loop : ℕ → Option (List (List String) × ℕ)
  loop fuel = wave_loop fuel w.adjacency (first_wave (node_ids graph) w.indegree) w.indegree 0

  known : (v : String) → 0 < count v (waiting graph.edges []) → 0 < count v (node_ids graph)
  known v = waiting_known graph graph.edges v (wired_typed c graph w entries h)

  tables :
      {r : List (List String) × ℕ}
      → loop (suc (length graph.nodes)) ≡ some r
      → wave_loop
          (suc (length graph.nodes))
          (targets_of graph.edges)
          (first_wave (node_ids graph) w.indegree)
          w.indegree
          0
        ≡ some r
  tables e = rw (wired_adjacency c graph w entries h) at e

  loop-IsLayered :
      (r : List (List String) × ℕ)
      → loop (suc (length graph.nodes)) ≡ some r
      → IsLayered graph.edges [] r.0
  loop-IsLayered r e =
      kahn-IsLayered graph.edges (node_ids graph) h.distinct_nodes known w.indegree
        (wired_Degrees c graph w entries h) (suc (length graph.nodes)) r (tables e)

  loop-SameItems :
      (r : List (List String) × ℕ)
      → loop (suc (length graph.nodes)) ≡ some r
      → r.1 ≡ length graph.nodes
      → SameItems (concat r.0) (node_ids graph)
  loop-SameItems r e all =
      kahn-SameItems graph.edges (node_ids graph) h.distinct_nodes known w.indegree
        (wired_Degrees c graph w entries h) (suc (length graph.nodes)) r (tables e)
        (omega (arith, length-node_ids graph.nodes))

  loop_acyclic :
      (r : List (List String) × ℕ) (rank : String → ℕ)
      → loop (suc (length graph.nodes)) ≡ some r
      → IsRanking graph.edges rank
      → r.1 ≡ length graph.nodes
  loop_acyclic r rank e ranking =
      kahn_acyclic graph.edges (node_ids graph) h.distinct_nodes known w.indegree
        (wired_Degrees c graph w entries h) (suc (length graph.nodes)) r (tables e) rank ranking
        (sources_known graph graph.edges (wired_typed c graph w entries h))
      ∙ length-node_ids graph.nodes

  pub loop_total : (r : List (List String) × ℕ) × (loop (suc (length graph.nodes)) ≡ some r)
  loop_total = rw (wired_adjacency c graph w entries h) (
      kahn_total graph.edges (node_ids graph) h.distinct_nodes known w.indegree
        (wired_Degrees c graph w entries h) (suc (length graph.nodes))
        (omega (arith, length-node_ids graph.nodes)))

  finish_no_cycle :
      (r : List (List String) × ℕ)
      → loop (suc (length graph.nodes)) ≡ some r
      → r.1 ≡ length graph.nodes
      → finish graph w entries ≢ err contains_cycle
  unfolding finish
  finish_no_cycle r e all failed = ground (arith, e, nat_eq.beq_iff r.1 (length graph.nodes))

-- The waves of an accepted graph hold every node exactly once, and every edge into a node of a
-- wave starts in an earlier wave.
pub compile-IsLayered :
    (c : GraphCompiler) (graph : OrchestraGraph) (g : CompiledGraph)
    → compile c graph ≡ ok g
    → IsLayered graph.edges [] g.waves × SameItems (concat g.waves) (node_ids graph)
compile-IsLayered c graph g e =
    let (w, entries, wired, finished) = compile-IsWired c graph g e in
    let final = finish-IsFinal graph w entries g finished in
    (
      loop-IsLayered c graph w entries wired _ final.looped,
      loop-SameItems c graph w entries wired _ final.looped refl,
    )

-- A graph with a ranking of its nodes along the edges is never refused for a cycle.
pub compile_acyclic :
    (c : GraphCompiler) (graph : OrchestraGraph) (rank : String → ℕ)
    → IsRanking graph.edges rank
    → compile c graph ≢ err contains_cycle
compile_acyclic c graph rank ranking e =
    let (w, entries, wired, failed) = compile-late c graph contains_cycle refl e in
    let (r, looped) = loop_total c graph w entries wired in
    finish_no_cycle c graph w entries wired r looped
      (loop_acyclic c graph w entries wired r rank looped ranking) failed

-- ===== src/Compiler/Compile.antt =====
-- src/orchestra/ir/compiler.py: `GraphCompiler.compile`. The wave loop and the closure run on fuel:
-- one more than the number of nodes.
pub mod Inversion
pub mod Wired
pub mod Errors
pub mod Order
pub mod Typing
pub mod Reachable
use codename_madagascar.Prelude.{
  ℕ, suc, String, Bool, true, false, not, List, [], ◌∷◌, map, length, filter, any, contains, to_set,
  Dict, insert_all, has_key, ◌==◌, string_eq, nat_eq, ok, ◌>>=◌, ◌>>◌, raise_if, or_raise,
  if◌then◌else◌, is_some, ◌+◌,
}
use codename_madagascar.Ir.Nodes.{NodeSpec}
use codename_madagascar.Ir.Edges.{EdgeSpec}
use codename_madagascar.Ir.Graph.{OrchestraGraph}
use codename_madagascar.Compiler.Checks.{
  GraphCompiler, Checked, check_node, duplicate_node_ids, duplicate_edge_ids, no_entry_nodes,
  contains_cycle, no_final_producer, unreachable_output, out_of_fuel,
}
use codename_madagascar.Compiler.Wiring.{Wiring, unwired, wire_edges}
use codename_madagascar.Compiler.Entries.{find_entries}
use codename_madagascar.Compiler.Waves.{wave_loop, first_wave}
use codename_madagascar.Compiler.Reach.{close_loop}

pub record CompiledGraph : Type 0 where
  pub graph : OrchestraGraph
  pub entry_nodes : List String
  pub waves : List (List String)
  pub conditional_branches : ℕ
  pub final_producers : List String

abbrev pub node_ids : OrchestraGraph → List String
node_ids graph = map (λ (node : NodeSpec). node.node_id) graph.nodes

abbrev pub edge_ids : OrchestraGraph → List String
edge_ids graph = map (λ (edge : EdgeSpec). edge.edge_id) graph.edges

-- `{node.node_id: node for node in graph.nodes}`
abbrev pub nodes_by_id : List NodeSpec → Dict String NodeSpec
nodes_by_id nodes = insert_all (map (λ (node : NodeSpec). (node.node_id, node)) nodes) []

unfoldable pub check_nodes : GraphCompiler → List NodeSpec → Checked Unit
check_nodes c [] = ok tt
check_nodes c (node ∷ nodes) = do check_node c node; check_nodes c nodes

abbrev is_empty : List String → Bool
is_empty [] = true
is_empty (x ∷ xs) = false

-- `len(set(ids)) != len(ids)`
abbrev has_repeats : List String → Bool
has_repeats ids = not (length (to_set ids) == length ids)

unfoldable pub producers : String → List NodeSpec → List String
producers slot nodes =
    map (λ (node : NodeSpec). node.node_id) (filter (λ node. has_key slot node.output_slots) nodes)

unfoldable pub count_conditional : List EdgeSpec → ℕ
count_conditional [] = 0
count_conditional (edge ∷ edges) =
    (if is_some edge.condition then 1 else 0) + count_conditional edges

-- From the entry nodes on: cycles, the final output, and whether it can be reached.
unfoldable pub finish : OrchestraGraph → Wiring → List String → Checked CompiledGraph
unfolding producers count_conditional
finish graph w entries = do
  raise_if (is_empty entries) no_entry_nodes
  (waves, visited) ←
      or_raise
        (wave_loop (suc (length graph.nodes)) w.adjacency (first_wave (node_ids graph) w.indegree)
          w.indegree 0)
        out_of_fuel
  raise_if (not (visited == length graph.nodes)) contains_cycle
  raise_if (is_empty (producers graph.final_output_slot graph.nodes))
      (no_final_producer graph.final_output_slot)
  reachable ← or_raise (close_loop (suc (length graph.nodes)) w.adjacency entries) out_of_fuel
  raise_if (not (any (contains reachable) (producers graph.final_output_slot graph.nodes)))
      unreachable_output
  ok (record {
    graph = graph;
    entry_nodes = entries;
    waves = waves;
    conditional_branches = count_conditional graph.edges;
    final_producers = producers graph.final_output_slot graph.nodes;
  })

unfoldable pub compile : GraphCompiler → OrchestraGraph → Checked CompiledGraph
unfolding check_nodes finish
compile c graph = do
  raise_if (has_repeats (node_ids graph)) duplicate_node_ids
  raise_if (has_repeats (edge_ids graph)) duplicate_edge_ids
  check_nodes c graph.nodes
  w ← wire_edges (nodes_by_id graph.nodes) unwired graph.edges
  entries ← find_entries graph.initial_artifact_slots w.incoming_slots graph.nodes
  finish graph w entries

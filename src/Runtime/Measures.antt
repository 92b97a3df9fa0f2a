-- ===== src/Runtime/Measures.antt =====
-- src/orchestra/runtime/native_async.py: NativeAsyncRuntime._result. The wall clock is given; the
-- speedup, a quotient of two of the fields, is left out.
pub mod Trails
pub mod Ordering
pub mod Critical
use codename_madagascar.Prelude.{
  ℕ, ◌+◌, max, String, Bool, true, false, none, some, List, [], ◌∷◌, map, Dict, lookup, insert,
  values, filter, concat, length, ltb, ◌==◌, string_eq,
}
use codename_madagascar.Ir.Edges.{EdgeSpec}
use codename_madagascar.Compiler.Compile.{CompiledGraph}
use codename_madagascar.Runtime.State.{NodeStatus, failed, skipped, RuntimeState}

pub record GraphExecutionResult : Type 0 where
  pub state : RuntimeState
  pub wall_latency_ms : ℕ
  pub sum_node_latency_ms : ℕ
  pub critical_path_latency_ms : ℕ
  pub parallel_node_count : ℕ
  pub failed_node_count : ℕ
  pub skipped_node_count : ℕ
  pub checkpoint_count : ℕ

-- `d.get(k, 0)`
abbrev pub get_or_zero : String → Dict String ℕ → ℕ
get_or_zero k d = elim (lookup k d) [ none ↦ 0 | some n ↦ n ]

-- `max(ns, default=0)` and `sum(ns)`
abbrev pub maximum : List ℕ → ℕ
maximum [] = 0
maximum (n ∷ ns) = max n (maximum ns)

abbrev pub total : List ℕ → ℕ
total [] = 0
total (n ∷ ns) = n + total ns

abbrev pub parents_of : String → List EdgeSpec → List String
parents_of node_id edges =
    map (λ (edge : EdgeSpec). edge.source_node)
      (filter (λ (edge : EdgeSpec). edge.destination_node == node_id) edges)

-- The loop over the nodes of the waves, in order.
unfoldable pub longest_paths :
    Dict String ℕ → List EdgeSpec → List String → Dict String ℕ → Dict String ℕ
longest_paths latency edges [] longest = longest
longest_paths latency edges (node_id ∷ nodes) longest =
    let before =
      maximum (map (λ (parent : String). get_or_zero parent longest) (parents_of node_id edges)) in
    longest_paths latency edges nodes
      (insert node_id (get_or_zero node_id latency + before) longest)

unfoldable pub critical_path : Dict String ℕ → List EdgeSpec → List String → ℕ
critical_path latency edges nodes = maximum (values (longest_paths latency edges nodes []))

abbrev is_failed : NodeStatus → Bool
is_failed failed = true
is_failed _ = false

abbrev is_skipped : NodeStatus → Bool
is_skipped skipped = true
is_skipped _ = false

unfoldable pub count_status : (NodeStatus → Bool) → Dict String NodeStatus → ℕ
count_status test status = length (filter test (values status))

-- The nodes of the waves that hold more than one.
unfoldable pub parallel_nodes : List (List String) → ℕ
parallel_nodes waves = total (
    map (λ (wave : List String). length wave)
      (filter (λ (wave : List String). ltb 1 (length wave)) waves))

unfoldable pub measure : CompiledGraph → RuntimeState → (wall_latency_ms : ℕ) → GraphExecutionResult
measure compiled state wall = record {
  state = state;
  wall_latency_ms = wall;
  sum_node_latency_ms = total (values state.node_latencies_ms);
  critical_path_latency_ms =
      critical_path state.node_latencies_ms compiled.graph.edges (concat compiled.waves);
  parallel_node_count = parallel_nodes compiled.waves;
  failed_node_count = count_status is_failed state.node_status;
  skipped_node_count = count_status is_skipped state.node_status;
  checkpoint_count = state.checkpoint_count;
}

-- ===== src/Runtime/Scheduler.antt =====
-- src/orchestra/runtime/scheduler.py. A status that is missing raises KeyError, and a node that the
-- graph lacks StopIteration.
pub mod Ready
pub mod Live
use codename_madagascar.Prelude.Sorting.{sort_by}
use codename_madagascar.Prelude.{
  ℕ, String, Bool, true, false, not, ◌&&◌, ◌||◌, Option, none, some, List, [], ◌∷◌, ◌++◌, Dict,
  lookup, insert, keys, has_key, contains, all, take, update, is_some, ◌==◌, string_eq, pair_eq,
  Result, ok, err, ◌>>=◌, or_raise, if◌then◌else◌,
}
use codename_madagascar.Exceptions.{Exception, key_error, stop_iteration}
use codename_madagascar.Ir.Nodes.{NodeSpec}
use codename_madagascar.Ir.Edges.{EdgeSpec}
use codename_madagascar.Ir.Graph.{OrchestraGraph}
use codename_madagascar.Runtime.State.{NodeStatus, RuntimeState, is_pending, is_dead}

abbrev pub Incoming : Type 0
Incoming = String × String → List EdgeSpec

collect : Incoming → List EdgeSpec → Incoming
collect table [] = table
collect table (edge ∷ edges) =
    let slot : String × String = (edge.destination_node, edge.destination_input) in
    collect (update table slot (table slot ++ edge ∷ [])) edges

unfoldable pub incoming : OrchestraGraph → Incoming
unfolding collect
incoming graph = collect (λ _. []) graph.edges

-- `state.node_status[node_id]`
abbrev pub status_of : RuntimeState → String → Result Exception NodeStatus
status_of state node_id = or_raise (lookup node_id state.node_status) key_error

find_node : String → List NodeSpec → Option NodeSpec
find_node node_id [] = none
find_node node_id (node ∷ nodes) =
    if node.node_id == node_id then some node else find_node node_id nodes

-- `state.node_outputs.get(edge.source_node, {}).get(edge.source_output)`
output_of : RuntimeState → EdgeSpec → Option String
output_of state edge = elim (lookup edge.source_node state.node_outputs) [
  | none ↦ none
  | some outputs ↦ lookup edge.source_output outputs
]

-- `if artifact_id`: neither None nor the empty text.
abbrev truthy : Option String → Option String
truthy none = none
truthy (some text) = if text == "" then none else some text

abbrev or_else : Option String → Option String → Option String
or_else none later = later
or_else (some text) later = some text

-- The loop over the edges into one slot: the first active edge that has an output.
unfoldable pub resolve_edges : RuntimeState → List EdgeSpec → Option String
unfolding output_of
resolve_edges state [] = none
resolve_edges state (edge ∷ edges) =
    let rest = resolve_edges state edges in
    if not (contains state.active_edges edge.edge_id)
    then rest
    else or_else (truthy (output_of state edge)) rest

unfoldable pub resolve_slot : RuntimeState → List EdgeSpec → String → Option String
resolve_slot state edges slot =
    or_else (lookup slot state.initial_artifacts) (resolve_edges state edges)

abbrev put_some : String → Option String → Dict String String → Dict String String
put_some slot none resolved = resolved
put_some slot (some artifact_id) resolved = insert slot artifact_id resolved

unfoldable pub resolve_slots :
    RuntimeState → Incoming → String → List String → Dict String String → Dict String String
resolve_slots state table node_id [] resolved = resolved
resolve_slots state table node_id (slot ∷ slots) resolved =
    resolve_slots state table node_id slots
      (put_some slot (resolve_slot state (table (node_id, slot)) slot) resolved)

unfoldable pub resolve_input_ids :
    OrchestraGraph → RuntimeState → String → Result Exception (Dict String String)
unfolding find_node
resolve_input_ids graph state node_id = do
  node ← or_raise (find_node node_id graph.nodes) stop_iteration
  ok (resolve_slots state (incoming graph) node_id (keys node.input_slots) [])

-- `set(xs) == set(ys)`
abbrev pub same_set : List String → List String → Bool
same_set xs ys = all (contains ys) xs && all (contains xs) ys

-- The body of the loop of `find_ready_nodes`.
unfoldable pub is_ready : OrchestraGraph → RuntimeState → NodeSpec → Result Exception Bool
is_ready graph state node = do
  status ← status_of state node.node_id
  let resolved = resolve_input_ids graph state node.node_id
  if is_pending status
      then (do ids ← resolved; ok (same_set (keys ids) (keys node.input_slots)))
      else ok false

unfoldable pub select :
    (NodeSpec → Result Exception Bool) → List NodeSpec → Result Exception (List String)
select test [] = ok []
select test (node ∷ nodes) = do
  chosen ← test node
  rest ← select test nodes
  ok (if chosen then node.node_id ∷ rest else rest)

unfoldable pub find_ready_nodes : ℕ → OrchestraGraph → RuntimeState → Result Exception (List String)
find_ready_nodes max_parallel_nodes graph state = do
  ready ← select (is_ready graph state) (sort_by (λ (node : NodeSpec). node.node_id) graph.nodes)
  ok (take max_parallel_nodes ready)

-- `all(… for edge in edges)`; the status is read only where the edge is not inactive.
unfoldable pub all_dead : RuntimeState → List EdgeSpec → Result Exception Bool
all_dead state [] = ok true
all_dead state (edge ∷ edges) =
    let rest = all_dead state edges in
    let by_status =
      status_of state edge.source_node >>= (λ status. if is_dead status then rest else ok false) in
    if contains state.inactive_edges edge.edge_id then rest else by_status

abbrev nonempty : List EdgeSpec → Bool
nonempty [] = false
nonempty (edge ∷ edges) = true

-- The loop over the slots of one node, up to its `break`.
unfoldable pub has_dead_slot :
    RuntimeState → Incoming → String → List String → Result Exception Bool
has_dead_slot state table node_id [] = ok false
has_dead_slot state table node_id (slot ∷ slots) =
    let rest = has_dead_slot state table node_id slots in
    let edges = table (node_id, slot) in
    let dead = all_dead state edges >>= (λ all. if all then ok true else rest) in
    if has_key slot state.initial_artifacts then rest else if nonempty edges then dead else rest

unfoldable pub is_impossible : OrchestraGraph → RuntimeState → NodeSpec → Result Exception Bool
is_impossible graph state node = do
  status ← status_of state node.node_id
  let dead = has_dead_slot state (incoming graph) node.node_id (keys node.input_slots)
  if is_pending status then dead else ok false

unfoldable pub impossible_nodes : OrchestraGraph → RuntimeState → Result Exception (List String)
impossible_nodes graph state = select (is_impossible graph state) graph.nodes

abbrev pub can_finalize : RuntimeState → Bool
can_finalize state = is_some state.final_output_artifact_id

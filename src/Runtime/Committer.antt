-- ===== src/Runtime/Committer.antt =====
-- src/orchestra/runtime/committer.py: WaveCommitter, over the interface of the artifact store.
pub mod Persist
pub mod Progress
pub mod Freezing
use codename_madagascar.Prelude.Sorting.{sort_by}
use codename_madagascar.Prelude.{
  ℕ, ◌+◌, String, Bool, true, false, not, ◌&&◌, Option, none, some, List, [], ◌∷◌, ◌++◌, map, Dict,
  lookup, insert, values, set_add, ◌==◌, string_eq, Result, ok, err, ◌>>=◌, ◌>>◌, if◌then◌else◌,
}
use codename_madagascar.Exceptions.{Exception}
use codename_madagascar.Ir.Edges.{EdgeSpec, EdgeCondition, evaluate}
use codename_madagascar.Ir.Graph.{OrchestraGraph}
use codename_madagascar.Ir.Artifacts.{ArtifactEnvelope}
use codename_madagascar.Storage.Interface.{ArtifactStore}
use codename_madagascar.Runtime.State.{
  NodeStatus, succeeded, failed, skipped, RuntimeState, NodeExecutionResult,
}
use codename_madagascar.Runtime.Scheduler.{impossible_nodes}

-- What the loop over the results changes.
pub record Commit : Type 0 where
  pub state : RuntimeState
  pub committed : List String
  pub activated : List String
  pub disabled : List String

-- `{slot: artifact.artifact_id for …}`
abbrev pub output_ids : Dict String ArtifactEnvelope → Dict String String
output_ids outputs =
    map (λ (slot : String × ArtifactEnvelope). (slot.0, slot.1.artifact_id)) outputs

abbrev pub set_status : String → NodeStatus → RuntimeState → RuntimeState
set_status node_id status state = record state {
  node_status = insert node_id status state.node_status;
}

-- The first loop over the slots: the first final output freezes the run.
unfoldable pub freeze_final : String → Dict String ArtifactEnvelope → RuntimeState → RuntimeState
freeze_final final_slot [] state = state
freeze_final final_slot ((slot, artifact) ∷ outputs) state = freeze_final final_slot outputs (
    if slot == final_slot && not state.frozen
    then record state { final_output_artifact_id = some artifact.artifact_id; frozen = true }
    else state)

-- `bool(source_artifact and edge.condition.evaluate(source_artifact.payload))`
unfoldable pub edge_enabled : Option ArtifactEnvelope → EdgeCondition → Result Exception Bool
edge_enabled none condition = ok false
edge_enabled (some artifact) condition = evaluate condition artifact.payload

unfoldable pub switch_edge : String → Bool → Commit → Commit
switch_edge edge_id true c = record c {
  state = record c.state { active_edges = set_add edge_id c.state.active_edges };
  activated = c.activated ++ edge_id ∷ [];
}
switch_edge edge_id false c = record c {
  state = record c.state { inactive_edges = set_add edge_id c.state.inactive_edges };
  disabled = c.disabled ++ edge_id ∷ [];
}

-- The body of the loop over the edges of the graph.
unfoldable pub decide_edge :
    NodeExecutionResult → EdgeSpec → Option EdgeCondition → Commit → Result Exception Commit
decide_edge result edge none c = ok c
decide_edge result edge (some condition) c =
    if not (edge.source_node == result.node_id) then ok c else (do
      enabled ← edge_enabled (lookup edge.source_output result.outputs) condition
      ok (switch_edge edge.edge_id enabled c))

unfoldable pub decide_edges : NodeExecutionResult → List EdgeSpec → Commit → Result Exception Commit
decide_edges result [] c = ok c
decide_edges result (edge ∷ edges) c = do
  next ← decide_edge result edge edge.condition c
  decide_edges result edges next

-- The state after the statements between the status and the edges.
unfoldable pub record_success : OrchestraGraph → NodeExecutionResult → Commit → Commit
record_success graph result c = record c {
  state =
      freeze_final graph.final_output_slot result.outputs
        (record (set_status result.node_id succeeded c.state) {
          node_outputs = insert result.node_id (output_ids result.outputs) c.state.node_outputs;
        });
  committed = c.committed ++ values (output_ids result.outputs);
}

abbrev pub record_latency : NodeExecutionResult → Commit → Commit
record_latency result c = record c {
  state = record c.state {
    node_latencies_ms = insert result.node_id result.latency_ms c.state.node_latencies_ms;
  };
}

-- The branches on `result.succeeded`.
unfoldable pub settle :
    Bool → OrchestraGraph → NodeExecutionResult → Commit → Result Exception Commit
settle false graph result c = ok (record c { state = set_status result.node_id failed c.state })
settle true graph result c = decide_edges result graph.edges (record_success graph result c)

-- The body of the loop over the sorted results.
unfoldable pub commit_result :
    OrchestraGraph → NodeExecutionResult → Commit → Result Exception Commit
commit_result graph result c = settle result.success graph result (record_latency result c)

unfoldable pub commit_results :
    OrchestraGraph → List NodeExecutionResult → Commit → Result Exception Commit
commit_results graph [] c = ok c
commit_results graph (result ∷ results) c = do
  next ← commit_result graph result c
  commit_results graph results next

unfoldable pub skip_nodes : List String → RuntimeState → RuntimeState
skip_nodes [] state = state
skip_nodes (node_id ∷ nodes) state = skip_nodes nodes (set_status node_id skipped state)

module _ (store : ArtifactStore) (validate : ArtifactEnvelope → Result Exception (Unit {0})) where
  unfoldable pub persist_outputs :
      List ArtifactEnvelope → store.State → Result Exception store.State
  persist_outputs [] s = ok s
  persist_outputs (artifact ∷ artifacts) s = do
    validate artifact
    next ← store.put artifact s
    persist_outputs artifacts next

  unfoldable pub persist_results :
      List NodeExecutionResult → store.State → Result Exception store.State
  persist_results [] s = ok s
  persist_results (result ∷ results) s = do
    next ← persist_outputs (if result.success then values result.outputs else []) s
    persist_results results next

  unfoldable pub commit_wave :
      OrchestraGraph
      → RuntimeState
      → List NodeExecutionResult
      → store.State
      → Result Exception (Commit × store.State)
  commit_wave graph previous_state results s = do
    s' ← persist_results results s
    c ←
        commit_results graph (sort_by (λ (result : NodeExecutionResult). result.node_id) results)
          (record { state = previous_state; committed = []; activated = []; disabled = [] })
    impossible ← impossible_nodes graph c.state
    let skipping = skip_nodes impossible c.state
    ok (
      record c {
        state = record skipping {
          wave_id = skipping.wave_id + 1;
          checkpoint_count = skipping.checkpoint_count + 1;
        };
      },
      s',
    )

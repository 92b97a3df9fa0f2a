-- ===== src/Runtime/Loop/Execute.antt =====
-- src/orchestra/runtime/native_async.py: the loop of NativeAsyncRuntime.execute, and the state that it
-- starts from.
use mathlib.Core.Option
use codename_madagascar.Prelude.{
  ℕ, zero, suc, String, Bool, true, false, Option, none, some, List, [], ◌∷◌, ◌++◌, map, Dict,
  insert_all, values, is_some, concat, string_eq, Result, ok, err, ◌>>=◌, if◌then◌else◌,
}
use codename_madagascar.Exceptions.{Exception}
use codename_madagascar.Ir.Nodes.{NodeSpec}
use codename_madagascar.Ir.Edges.{EdgeSpec}
use codename_madagascar.Ir.Graph.{OrchestraGraph}
use codename_madagascar.Ir.Artifacts.{ArtifactEnvelope}
use codename_madagascar.Storage.Interface.{ArtifactStore}
use codename_madagascar.Runtime.State.{pending, RuntimeState, NodeExecutionResult}
use codename_madagascar.Runtime.Committer.{output_ids}
use codename_madagascar.Runtime.Checkpoint.{load}
use codename_madagascar.Runtime.Loop.Events.{final_output_frozen}
use codename_madagascar.Runtime.Loop.Round.{World, emit, round}

-- The edges that are active from the start.
abbrev pub unconditional : List EdgeSpec → List String
unconditional [] = []
unconditional (edge ∷ edges) =
    let rest = unconditional edges in if is_some edge.condition then rest else edge.edge_id ∷ rest

pub record RunContext : Type 0 where
  pub run_id : String
  pub task_id : String
  pub contract_hash : String
  pub max_parallel_nodes_per_task : ℕ
  pub allow_config_drift : Bool

module _ (store : ArtifactStore) (validate : ArtifactEnvelope → Result Exception (Unit {0}))
    (execute_safely : NodeSpec
      → Dict String ArtifactEnvelope
      → Result Exception NodeExecutionResult) where
  abbrev W : Type 0
  W = World store validate execute_safely

  -- `while not state.frozen`, on fuel; `none` means that the fuel ran out.
  unfoldable pub run_loop :
      ℕ → ℕ → OrchestraGraph → RuntimeState → W → Option (Result Exception (RuntimeState × W))
  run_loop zero max_parallel graph state world =
      if state.frozen then some (ok (state, world)) else none
  run_loop (suc fuel) max_parallel graph state world = elim state.frozen [
    | true ↦ some (ok (state, world))
    | false ↦ elim (round store validate execute_safely max_parallel graph state world) [
      | err e ↦ some (err e)
      | ok (s, w) ↦ run_loop fuel max_parallel graph s w
    ]
  ]

  unfoldable pub put_all : List ArtifactEnvelope → store.State → Result Exception store.State
  put_all [] s = ok s
  put_all (artifact ∷ artifacts) s = do next ← store.put artifact s; put_all artifacts next

  unfoldable pub get_all : List String → store.State → Result Exception (Unit {0})
  get_all [] s = ok tt
  get_all (id ∷ ids) s = store.get id s >>= λ _. get_all ids s

  unfoldable pub initial_state :
      RunContext → OrchestraGraph → Dict String ArtifactEnvelope → RuntimeState
  initial_state context graph slots = record {
    run_id = context.run_id;
    task_id = context.task_id;
    graph_id = graph.graph_id;
    graph_hash = graph.content_hash;
    contract_hash = context.contract_hash;
    node_status = insert_all (map (λ (node : NodeSpec). (node.node_id, pending)) graph.nodes) [];
    node_outputs = [];
    initial_artifacts = output_ids slots;
    active_edges = unconditional graph.edges;
    inactive_edges = [];
    final_output_artifact_id = none;
    frozen = false;
    wave_id = 0;
    checkpoint_count = 0;
    node_latencies_ms = [];
  }

  abbrev pub referenced : RuntimeState → List String
  referenced state =
      values state.initial_artifacts ++ concat (map values (values state.node_outputs))

  -- From the loaded checkpoint to the state that the loop starts from.
  unfoldable pub resume :
      RunContext
      → OrchestraGraph
      → Dict String ArtifactEnvelope
      → Option RuntimeState
      → W
      → Result Exception (RuntimeState × W)
  unfolding put_all get_all
  resume context graph slots none world = do
    artifacts ← put_all (values slots) world.artifacts
    ok (initial_state context graph slots, record world { artifacts = artifacts })
  resume context graph slots (some state) world =
      get_all (referenced state) world.artifacts >>= λ _. ok (state, world)

  unfoldable pub frozen_event : RuntimeState × W → RuntimeState × W
  frozen_event (state, world) = (
    state,
    if state.frozen
        then emit store validate execute_safely
            (record {
              event_type = final_output_frozen;
              wave_id = none;
              node_id = none;
              artifact_ids = [];
              about = [];
            }
              ∷ [])
            world
        else world,
  )

  -- From the initial or the loaded state: a frozen one is returned as it is.
  unfoldable pub run_from :
      ℕ → ℕ → OrchestraGraph → RuntimeState → W → Option (Result Exception (RuntimeState × W))
  unfolding frozen_event
  run_from fuel max_parallel graph state world =
      if state.frozen
      then some (ok (state, world))
      else Option.map (λ outcome. outcome >>= λ r. ok (frozen_event r))
          (run_loop fuel max_parallel graph state world)

  -- Loads the checkpoint and the initial state.
  unfoldable pub prepare :
      RunContext
      → OrchestraGraph
      → Dict String ArtifactEnvelope
      → W
      → Result Exception (RuntimeState × W)
  prepare context graph slots world = do
    checkpoint ←
        load context.task_id graph.content_hash context.contract_hash context.allow_config_drift
          world.checkpoints
    resume context graph slots checkpoint world

  -- `execute`, up to the measures of `_result`.
  unfoldable pub execute :
      ℕ
      → RunContext
      → OrchestraGraph
      → Dict String ArtifactEnvelope
      → W
      → Option (Result Exception (RuntimeState × W))
  execute fuel context graph slots world = elim (prepare context graph slots world) [
    | err e ↦ some (err e)
    | ok (state, w) ↦ run_from fuel context.max_parallel_nodes_per_task graph state w
  ]

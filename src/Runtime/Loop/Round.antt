-- ===== src/Runtime/Loop/Round.antt =====
-- src/orchestra/runtime/native_async.py: the body of the loop of NativeAsyncRuntime.execute. The
-- tasks of one wave do not share state, so that the wave is the list of their results in the order
-- of `ready`; what a node's executor gives is a parameter, asked for at each wave. The world is
-- what the loop writes: the artifact store, the event log and the checkpoints.
use codename_madagascar.Prelude.{
  ℕ, ◌-◌, String, Bool, true, false, none, some, List, [], ◌∷◌, ◌++◌, map, Dict, lookup, insert_all,
  string_eq, Result, ok, err, ◌>>=◌, or_raise, if◌then◌else◌,
}
use codename_madagascar.Exceptions.{Exception, key_error, graph_deadlock_error}
use codename_madagascar.Ir.Nodes.{NodeSpec}
use codename_madagascar.Ir.Graph.{OrchestraGraph}
use codename_madagascar.Ir.Artifacts.{ArtifactEnvelope}
use codename_madagascar.Storage.Interface.{ArtifactStore}
use codename_madagascar.Runtime.State.{running, RuntimeState, NodeExecutionResult}
use codename_madagascar.Runtime.Scheduler.{
  find_ready_nodes, impossible_nodes, resolve_input_ids, can_finalize,
}
use codename_madagascar.Runtime.Committer.{commit_wave, skip_nodes, set_status}
use codename_madagascar.Runtime.Checkpoint.{Checkpoints, save}
use codename_madagascar.Runtime.Loop.Events.{
  Event, event, wave_events, node_skipped, wave_started, node_ready, node_started,
}

module _ (store : ArtifactStore) (validate : ArtifactEnvelope → Result Exception (Unit {0}))
    (execute_safely : NodeSpec
      → Dict String ArtifactEnvelope
      → Result Exception NodeExecutionResult) where
  pub record World : Type 0 where
    pub artifacts : store.State
    pub events : List Event
    pub checkpoints : Checkpoints

  abbrev pub emit : List Event → World → World
  emit new world = record world { events = world.events ++ new }

  load_ids : Dict String String → store.State → Result Exception (Dict String ArtifactEnvelope)
  load_ids [] s = ok []
  load_ids ((slot, id) ∷ ids) s = do
    artifact ← store.get id s
    rest ← load_ids ids s
    ok ((slot, artifact) ∷ rest)

  unfoldable pub load_inputs :
      OrchestraGraph
      → RuntimeState
      → String
      → store.State
      → Result Exception (Dict String ArtifactEnvelope)
  unfolding load_ids
  load_inputs graph state node_id s = do ids ← resolve_input_ids graph state node_id; load_ids ids s

  -- The first loop over `ready`: marks the nodes as running, and loads their inputs.
  unfoldable pub start_nodes :
      OrchestraGraph
      → List String
      → RuntimeState
      → World
      → Result Exception (Dict String (Dict String ArtifactEnvelope) × RuntimeState × World)
  start_nodes graph [] state world = ok ([], state, world)
  start_nodes graph (node_id ∷ nodes) state world = do
    let started = set_status node_id running state
    inputs ← load_inputs graph started node_id world.artifacts
    (rest, state', world') ← start_nodes graph nodes started (
        emit
          (event node_ready state.wave_id (some node_id) [] []
            ∷ event node_started state.wave_id (some node_id) [] []
            ∷ [])
          world)
    ok ((node_id, inputs) ∷ rest, state', world')

  -- The tasks of the wave, and their results in the order of `ready`.
  unfoldable pub run_nodes :
      Dict String NodeSpec
      → Dict String (Dict String ArtifactEnvelope)
      → Result Exception (List NodeExecutionResult)
  run_nodes node_map [] = ok []
  run_nodes node_map ((node_id, inputs) ∷ rest) = do
    node ← or_raise (lookup node_id node_map) key_error
    result ← execute_safely node inputs
    results ← run_nodes node_map rest
    ok (result ∷ results)

  abbrev pub node_map_of : OrchestraGraph → Dict String NodeSpec
  node_map_of graph = insert_all (map (λ (node : NodeSpec). (node.node_id, node)) graph.nodes) []

  -- The loop over the impossible nodes at the head of a round.
  unfoldable pub skip_impossible :
      OrchestraGraph → RuntimeState → World → Result Exception (RuntimeState × World)
  skip_impossible graph state world = do
    impossible ← impossible_nodes graph state
    ok (
      skip_nodes impossible state,
      emit (map (λ (id : String). event node_skipped state.wave_id (some id) [] []) impossible)
          world,
    )

  -- The rest of a round, from `WAVE_STARTED` to `CHECKPOINT_SAVED`.
  unfoldable pub run_wave :
      OrchestraGraph → List String → RuntimeState → World → Result Exception (RuntimeState × World)
  run_wave graph ready state world = do
    (inputs, running_state, started) ←
        start_nodes graph ready state
          (emit (event wave_started state.wave_id none [] ready ∷ []) world)
    results ← run_nodes (node_map_of graph) inputs
    (c, artifacts) ← commit_wave store validate graph running_state results started.artifacts
    ok (
      c.state,
      record started {
        artifacts = artifacts;
        events = started.events ++ wave_events (c.state.wave_id - 1) results c;
        checkpoints = save c.state started.checkpoints;
      },
    )

  abbrev pub is_nil : List String → Bool
  is_nil [] = true
  is_nil (x ∷ xs) = false

  -- Where no node is ready: the `break` after freezing, or the deadlock.
  unfoldable pub finalize : RuntimeState → World → Result Exception (RuntimeState × World)
  finalize state world =
      if can_finalize state
      then ok (record state { frozen = true }, world)
      else err graph_deadlock_error

  -- The body of the loop.
  unfoldable pub round :
      ℕ → OrchestraGraph → RuntimeState → World → Result Exception (RuntimeState × World)
  unfolding finalize
  round max_parallel graph state world = do
    (skipped_state, w) ← skip_impossible graph state world
    ready ← find_ready_nodes max_parallel graph skipped_state
    if is_nil ready then finalize skipped_state w else run_wave graph ready skipped_state w

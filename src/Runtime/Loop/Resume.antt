-- ===== src/Runtime/Loop/Resume.antt =====
-- src/orchestra/runtime/native_async.py: `execute` where the checkpoint of the task is frozen.
use codename_madagascar.Prelude.{
  ℕ, String, Bool, true, false, ◌&&◌, ◌||◌, Option, some, Dict, ◌==◌, string_eq, Result, ok, err,
  ◌>>=◌, if◌then◌else◌, ◌≡◌, ◌∙◌, refl, ap,
}
use codename_madagascar.Exceptions.{Exception, checkpoint_drift_error}
use codename_madagascar.Ir.Nodes.{NodeSpec}
use codename_madagascar.Ir.Graph.{OrchestraGraph}
use codename_madagascar.Ir.Artifacts.{ArtifactEnvelope}
use codename_madagascar.Storage.Interface.{ArtifactStore}
use codename_madagascar.Runtime.State.{RuntimeState, NodeExecutionResult}
use codename_madagascar.Runtime.Checkpoint.{save, load, load-save}
use codename_madagascar.Runtime.Loop.Round.{World}
use codename_madagascar.Runtime.Loop.Execute.{
  RunContext, get_all, referenced, resume, prepare, run_from, execute,
}

module _ (store : ArtifactStore) (validate : ArtifactEnvelope → Result Exception (Unit {0}))
    (execute_safely : NodeSpec
      → Dict String ArtifactEnvelope
      → Result Exception NodeExecutionResult) where
  abbrev W : Type 0
  W = World store validate execute_safely

  -- What is on disk after the state is saved.
  abbrev pub saved_world : RuntimeState → W → W
  saved_world state world = record world { checkpoints = save state world.checkpoints }

  -- The hashes of the state are those of the graph and of the contracts, or drift is allowed.
  abbrev pub is_accepted : RunContext → OrchestraGraph → RuntimeState → Bool
  is_accepted context graph state =
      (state.graph_hash == graph.content_hash && state.contract_hash == context.contract_hash)
      || context.allow_config_drift

  abbrev Outcome : Type 0
  Outcome = Result Exception (RuntimeState × W)

  abbrev outcome_of : Bool → RuntimeState → W → Outcome
  outcome_of accepted state world =
      if accepted then ok (state, world) else err checkpoint_drift_error

  abbrev checkpoint_of : Bool → RuntimeState → Result Exception (Option RuntimeState)
  checkpoint_of accepted state = if accepted then ok (some state) else err checkpoint_drift_error

  abbrev resume_with :
      RunContext
      → OrchestraGraph
      → Dict String ArtifactEnvelope
      → W
      → Result Exception (Option RuntimeState)
      → Outcome
  resume_with context graph slots world loaded = loaded >>= λ (checkpoint : Option RuntimeState).
      resume store validate execute_safely context graph slots checkpoint world

  resumed :
      (context : RunContext) (graph : OrchestraGraph) (slots : Dict String ArtifactEnvelope)
      (state : RuntimeState) (world : W) (accepted : Bool)
      → get_all store validate execute_safely
          (referenced store validate execute_safely state)
          world.artifacts
        ≡ ok tt
      → resume_with context graph slots world (checkpoint_of accepted state)
        ≡ outcome_of accepted state world
  unfolding resume
  resumed context graph slots state world true readable = rw readable refl
  resumed context graph slots state world false readable = refl

  run_outcome : ℕ → ℕ → OrchestraGraph → Outcome → Option Outcome
  run_outcome fuel limit graph (err e) = some (err e)
  run_outcome fuel limit graph (ok (state, w)) =
      run_from store validate execute_safely fuel limit graph state w

  execute-run_outcome :
      (fuel : ℕ) (context : RunContext) (graph : OrchestraGraph)
      (slots : Dict String ArtifactEnvelope) (world : W)
      → execute store validate execute_safely fuel context graph slots world
        ≡ run_outcome fuel context.max_parallel_nodes_per_task graph
            (prepare store validate execute_safely context graph slots world)
  unfolding execute run_outcome
  execute-run_outcome fuel context graph slots world =
      at (prepare store validate execute_safely context graph slots world)
    where
      at :
          (prepared : Outcome)
          → (elim prepared [
            | err e ↦ some (err e)
            | ok (state, w) ↦
                run_from store validate execute_safely fuel context.max_parallel_nodes_per_task
                  graph state w
          ])
            ≡ run_outcome fuel context.max_parallel_nodes_per_task graph prepared
      at (err e) = refl
      at (ok (state, w)) = refl

  ended :
      (fuel limit : ℕ) (graph : OrchestraGraph) (accepted : Bool) (state : RuntimeState) (world : W)
      → state.frozen ≡ true
      → run_outcome fuel limit graph (outcome_of accepted state world)
        ≡ some (outcome_of accepted state world)
  unfolding run_outcome run_from
  ended fuel limit graph true state world frozen = rw frozen refl
  ended fuel limit graph false state world frozen = refl

  -- Where a frozen state is saved, its text parses back to it, and the artifacts that it refers to can
  -- be read, a run of its task gives that state and changes nothing, on any fuel; but where a hash
  -- differs and drift is not allowed, it fails with an error of drift.
  pub execute-save :
      (fuel : ℕ) (context : RunContext) (graph : OrchestraGraph)
      (slots : Dict String ArtifactEnvelope) (state : RuntimeState) (world : W)
      → context.task_id ≡ state.task_id
      → state.frozen ≡ true
      → world.checkpoints.parse (world.checkpoints.dump state) ≡ some state
      → get_all store validate execute_safely
          (referenced store validate execute_safely state)
          world.artifacts
        ≡ ok tt
      → execute store validate execute_safely fuel context graph slots (saved_world state world)
        ≡ some (
            if is_accepted context graph state
            then ok (state, saved_world state world)
            else err checkpoint_drift_error)
  unfolding prepare
  execute-save fuel context graph slots state world same frozen round readable =
      let w = saved_world state world in
      let loaded : load context.task_id graph.content_hash context.contract_hash
            context.allow_config_drift w.checkpoints
          ≡ checkpoint_of (is_accepted context graph state) state =
        ap
          (λ id.
            load id graph.content_hash context.contract_hash context.allow_config_drift
              w.checkpoints)
          same
        ∙ load-save state graph.content_hash context.contract_hash context.allow_config_drift
            world.checkpoints round in
      execute-run_outcome fuel context graph slots w
      ∙ ap (run_outcome fuel context.max_parallel_nodes_per_task graph) (
          ap (resume_with context graph slots w) loaded
          ∙ resumed context graph slots state w (is_accepted context graph state) readable)
      ∙ ended fuel context.max_parallel_nodes_per_task graph (is_accepted context graph state) state
          w frozen

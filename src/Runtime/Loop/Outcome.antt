-- ===== src/Runtime/Loop/Outcome.antt =====
-- src/orchestra/runtime/native_async.py: what NativeAsyncRuntime.execute returns.
use mathlib.Core.Option
use codename_madagascar.Prelude.{
  ℕ, ◌≤◌, ◌<◌, ◌≡◌, refl, sym, ap, ◌∙◌, subst, String, Bool, true, false, Option, none, some, List,
  [], ◌∷◌, Dict, values, is_some, length, Result, ok, err, >>=-eq-ok, ok-injective, ◌>>=◌,
  if◌then◌else◌, string_eq, arith, inl, inr, ◌⊎◌,
}
use codename_madagascar.Exceptions.{Exception}
use codename_madagascar.Ir.Nodes.{NodeSpec}
use codename_madagascar.Ir.Graph.{OrchestraGraph}
use codename_madagascar.Ir.Artifacts.{ArtifactEnvelope}
use codename_madagascar.Storage.Interface.{ArtifactStore}
use codename_madagascar.Runtime.State.{RuntimeState, NodeExecutionResult}
use codename_madagascar.Runtime.Committer.Progress.{IsConsistent}
use codename_madagascar.Runtime.Loop.Round.{World}
use codename_madagascar.Runtime.Loop.Waves.{pending_count}
use codename_madagascar.Runtime.Checkpoint.{IsStored, load, load-IsStored}
use codename_madagascar.Runtime.Loop.Execute.{
  RunContext, run_from, prepare, execute, resume, initial_state, frozen_event, put_all, get_all,
  referenced,
}
use codename_madagascar.Runtime.Loop.Ending.{run_loop_total}
use codename_madagascar.Runtime.Loop.Finished.{run_loop-IsFinished}

pending_count-length :
    (nodes : List NodeSpec) (state : RuntimeState) → pending_count nodes state ≤ length nodes
pending_count-length [] state = omega arith
pending_count-length (node ∷ nodes) state = ground (arith, pending_count-length nodes state)

module _ (store : ArtifactStore) (validate : ArtifactEnvelope → Result Exception (Unit {0}))
    (execute_safely : NodeSpec
      → Dict String ArtifactEnvelope
      → Result Exception NodeExecutionResult)
    (graph : OrchestraGraph) where
  abbrev W : Type 0
  W = World store validate execute_safely

  abbrev Outcome : Type 0
  Outcome = Result Exception (RuntimeState × W)

  run_from_total :
      (fuel max_parallel : ℕ) (state : RuntimeState) (world : W)
      → length graph.nodes < fuel
      → (outcome : Outcome) × (run_from store validate execute_safely fuel max_parallel graph state
            world
          ≡ some outcome)
  unfolding run_from
  run_from_total fuel max_parallel state world enough =
      let (outcome, ends) =
        run_loop_total store validate execute_safely graph fuel max_parallel state world
          (ground (arith, pending_count-length graph.nodes state)) in
      either_way state.frozen (ok (state, world)) _ outcome ends
    where
      either_way :
          (frozen : Bool) (now : Outcome) (loop : Option Outcome) (outcome : Outcome)
          → loop ≡ some outcome
          → (last : Outcome) × ((if frozen
                then some now
                else Option.map
                    (λ outcome. outcome >>= λ r. ok (frozen_event store validate execute_safely r))
                    loop)
              ≡ some last)
      either_way true now loop outcome h = (now, refl)
      either_way false now loop outcome h = (
        _,
        ap
            (Option.map
              (λ outcome. outcome >>= λ r. ok (frozen_event store validate execute_safely r)))
            h,
      )

  -- With more fuel than the graph has nodes, the run ends, with a result or an exception, from any
  -- store, event log and checkpoints and whatever the executors answer.
  pub execute_total :
      (fuel : ℕ) (context : RunContext) (slots : Dict String ArtifactEnvelope) (world : W)
      → length graph.nodes < fuel
      → (outcome : Outcome) × (execute store validate execute_safely fuel context graph slots world
          ≡ some outcome)
  unfolding execute
  execute_total fuel context slots world enough =
      either_way (prepare store validate execute_safely context graph slots world)
    where
      either_way :
          (prepared : Outcome)
          → (outcome : Outcome) × ((elim prepared [
            | err e ↦ some (err e)
            | ok (state, w) ↦
                run_from store validate execute_safely fuel context.max_parallel_nodes_per_task
                  graph state w
          ])
              ≡ some outcome)
      either_way (err e) = (err e, refl)
      either_way (ok (state, w)) =
          run_from_total fuel context.max_parallel_nodes_per_task state w enough

  resume-IsConsistent :
      (context : RunContext) (slots : Dict String ArtifactEnvelope)
      (checkpoint : Option RuntimeState) (world : W) {s : RuntimeState} {w : W}
      → ((state : RuntimeState) → checkpoint ≡ some state → IsConsistent state)
      → resume store validate execute_safely context graph slots checkpoint world ≡ ok (s, w)
      → IsConsistent s
  unfolding resume initial_state
  resume-IsConsistent context slots none world consistent h =
      let (artifacts, _, h₁) =
        >>=-eq-ok (put_all store validate execute_safely (values slots) world.artifacts) _ h in
      subst (λ (q : RuntimeState × W). IsConsistent q.0) (ok-injective h₁) refl
  resume-IsConsistent context slots (some state) world consistent h =
      let (u, _, h₁) =
        >>=-eq-ok
          (get_all store validate execute_safely (referenced store validate execute_safely state)
            world.artifacts)
          _ h in
      subst (λ (q : RuntimeState × W). IsConsistent q.0) (ok-injective h₁) (consistent state refl)

  prepare-IsConsistent :
      (context : RunContext) (slots : Dict String ArtifactEnvelope) (world : W) {s : RuntimeState}
      {w : W}
      → ((state : RuntimeState)
          → IsStored context.task_id state world.checkpoints
          → IsConsistent state)
      → prepare store validate execute_safely context graph slots world ≡ ok (s, w)
      → IsConsistent s
  unfolding prepare
  prepare-IsConsistent context slots world consistent h =
      let (checkpoint, loaded, h₁) =
        >>=-eq-ok
          (load context.task_id graph.content_hash context.contract_hash context.allow_config_drift
            world.checkpoints)
          _ h in
      resume-IsConsistent context slots checkpoint world
        (λ state e. consistent state (load-IsStored _ _ _ _ world.checkpoints (loaded ∙ ap ok e)))
        h₁

  abbrev IsEnded : RuntimeState → Type 0
  IsEnded s = (s.frozen ≡ true) × (is_some s.final_output_artifact_id ≡ true)

  abbrev state_of : RuntimeState → Option Outcome → RuntimeState
  state_of t none = t
  state_of t (some (err e)) = t
  state_of t (some (ok (s, w))) = s

  -- A run that returns is the frozen state it began with, or the end of the loop.
  run_from-cases :
      (frozen : Bool) (now : Outcome) (loop : Option Outcome) {s : RuntimeState} {w : W}
      → (if frozen
          then some now
          else Option.map
              (λ outcome. outcome >>= λ r. ok (frozen_event store validate execute_safely r))
              loop)
        ≡ some (ok (s, w))
      → ((frozen ≡ true) × (now ≡ ok (s, w)))
        ⊎ ((frozen ≡ false) × (t : RuntimeState) × (v : W) × (loop ≡ some (ok (t, v))) × (t ≡ s))
  unfolding frozen_event
  run_from-cases true now loop h = inl (refl, ground arith)
  run_from-cases false now none h = absurd (ground arith)
  run_from-cases false now (some (err e)) h = absurd (ground arith)
  run_from-cases false now (some (ok (t, v))) h = inr (refl, t, v, refl, ap (state_of t) h)

  run_from-IsFrozen :
      (fuel max_parallel : ℕ) (state : RuntimeState) (world : W) {s : RuntimeState} {w : W}
      → IsConsistent state
      → run_from store validate execute_safely fuel max_parallel graph state world
        ≡ some (ok (s, w))
      → (s.frozen ≡ true) × (is_some s.final_output_artifact_id ≡ true)
  unfolding run_from
  run_from-IsFrozen fuel max_parallel state world {s} {w} consistent h =
      elim (run_from-cases state.frozen (ok (state, world)) _ h) [
        | inl (frozen, now) ↦
            let same = ap (λ (q : RuntimeState × W). q.0) (ok-injective now) in
            subst IsEnded same (frozen, sym consistent ∙ frozen)
        | inr (open_run, t, v, ended, same) ↦
            let finished =
              run_loop-IsFinished store validate execute_safely graph fuel max_parallel state world
                t v consistent open_run ended in
            subst IsEnded same (finished.frozen, finished.final)
      ]

  -- A run that returns has frozen a final output, given that the checkpoint it may start from is
  -- frozen exactly when it has a final output.
  pub execute-IsFrozen :
      (fuel : ℕ) (context : RunContext) (slots : Dict String ArtifactEnvelope) (world : W)
      (s : RuntimeState) (w : W)
      → ((state : RuntimeState)
          → IsStored context.task_id state world.checkpoints
          → IsConsistent state)
      → execute store validate execute_safely fuel context graph slots world ≡ some (ok (s, w))
      → (s.frozen ≡ true) × (is_some s.final_output_artifact_id ≡ true)
  unfolding execute
  execute-IsFrozen fuel context slots world s w consistent h =
      either_way (prepare store validate execute_safely context graph slots world) refl h
    where
      either_way :
          (prepared : Outcome)
          → prepare store validate execute_safely context graph slots world ≡ prepared
          → (elim prepared [
            | err e ↦ some (err e)
            | ok (state, w) ↦
                run_from store validate execute_safely fuel context.max_parallel_nodes_per_task
                  graph state w
          ])
            ≡ some (ok (s, w))
          → (s.frozen ≡ true) × (is_some s.final_output_artifact_id ≡ true)
      either_way (err e) start k = absurd (ground arith)
      either_way (ok (state, v)) start k =
          run_from-IsFrozen fuel context.max_parallel_nodes_per_task state v
            (prepare-IsConsistent context slots world consistent start) k

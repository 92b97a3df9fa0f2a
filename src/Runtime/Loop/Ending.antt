-- ===== src/Runtime/Loop/Ending.antt =====
-- src/orchestra/runtime/native_async.py: the fuel of the loop.
use codename_madagascar.Prelude.{
  ℕ, zero, suc, ◌<◌, ◌≡◌, refl, ap, ◌∙◌, String, Bool, true, false, Option, some, Dict, Result, ok,
  err, string_eq, arith,
}
use codename_madagascar.Exceptions.{Exception}
use codename_madagascar.Ir.Nodes.{NodeSpec}
use codename_madagascar.Ir.Graph.{OrchestraGraph}
use codename_madagascar.Ir.Artifacts.{ArtifactEnvelope}
use codename_madagascar.Storage.Interface.{ArtifactStore}
use codename_madagascar.Runtime.State.{RuntimeState, NodeExecutionResult}
use codename_madagascar.Runtime.Loop.Round.{World, round}
use codename_madagascar.Runtime.Loop.Execute.{run_loop}
use codename_madagascar.Runtime.Loop.Waves.{pending_count}
use codename_madagascar.Runtime.Loop.Rounds.{finalized, advanced, round-IsRound}

module _ (store : ArtifactStore) (validate : ArtifactEnvelope → Result Exception (Unit {0}))
    (execute_safely : NodeSpec
      → Dict String ArtifactEnvelope
      → Result Exception NodeExecutionResult)
    (graph : OrchestraGraph) where
  abbrev W : Type 0
  W = World store validate execute_safely

  abbrev pub loop : ℕ → ℕ → RuntimeState → W → Option (Result Exception (RuntimeState × W))
  loop fuel max_parallel state world =
      run_loop store validate execute_safely fuel max_parallel graph state world

  abbrev pub loop_step :
      (RuntimeState → W → Option (Result Exception (RuntimeState × W)))
      → Result Exception (RuntimeState × W)
      → Bool
      → Result Exception (RuntimeState × W)
      → Option (Result Exception (RuntimeState × W))
  loop_step next now true r = some now
  loop_step next now false (err e) = some (err e)
  loop_step next now false (ok (s, w)) = next s w

  pub run_loop-suc :
      (fuel max_parallel : ℕ) (state : RuntimeState) (world : W)
      → loop (suc fuel) max_parallel state world
        ≡ loop_step
            (loop fuel max_parallel)
            (ok (state, world))
            state.frozen
            (round store validate execute_safely max_parallel graph state world)
  unfolding run_loop
  run_loop-suc fuel max_parallel state world =
      cases state.frozen (round store validate execute_safely max_parallel graph state world)
    where
      cases :
          (frozen : Bool) (r : Result Exception (RuntimeState × W))
          → (elim frozen [
            | true ↦ some (ok (state, world))
            | false ↦ elim r [ err e ↦ some (err e) | ok (s, w) ↦ loop fuel max_parallel s w ]
          ])
            ≡ loop_step (loop fuel max_parallel) (ok (state, world)) frozen r
      cases true r = refl
      cases false (err e) = refl
      cases false (ok (s, w)) = refl

  pub loop_frozen :
      (fuel max_parallel : ℕ) (state : RuntimeState) (world : W)
      → state.frozen ≡ true
      → loop fuel max_parallel state world ≡ some (ok (state, world))
  unfolding run_loop
  loop_frozen zero max_parallel state world h = simp h
  loop_frozen (suc fuel) max_parallel state world h =
      run_loop-suc fuel max_parallel state world
      ∙ ap
          (λ (b : Bool).
            loop_step (loop fuel max_parallel) (ok (state, world)) b
              (round store validate execute_safely max_parallel graph state world))
          h

  step_total :
      (next : RuntimeState → W → Option (Result Exception (RuntimeState × W)))
      (now : Result Exception (RuntimeState × W)) (frozen : Bool)
      (r : Result Exception (RuntimeState × W))
      → ((s : RuntimeState) (w : W)
          → r ≡ ok (s, w)
          → (outcome : Result Exception (RuntimeState × W)) × (next s w ≡ some outcome))
      → (outcome : Result Exception (RuntimeState × W)) × (loop_step next now frozen r
          ≡ some outcome)
  step_total next now true r h = (now, refl)
  step_total next now false (err e) h = (err e, refl)
  step_total next now false (ok (s, w)) h = h s w refl

  -- With more fuel than the state has pending nodes, the loop ends.
  pub run_loop_total :
      (fuel max_parallel : ℕ) (state : RuntimeState) (world : W)
      → pending_count graph.nodes state < fuel
      → (outcome : Result Exception (RuntimeState × W)) × (run_loop store validate execute_safely
            fuel max_parallel graph state world
          ≡ some outcome)
  run_loop_total zero max_parallel state world enough = absurd (omega arith)
  run_loop_total (suc fuel) max_parallel state world enough =
      let (outcome, ends) =
        step_total (loop fuel max_parallel) (ok (state, world)) state.frozen
          (round store validate execute_safely max_parallel graph state world)
          (λ s w h.
            elim (round-IsRound store validate execute_safely graph max_parallel state world h) [
              | finalized frozen final ↦ (ok (s, w), loop_frozen fuel max_parallel s w frozen)
              | advanced progress fewer saved ↦ run_loop_total fuel max_parallel s w (omega arith)
            ]) in
      (outcome, run_loop-suc fuel max_parallel state world ∙ ends)

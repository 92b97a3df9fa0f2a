-- ===== src/Runtime/Loop/Finished.antt =====
-- src/orchestra/runtime/native_async.py: the state that a run ends in.
use codename_madagascar.Prelude.{
  ℕ, zero, suc, ◌≡◌, refl, sym, ◌∙◌, subst, String, Bool, true, false, Option, none, some, Dict,
  is_some, Result, ok, err, if◌then◌else◌, string_eq, arith, Bool-cases, inl, inr,
}
use codename_madagascar.Exceptions.{Exception}
use codename_madagascar.Ir.Nodes.{NodeSpec}
use codename_madagascar.Ir.Graph.{OrchestraGraph}
use codename_madagascar.Ir.Artifacts.{ArtifactEnvelope}
use codename_madagascar.Storage.Interface.{ArtifactStore}
use codename_madagascar.Runtime.Checkpoint.{IsSaved}
use codename_madagascar.Runtime.State.{RuntimeState, NodeExecutionResult}
use codename_madagascar.Runtime.Committer.Progress.{Progress, Progress-trans, IsConsistent}
use codename_madagascar.Runtime.Loop.Round.{World}
use codename_madagascar.Runtime.Loop.Execute.{run_loop}
use codename_madagascar.Runtime.Loop.Rounds.{finalized, advanced, round-IsRound}
use codename_madagascar.Runtime.Loop.Ending.{loop, loop_step, run_loop-suc, loop_frozen}

module _ (store : ArtifactStore) (validate : ArtifactEnvelope → Result Exception (Unit {0}))
    (execute_safely : NodeSpec
      → Dict String ArtifactEnvelope
      → Result Exception NodeExecutionResult)
    (graph : OrchestraGraph) where
  abbrev W : Type 0
  W = World store validate execute_safely

  -- What holds of the result of a run: it is frozen with its final output, and its checkpoint
  -- holds the text of the state.
  pub record IsFinished (state s : RuntimeState) (w : W) : Type 0 where
    pub progress : Progress state s
    pub frozen : s.frozen ≡ true
    pub final : is_some s.final_output_artifact_id ≡ true
    pub saved : IsSaved s w.checkpoints

  open_run_goes_on :
      (next : RuntimeState → W → Option (Result Exception (RuntimeState × W)))
      (now : Result Exception (RuntimeState × W)) (frozen : Bool)
      (r : Result Exception (RuntimeState × W)) {outcome : RuntimeState × W}
      → frozen ≡ false
      → loop_step store validate execute_safely graph next now frozen r ≡ some (ok outcome)
      → (s : RuntimeState) × (w : W) × (r ≡ ok (s, w)) × (next s w ≡ some (ok outcome))
  open_run_goes_on next now true r open_run h = absurd (ground arith)
  open_run_goes_on next now false (err e) open_run h = absurd (ground arith)
  open_run_goes_on next now false (ok (s, w)) open_run h = (s, w, refl, h)

  not_open : (frozen final : Bool) → frozen ≡ final → frozen ≡ false → final ≡ true → ⊥
  not_open frozen final e h k = ground arith

  some_ok-injective :
      {x y : RuntimeState × W}
      → ◌≡◌ {A = Option (Result Exception (RuntimeState × W))} (some (ok x)) (some (ok y))
      → x ≡ y
  some_ok-injective e = ground arith

  no_fuel :
      (frozen : Bool) (now : Result Exception (RuntimeState × W))
      {outcome : Result Exception (RuntimeState × W)}
      → frozen ≡ false
      → (if frozen then some now else none) ≡ some outcome
      → ⊥
  no_fuel frozen now h k = ground arith

  -- A run that starts open, and frozen exactly when it has a final output, and that ends without an
  -- error, ends frozen, with a final output, and with its last state as the checkpoint of its task.
  pub run_loop-IsFinished :
      (fuel max_parallel : ℕ) (state : RuntimeState) (world : W) (s : RuntimeState) (w : W)
      → IsConsistent state
      → state.frozen ≡ false
      → run_loop store validate execute_safely fuel max_parallel graph state world
        ≡ some (ok (s, w))
      → IsFinished state s w
  unfolding run_loop
  run_loop-IsFinished zero max_parallel state world s w consistent open_run h =
      absurd (no_fuel state.frozen (ok (state, world)) open_run h)
  run_loop-IsFinished (suc fuel) max_parallel state world s w consistent open_run h =
      let (t, v, one, rest) =
        open_run_goes_on (loop store validate execute_safely graph fuel max_parallel)
          (ok (state, world)) state.frozen _ open_run
          (sym (run_loop-suc store validate execute_safely graph fuel max_parallel state world)
            ∙ h) in
      elim (round-IsRound store validate execute_safely graph max_parallel state world one) [
        | finalized frozen final ↦ absurd (not_open state.frozen _ consistent open_run final)
        | advanced progress fewer saved ↦ elim (Bool-cases t.frozen) [
          | inl frozen ↦
              let same = some_ok-injective (
                sym (loop_frozen store validate execute_safely graph fuel max_parallel t v frozen)
                ∙ rest) in
              subst (λ (q : RuntimeState × W). IsFinished state q.0 q.1) same
                (record {
                  progress = progress;
                  frozen = frozen;
                  final = sym (progress.consistent consistent) ∙ frozen;
                  saved = saved;
                })
          | inr still_open ↦
              let finished =
                run_loop-IsFinished fuel max_parallel t v s w (progress.consistent consistent)
                  still_open rest in
              record {
                progress = Progress-trans state t s progress finished.progress;
                frozen = finished.frozen;
                final = finished.final;
                saved = finished.saved;
              }
        ]
      ]

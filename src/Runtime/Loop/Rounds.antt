-- ===== src/Runtime/Loop/Rounds.antt =====
-- src/orchestra/runtime/native_async.py: what one round does to the run.
use codename_madagascar.Prelude.{
  ℕ, ◌<◌, ◌≡◌, refl, sym, ap, ◌∙◌, subst, String, true, List, [], ◌∷◌, Dict, is_some, All, Result,
  ok, >>=-eq-ok, ok-injective, if◌then◌else◌, string_eq, arith, Bool-cases, inl, inr,
}
use codename_madagascar.Exceptions.{Exception}
use codename_madagascar.Ir.Nodes.{NodeSpec}
use codename_madagascar.Ir.Graph.{OrchestraGraph}
use codename_madagascar.Ir.Artifacts.{ArtifactEnvelope}
use codename_madagascar.Storage.Interface.{ArtifactStore}
use codename_madagascar.Runtime.Checkpoint.{IsSaved}
use codename_madagascar.Runtime.State.{RuntimeState, NodeExecutionResult}
use codename_madagascar.Runtime.Scheduler.{find_ready_nodes, impossible_nodes, can_finalize}
use codename_madagascar.Runtime.Scheduler.Ready.{IsRunnable, find_ready_nodes-IsRunnable}
use codename_madagascar.Runtime.Committer.{skip_nodes}
use codename_madagascar.Runtime.Committer.Progress.{
  Progress, Progress-trans, pending_at, pending_status,
}
use codename_madagascar.Runtime.Committer.Freezing.{skip_nodes-Progress}
use codename_madagascar.Runtime.Loop.Round.{
  World, skip_impossible, run_wave, finalize, round, is_nil,
}
use codename_madagascar.Runtime.Loop.Waves.{
  pending_count, pending_count-le, pending_count-lt, IsWave, run_wave-IsWave,
}

skip_nodes-final :
    (ids : List String) (s : RuntimeState)
    → (skip_nodes ids s).final_output_artifact_id ≡ s.final_output_artifact_id
unfolding skip_nodes
skip_nodes-final [] s = refl
skip_nodes-final (id ∷ ids) s = skip_nodes-final ids _

module _ (store : ArtifactStore) (validate : ArtifactEnvelope → Result Exception (Unit {0}))
    (execute_safely : NodeSpec
      → Dict String ArtifactEnvelope
      → Result Exception NodeExecutionResult)
    (graph : OrchestraGraph) where
  abbrev W : Type 0
  W = World store validate execute_safely

  -- A round either ends the run where it has a final output, or runs a wave, after which fewer
  -- nodes are pending and the checkpoint holds the new state.
  pub data IsRound (state s : RuntimeState) (w : W) : Type 0 where
    finalized : s.frozen ≡ true → is_some state.final_output_artifact_id ≡ true → IsRound state s w
    advanced :
        Progress state s
        → pending_count graph.nodes s < pending_count graph.nodes state
        → IsSaved s w.checkpoints
        → IsRound state s w

  wave-IsRound :
      (state skipped_state s : RuntimeState) (w : W) (first : String)
      → Progress state skipped_state
      → IsRunnable graph skipped_state first
      → IsWave store validate execute_safely graph first skipped_state s w
      → IsRound state s w
  wave-IsRound state skipped_state s w first earlier runnable wave =
      let waiting = ap pending_status runnable.is_waiting in
      advanced (Progress-trans state skipped_state s earlier wave.progress)
        (ground (
          arith,
          pending_count-le graph.nodes state skipped_state earlier,
          pending_count-lt graph.nodes runnable.node skipped_state s wave.progress runnable.planned
              (ap (pending_at skipped_state) runnable.named ∙ waiting)
              (ap (pending_at s) runnable.named ∙ wave.first_done),
        ))
        wave.saved

  finalize-IsRound :
      (ids : List String) (state : RuntimeState) (world : W) {s : RuntimeState} {w : W}
      → finalize store validate execute_safely (skip_nodes ids state) world ≡ ok (s, w)
      → IsRound state s w
  unfolding finalize
  finalize-IsRound ids state world {s} {w} h =
      elim (Bool-cases (can_finalize (skip_nodes ids state))) [
        | inl final ↦
            subst (λ (q : RuntimeState × W). IsRound state q.0 q.1) (ok-injective (rw final at h))
              (finalized refl (sym (ap is_some (skip_nodes-final ids state)) ∙ final))
        | inr open_run ↦ absurd (ground (arith, rw open_run at h))
      ]

  pub round-IsRound :
      (max_parallel : ℕ) (state : RuntimeState) (world : W) {s : RuntimeState} {w : W}
      → round store validate execute_safely max_parallel graph state world ≡ ok (s, w)
      → IsRound state s w
  unfolding round skip_impossible
  round-IsRound max_parallel state world {s} {w} h =
      let ((skipped_state, w₁), skipping, h₁) =
        >>=-eq-ok (skip_impossible store validate execute_safely graph state world) _ h in
      let (impossible, _, skipped) = >>=-eq-ok (impossible_nodes graph state) _ skipping in
      let same = ap (λ (q : RuntimeState × W). q.0) (ok-injective skipped) in
      let (ready, found, h₂) = >>=-eq-ok (find_ready_nodes max_parallel graph skipped_state) _ h₁ in
      either_way impossible skipped_state w₁ same ready
        (find_ready_nodes-IsRunnable max_parallel graph skipped_state ready found).1 h₂
    where
      either_way :
          (ids : List String) (t : RuntimeState) (v : W)
          → skip_nodes ids state ≡ t
          → (ready : List String) → All (IsRunnable graph t) ready
          → (if is_nil store validate execute_safely ready
              then finalize store validate execute_safely t v
              else run_wave store validate execute_safely graph ready t v)
            ≡ ok (s, w)
          → IsRound state s w
      either_way ids t v same [] runnable k =
          finalize-IsRound ids state v
            (ap (λ (q : RuntimeState). finalize store validate execute_safely q v) same ∙ k)
      either_way ids t v same (first ∷ ready) runnable k =
          wave-IsRound state t s w first
            (subst (Progress state) same (skip_nodes-Progress ids state)) runnable.0
            (run_wave-IsWave store validate execute_safely graph first ready t v k)

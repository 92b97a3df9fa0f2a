-- ===== src/Runtime/Loop/Waves.antt =====
-- src/orchestra/runtime/native_async.py: the count of pending nodes, and the state after a wave.
use mathlib.Core.List.{Memᴰ}
use codename_madagascar.Prelude.{
  ℕ, ◌+◌, ◌≤◌, ◌<◌, ◌≡◌, refl, ap, subst, String, true, false, none, List, [], ◌∷◌, Dict,
  lookup-insert_self, Result, ok, >>=-eq-ok, ok-injective, if◌then◌else◌, string_eq, arith,
}
use codename_madagascar.Exceptions.{Exception}
use codename_madagascar.Ir.Nodes.{NodeSpec}
use codename_madagascar.Ir.Graph.{OrchestraGraph}
use codename_madagascar.Ir.Artifacts.{ArtifactEnvelope}
use codename_madagascar.Storage.Interface.{ArtifactStore}
use codename_madagascar.Runtime.State.{RuntimeState, NodeExecutionResult, running}
use codename_madagascar.Runtime.Committer.{set_status, commit_wave}
use codename_madagascar.Runtime.Committer.Progress.{
  Progress, Progress-refl, Progress-trans, pending_at, set_status-Progress,
}
use codename_madagascar.Runtime.Committer.Freezing.{commit_wave-Progress}
use codename_madagascar.Runtime.Checkpoint.{IsSaved, save}
use codename_madagascar.Runtime.Loop.Events.{event, wave_started}
use codename_madagascar.Runtime.Loop.Round.{
  World, emit, node_map_of, load_inputs, start_nodes, run_nodes, run_wave,
}

-- How many nodes of the graph have not been started or skipped.
abbrev pub pending_count : List NodeSpec → RuntimeState → ℕ
pending_count [] state = 0
pending_count (node ∷ nodes) state =
    (if pending_at state node.node_id then 1 else 0) + pending_count nodes state

pub pending_count-le :
    (nodes : List NodeSpec) (s t : RuntimeState)
    → Progress s t
    → pending_count nodes t ≤ pending_count nodes s
pending_count-le [] s t p = omega arith
pending_count-le (node ∷ nodes) s t p =
    ground (arith, pending_count-le nodes s t p, p.no_new_pending node.node_id)

pub pending_count-lt :
    (nodes : List NodeSpec) (node : NodeSpec) (s t : RuntimeState)
    → Progress s t
    → Memᴰ node nodes
    → pending_at s node.node_id ≡ true
    → pending_at t node.node_id ≡ false
    → pending_count nodes t < pending_count nodes s
pending_count-lt [] node s t p m h k = elim m [ ]
pending_count-lt (n ∷ nodes) node s t p (Memᴰ.head e) h k =
    let same = ap (λ (x : NodeSpec). x.node_id) e in
    ground (arith, pending_count-le nodes s t p, ap (pending_at s) same, ap (pending_at t) same)
pending_count-lt (n ∷ nodes) node s t p (Memᴰ.tail m) h k =
    ground (arith, pending_count-lt nodes node s t p m h k, p.no_new_pending n.node_id)

module _ (store : ArtifactStore) (validate : ArtifactEnvelope → Result Exception (Unit {0}))
    (execute_safely : NodeSpec
      → Dict String ArtifactEnvelope
      → Result Exception NodeExecutionResult)
    (graph : OrchestraGraph) where
  abbrev W : Type 0
  W = World store validate execute_safely

  start_nodes-Progress :
      (ready : List String) (state : RuntimeState) (world : W)
      {inputs : Dict String (Dict String ArtifactEnvelope)} {s : RuntimeState} {w : W}
      → start_nodes store validate execute_safely graph ready state world ≡ ok (inputs, s, w)
      → Progress state s
  unfolding start_nodes
  start_nodes-Progress [] state world h =
      subst
        (λ (r : Dict String (Dict String ArtifactEnvelope) × RuntimeState × W). Progress state r.1)
        (ok-injective h) (Progress-refl state)
  start_nodes-Progress (id ∷ ready) state world {s = s} h =
      let started = set_status id running state in
      let (inputs, _, h₁) =
        >>=-eq-ok (load_inputs store validate execute_safely graph started id world.artifacts) _
          h in
      let (r, rest, h₂) =
        >>=-eq-ok (start_nodes store validate execute_safely graph ready started _) _ h₁ in
      Progress-trans state started s (set_status-Progress id running state refl) (
        subst
          (λ (q : Dict String (Dict String ArtifactEnvelope) × RuntimeState × W).
            Progress started q.1)
          (ok-injective h₂) (start_nodes-Progress ready started _ rest))

  start_nodes_first :
      (id : String) (ready : List String) (state : RuntimeState) (world : W)
      {inputs : Dict String (Dict String ArtifactEnvelope)} {s : RuntimeState} {w : W}
      → start_nodes store validate execute_safely graph (id ∷ ready) state world ≡ ok (inputs, s, w)
      → Progress (set_status id running state) s
  unfolding start_nodes
  start_nodes_first id ready state world h =
      let started = set_status id running state in
      let (inputs, _, h₁) =
        >>=-eq-ok (load_inputs store validate execute_safely graph started id world.artifacts) _
          h in
      let (r, rest, h₂) =
        >>=-eq-ok (start_nodes store validate execute_safely graph ready started _) _ h₁ in
      subst
        (λ (q : Dict String (Dict String ArtifactEnvelope) × RuntimeState × W).
          Progress started q.1)
        (ok-injective h₂) (start_nodes-Progress ready started _ rest)

  -- A wave moves the run forward, its first node is no longer pending, and its checkpoint holds
  -- the new state.
  pub record IsWave (first : String) (state s : RuntimeState) (w : W) : Type 0 where
    pub progress : Progress state s
    pub first_done : pending_at s first ≡ false
    pub saved : IsSaved s w.checkpoints

  no_longer_pending :
      (first : String) (state s : RuntimeState)
      → Progress (set_status first running state) s
      → pending_at s first ≡ false
  no_longer_pending first state s p =
      ground (arith, p.no_new_pending first, lookup-insert_self first running state.node_status)

  pub run_wave-IsWave :
      (first : String) (ready : List String) (state : RuntimeState) (world : W) {s : RuntimeState}
      {w : W}
      → run_wave store validate execute_safely graph (first ∷ ready) state world ≡ ok (s, w)
      → IsWave first state s w
  unfolding run_wave save
  run_wave-IsWave first ready state world h =
      let begun =
        emit store validate execute_safely
          (event wave_started state.wave_id none [] (first ∷ ready) ∷ []) world in
      let ((inputs, running_state, started), starts, h₁) =
        >>=-eq-ok (start_nodes store validate execute_safely graph (first ∷ ready) state begun) _
          h in
      let (results, _, h₂) =
        >>=-eq-ok
          (run_nodes store validate execute_safely (node_map_of store validate execute_safely graph)
            inputs)
          _ h₁ in
      let ((c, artifacts), committed, h₃) =
        >>=-eq-ok (commit_wave store validate graph running_state results started.artifacts) _ h₂ in
      let first_started = start_nodes_first first ready state begun starts in
      let merged =
        commit_wave-Progress store validate graph running_state results started.artifacts artifacts
          c committed in
      subst (λ (q : RuntimeState × W). IsWave first state q.0 q.1) (ok-injective h₃)
        (record {
          progress =
              Progress-trans state running_state c.state
                (start_nodes-Progress (first ∷ ready) state begun starts) merged;
          first_done = no_longer_pending first state c.state (
              Progress-trans (set_status first running state) running_state c.state first_started
                merged);
          saved =
              lookup-insert_self c.state.task_id (started.checkpoints.dump c.state)
                started.checkpoints.files;
        })

-- ===== src/Runtime/Committer/Freezing.antt =====
-- src/orchestra/runtime/committer.py: how a commit may change the state.
use codename_madagascar.Prelude.Sorting.{sort_by}
use codename_madagascar.Prelude.{
  ◌+◌, String, Bool, true, false, not, ◌&&◌, Option, none, some, List, [], ◌∷◌, Dict, lookup,
  contains-set_add, Result, ok, ◌≡◌, refl, ap, subst, >>=-eq-ok, ok-injective, if◌then◌else◌, ◌==◌,
  string_eq, arith, Bool-cases, inl, inr,
}
use codename_madagascar.Exceptions.{Exception}
use codename_madagascar.Ir.Artifacts.{ArtifactEnvelope}
use codename_madagascar.Ir.Edges.{EdgeSpec, EdgeCondition}
use codename_madagascar.Ir.Graph.{OrchestraGraph}
use codename_madagascar.Storage.Interface.{ArtifactStore}
use codename_madagascar.Runtime.State.{
  RuntimeState, NodeExecutionResult, succeeded, failed, skipped,
}
use codename_madagascar.Runtime.Scheduler.{impossible_nodes}
use codename_madagascar.Runtime.Committer.{
  Commit, freeze_final, edge_enabled, switch_edge, decide_edge, decide_edges, record_success,
  record_latency, settle, commit_result, commit_results, skip_nodes, persist_results, commit_wave,
}
use codename_madagascar.Runtime.Committer.Progress.{
  Progress, Progress-refl, Progress-trans, set_status-Progress,
}

frozen_not_open : (b frozen : Bool) → (b && not frozen) ≡ true → frozen ≡ true → ⊥
frozen_not_open b frozen h k = ground arith

freeze-Progress :
    (b : Bool) (id : String) (s : RuntimeState)
    → Progress s (
        if b && not s.frozen
        then record s { final_output_artifact_id = some id; frozen = true }
        else s)
freeze-Progress b id s = elim (Bool-cases (b && not s.frozen)) [
  | inl open_run ↦ rw open_run (record {
    no_new_pending = λ j h. h;
    final_kept = λ h. absurd (frozen_not_open b s.frozen open_run h);
    consistent = λ h. refl;
    active_kept = λ j h. h;
    inactive_kept = λ j h. h;
    same_task = refl;
  })
  | inr closed ↦ rw closed (Progress-refl s)
]

pub freeze_final-Progress :
    (slot : String) (outputs : Dict String ArtifactEnvelope) (s : RuntimeState)
    → Progress s (freeze_final slot outputs s)
unfolding freeze_final
freeze_final-Progress slot [] s = Progress-refl s
freeze_final-Progress slot ((k, artifact) ∷ outputs) s =
    Progress-trans s _ _ (freeze-Progress (k == slot) artifact.artifact_id s)
      (freeze_final-Progress slot outputs _)

switch_edge-Progress :
    (id : String) (enabled : Bool) (c : Commit) → Progress c.state (switch_edge id enabled c).state
unfolding switch_edge
switch_edge-Progress id true c = record {
  no_new_pending = λ j h. h;
  final_kept = λ h. (h, refl);
  consistent = λ h. h;
  active_kept = λ j h. ground (arith, contains-set_add id j c.state.active_edges);
  inactive_kept = λ j h. h;
  same_task = refl;
}
switch_edge-Progress id false c = record {
  no_new_pending = λ j h. h;
  final_kept = λ h. (h, refl);
  consistent = λ h. h;
  active_kept = λ j h. h;
  inactive_kept = λ j h. ground (arith, contains-set_add id j c.state.inactive_edges);
  same_task = refl;
}

decide_edge-Progress :
    (result : NodeExecutionResult) (edge : EdgeSpec) (condition : Option EdgeCondition) (c : Commit)
    {c' : Commit}
    → decide_edge result edge condition c ≡ ok c'
    → Progress c.state c'.state
unfolding decide_edge
decide_edge-Progress result edge none c h =
    subst (λ (d : Commit). Progress c.state d.state) (ok-injective h) (Progress-refl c.state)
decide_edge-Progress result edge (some condition) c h =
    elim (Bool-cases (edge.source_node == result.node_id)) [
      | inl same ↦
          let decided = rw same at h in
          let (enabled, _, h₁) =
            >>=-eq-ok (edge_enabled (lookup edge.source_output result.outputs) condition) _
              decided in
          subst (λ (d : Commit). Progress c.state d.state) (ok-injective h₁)
            (switch_edge-Progress edge.edge_id enabled c)
      | inr other ↦
          subst (λ (d : Commit). Progress c.state d.state) (ok-injective (rw other at h))
            (Progress-refl c.state)
    ]

decide_edges-Progress :
    (result : NodeExecutionResult) (edges : List EdgeSpec) (c : Commit) {c' : Commit}
    → decide_edges result edges c ≡ ok c'
    → Progress c.state c'.state
unfolding decide_edges
decide_edges-Progress result [] c h =
    subst (λ (d : Commit). Progress c.state d.state) (ok-injective h) (Progress-refl c.state)
decide_edges-Progress result (edge ∷ edges) c {c'} h =
    let (next, decided, h₁) = >>=-eq-ok (decide_edge result edge edge.condition c) _ h in
    Progress-trans c.state next.state c'.state
      (decide_edge-Progress result edge edge.condition c decided)
      (decide_edges-Progress result edges next h₁)

record_success-Progress :
    (graph : OrchestraGraph) (result : NodeExecutionResult) (c : Commit)
    → Progress c.state (record_success graph result c).state
unfolding record_success
record_success-Progress graph result c =
    Progress-trans c.state _ _ (set_status-Progress result.node_id succeeded c.state refl) (
      Progress-trans _ _ _
        (record {
          no_new_pending = λ j h. h;
          final_kept = λ h. (h, refl);
          consistent = λ h. h;
          active_kept = λ j h. h;
          inactive_kept = λ j h. h;
          same_task = refl;
        })
        (freeze_final-Progress graph.final_output_slot result.outputs _))

latency-Progress :
    (result : NodeExecutionResult) (c : Commit) → Progress c.state (record_latency result c).state
latency-Progress result c = record {
  no_new_pending = λ j h. h;
  final_kept = λ h. (h, refl);
  consistent = λ h. h;
  active_kept = λ j h. h;
  inactive_kept = λ j h. h;
  same_task = refl;
}

settle-Progress :
    (success : Bool) (graph : OrchestraGraph) (result : NodeExecutionResult) (c : Commit)
    {c' : Commit}
    → settle success graph result c ≡ ok c'
    → Progress c.state c'.state
unfolding settle
settle-Progress false graph result c h =
    subst (λ (d : Commit). Progress c.state d.state) (ok-injective h)
      (set_status-Progress result.node_id failed c.state refl)
settle-Progress true graph result c {c'} h =
    Progress-trans c.state (record_success graph result c).state c'.state
      (record_success-Progress graph result c)
      (decide_edges-Progress result graph.edges (record_success graph result c) h)

commit_result-Progress :
    (graph : OrchestraGraph) (result : NodeExecutionResult) (c : Commit) {c' : Commit}
    → commit_result graph result c ≡ ok c'
    → Progress c.state c'.state
unfolding commit_result
commit_result-Progress graph result c {c'} h =
    Progress-trans c.state (record_latency result c).state c'.state (latency-Progress result c)
      (settle-Progress result.success graph result (record_latency result c) h)

pub commit_results-Progress :
    (graph : OrchestraGraph) (results : List NodeExecutionResult) (c : Commit) {c' : Commit}
    → commit_results graph results c ≡ ok c'
    → Progress c.state c'.state
unfolding commit_results
commit_results-Progress graph [] c h =
    subst (λ (d : Commit). Progress c.state d.state) (ok-injective h) (Progress-refl c.state)
commit_results-Progress graph (result ∷ results) c {c'} h =
    let (next, one, h₁) = >>=-eq-ok (commit_result graph result c) _ h in
    Progress-trans c.state next.state c'.state (commit_result-Progress graph result c one)
      (commit_results-Progress graph results next h₁)

pub skip_nodes-Progress : (ids : List String) (s : RuntimeState) → Progress s (skip_nodes ids s)
unfolding skip_nodes
skip_nodes-Progress [] s = Progress-refl s
skip_nodes-Progress (id ∷ ids) s =
    Progress-trans s _ _ (set_status-Progress id skipped s refl) (skip_nodes-Progress ids _)

counted-Progress :
    (s : RuntimeState)
    → Progress s (record s { wave_id = s.wave_id + 1; checkpoint_count = s.checkpoint_count + 1 })
counted-Progress s = record {
  no_new_pending = λ j h. h;
  final_kept = λ h. (h, refl);
  consistent = λ h. h;
  active_kept = λ j h. h;
  inactive_kept = λ j h. h;
  same_task = refl;
}

-- A committed wave makes no node pending, keeps a frozen run's final output, keeps the decided
-- edges, and leaves the run frozen exactly when it has a final output if it was so before.
pub commit_wave-Progress :
    (store : ArtifactStore) (validate : ArtifactEnvelope → Result Exception (Unit {0}))
    (graph : OrchestraGraph) (state : RuntimeState) (results : List NodeExecutionResult)
    (s t : store.State) (c : Commit)
    → commit_wave store validate graph state results s ≡ ok (c, t)
    → Progress state c.state
unfolding commit_wave
commit_wave-Progress store validate graph state results s t c h =
    let by_id = λ (r : NodeExecutionResult). r.node_id in
    let start : Commit = record { state = state; committed = []; activated = []; disabled = [] } in
    let (t', _, h₁) = >>=-eq-ok (persist_results store validate results s) _ h in
    let (c', merged, h₂) = >>=-eq-ok (commit_results graph (sort_by by_id results) start) _ h₁ in
    let (impossible, _, h₃) = >>=-eq-ok (impossible_nodes graph c'.state) _ h₂ in
    subst (λ (u : Commit). Progress state u.state)
      (ap (λ (p : Commit × store.State). p.0) (ok-injective h₃))
      (Progress-trans state c'.state _
        (commit_results-Progress graph (sort_by by_id results) start merged)
        (Progress-trans c'.state (skip_nodes impossible c'.state) _
          (skip_nodes-Progress impossible c'.state)
          (counted-Progress (skip_nodes impossible c'.state))))

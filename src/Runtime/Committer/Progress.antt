-- ===== src/Runtime/Committer/Progress.antt =====
-- src/orchestra/runtime/committer.py: what a later state of a run keeps of an earlier one.
use codename_madagascar.Prelude.{
  String, Bool, true, false, Option, none, some, lookup, lookup-insert, contains, is_some, ◌≡◌,
  refl, ◌∙◌, string_eq, arith,
}
use codename_madagascar.Runtime.State.{NodeStatus, RuntimeState, is_pending}
use codename_madagascar.Runtime.Committer.{set_status}

abbrev pub pending_status : Option NodeStatus → Bool
pending_status none = false
pending_status (some status) = is_pending status

abbrev pub pending_at : RuntimeState → String → Bool
pending_at state node_id = pending_status (lookup node_id state.node_status)

-- The run is frozen exactly when it has its final output.
abbrev pub IsConsistent : RuntimeState → Type 0
IsConsistent state = state.frozen ≡ is_some state.final_output_artifact_id

-- What every step of a run keeps, from a state to a later one.
pub record Progress (s t : RuntimeState) : Type 0 where
  pub no_new_pending : (id : String) → pending_at t id ≡ true → pending_at s id ≡ true
  pub final_kept :
      s.frozen ≡ true
      → (t.frozen ≡ true) × (t.final_output_artifact_id ≡ s.final_output_artifact_id)
  pub consistent : IsConsistent s → IsConsistent t
  pub active_kept :
      (id : String) → contains s.active_edges id ≡ true → contains t.active_edges id ≡ true
  pub inactive_kept :
      (id : String) → contains s.inactive_edges id ≡ true → contains t.inactive_edges id ≡ true
  pub same_task : t.task_id ≡ s.task_id

pub Progress-refl : (s : RuntimeState) → Progress s s
Progress-refl s = record {
  no_new_pending = λ id h. h;
  final_kept = λ h. (h, refl);
  consistent = λ h. h;
  active_kept = λ id h. h;
  inactive_kept = λ id h. h;
  same_task = refl;
}

pub Progress-trans : (s t u : RuntimeState) → Progress s t → Progress t u → Progress s u
Progress-trans s t u p q = record {
  no_new_pending = λ id h. p.no_new_pending id (q.no_new_pending id h);
  final_kept = λ h.
      let (frozen, same) = p.final_kept h in
      let (still, kept) = q.final_kept frozen in (still, kept ∙ same);
  consistent = λ h. q.consistent (p.consistent h);
  active_kept = λ id h. q.active_kept id (p.active_kept id h);
  inactive_kept = λ id h. q.inactive_kept id (p.inactive_kept id h);
  same_task = q.same_task ∙ p.same_task;
}

pub set_status-Progress :
    (id : String) (status : NodeStatus) (s : RuntimeState)
    → is_pending status ≡ false
    → Progress s (set_status id status s)
set_status-Progress id status s other = record {
  no_new_pending = λ j h. ground (arith, lookup-insert id j status s.node_status);
  final_kept = λ h. (h, refl);
  consistent = λ h. h;
  active_kept = λ j h. h;
  inactive_kept = λ j h. h;
  same_task = refl;
}

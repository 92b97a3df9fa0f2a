-- ===== src/Cli/Evaluate/Again.antt =====
-- src/orchestra/cli/evaluate.py: a second run of the command.
use codename_madagascar.Prelude.{
  String, Option, none, some, List, [], ◌∷◌, Dict, lookup, lookup-insert_self, string_eq, ok,
  >>=-eq-ok, ok-injective, ◌≡◌, ◌∙◌, refl, ap, subst,
}
use codename_madagascar.Runtime.State.{RuntimeState}
use codename_madagascar.Sandbox.Official.{Machine}
use codename_madagascar.Adapters.Final.{FinalEvaluation, FinalLcbEvaluator, evaluate_frozen_run}
use codename_madagascar.Cli.Evaluate.{
  RunDir, Event, Progress, fresh, read_final, settle, evaluate_task, evaluate_tasks,
}
use codename_madagascar.Cli.Evaluate.Complete.{Keeps, evaluate_tasks-IsEvaluated}

-- The same progress with other files.
abbrev over : Dict String FinalEvaluation → List Event → Progress → Progress
over evaluations events progress = record progress { evaluations = evaluations; events = events }

module _ (dir : RunDir) (machine : Machine) (evaluator : FinalLcbEvaluator)
    (later : Dict String FinalEvaluation) (events : List Event) where
  settle-again :
      (qid : String) (state : RuntimeState) (code : String) (there : Option FinalEvaluation)
      (p next : Progress)
      → lookup qid p.evaluations ≡ there
      → settle dir machine evaluator qid state code there p ≡ ok next
      → Keeps next.evaluations later
      → settle dir machine evaluator qid state code (lookup qid later) (over later events p)
        ≡ ok (over later events next)
  unfolding settle
  settle-again qid state code (some evaluation) p next found h keeps =
      let same = ok-injective h in
      let kept =
        keeps qid evaluation
          (subst (λ (q : Progress). lookup qid q.evaluations ≡ some evaluation) same found) in
      ap (λ o. settle dir machine evaluator qid state code o (over later events p)) kept
      ∙ ap (λ q. ok (over later events q)) same
  settle-again qid state code none p next absent h keeps =
      let (evaluation, made, h₁) =
        >>=-eq-ok (evaluate_frozen_run machine evaluator state code qid) _ h in
      let same = ok-injective h₁ in
      let kept = keeps qid evaluation (
        subst (λ (q : Progress). lookup qid q.evaluations ≡ some evaluation) same
          (lookup-insert_self qid evaluation p.evaluations)) in
      ap (λ o. settle dir machine evaluator qid state code o (over later events p)) kept
      ∙ ap (λ q. ok (over later events q)) same

  evaluate_task-again :
      (qid : String) (p next : Progress)
      → evaluate_task dir machine evaluator qid p ≡ ok next
      → Keeps next.evaluations later
      → evaluate_task dir machine evaluator qid (over later events p) ≡ ok (over later events next)
  unfolding evaluate_task
  evaluate_task-again qid p next h keeps =
      let ((state, code), read, h₁) = >>=-eq-ok (read_final dir qid) _ h in
      rw read (settle-again qid state code (lookup qid p.evaluations) p next refl h₁ keeps)

  loop-again :
      (ids : List String) (p q : Progress)
      → evaluate_tasks dir machine evaluator ids p ≡ ok q
      → Keeps q.evaluations later
      → evaluate_tasks dir machine evaluator ids (over later events p) ≡ ok (over later events q)
  unfolding evaluate_tasks
  loop-again [] p q h keeps = ap (λ r. ok (over later events r)) (ok-injective h)
  loop-again (qid ∷ ids) p q h keeps =
      let (next, first, h₁) = >>=-eq-ok (evaluate_task dir machine evaluator qid p) _ h in
      let rest = evaluate_tasks-IsEvaluated dir machine evaluator ids next q h₁ in
      let again =
        evaluate_task-again qid p next first (λ id e there. keeps id e (rest.keeps id e there)) in
      rw again (loop-again ids next q h₁ keeps)

module _ (dir : RunDir) (machine : Machine) (evaluator : FinalLcbEvaluator) where
  -- Where a run of the command ends, a second one evaluates nothing: it leaves the evaluations and
  -- the events as they are, and writes the same predictions and the same number of passed tasks.
  pub evaluate_tasks-again :
      (ids : List String) (old : Dict String FinalEvaluation) (before after : List Event)
      (q : Progress)
      → evaluate_tasks dir machine evaluator ids (fresh old before) ≡ ok q
      → evaluate_tasks dir machine evaluator ids (fresh q.evaluations after)
        ≡ ok (record q { events = after })
  evaluate_tasks-again ids old before after q h =
      loop-again dir machine evaluator q.evaluations after ids (fresh old before) q h
        (λ qid e there. there)

-- ===== src/Cli/Evaluate/Complete.antt =====
-- src/orchestra/cli/evaluate.py: what the loop leaves behind.
use codename_madagascar.Prelude.{
  ℕ, ◌+◌, String, Option, none, some, List, [], ◌∷◌, Dict, lookup, lookup-insert, lookup-insert_ne,
  lookup-insert_self, string_eq, eq_iff, ok, >>=-eq-ok, ok-injective, ◌≡◌, ◌⊎◌, inl, inr, refl, ap,
  subst, All, All-map, arith,
}
use codename_madagascar.Runtime.State.{RuntimeState}
use codename_madagascar.Sandbox.Official.{Machine}
use codename_madagascar.Adapters.Final.{FinalEvaluation, FinalLcbEvaluator, evaluate_frozen_run}
use codename_madagascar.Cli.Evaluate.{
  RunDir, Progress, to_int, read_final, settle, evaluate_task, evaluate_tasks,
}

abbrev passed_of : Option FinalEvaluation → ℕ
passed_of none = 0
passed_of (some evaluation) = to_int evaluation.passed

-- How many of the tasks have an evaluation that passed.
unfoldable pub tally : Dict String FinalEvaluation → List String → ℕ
tally evaluations [] = 0
tally evaluations (qid ∷ ids) = passed_of (lookup qid evaluations) + tally evaluations ids

abbrev pub Keeps : Dict String FinalEvaluation → Dict String FinalEvaluation → Type 0
Keeps old new =
    (qid : String) (e : FinalEvaluation) → lookup qid old ≡ some e → lookup qid new ≡ some e

-- The task has an evaluation: the one that was there, or that of its frozen run's final code.
pub record IsJudged (dir : RunDir) (machine : Machine) (evaluator : FinalLcbEvaluator)
    (old new : Dict String FinalEvaluation) (qid : String) : Type 0 where
  pub state : RuntimeState
  pub code : String
  pub evaluation : FinalEvaluation
  pub read : read_final dir qid ≡ ok (state, code)
  pub found : lookup qid new ≡ some evaluation
  pub origin :
      (lookup qid old ≡ some evaluation)
      ⊎ (evaluate_frozen_run machine evaluator state code qid ≡ ok evaluation)

module _ (dir : RunDir) (machine : Machine) (evaluator : FinalLcbEvaluator) where
  -- What one pass does.
  pub record IsStep (qid : String) (p q : Progress) : Type 0 where
    pub keeps : Keeps p.evaluations q.evaluations
    pub known :
        (other : String) (e : FinalEvaluation)
        → lookup other q.evaluations ≡ some e
        → (lookup other p.evaluations ≡ some e) ⊎ (qid ≡ other)
    pub judged : IsJudged dir machine evaluator p.evaluations q.evaluations qid
    pub counts : q.passed ≡ p.passed + to_int (IsJudged.evaluation judged).passed

  settle-IsStep :
      (qid : String) (state : RuntimeState) (code : String) (there : Option FinalEvaluation)
      (p q : Progress)
      → read_final dir qid ≡ ok (state, code)
      → lookup qid p.evaluations ≡ there
      → settle dir machine evaluator qid state code there p ≡ ok q
      → IsStep qid p q
  unfolding settle
  settle-IsStep qid state code (some evaluation) p q read found h =
      subst (IsStep qid p) (ok-injective h) (record {
        keeps = λ other e there. there;
        known = λ other e there. inl there;
        judged = record {
          state = state;
          code = code;
          evaluation = evaluation;
          read = read;
          found = found;
          origin = inl found;
        };
        counts = refl;
      })
  settle-IsStep qid state code none p q read absent h =
      let (evaluation, made, h₁) =
        >>=-eq-ok (evaluate_frozen_run machine evaluator state code qid) _ h in
      subst (IsStep qid p) (ok-injective h₁) (record {
        keeps = λ other e there. lookup-insert_ne qid other evaluation e p.evaluations absent there;
        known = λ other e there.
            ground
              (arith, there, lookup-insert qid other evaluation p.evaluations, eq_iff qid other);
        judged = record {
          state = state;
          code = code;
          evaluation = evaluation;
          read = read;
          found = lookup-insert_self qid evaluation p.evaluations;
          origin = inr made;
        };
        counts = refl;
      })

  pub evaluate_task-IsStep :
      (qid : String) (p q : Progress)
      → evaluate_task dir machine evaluator qid p ≡ ok q
      → IsStep qid p q
  unfolding evaluate_task
  evaluate_task-IsStep qid p q h =
      let ((state, code), read, h₁) = >>=-eq-ok (read_final dir qid) _ h in
      settle-IsStep qid state code (lookup qid p.evaluations) p q read refl h₁

  -- A judged task stays judged where evaluations are added, and where they were added before.
  IsJudged-later :
      (qid : String) (old new later : Dict String FinalEvaluation)
      → Keeps new later
      → IsJudged dir machine evaluator old new qid
      → IsJudged dir machine evaluator old later qid
  IsJudged-later qid old new later keeps judged = record {
    state = judged.state;
    code = judged.code;
    evaluation = judged.evaluation;
    read = judged.read;
    found = keeps qid judged.evaluation judged.found;
    origin = judged.origin;
  }

  with_origin :
      (qid : String) (old older new : Dict String FinalEvaluation)
      (judged : IsJudged dir machine evaluator old new qid)
      → (lookup qid older ≡ some judged.evaluation)
        ⊎ (evaluate_frozen_run machine evaluator judged.state judged.code qid
            ≡ ok judged.evaluation)
      → IsJudged dir machine evaluator older new qid
  with_origin qid old older new judged origin = record {
    state = judged.state;
    code = judged.code;
    evaluation = judged.evaluation;
    read = judged.read;
    found = judged.found;
    origin = origin;
  }

  IsJudged-earlier :
      (first qid : String) (p next : Progress) (new : Dict String FinalEvaluation)
      → IsStep first p next
      → Keeps next.evaluations new
      → IsJudged dir machine evaluator next.evaluations new qid
      → IsJudged dir machine evaluator p.evaluations new qid
  IsJudged-earlier first qid p next new step keeps judged = elim judged.origin [
    | inr made ↦ with_origin qid next.evaluations p.evaluations new judged (inr made)
    | inl there ↦ elim (step.known qid judged.evaluation there) [
      | inl before ↦ with_origin qid next.evaluations p.evaluations new judged (inl before)
      | inr same ↦
          subst (IsJudged dir machine evaluator p.evaluations new) same
            (IsJudged-later first p.evaluations next.evaluations new keeps step.judged)
    ]
  ]

  pub record IsEvaluated (ids : List String) (p q : Progress) : Type 0 where
    pub keeps : Keeps p.evaluations q.evaluations
    pub judged : All (IsJudged dir machine evaluator p.evaluations q.evaluations) ids
    pub counts : q.passed ≡ p.passed + tally q.evaluations ids

  pub evaluate_tasks-IsEvaluated :
      (ids : List String) (p q : Progress)
      → evaluate_tasks dir machine evaluator ids p ≡ ok q
      → IsEvaluated ids p q
  unfolding evaluate_tasks tally
  evaluate_tasks-IsEvaluated [] p q h =
      subst (IsEvaluated [] p) (ok-injective h)
        (record { keeps = λ other e there. there; judged = tt; counts = omega arith })
  evaluate_tasks-IsEvaluated (qid ∷ ids) p q h =
      let (next, first, h₁) = >>=-eq-ok (evaluate_task dir machine evaluator qid p) _ h in
      let step = evaluate_task-IsStep qid p next first in
      let rest = evaluate_tasks-IsEvaluated ids next q h₁ in
      record {
        keeps = λ other e there. rest.keeps other e (step.keeps other e there);
        judged = (
          IsJudged-later qid p.evaluations next.evaluations q.evaluations rest.keeps step.judged,
          All-map (IsJudged dir machine evaluator next.evaluations q.evaluations)
              (IsJudged dir machine evaluator p.evaluations q.evaluations)
              (λ other later. IsJudged-earlier qid other p next q.evaluations step rest.keeps later)
              ids rest.judged,
        );
        counts = omega (
          arith,
          step.counts,
          rest.counts,
          ap passed_of (rest.keeps qid step.judged.evaluation step.judged.found),
        );
      }

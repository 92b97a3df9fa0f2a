-- ===== src/Adapters/Final.antt =====
-- src/orchestra/adapters/livecodebench/final_evaluator.py, and build_official_record of
-- src/orchestra/adapters/livecodebench/exporter.py. The semaphore bounds how many evaluations run at
-- once, and is left out. Times are in milliseconds.
use codename_madagascar.Prelude.{
  ℕ, String, Bool, true, not, ◌||◌, some, List, [], ◌∷◌, lookup, is_some, string_eq, Result, ok,
  ◌>>=◌, raise_if, ◌≡◌, ◌↔◌, ◌∙◌, refl, subst, ap, >>=-eq-ok, raise_if-bind, ok-injective,
  or_raise-bind, arith,
}
use codename_madagascar.Exceptions.{Exception, runtime_error, key_error}
use codename_madagascar.Adapters.Tasks.{
  PrivateTaskData, PrivateTestRepository, get_for_final_evaluation,
}
use codename_madagascar.Runtime.State.{RuntimeState}
use codename_madagascar.Sandbox.Official.{Machine, Runner, evaluate_final}
use codename_madagascar.Sandbox.Official.Final.{HasPassed, evaluate_final_lem}

pub record FinalEvaluation : Type 0 where
  pub question_id : String
  pub passed : Bool
  pub evaluator_commit : String
  pub per_test_timeout_ms : ℕ
  pub max_worker_wall_ms : ℕ

pub record FinalLcbEvaluator : Type 0 where
  pub private_repository : PrivateTestRepository
  pub evaluator_commit : String
  pub runner : Runner
  pub per_test_timeout_ms : ℕ

-- The test that the run has its final output and is frozen.
abbrev pub is_open : RuntimeState → Bool
is_open state = not state.frozen || not (is_some state.final_output_artifact_id)

abbrev pub evaluation : FinalLcbEvaluator → String → Bool → FinalEvaluation
evaluation evaluator lcb_problem_ref passed = record {
  question_id = lcb_problem_ref;
  passed = passed;
  evaluator_commit = evaluator.evaluator_commit;
  per_test_timeout_ms = evaluator.per_test_timeout_ms;
  max_worker_wall_ms = evaluator.runner.max_worker_wall_ms;
}

module _ (machine : Machine) where
  unfoldable pub evaluate_frozen_run :
      FinalLcbEvaluator
      → RuntimeState
      → (final_code lcb_problem_ref : String) → Result Exception FinalEvaluation
  evaluate_frozen_run evaluator state final_code lcb_problem_ref = do
    frozen ← raise_if (is_open state) runtime_error
    hidden ← get_for_final_evaluation lcb_problem_ref evaluator.private_repository
    passed ←
        evaluate_final machine evaluator.runner lcb_problem_ref hidden final_code
          evaluator.per_test_timeout_ms
    ok (evaluation evaluator lcb_problem_ref passed)

  -- The run is frozen with an output, and the code passes on the hidden data of the task.
  abbrev pub IsSolved : FinalLcbEvaluator → RuntimeState → String → String → Type 0
  IsSolved evaluator state final_code lcb_problem_ref =
      (state.frozen ≡ true)
      × (is_some state.final_output_artifact_id ≡ true)
      × (hidden : PrivateTaskData) × (lookup lcb_problem_ref evaluator.private_repository
          ≡ some hidden)
      × HasPassed machine evaluator.runner lcb_problem_ref hidden final_code
          evaluator.per_test_timeout_ms

  -- An evaluation is reported as passed exactly where the run is frozen with an output, hidden data
  -- of the task is registered, and its worker ends well and accepts the code on all tests.
  pub evaluate_frozen_run_lem :
      (evaluator : FinalLcbEvaluator) (state : RuntimeState) (final_code lcb_problem_ref : String)
      → ((e : FinalEvaluation) × (evaluate_frozen_run evaluator state final_code lcb_problem_ref
            ≡ ok e)
          × (e.passed ≡ true))
        ↔ IsSolved evaluator state final_code lcb_problem_ref
  unfolding evaluate_frozen_run
  evaluate_frozen_run_lem evaluator state final_code lcb_problem_ref = (
    λ (e, h, passed).
        let (frozen, h₁) = raise_if-bind (is_open state) runtime_error _ h in
        let (hidden, found, h₂) =
          or_raise-bind (lookup lcb_problem_ref evaluator.private_repository) key_error _ h₁ in
        let (result, final, h₃) =
          >>=-eq-ok
            (evaluate_final machine evaluator.runner lcb_problem_ref hidden final_code
              evaluator.per_test_timeout_ms)
            _ h₂ in
        let solved : result ≡ true =
          ap (λ (r : FinalEvaluation). r.passed) (ok-injective h₃) ∙ passed in
        (
          ground arith,
          ground arith,
          hidden,
          found,
          (evaluate_final_lem machine evaluator.runner lcb_problem_ref hidden final_code
                evaluator.per_test_timeout_ms).0
              (subst
                (λ b.
                  evaluate_final machine evaluator.runner lcb_problem_ref hidden final_code
                    evaluator.per_test_timeout_ms
                  ≡ ok b)
                solved final),
        ),
    λ (frozen, present, hidden, found, passed). (
      evaluation evaluator lcb_problem_ref true,
      rw (
        frozen,
        present,
        found,
        (evaluate_final_lem machine evaluator.runner lcb_problem_ref hidden final_code
              evaluator.per_test_timeout_ms).1
            passed,
      ),
      refl,
    ),
  )

-- `build_official_record`: the question and the list of its one answer.
abbrev pub build_official_record : String → String → String × List String
build_official_record question_id code = (question_id, code ∷ [])

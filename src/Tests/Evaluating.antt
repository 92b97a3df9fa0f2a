-- ===== src/Tests/Evaluating.antt =====
-- The final evaluation at a frozen run.
use codename_madagascar.Prelude.Integers.{pos}
use codename_madagascar.Prelude.{
  true, none, some, [], ◌∷◌, lookup, insert, Result, ok, err, ◌≡◌, ◌↔◌, refl, string_eq,
}
use codename_madagascar.Exceptions.{Exception}
use codename_madagascar.Ir.Schemas.{payload_schemas}
use codename_madagascar.Ir.Artifacts.{validate_payload}
use codename_madagascar.Storage.Files.{matches, get}
use codename_madagascar.Runtime.State.{RuntimeState}
use codename_madagascar.Sandbox.Worker.{flag, all_passed, run_final, evaluate_private_final}
use codename_madagascar.Sandbox.Timeout.{worker_wall_timeout}
use codename_madagascar.Sandbox.Official.{Machine, exited, evaluate_final}
use codename_madagascar.Adapters.Tasks.{PrivateTaskData}
use codename_madagascar.Adapters.Final.{
  FinalEvaluation, FinalLcbEvaluator, evaluate_frozen_run, IsSolved, evaluate_frozen_run_lem,
}
use codename_madagascar.Cli.Evaluate.{
  RunDir, Progress, fresh, read_final, settle, evaluate_task, evaluate_tasks,
}
use codename_madagascar.Cli.Evaluate.Again.{evaluate_tasks-again}
use codename_madagascar.Tests.Running.{store}

-- All that an evaluation calls.
program : Unit {0}
unfolding lookup insert payload_schemas validate_payload matches get all_passed run_final
    evaluate_private_final worker_wall_timeout evaluate_final evaluate_frozen_run read_final settle
    evaluate_task evaluate_tasks
program = tt

abbrev frozen : RuntimeState
frozen = record {
  run_id = "r1";
  task_id = "t1";
  graph_id = "b1";
  graph_hash = "g0";
  contract_hash = "c0";
  node_status = [];
  node_outputs = [];
  initial_artifacts = [];
  active_edges = [];
  inactive_edges = [];
  final_output_artifact_id = some "freeze";
  frozen = true;
  wave_id = 3;
  checkpoint_count = 3;
  node_latencies_ms = [];
}

-- The worker ends in time, and its checker accepts one test.
abbrev machine : Machine
machine = record {
  checker = record {
    compile_error = λ code. none;
    check_correctness = λ tests name code timeout.
        (flag true ∷ [], record { error = none; error_message = none; output = none });
  };
  ending = λ request wall. exited (pos 0) true;
  elapsed_ms = λ request. 0;
}

abbrev hidden : PrivateTaskData
hidden = record {
  question_id = "t1";
  private_tests = record { input = "1 2"; output = "3"; testtype = "stdin" } ∷ [];
  public_tests = [];
  function_name = none;
}

abbrev evaluator : FinalLcbEvaluator
evaluator = record {
  private_repository = ("t1", hidden) ∷ [];
  evaluator_commit = "c0";
  runner = record { worker_grace_ms = 5000; max_worker_wall_ms = 60000 };
  per_test_timeout_ms = 6000;
}

abbrev dir : RunDir
dir = record {
  store = store;
  artifacts = (("t1", "freeze"), "freeze") ∷ [];
  results = ("t1", frozen) ∷ [];
  parse_final = λ payload. some (record { code = "print(3)"; source_artifact_id = "a" });
  graph_id = "b1";
}

evaluate_frozen_run_lem_example :
    ((e : FinalEvaluation) × (evaluate_frozen_run machine evaluator frozen "print(3)" "t1" ≡ ok e)
      × (e.passed ≡ true))
    ↔ IsSolved machine evaluator frozen "print(3)" "t1"
evaluate_frozen_run_lem_example = evaluate_frozen_run_lem machine evaluator frozen "print(3)" "t1"

abbrev of_progress : Result Exception Progress → Progress
of_progress (ok p) = p
of_progress (err e) = fresh [] []

abbrev evaluated : Progress
evaluated = of_progress (evaluate_tasks dir machine evaluator ("t1" ∷ []) (fresh [] []))

evaluated-passed : evaluated.passed ≡ 1
unfolding program
evaluated-passed = refl

evaluate_tasks-again_example :
    evaluate_tasks dir machine evaluator ("t1" ∷ []) (fresh evaluated.evaluations [])
    ≡ ok (record evaluated { events = [] })
unfolding program
evaluate_tasks-again_example =
    evaluate_tasks-again dir machine evaluator ("t1" ∷ []) [] [] [] evaluated refl

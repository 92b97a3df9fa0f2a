-- ===== src/Tests/Judging.antt =====
-- The worker of the sandbox at a sample task.
use codename_madagascar.Prelude.Integers.{negsuc}
use codename_madagascar.Prelude.{◌+◌, ◌*◌, ◌≤◌, true, none, [], ◌∷◌, ◌≡◌, ◌⊎◌, ◌↔◌, refl}
use codename_madagascar.Executors.Models.{
  PublicExample, AgentVisibleLcbTask, SandboxExecutionResult,
}
use codename_madagascar.Sandbox.Worker.Tallies.{IsFull, IsTallied, evaluate_public_lem}
use codename_madagascar.Sandbox.Timeout.{worker_wall_timeout, worker_wall_timeout_lem}
use codename_madagascar.Sandbox.Worker.{
  Checker, flag, number, visible_results, tally, run_public, evaluate_public,
  evaluate_private_final,
}

abbrev example : PublicExample
example = record { input = "1 2"; output = "3"; testtype = "stdin" }

abbrev task : AgentVisibleLcbTask
task = record {
  question_id = "q1";
  question_title = "Sum";
  question_content = "Add two numbers.";
  platform = "atcoder";
  contest_date = "1970-01-01T00:00:00";
  starter_code = "";
  difficulty = "easy";
  public_test_cases = example ∷ example ∷ [];
  function_name = none;
}

-- The first test passes, the second one runs out of time.
abbrev checker : Checker
checker = record {
  compile_error = λ code. none;
  check_correctness = λ tests name code timeout. (
    flag true ∷ number (negsuc 2) ∷ [],
    record { error = none; error_message = none; output = none },
  );
}

abbrev judged : SandboxExecutionResult
judged = evaluate_public checker task "print(3)" 6000 12

judged_counts : (judged.passed_count ≡ 1) × (judged.timeouts ≡ 1) × (judged.runtime_errors ≡ 0)
unfolding evaluate_public run_public visible_results tally
judged_counts = (refl, refl, refl)

evaluate_public_lem_example :
    ((evaluate_private_final checker task.public_test_cases none "print(3)" 6000 ≡ true)
      ↔ IsFull judged)
    × IsTallied judged
evaluate_public_lem_example = evaluate_public_lem checker task "print(3)" 6000 12

worker_wall_timeout_lem_example :
    (worker_wall_timeout 6000 2 5000 60000 ≤ 60000)
    × ((worker_wall_timeout 6000 2 5000 60000 ≡ 60000)
        ⊎ ((6000 + 1000) * 2 + 5000 ≤ worker_wall_timeout 6000 2 5000 60000))
worker_wall_timeout_lem_example = worker_wall_timeout_lem 6000 2 5000 60000

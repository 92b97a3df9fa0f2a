-- ===== src/Sandbox/Mock.antt =====
-- src/orchestra/sandbox/mock.py, without the counters of active calls. The delay is in milliseconds.
use codename_madagascar.Prelude.Texts.{occurs}
use codename_madagascar.Prelude.{
  ℕ, suc, String, Bool, true, false, not, ◌||◌, none, some, List, [], ◌∷◌, length, if◌then◌else◌,
  ◌≡◌, arith,
}
use codename_madagascar.Executors.Models.{
  PublicExample, AgentVisibleLcbTask, VisibleTestResult, SandboxExecutionResult,
}
use codename_madagascar.Sandbox.Worker.{tally}

-- The list comprehension over `enumerate(task.public_test_cases)`.
unfoldable pub mock_results :
    (correct : Bool) → (index : ℕ) → List PublicExample → List VisibleTestResult
mock_results correct index [] = []
mock_results correct index (example ∷ examples) =
    record {
      index = index;
      passed = correct;
      timed_out = false;
      runtime_error = none;
      actual_output = some (if correct then example.output else "wrong");
    }
    ∷ mock_results correct (suc index) examples

abbrev pub is_correct : String → Bool
is_correct code = occurs "CORRECT_SOLUTION" code || occurs "print(input())" code

abbrev to_int : Bool → ℕ
to_int true = 1
to_int false = 0

abbrev pub summary_of :
    (code : String) → (delay_ms : ℕ) → List VisibleTestResult → SandboxExecutionResult
summary_of code delay results = record {
  compiled = not (occurs "SYNTAX_ERROR" code);
  passed_count = tally (λ (item : VisibleTestResult). item.passed) results;
  total_count = length results;
  runtime_errors = to_int (occurs "RUNTIME_ERROR" code);
  timeouts = to_int (occurs "TIMEOUT" code);
  stderr_summary = none;
  per_test_visible_results = results;
  duration_ms = delay;
}

unfoldable pub evaluate_mock :
    (delay_ms : ℕ) → AgentVisibleLcbTask → (code : String) → SandboxExecutionResult
evaluate_mock delay task code =
    summary_of code delay (mock_results (is_correct code) 0 task.public_test_cases)

mock_results-tally :
    (correct : Bool) (index : ℕ) (examples : List PublicExample)
    → (length (mock_results correct index examples) ≡ length examples)
      × (tally (λ (item : VisibleTestResult). item.passed) (mock_results correct index examples)
          ≡ (if correct then length examples else 0))
unfolding mock_results tally
mock_results-tally correct index [] = ground arith
mock_results-tally correct index (example ∷ examples) =
    ground (arith, mock_results-tally correct (suc index) examples)

-- The mock runs no code: it passes all tests of the task where the code has a mark of a correct
-- solution, and none elsewhere.
pub evaluate_mock_lem :
    (delay : ℕ) (task : AgentVisibleLcbTask) (code : String)
    → ((evaluate_mock delay task code).total_count ≡ length task.public_test_cases)
      × ((evaluate_mock delay task code).passed_count
          ≡ (if is_correct code then length task.public_test_cases else 0))
unfolding evaluate_mock
evaluate_mock_lem delay task code = mock_results-tally (is_correct code) 0 task.public_test_cases

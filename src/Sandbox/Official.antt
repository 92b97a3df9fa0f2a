-- ===== src/Sandbox/Official.antt =====
-- src/orchestra/sandbox/lcb_official.py, and the dispatch of src/orchestra/sandbox/lcb_worker.py on the
-- kind of request. How the process of a worker ends is a parameter; a worker that ends well has
-- written what lcb_worker computes with the checker. `num_process_evaluate` and the limits of the
-- operating system are left out of a request. Times are in milliseconds.
pub mod Final
use codename_madagascar.Prelude.Integers.{ℤ, is_zero}
use codename_madagascar.Prelude.{
  ℕ, String, Bool, true, false, not, ◌||◌, Option, none, some, List, [], ◌++◌, map, length, ◌==◌,
  nat_eq, Result, ok, err, if◌then◌else◌, raise_if, ◌>>◌, ◌>>=◌,
}
use codename_madagascar.Exceptions.{Exception, value_error, sandbox_unavailable_error}
use codename_madagascar.Executors.Models.{
  PublicExample, AgentVisibleLcbTask, SandboxExecutionResult,
}
use codename_madagascar.Adapters.Tasks.{PrivateTestCase, PrivateTaskData}
use codename_madagascar.Sandbox.Worker.{Checker, evaluate_public, evaluate_private_final}
use codename_madagascar.Sandbox.Timeout.{worker_wall_timeout}

-- The bounds of OfficialLCBProcessRunner.
pub record Runner : Type 0 where
  pub worker_grace_ms : ℕ
  pub max_worker_wall_ms : ℕ

-- The constructors of OfficialLCBSandbox and FinalLCBWorker; whether the directory `lcb_runner` of the
-- benchmark exists is given.
unfoldable pub create_runner :
    (has_repository : Bool) (num_process_evaluate worker_grace_ms max_worker_wall_ms : ℕ)
    → Result Exception Runner
create_runner has_repository num_process_evaluate grace max_wall = do
  single ← raise_if (not (num_process_evaluate == 1)) value_error
  present ← raise_if (not has_repository) sandbox_unavailable_error
  ok (record { worker_grace_ms = grace; max_worker_wall_ms = max_wall })

pub record PublicWorkerRequest : Type 0 where
  pub task : AgentVisibleLcbTask
  pub code : String
  pub per_test_timeout_ms : ℕ

pub record PrivateFinalWorkerRequest : Type 0 where
  pub question_id : String
  pub test_cases : List PublicExample
  pub function_name : Option String
  pub code : String
  pub per_test_timeout_ms : ℕ

pub data WorkerRequest : Type 0 where
  public : PublicWorkerRequest → WorkerRequest
  private_final : PrivateFinalWorkerRequest → WorkerRequest

-- A process that is past the bound is killed; another one ends with a code, and a result file
-- or none.
pub data Ending : Type 0 where
  late : Ending
  exited : (returncode : ℤ) (has_result : Bool) → Ending

-- What a worker uses: the checker, the end of its process under a bound, and the time that the
-- checker takes.
pub record Machine : Type 0 where
  pub checker : Checker
  pub ending : WorkerRequest → (wall_timeout_ms : ℕ) → Ending
  pub elapsed_ms : WorkerRequest → ℕ

-- What `run` gives, where the answers on a timeout and from the result file are known.
abbrev pub answer {ℓ} : {A : Type ℓ} → Ending → A → A → Result Exception A
answer late on_timeout written = ok on_timeout
answer (exited returncode has_result) on_timeout written =
    if not (is_zero returncode) || not has_result then err sandbox_unavailable_error else ok written

-- The report of `run` on a timeout of a public evaluation.
abbrev pub late_report : ℕ → ℕ → SandboxExecutionResult
late_report test_count wall_timeout = record {
  compiled = true;
  passed_count = 0;
  total_count = test_count;
  runtime_errors = 0;
  timeouts = 1;
  stderr_summary = some "Official LCB worker wall-clock timeout";
  per_test_visible_results = [];
  duration_ms = wall_timeout;
}

-- `WorkerTestCase.model_validate(test.model_dump())` on a private test.
abbrev pub as_worker_test : PrivateTestCase → PublicExample
as_worker_test test = record { input = test.input; output = test.output; testtype = test.testtype }

abbrev pub wall_timeout : Runner → (per_test_ms test_count : ℕ) → ℕ
wall_timeout runner per_test_ms test_count =
    worker_wall_timeout per_test_ms test_count runner.worker_grace_ms runner.max_worker_wall_ms

abbrev pub build_request : AgentVisibleLcbTask → String → ℕ → PublicWorkerRequest
build_request task code per_test_ms = record {
  task = task;
  code = code;
  per_test_timeout_ms = per_test_ms;
}

abbrev pub final_tests : PrivateTaskData → List PublicExample
final_tests hidden = hidden.public_tests ++ map as_worker_test hidden.private_tests

abbrev pub final_request : String → PrivateTaskData → String → ℕ → PrivateFinalWorkerRequest
final_request question_id hidden code per_test_ms = record {
  question_id = question_id;
  test_cases = final_tests hidden;
  function_name = hidden.function_name;
  code = code;
  per_test_timeout_ms = per_test_ms;
}

module _ (machine : Machine) where
  -- `OfficialLCBSandbox.evaluate_public`
  unfoldable pub evaluate_official :
      Runner
      → AgentVisibleLcbTask
      → (code : String) → (per_test_ms : ℕ) → Result Exception SandboxExecutionResult
  evaluate_official runner task code per_test_ms =
      let request = public (build_request task code per_test_ms) in
      let test_count = length task.public_test_cases in
      let bound = wall_timeout runner per_test_ms test_count in
      answer (machine.ending request bound) (late_report test_count bound)
        (evaluate_public machine.checker task code per_test_ms (machine.elapsed_ms request))

  -- `FinalLCBWorker.evaluate`: whether the code passed, of which `pass_at_1` is the number.
  unfoldable pub evaluate_final :
      Runner
      → String
      → PrivateTaskData
      → (code : String) → (per_test_ms : ℕ) → Result Exception Bool
  evaluate_final runner question_id hidden code per_test_ms =
      let request = private_final (final_request question_id hidden code per_test_ms) in
      let tests = final_tests hidden in
      answer (machine.ending request (wall_timeout runner per_test_ms (length tests))) false
        (evaluate_private_final machine.checker tests hidden.function_name code per_test_ms)

-- ===== src/Sandbox/Docker.antt =====
-- src/orchestra/sandbox/docker.py. What a process in the container does is a parameter, as are
-- Python's `strip` and the text of a number; the duration is given. Times are in milliseconds.
pub mod Tests
use codename_madagascar.Prelude.Integers.{ℤ, is_zero}
use codename_madagascar.Prelude.Texts.{last_part}
use codename_madagascar.Prelude.{
  ℕ, suc, String, Bool, true, false, not, ◌&&◌, ◌||◌, Option, none, some, List, [], ◌∷◌, ◌++◌, any,
  length, is_some, ◌==◌, string_eq, Result, ok, err, ◌>>=◌, or_raise, if◌then◌else◌,
}
use codename_madagascar.Exceptions.{Exception, not_implemented_error, value_error}
use codename_madagascar.Executors.Models.{
  PublicExample, AgentVisibleLcbTask, VisibleTestResult, SandboxExecutionResult,
}
use codename_madagascar.Sandbox.Worker.{tally}
use Prim.Native.String.{◌++◌ as str_append}

-- The code, the standard output and the standard error of a process that ends in time; `none` is an
-- output that is not UTF-8.
pub data Process : Type 0 where
  ended : (returncode : ℤ) (stdout stderr : Option String) → Process
  killed : Process

pub record Container : Type 0 where
  pub run :
      (files : String) → (stdin : String) → (command : List String) → (timeout_ms : ℕ) → Process
  pub strip : String → String

-- The tuple that `_run` returns.
pub record Execution : Type 0 where
  pub returncode : Option ℤ
  pub stdout : String
  pub stderr : String
  pub timed_out : Bool

-- `_run`, where `decode` raises UnicodeDecodeError, a ValueError, on what is not UTF-8.
unfoldable pub execution_of : Process → Result Exception Execution
execution_of (ended returncode stdout stderr) = do
  output ← or_raise stdout value_error
  error ← or_raise stderr value_error
  ok (record { returncode = some returncode; stdout = output; stderr = error; timed_out = false })
execution_of killed =
    ok (record { returncode = none; stdout = ""; stderr = "timeout"; timed_out = true })

-- `_command`, with the text of the memory bound.
unfoldable pub command_of :
    (memory_mb image workdir : String) → (command : List String) → List String
command_of memory_mb image workdir command =
    ("docker"
      ∷ "run"
      ∷ "--rm"
      ∷ "--network"
      ∷ "none"
      ∷ "--read-only"
      ∷ "--tmpfs"
      ∷ "/tmp:rw,noexec,nosuid,size=64m"
      ∷ "--cpus"
      ∷ "1"
      ∷ "--memory"
      ∷ str_append memory_mb "m"
      ∷ "--pids-limit"
      ∷ "64"
      ∷ "--env"
      ∷ "PYTHONIOENCODING=utf-8"
      ∷ "--mount"
      ∷ str_append "type=bind,src=" (str_append workdir ",dst=/work,readonly")
      ∷ image
      ∷ [])
    ++ command

-- `rc == 0`
abbrev pub is_success : Option ℤ → Bool
is_success none = false
is_success (some code) = is_zero code

-- `rc not in (0, None)`
abbrev pub is_failure : Option ℤ → Bool
is_failure none = false
is_failure (some code) = not (is_zero code)

abbrev pub compile_command : List String
compile_command = "python" ∷ "-m" ∷ "py_compile" ∷ "/work/solution.py" ∷ []

abbrev pub solution_command : List String
solution_command = "python" ∷ "/work/solution.py" ∷ []

module _ (container : Container) where
  abbrev pub test_result : ℕ → PublicExample → Execution → VisibleTestResult
  test_result index example done = record {
    index = index;
    passed =
        is_success done.returncode && container.strip done.stdout == container.strip example.output;
    timed_out = done.timed_out;
    runtime_error = if is_failure done.returncode then some (last_part 1000 done.stderr) else none;
    actual_output = some (last_part 2000 done.stdout);
  }

  -- The loop over `enumerate(task.public_test_cases)`.
  unfoldable pub run_tests :
      (code : String)
      → (timeout_ms index : ℕ) → List PublicExample
      → Result Exception (List VisibleTestResult)
  run_tests code timeout index [] = ok []
  run_tests code timeout index (example ∷ examples) = do
    done ← execution_of (container.run code example.input solution_command timeout)
    rest ← run_tests code timeout (suc index) examples
    ok (test_result index example done ∷ rest)

  abbrev pub not_compiled : ℕ → ℕ → Execution → SandboxExecutionResult
  not_compiled total elapsed done = record {
    compiled = false;
    passed_count = 0;
    total_count = total;
    runtime_errors = 1;
    timeouts = if done.timed_out then 1 else 0;
    stderr_summary = some (last_part 1000 done.stderr);
    per_test_visible_results = [];
    duration_ms = elapsed;
  }

  abbrev pub summary_of : ℕ → List VisibleTestResult → SandboxExecutionResult
  summary_of elapsed results = record {
    compiled = true;
    passed_count = tally (λ (item : VisibleTestResult). item.passed) results;
    total_count = length results;
    runtime_errors = tally (λ (item : VisibleTestResult). is_some item.runtime_error) results;
    timeouts = tally (λ (item : VisibleTestResult). item.timed_out) results;
    stderr_summary = none;
    per_test_visible_results = results;
    duration_ms = elapsed;
  }

  -- What is done after the compilation.
  unfoldable pub judge :
      AgentVisibleLcbTask
      → (code : String) → (timeout_ms elapsed_ms : ℕ) → Execution
      → Result Exception SandboxExecutionResult
  judge task code timeout elapsed compiled =
      if not (is_success compiled.returncode) || compiled.timed_out
      then ok (not_compiled (length task.public_test_cases) elapsed compiled)
      else run_tests code timeout 0 task.public_test_cases >>= λ (results : List VisibleTestResult).
          ok (summary_of elapsed results)

  unfoldable pub evaluate_docker :
      AgentVisibleLcbTask
      → (code : String) → (timeout_ms elapsed_ms : ℕ) → Result Exception SandboxExecutionResult
  evaluate_docker task code timeout elapsed =
      if any (λ (item : PublicExample). item.testtype == "functional") task.public_test_cases
      then err not_implemented_error
      else execution_of (container.run code "" compile_command timeout)
        >>= λ (compiled : Execution). judge task code timeout elapsed compiled

-- ===== src/Executors/Harness.antt =====
-- src/orchestra/executors/harness.py. `compile` of Python and the sandbox are parameters.
pub mod Verdict
use codename_madagascar.Prelude.Integers.{ℤ, pos}
use codename_madagascar.Prelude.{
  ℕ, zero, suc, String, Bool, true, false, ◌&&◌, Option, none, some, List, [], ◌∷◌, length, Result,
  ok, ◌>>=◌, or_raise, ltb, ◌==◌, nat_eq, string_eq, if◌then◌else◌, ◌≡◌, ◌<◌, ◌↔◌, refl, >>=-eq-ok,
  ok-injective, subst, ap, arith,
}
use codename_madagascar.Exceptions.{Exception, index_error, value_error}
use codename_madagascar.Ir.Nodes.{NodeSpec}
use codename_madagascar.Runtime.State.{NodeExecutionResult, no_usage}
use codename_madagascar.Executors.Models.{
  Models, PublicExample, ProblemArtifact, AgentVisibleLcbTask, VisibleTestResult,
  SandboxExecutionResult, PublicHarnessResultArtifact,
}
use codename_madagascar.Executors.Publish.{
  Inputs, Moment, read_input, publish, IsPublished, publish-IsPublished,
}

-- `compile(code, "<generated>", "exec")`, which may give the text of a SyntaxError, and the
-- sandbox's `evaluate_public`.
pub record Sandbox : Type 0 where
  pub syntax_error : String → Option String
  pub evaluate_public :
      AgentVisibleLcbTask
      → (code : String) → (timeout_ms : ℕ) → Result Exception SandboxExecutionResult

-- The first test that did not pass.
abbrev pub first_failed : List VisibleTestResult → Option VisibleTestResult
first_failed [] = none
first_failed (item ∷ items) =
    let rest = first_failed items in if item.passed then rest else some item

abbrev nth : List PublicExample → ℕ → Option PublicExample
nth [] n = none
nth (x ∷ xs) zero = some x
nth (x ∷ xs) (suc n) = nth xs n

-- `problem.public_examples[failed.index] if failed else None`
abbrev failed_example :
    List PublicExample → Option VisibleTestResult → Result Exception (Option PublicExample)
failed_example examples none = ok none
failed_example examples (some item) = do
  example ← or_raise (nth examples item.index) index_error
  ok (some example)

-- `passed_count / total if total else 0.0`
abbrev pub ratio : ℕ → ℕ → ℤ × ℕ
ratio passed zero = (pos 0, 0)
ratio passed (suc total) = (pos passed, total)

-- `[stderr] if stderr else (["No public tests available"] if not available else [])`
abbrev no_tests : Bool → List String
no_tests available = if available then [] else "No public tests available" ∷ []

abbrev error_lines : Option String → Bool → List String
error_lines none available = no_tests available
error_lines (some text) available = if text == "" then no_tests available else text ∷ []

abbrev field_of {ℓ κ} : {A : Type ℓ} {B : Type κ} → (A → B) → Option A → Option B
field_of f none = none
field_of f (some a) = some (f a)

abbrev actual_of : Option VisibleTestResult → Option String
actual_of none = none
actual_of (some item) = item.actual_output

-- The payload that reports what the sandbox found.
unfoldable pub harness_payload :
    List PublicExample → SandboxExecutionResult → Result Exception PublicHarnessResultArtifact
harness_payload examples result = do
  let failed = first_failed result.per_test_visible_results
  example ← failed_example examples failed
  let available = ltb 0 result.total_count
  ok (record {
    harness_available = available;
    passed =
        available
        && (result.compiled
            && (result.passed_count == result.total_count
                && (result.runtime_errors == 0 && result.timeouts == 0)));
    pass_ratio = ratio result.passed_count result.total_count;
    compile_success = result.compiled;
    runtime_errors = result.runtime_errors;
    timeouts = result.timeouts;
    duration_ms = result.duration_ms;
    failure_summary = record {
      exception_type = none;
      compile_error = if result.compiled then none else result.stderr_summary;
      timeout = ltb 0 result.timeouts;
      public_input = field_of (λ (e : PublicExample). e.input) example;
      expected_public_output = field_of (λ (e : PublicExample). e.output) example;
      actual_public_output = actual_of failed;
      failed_public_test_index = field_of (λ (t : VisibleTestResult). t.index) failed;
      errors = error_lines result.stderr_summary available;
    };
  })

-- The task without private tests, which the sandbox is given.
abbrev visible_from : ProblemArtifact → String → AgentVisibleLcbTask
visible_from problem date = record {
  question_id = problem.question_id;
  question_title = problem.title;
  question_content = problem.statement;
  platform = problem.platform;
  contest_date = date;
  starter_code = problem.starter_code;
  difficulty = problem.difficulty;
  public_test_cases = problem.public_examples;
  function_name = problem.function_name;
}

-- `problem.contest_date or "1970-01-01T00:00:00"`
abbrev date_of : ProblemArtifact → String
date_of problem = if problem.contest_date == "" then "1970-01-01T00:00:00" else problem.contest_date

-- `AgentVisibleLCBTask(...)`, where pydantic refuses a date that it cannot read.
abbrev visible_task : Models → ProblemArtifact → Result Exception AgentVisibleLcbTask
visible_task models problem = do
  date ← or_raise (models.parse_datetime (date_of problem)) value_error
  ok (visible_from problem date)

-- `node.timeout_seconds or self.timeout_seconds`
abbrev timeout_or : Option ℕ → ℕ → ℕ
timeout_or none default = default
timeout_or (some zero) default = default
timeout_or (some (suc n)) default = suc n

-- Code that does not compile is not run.
run_sandbox :
    Models
    → Sandbox
    → ℕ
    → NodeSpec
    → ProblemArtifact
    → (code : String) → Option String
    → Result Exception SandboxExecutionResult
run_sandbox models sandbox default node problem code (some text) = ok (record {
  compiled = false;
  passed_count = 0;
  total_count = length problem.public_examples;
  runtime_errors = 0;
  timeouts = 0;
  stderr_summary = some text;
  per_test_visible_results = [];
  duration_ms = 0;
})
run_sandbox models sandbox default node problem code none = do
  task ← visible_task models problem
  sandbox.evaluate_public task code (timeout_or node.timeout_ms default)

unfoldable pub execute_harness :
    Models
    → Sandbox
    → (timeout_ms : ℕ) → NodeSpec
    → Inputs
    → (task_id : String) → Moment
    → Result Exception NodeExecutionResult
unfolding run_sandbox
execute_harness models sandbox timeout_ms node inputs task_id moment = do
  problem ← read_input models.parse_problem inputs "problem"
  code ← read_input models.parse_code inputs "code"
  result ←
      run_sandbox models sandbox timeout_ms node problem code.code (sandbox.syntax_error code.code)
  payload ← harness_payload problem.public_examples result
  publish models.rules node inputs task_id moment "PublicHarnessResultArtifact"
      (models.dump_result payload) no_usage

pub execute_harness-IsPublished :
    (models : Models) (sandbox : Sandbox) (timeout_ms : ℕ) (node : NodeSpec) (inputs : Inputs)
    (task_id : String) (moment : Moment) {r : NodeExecutionResult}
    → execute_harness models sandbox timeout_ms node inputs task_id moment ≡ ok r
    → IsPublished node inputs task_id r
unfolding execute_harness
execute_harness-IsPublished models sandbox timeout_ms node inputs task_id moment h =
    let (problem, _, h₁) = >>=-eq-ok (read_input models.parse_problem inputs "problem") _ h in
    let (code, _, h₂) = >>=-eq-ok (read_input models.parse_code inputs "code") _ h₁ in
    let (result, _, h₃) =
      >>=-eq-ok
        (run_sandbox models sandbox timeout_ms node problem code.code
          (sandbox.syntax_error code.code))
        _ h₂ in
    let (payload, _, h₄) = >>=-eq-ok (harness_payload problem.public_examples result) _ h₃ in
    publish-IsPublished models.rules node inputs task_id moment "PublicHarnessResultArtifact" _
      no_usage h₄

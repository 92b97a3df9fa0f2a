-- ===== src/Sandbox/Worker.antt =====
-- src/orchestra/sandbox/lcb_worker.py: the evaluation of public and of all tests. The checker of the
-- benchmark and Python's `compile` are parameters; the metadata of the worker is left out.
pub mod Tallies
use codename_madagascar.Prelude.Integers.{ℤ, pos, negsuc}
use codename_madagascar.Prelude.{
  ℕ, zero, suc, ◌+◌, ◌≤◌, String, Bool, true, false, not, ◌&&◌, ◌||◌, Option, none, some, List, [],
  ◌∷◌, map, filter, any, all, length, is_some, max, ◌/◌, ltb, ◌==◌, nat_eq, string_eq,
  if◌then◌else◌, ◌≡◌, refl, arith,
}
use codename_madagascar.Executors.Models.{
  PublicExample, AgentVisibleLcbTask, VisibleTestResult, SandboxExecutionResult,
}

-- What the checker gives for one test: a truth value, or a number.
pub data Verdict : Type 0 where
  flag : Bool → Verdict
  number : ℤ → Verdict

-- The three entries of the checker's metadata that are read.
pub record CheckerMetadata : Type 0 where
  pub error : Option String
  pub error_message : Option String
  pub output : Option String

pub record Checker : Type 0 where
  pub compile_error : (code : String) → Option String
  pub check_correctness :
      List PublicExample
      → (function_name : Option String) → (code : String) → (timeout_s : ℕ)
      → List Verdict × CheckerMetadata

-- `value is True or value == 1`
abbrev pub has_passed : Verdict → Bool
has_passed (flag b) = b
has_passed (number (pos n)) = n == 1
has_passed (number (negsuc n)) = false

-- `value in {-1, -3}` and `value == -4`
abbrev pub has_timed_out : Verdict → Bool
has_timed_out (number (negsuc n)) = n == 0 || n == 2
has_timed_out _ = false

abbrev pub has_failed_to_run : Verdict → Bool
has_failed_to_run (number (negsuc n)) = n == 3
has_failed_to_run _ = false

-- `str(metadata.get("error") or metadata.get("error_message"))`
abbrev text_or_none : Option String → String
text_or_none none = "None"
text_or_none (some text) = text

abbrev error_text : CheckerMetadata → String
error_text metadata = elim metadata.error [
  | none ↦ text_or_none metadata.error_message
  | some text ↦ if text == "" then text_or_none metadata.error_message else text
]

abbrev pub visible_result : CheckerMetadata → ℕ → Verdict → VisibleTestResult
visible_result metadata index value = record {
  index = index;
  passed = has_passed value;
  timed_out = has_timed_out value;
  runtime_error = if has_failed_to_run value then some (error_text metadata) else none;
  actual_output = if has_passed value then none else metadata.output;
}

-- The loop over `enumerate(results)`.
unfoldable pub visible_results : CheckerMetadata → ℕ → List Verdict → List VisibleTestResult
visible_results metadata index [] = []
visible_results metadata index (value ∷ values) =
    visible_result metadata index value ∷ visible_results metadata (suc index) values

-- `sum(test(item) for item in items)`
unfoldable pub tally : (VisibleTestResult → Bool) → List VisibleTestResult → ℕ
tally test [] = 0
tally test (item ∷ items) = (if test item then 1 else 0) + tally test items

abbrev truthy_text : Option String → Bool
truthy_text none = false
truthy_text (some text) = not (text == "")

-- `max(1, int(seconds))`
abbrev pub checker_timeout : ℕ → ℕ
checker_timeout per_test_ms = max 1 (per_test_ms / 1000)

abbrev pub report : CheckerMetadata → ℕ → ℕ → List VisibleTestResult → SandboxExecutionResult
report metadata total elapsed items = record {
  compiled = true;
  passed_count = tally (λ (item : VisibleTestResult). item.passed) items;
  total_count = total;
  runtime_errors = tally (λ (item : VisibleTestResult). is_some item.runtime_error) items;
  timeouts = tally (λ (item : VisibleTestResult). item.timed_out) items;
  stderr_summary =
      if any (λ (item : VisibleTestResult). truthy_text item.runtime_error || item.timed_out) items
      then some (error_text metadata)
      else none;
  per_test_visible_results = items;
  duration_ms = elapsed;
}

abbrev pub not_compiled : ℕ → String → SandboxExecutionResult
not_compiled total text = record {
  compiled = false;
  passed_count = 0;
  total_count = total;
  runtime_errors = 0;
  timeouts = 0;
  stderr_summary = some text;
  per_test_visible_results = [];
  duration_ms = 0;
}

-- The evaluation after `_compile_error`; the time that the checker takes is given.
unfoldable pub run_public :
    Checker
    → AgentVisibleLcbTask
    → (code : String) → (per_test_ms elapsed_ms : ℕ) → Option String
    → SandboxExecutionResult
run_public checker task code per_test_ms elapsed (some text) =
    not_compiled (length task.public_test_cases) text
run_public checker task code per_test_ms elapsed none =
    let (results, metadata) =
      checker.check_correctness task.public_test_cases task.function_name code
        (checker_timeout per_test_ms) in
    report metadata (length task.public_test_cases) elapsed (visible_results metadata 0 results)

unfoldable pub evaluate_public :
    Checker
    → AgentVisibleLcbTask
    → (code : String) → (per_test_ms elapsed_ms : ℕ) → SandboxExecutionResult
evaluate_public checker task code per_test_ms elapsed =
    run_public checker task code per_test_ms elapsed (checker.compile_error code)

-- `bool(results) and all(value is True or value == 1 for value in results)`
unfoldable pub all_passed : List Verdict → Bool
all_passed results = ltb 0 (length results) && all has_passed results

unfoldable pub run_final :
    Checker
    → List PublicExample
    → (function_name : Option String) → (code : String) → (per_test_ms : ℕ) → Option String
    → Bool
run_final checker tests function_name code per_test_ms (some text) = false
run_final checker tests function_name code per_test_ms none =
    all_passed (checker.check_correctness tests function_name code (checker_timeout per_test_ms)).0

-- `evaluate_private_final`, of which `pass_at_1` is the same as a number.
unfoldable pub evaluate_private_final :
    Checker
    → List PublicExample
    → (function_name : Option String) → (code : String) → (per_test_ms : ℕ) → Bool
evaluate_private_final checker tests function_name code per_test_ms =
    run_final checker tests function_name code per_test_ms (checker.compile_error code)

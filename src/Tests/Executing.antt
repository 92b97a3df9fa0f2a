-- ===== src/Tests/Executing.antt =====
-- The executors at sample inputs.
use codename_madagascar.Prelude.Integers.{fraction_eqb, fraction_ltb}
use codename_madagascar.Prelude.{
  ℕ, true, false, none, some, List, [], ◌∷◌, ◌++◌, count, contains, string_eq, ok, if◌then◌else◌,
  ◌≡◌, ◌↔◌, refl,
}
use codename_madagascar.Json.{null, end}
use codename_madagascar.Runtime.State.{no_usage}
use codename_madagascar.Executors.Models.{
  Models, PublicExample, AlgorithmPlanArtifact, EdgeCaseArtifact, VisibleFailureSummary,
  SandboxExecutionResult, PublicHarnessResultArtifact,
}
use codename_madagascar.Executors.Publish.{Moment}
use codename_madagascar.Executors.Selector.{
  rank, tuple_gtb, chosen_slot, is_better, chosen_slot_lem,
}
use codename_madagascar.Executors.Transform.{from_keys, merge, merge-IsDistinct}
use codename_madagascar.Executors.Harness.{harness_payload, ratio}
use codename_madagascar.Executors.Harness.Verdict.{IsClean, IsFull, harness_payload-IsClean}
use codename_madagascar.Executors.Registry.{Executors}
use codename_madagascar.Prompts.{Texts, parse_output}

abbrev no_failure : VisibleFailureSummary
no_failure = record {
  compile_error = none;
  exception_type = none;
  timeout = false;
  public_input = none;
  expected_public_output = none;
  actual_public_output = none;
  failed_public_test_index = none;
  errors = [];
}

abbrev report : ℕ → ℕ → ℕ → PublicHarnessResultArtifact
report passed total duration = record {
  harness_available = true;
  passed = true;
  pass_ratio = ratio passed total;
  compile_success = true;
  runtime_errors = 0;
  timeouts = 0;
  duration_ms = duration;
  failure_summary = no_failure;
}

tie : chosen_slot (report 1 2 7) (report 2 4 7) ≡ "initial_code"
unfolding rank tuple_gtb fraction_eqb fraction_ltb
tie = refl

chosen_slot_lem_example :
    chosen_slot (report 1 2 7) (report 2 2 9)
    ≡ (if is_better (report 2 2 9) (report 1 2 7) then "repaired_code" else "initial_code")
chosen_slot_lem_example = chosen_slot_lem (report 1 2 7) (report 2 2 9)

abbrev plan : AlgorithmPlanArtifact
plan = record {
  problem_summary = "";
  algorithm = "";
  data_structures = [];
  correctness_argument = "";
  time_complexity = "";
  space_complexity = "";
  edge_cases = "empty" ∷ "zero" ∷ [];
  implementation_notes = [];
}

abbrev edge_cases : EdgeCaseArtifact
edge_cases = record {
  input_output_interpretation = "";
  edge_cases = "zero" ∷ "large" ∷ [];
  overflow_risks = "large" ∷ [];
  indexing_risks = [];
  interface_concerns = [];
  likely_failure_modes = "large" ∷ [];
}

merge-edge_cases : (merge plan edge_cases).edge_cases ≡ "empty" ∷ "zero" ∷ "large" ∷ []
unfolding merge from_keys
merge-edge_cases = refl

merge-IsDistinct_example :
    (count "zero" (merge plan edge_cases).edge_cases
      ≡ (if contains (plan.edge_cases ++ edge_cases.edge_cases) "zero" then 1 else 0))
    × (count "zero" (merge plan edge_cases).implementation_risks ≡ (
        if contains
          (edge_cases.overflow_risks
            ++ (edge_cases.indexing_risks
                ++ (edge_cases.interface_concerns ++ edge_cases.likely_failure_modes)))
          "zero"
        then 1
        else 0))
merge-IsDistinct_example = merge-IsDistinct plan edge_cases "zero"

abbrev clean_run : SandboxExecutionResult
clean_run = record {
  compiled = true;
  passed_count = 1;
  total_count = 1;
  runtime_errors = 0;
  timeouts = 0;
  stderr_summary = none;
  per_test_visible_results =
      record {
        index = 0;
        passed = true;
        timed_out = false;
        runtime_error = none;
        actual_output = some "3";
      }
      ∷ [];
  duration_ms = 7;
}

abbrev examples : List PublicExample
examples = record { input = "1 2"; output = "3"; testtype = "stdin" } ∷ []

harness_payload-IsClean_example :
    ((report 1 1 7).passed ≡ true) ↔ (IsClean clean_run × IsFull clean_run (report 1 1 7))
unfolding harness_payload
harness_payload-IsClean_example = harness_payload-IsClean examples clean_run (report 1 1 7) refl

abbrev models : Models
models = record {
  rules = record { parse = λ name payload. some payload; digest = λ payload. "d0" };
  parse_problem = λ payload. none;
  parse_plan = λ payload. some plan;
  parse_edge_cases = λ payload. some edge_cases;
  parse_datetime = λ text. some text;
  parse_code = λ payload. some (record { code = "print(3)"; source_node = ""; explanation = none });
  parse_repair = λ payload. none;
  parse_result = λ payload. some (report 1 1 7);
  dump_combined = λ a. end;
  dump_code = λ a. end;
  dump_final = λ a. end;
  dump_result = λ a. end;
}

abbrev executors : Executors
executors = record {
  models = models;
  client = record {
    generate = λ contract inputs timeout. ok ("print(3)", no_usage);
    parse_output = λ parser text schema node. ok (schema, end);
  };
  contracts = [];
  sandbox = record {
    syntax_error = λ code. none;
    evaluate_public = λ task code timeout. ok clean_run;
  };
  harness_timeout_ms = 10000;
  message = λ e. "error";
}

abbrev moment : Moment
moment = record { uuid = "u1"; now = "now"; latency_ms = 3 }

abbrev texts : Texts
texts = record {
  code_blocks = λ text. [];
  strip = λ text. text;
  loads = λ text. some null;
  dumps = λ value. "{}";
  fill = λ template serialized. serialized;
  validate = λ name value. some end;
  dump_code = λ code. end;
}

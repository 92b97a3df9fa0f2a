-- ===== src/Ir/Schemas.antt =====
-- The registry of payload schemas (src/orchestra/ir/artifacts.py) with the field names of each
-- class of src/orchestra/schemas/artifacts.py, in declaration order.
use codename_madagascar.Prelude.{String, List, [], ◌∷◌, Dict}

abbrev pub SchemaFields : Type 0
SchemaFields = Dict String (List String)

abbrev versioned : List String → List String
versioned fields = "schema_version" ∷ fields

problem_fields : List String
problem_fields = versioned (
    "question_id" ∷ "title" ∷ "statement" ∷ "starter_code" ∷ "difficulty" ∷ "platform"
    ∷ "contest_date" ∷ "public_examples" ∷ "function_name" ∷ [])

plan_fields : List String
plan_fields = versioned (
    "problem_summary" ∷ "algorithm" ∷ "data_structures" ∷ "correctness_argument" ∷ "time_complexity"
    ∷ "space_complexity" ∷ "edge_cases" ∷ "implementation_notes" ∷ [])

edge_case_fields : List String
edge_case_fields = versioned (
    "input_output_interpretation" ∷ "edge_cases" ∷ "overflow_risks" ∷ "indexing_risks"
    ∷ "interface_concerns" ∷ "likely_failure_modes" ∷ [])

combined_plan_fields : List String
combined_plan_fields = versioned (
    "problem_summary" ∷ "algorithm" ∷ "correctness_argument" ∷ "time_complexity"
    ∷ "space_complexity" ∷ "data_structures" ∷ "edge_cases" ∷ "implementation_risks" ∷ [])

code_fields : List String
code_fields = versioned ("language" ∷ "code" ∷ "source_node" ∷ "explanation" ∷ [])

failure_fields : List String
failure_fields = versioned (
    "compile_error" ∷ "exception_type" ∷ "timeout" ∷ "public_input" ∷ "expected_public_output"
    ∷ "actual_public_output" ∷ "failed_public_test_index" ∷ "errors" ∷ [])

repair_input_fields : List String
repair_input_fields =
    versioned ("problem" ∷ "plan" ∷ "previous_code" ∷ "visible_failure_summary" ∷ [])

repair_fields : List String
repair_fields = versioned ("diagnosis" ∷ "changes" ∷ "revised_code" ∷ [])

harness_result_fields : List String
harness_result_fields = versioned (
    "harness_available" ∷ "passed" ∷ "pass_ratio" ∷ "compile_success" ∷ "runtime_errors"
    ∷ "timeouts" ∷ "duration_ms" ∷ "failure_summary" ∷ [])

final_code_fields : List String
final_code_fields = versioned ("language" ∷ "code" ∷ "source_artifact_id" ∷ [])

unfoldable pub payload_schemas : SchemaFields
unfolding problem_fields plan_fields edge_case_fields combined_plan_fields code_fields
    failure_fields repair_input_fields repair_fields harness_result_fields final_code_fields
payload_schemas =
    ("ProblemArtifact", problem_fields)
    ∷ ("AlgorithmPlanArtifact", plan_fields)
    ∷ ("EdgeCaseArtifact", edge_case_fields)
    ∷ ("CombinedPlanArtifact", combined_plan_fields)
    ∷ ("CodeArtifact", code_fields)
    ∷ ("PublicHarnessResultArtifact", harness_result_fields)
    ∷ ("VisibleFailureSummary", failure_fields)
    ∷ ("RepairInputArtifact", repair_input_fields)
    ∷ ("RepairArtifact", repair_fields)
    ∷ ("FinalCodeArtifact", final_code_fields)
    ∷ []

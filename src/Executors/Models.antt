-- ===== src/Executors/Models.antt =====
-- src/orchestra/schemas/artifacts.py, schemas/task.py and sandbox/result.py: the payloads that the
-- executors read and write, without the fields of one value (schema_version, language) and without
-- metadata. A ratio is the fraction n / (d + 1) that the float rounds.
use codename_madagascar.Prelude.Integers.{ℤ}
use codename_madagascar.Prelude.{ℕ, String, Bool, Option, List}
use codename_madagascar.Json.{Fields}
use codename_madagascar.Ir.Artifacts.{PayloadRules}

pub record PublicExample : Type 0 where
  pub input : String
  pub output : String
  pub testtype : String

pub record ProblemArtifact : Type 0 where
  pub question_id : String
  pub title : String
  pub statement : String
  pub starter_code : String
  pub difficulty : String
  pub platform : String
  pub contest_date : String
  pub public_examples : List PublicExample
  pub function_name : Option String

pub record AlgorithmPlanArtifact : Type 0 where
  pub problem_summary : String
  pub algorithm : String
  pub data_structures : List String
  pub correctness_argument : String
  pub time_complexity : String
  pub space_complexity : String
  pub edge_cases : List String
  pub implementation_notes : List String

pub record EdgeCaseArtifact : Type 0 where
  pub input_output_interpretation : String
  pub edge_cases : List String
  pub overflow_risks : List String
  pub indexing_risks : List String
  pub interface_concerns : List String
  pub likely_failure_modes : List String

pub record CombinedPlanArtifact : Type 0 where
  pub problem_summary : String
  pub algorithm : String
  pub correctness_argument : String
  pub time_complexity : String
  pub space_complexity : String
  pub data_structures : List String
  pub edge_cases : List String
  pub implementation_risks : List String

pub record CodeArtifact : Type 0 where
  pub code : String
  pub source_node : String
  pub explanation : Option String

pub record VisibleFailureSummary : Type 0 where
  pub compile_error : Option String
  pub exception_type : Option String
  pub timeout : Bool
  pub public_input : Option String
  pub expected_public_output : Option String
  pub actual_public_output : Option String
  pub failed_public_test_index : Option ℕ
  pub errors : List String

pub record RepairArtifact : Type 0 where
  pub diagnosis : String
  pub changes : List String
  pub revised_code : String

pub record PublicHarnessResultArtifact : Type 0 where
  pub harness_available : Bool
  pub passed : Bool
  pub pass_ratio : ℤ × ℕ
  pub compile_success : Bool
  pub runtime_errors : ℕ
  pub timeouts : ℕ
  pub duration_ms : ℕ
  pub failure_summary : VisibleFailureSummary

pub record FinalCodeArtifact : Type 0 where
  pub code : String
  pub source_artifact_id : String

pub record AgentVisibleLcbTask : Type 0 where
  pub question_id : String
  pub question_title : String
  pub question_content : String
  pub platform : String
  pub contest_date : String
  pub starter_code : String
  pub difficulty : String
  pub public_test_cases : List PublicExample
  pub function_name : Option String

pub record VisibleTestResult : Type 0 where
  pub index : ℕ
  pub passed : Bool
  pub timed_out : Bool
  pub runtime_error : Option String
  pub actual_output : Option String

pub record SandboxExecutionResult : Type 0 where
  pub compiled : Bool
  pub passed_count : ℕ
  pub total_count : ℕ
  pub runtime_errors : ℕ
  pub timeouts : ℕ
  pub stderr_summary : Option String
  pub per_test_visible_results : List VisibleTestResult
  pub duration_ms : ℕ

-- `model_validate` and `model_dump` of the payload classes, which pydantic gives; a datetime
-- is its ISO text.
pub record Models : Type 0 where
  pub rules : PayloadRules
  pub parse_datetime : String → Option String
  pub parse_problem : Fields → Option ProblemArtifact
  pub parse_plan : Fields → Option AlgorithmPlanArtifact
  pub parse_edge_cases : Fields → Option EdgeCaseArtifact
  pub parse_code : Fields → Option CodeArtifact
  pub parse_repair : Fields → Option RepairArtifact
  pub parse_result : Fields → Option PublicHarnessResultArtifact
  pub dump_combined : CombinedPlanArtifact → Fields
  pub dump_code : CodeArtifact → Fields
  pub dump_final : FinalCodeArtifact → Fields
  pub dump_result : PublicHarnessResultArtifact → Fields

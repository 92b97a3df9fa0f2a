-- ===== src/Adapters/Tasks.antt =====
-- src/orchestra/schemas/task.py, and PrivateTestRepository of
-- src/orchestra/adapters/livecodebench/loader.py.
use codename_madagascar.Prelude.{
  String, Option, List, Dict, lookup, insert, string_eq, Result, or_raise,
}
use codename_madagascar.Exceptions.{Exception, key_error}
use codename_madagascar.Json.{Value}
use codename_madagascar.Executors.Models.{PublicExample, ProblemArtifact}

pub record LcbTask : Type 0 where
  pub question_id : String
  pub release_version : String
  pub problem : ProblemArtifact
  -- `metadata["contest_id"]`
  pub contest_id : Value

pub record PrivateTestCase : Type 0 where
  pub input : String
  pub output : String
  pub testtype : String

pub record PrivateTaskData : Type 0 where
  pub question_id : String
  pub private_tests : List PrivateTestCase
  pub public_tests : List PublicExample
  pub function_name : Option String

pub record HiddenLcbEvaluationRecord : Type 0 where
  pub question_id : String
  pub private_test_cases_ref : String

abbrev pub PrivateTestRepository : Type 0
PrivateTestRepository = Dict String PrivateTaskData

abbrev pub add : PrivateTaskData → PrivateTestRepository → PrivateTestRepository
add item items = insert item.question_id item items

abbrev pub get_for_final_evaluation :
    String → PrivateTestRepository → Result Exception PrivateTaskData
get_for_final_evaluation question_id items = or_raise (lookup question_id items) key_error

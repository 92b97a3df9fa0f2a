-- ===== src/Cli/Evaluate.antt =====
-- src/orchestra/cli/evaluate.py. The files `graph_result.json` are a dictionary from tasks to states,
-- and the files `final_evaluation.json` one from tasks to evaluations; both hold what was parsed. The
-- parsing of the final code by pydantic is a parameter. What is printed is left out.
pub mod Complete
pub mod Again
use codename_madagascar.Prelude.{
  ℕ, suc, ◌+◌, String, Bool, true, false, not, ◌||◌, Option, none, some, List, [], ◌∷◌, ◌++◌, Dict,
  lookup, insert, ◌==◌, string_eq, Result, ok, err, ◌>>=◌, ◌>>◌, raise_if, or_raise, if◌then◌else◌,
}
use codename_madagascar.Exceptions.{Exception, value_error, runtime_error, file_not_found_error}
use codename_madagascar.Json.{Fields}
use codename_madagascar.Ir.Artifacts.{ArtifactEnvelope}
use codename_madagascar.Storage.Interface.{ArtifactStore}
use codename_madagascar.Runtime.State.{RuntimeState}
use codename_madagascar.Executors.Models.{FinalCodeArtifact}
use codename_madagascar.Sandbox.Official.{Machine, Runner, create_runner}
use codename_madagascar.Adapters.Loader.{Texts, Filters}
use codename_madagascar.Adapters.Loader.Load.{load}
use codename_madagascar.Adapters.Final.{
  FinalEvaluation, FinalLcbEvaluator, evaluate_frozen_run, build_official_record,
}

pub data EventType : Type 0 where
  private_evaluation_started private_evaluation_completed : EventType

pub record Event : Type 0 where
  pub run_id : String
  pub task_id : String
  pub graph_id : String
  pub event_type : EventType
  pub status : Option String

-- What the loop writes, and its two local variables.
pub record Progress : Type 0 where
  pub evaluations : Dict String FinalEvaluation
  pub events : List Event
  pub predictions : List (String × List String)
  pub passed : ℕ

-- `not state.final_output_artifact_id`
abbrev pub is_missing : Option String → Bool
is_missing none = true
is_missing (some id) = id == ""

-- The identifier that a state without one does not have is never read.
abbrev id_or_empty : Option String → String
id_or_empty none = ""
id_or_empty (some id) = id

-- `int(passed)`
abbrev pub to_int : Bool → ℕ
to_int true = 1
to_int false = 0

-- `predictions.append(build_official_record(qid, final.code))`
abbrev pub predict : String → String → Progress → Progress
predict qid code progress = record progress {
  predictions = progress.predictions ++ (build_official_record qid code ∷ []);
}

abbrev pub count_passed : FinalEvaluation → Progress → Progress
count_passed evaluation progress = record progress {
  passed = progress.passed + to_int evaluation.passed;
}

abbrev pub event : String → RuntimeState → String → EventType → Option String → Event
event graph_id state qid type status = record {
  run_id = state.run_id;
  task_id = qid;
  graph_id = graph_id;
  event_type = type;
  status = status;
}

-- A new evaluation with its two events.
abbrev pub record_new : String → RuntimeState → String → FinalEvaluation → Progress → Progress
record_new graph_id state qid evaluation progress = record progress {
  evaluations = insert qid evaluation progress.evaluations;
  events =
      progress.events
      ++ (event graph_id state qid private_evaluation_started none
          ∷ event graph_id state qid private_evaluation_completed
              (some (if evaluation.passed then "passed" else "failed"))
          ∷ []);
  passed = progress.passed + to_int evaluation.passed;
}

abbrev pub fresh : Dict String FinalEvaluation → List Event → Progress
fresh evaluations events = record {
  evaluations = evaluations;
  events = events;
  predictions = [];
  passed = 0;
}

-- What the command reads of the directory of a run.
pub record RunDir : Type 1 where
  pub store : ArtifactStore
  pub artifacts : store.State
  pub results : Dict String RuntimeState
  -- `FinalCodeArtifact.model_validate`
  pub parse_final : Fields → Option FinalCodeArtifact
  pub graph_id : String

module _ (dir : RunDir) where
  -- The state and the final code of a task, from the head of the body of the loop.
  unfoldable pub read_final : String → Result Exception (RuntimeState × String)
  read_final qid = do
    state ← or_raise (lookup qid dir.results) file_not_found_error
    frozen ← raise_if (not state.frozen || is_missing state.final_output_artifact_id) runtime_error
    artifact ← dir.store.get (id_or_empty state.final_output_artifact_id) dir.artifacts
    final ← or_raise (dir.parse_final artifact.payload) value_error
    ok (state, final.code)

module _ (dir : RunDir) (machine : Machine) (evaluator : FinalLcbEvaluator) where
  -- The rest of the body: an evaluation that is there is read, any other one is made.
  unfoldable pub settle :
      String → RuntimeState → String → Option FinalEvaluation → Progress → Result Exception Progress
  settle qid state code (some evaluation) progress =
      ok (count_passed evaluation (predict qid code progress))
  settle qid state code none progress = do
    evaluation ← evaluate_frozen_run machine evaluator state code qid
    ok (record_new dir.graph_id state qid evaluation (predict qid code progress))

  unfoldable pub evaluate_task : String → Progress → Result Exception Progress
  evaluate_task qid progress = do
    (state, code) ← read_final dir qid
    settle qid state code (lookup qid progress.evaluations) progress

  -- The loop over the identifiers of the manifest.
  unfoldable pub evaluate_tasks : List String → Progress → Result Exception Progress
  evaluate_tasks [] progress = ok progress
  evaluate_tasks (qid ∷ ids) progress = do
    next ← evaluate_task qid progress
    evaluate_tasks ids next

-- What the configuration and the manifest of the run give.
pub record EvaluationConfig : Type 0 where
  pub ids : List String
  pub release_version : String
  pub livecodebench_commit : String
  pub num_process_evaluate : ℕ
  pub worker_grace_ms : ℕ
  pub max_worker_wall_ms : ℕ
  pub per_test_timeout_ms : ℕ

-- `load(task_ids=…)`
abbrev pub only_tasks : List String → Filters
only_tasks ids = record {
  start_date = "";
  end_date = "";
  difficulties = [];
  platforms = [];
  task_ids = ids;
}

-- `_evaluate`: the rows of the benchmark are loaded, and the tasks of the manifest are evaluated. The
-- predictions of the result are what export_predictions writes.
unfoldable pub evaluate_run :
    Texts
    → Dict String (List String)
    → (has_repository : Bool) → RunDir
    → Machine
    → EvaluationConfig
    → Dict String FinalEvaluation
    → List Event
    → Result Exception Progress
evaluate_run texts data_dir has_repository dir machine config evaluations events = do
  (tasks, private_repository) ← load texts (only_tasks config.ids) config.release_version data_dir
  runner ←
      create_runner has_repository config.num_process_evaluate config.worker_grace_ms
        config.max_worker_wall_ms
  evaluate_tasks dir machine
      (record {
        private_repository = private_repository;
        evaluator_commit = config.livecodebench_commit;
        runner = runner;
        per_test_timeout_ms = config.per_test_timeout_ms;
      })
      config.ids (fresh evaluations events)

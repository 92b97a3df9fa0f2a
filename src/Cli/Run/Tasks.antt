-- ===== src/Cli/Run/Tasks.antt =====
-- src/orchestra/cli/run.py: the run of each task, and of all of them. The two events of the whole run
-- and the file run_manifest.json are left out.
use Prim.Native.String.{◌++◌ as str_append}
use codename_madagascar.Prelude.Texts.{prefix}
use codename_madagascar.Prelude.{
  ℕ, String, Option, none, some, List, [], ◌∷◌, map, Dict, lookup, insert_all, ◌==◌, string_eq,
  Result, ok, err, if◌then◌else◌,
}
use codename_madagascar.Exceptions.{Exception, key_error, type_error, graph_deadlock_error}
use codename_madagascar.Json.{Fields}
use codename_madagascar.Ir.Nodes.{NodeSpec}
use codename_madagascar.Ir.Artifacts.{ArtifactEnvelope, PayloadRules, create_artifact}
use codename_madagascar.Storage.Interface.{ArtifactStore}
use codename_madagascar.Compiler.Compile.{CompiledGraph}
use codename_madagascar.Executors.Models.{ProblemArtifact}
use codename_madagascar.Runtime.State.{RuntimeState, NodeExecutionResult}
use codename_madagascar.Runtime.Loop.Round.{World}
use codename_madagascar.Runtime.Loop.Execute.{RunContext, execute}
use codename_madagascar.Adapters.Tasks.{LcbTask}
use codename_madagascar.Adapters.Loader.{Texts}
use codename_madagascar.Adapters.Loader.Load.{load}
use codename_madagascar.Cli.Evaluate.{only_tasks}
use codename_madagascar.Cli.Run.{
  RunArgs, SandboxSection, Sandbox, Host, selected_ids, choose_sandbox,
}

pub data EventType : Type 0 where
  task_started task_failed task_completed : EventType

-- An event of the command; `status` is empty where the code gives none.
pub record Event : Type 0 where
  pub task_id : Option String
  pub event_type : EventType
  pub status : String

-- What `run_one` returns, and the events that it writes before and after the runtime's own.
pub record TaskReport : Type 0 where
  pub task_id : String
  pub result : Option RuntimeState
  pub events : List Event

abbrev pub event_of : Option String → EventType → String → Event
event_of task_id type status = record { task_id = task_id; event_type = type; status = status }

abbrev pub report : String → Option RuntimeState → EventType → String → TaskReport
report qid result type status = record {
  task_id = qid;
  result = result;
  events = event_of (some qid) task_started "" ∷ event_of (some qid) type status ∷ [];
}

-- The artifact store and the checkpoints of the tasks, what the executors answer with the sandbox
-- that is chosen, and what the initial artifacts are made of.
pub record Setup : Type 1 where
  pub store : ArtifactStore
  pub validate : ArtifactEnvelope → Result Exception (Unit {0})
  pub executors :
      Sandbox
      → (task_id : String) → NodeSpec
      → Dict String ArtifactEnvelope
      → Result Exception NodeExecutionResult
  pub worlds :
      (sandbox : Sandbox) (task_id : String) → World store validate (executors sandbox task_id)
  pub empty : store.State
  pub rules : PayloadRules
  pub dump_problem : ProblemArtifact → Fields
  pub uuid : String → String
  pub now : String → String

pub record RunConfig : Type 0 where
  pub run_id : String
  pub contract_hash : String
  pub release_version : String
  pub max_parallel_nodes_per_task : ℕ
  pub sandbox : SandboxSection

-- `args.run_id or f"{name}-{manifest_sha256[:8]}-{content_hash[:8]}"`
unfoldable pub run_id_of :
    (run_id name : String) → Option String → (content_hash : String) → Result Exception String
run_id_of run_id name manifest_sha256 content_hash =
    if run_id == "" then default_id manifest_sha256 else ok run_id
  where
    default_id : Option String → Result Exception String
    default_id none = err type_error
    default_id (some sha) = ok (
        str_append name
          (str_append "-" (str_append (prefix 8 sha) (str_append "-" (prefix 8 content_hash)))))

module _ (setup : Setup) (sandbox : Sandbox) (args : RunArgs) (config : RunConfig)
    (compiled : CompiledGraph) where
  abbrev pub W : String → Type 0
  W qid = World setup.store setup.validate (setup.executors sandbox qid)

  -- `--force-rerun` removes the directories of the tasks of the run.
  abbrev pub world_of : (qid : String) → W qid
  world_of qid =
      if args.force_rerun
      then record {
        artifacts = setup.empty;
        events = [];
        checkpoints = record (setup.worlds sandbox qid).checkpoints { files = [] };
      }
      else setup.worlds sandbox qid

  abbrev pub context_of : String → RunContext
  context_of qid = record {
    run_id = config.run_id;
    task_id = qid;
    contract_hash = config.contract_hash;
    max_parallel_nodes_per_task = config.max_parallel_nodes_per_task;
    allow_config_drift = args.allow_config_drift;
  }

  abbrev pub slots_of : String → LcbTask → Dict String ArtifactEnvelope
  slots_of qid task =
      (
        "problem",
        create_artifact setup.rules "ProblemArtifact" (setup.dump_problem task.problem) "__input__"
            qid [] (setup.uuid qid) (setup.now qid),
      )
      ∷ []

  -- The `try` around `runtime.execute`: a deadlock fails the task, any other exception leaves it.
  unfoldable pub report_of :
      (qid : String) → Result Exception (RuntimeState × W qid) → Result Exception TaskReport
  report_of qid (ok (state, world)) =
      ok (report qid (some state) task_completed (if state.frozen then "frozen" else "incomplete"))
  report_of qid (err graph_deadlock_error) = ok (report qid none task_failed "failed")
  report_of qid (err e) = err e

  -- `run_one`, on fuel for the loop of the runtime.
  unfoldable pub run_one : ℕ → Dict String LcbTask → String → Option (Result Exception TaskReport)
  run_one fuel task_map qid = elim (lookup qid task_map) [
    | none ↦ some (err key_error)
    | some task ↦
        elim (execute setup.store setup.validate (setup.executors sandbox qid) fuel (context_of qid)
          compiled.graph (slots_of qid task) (world_of qid)) [
            | none ↦ none
            | some outcome ↦ some (report_of qid outcome)
          ]
  ]

  -- The tasks of the TaskGroup: an exception of one of them ends the command.
  unfoldable pub run_tasks :
      ℕ → Dict String LcbTask → List String → Option (Result Exception (List TaskReport))
  run_tasks fuel task_map [] = some (ok [])
  run_tasks fuel task_map (qid ∷ ids) = elim (run_one fuel task_map qid) [
    | none ↦ none
    | some (err e) ↦ some (err e)
    | some (ok first) ↦ elim (run_tasks fuel task_map ids) [
      | none ↦ none
      | some (err e) ↦ some (err e)
      | some (ok rest) ↦ some (ok (first ∷ rest))
    ]
  ]

abbrev pub task_map_of : List LcbTask → Dict String LcbTask
task_map_of tasks = insert_all (map (λ (task : LcbTask). (task.question_id, task)) tasks) []

-- How a command ends: with what `--dry-run` prints, or with a report for each task.
pub data Ending : Type 0 where
  dry : (task_ids : List String) (waves : List (List String)) → Ending
  finished : List TaskReport → Ending

-- `_run`, after the configuration, the manifest and the contracts are read and the graph compiled.
unfoldable pub run_command :
    ℕ
    → Texts
    → Dict String (List String)
    → Host
    → Setup
    → RunArgs
    → RunConfig
    → CompiledGraph
    → (manifest_ids : List String) → Option (Result Exception Ending)
run_command fuel texts data_dir host setup args config compiled manifest_ids =
    let ids = selected_ids args manifest_ids in
    if args.dry_run
    then some (ok (dry ids compiled.waves))
    else elim (load texts (only_tasks ids) config.release_version data_dir) [
      | err e ↦ some (err e)
      | ok (tasks, repository) ↦ elim (choose_sandbox args.mock_llm config.sandbox host) [
        | err e ↦ some (err e)
        | ok sandbox ↦
            elim (run_tasks setup sandbox args config compiled fuel (task_map_of tasks) ids) [
              | none ↦ none
              | some (err e) ↦ some (err e)
              | some (ok reports) ↦ some (ok (finished reports))
            ]
      ]
    ]

-- ===== src/Tests/Commanding.antt =====
-- The command that runs the tasks of a manifest, at the sample pipeline.
use codename_madagascar.Prelude.Integers.{pos}
use codename_madagascar.Prelude.Sorting.{sort_by}
use codename_madagascar.Prelude.{
  String, true, false, Option, none, some, List, [], ◌∷◌, map, Dict, lookup, insert, insert_all,
  All, string_eq, Result, ok, err, ◌≡◌, refl, arith,
}
use codename_madagascar.Exceptions.{Exception}
use codename_madagascar.Json.{null, end, get_field}
use codename_madagascar.Ir.Schemas.{payload_schemas}
use codename_madagascar.Ir.Edges.{evaluate, resolve, split_dots, test}
use codename_madagascar.Ir.Artifacts.{validate_payload, create_artifact}
use codename_madagascar.Storage.Files.{matches, put, get}
use codename_madagascar.Runtime.Scheduler.{
  incoming, resolve_edges, resolve_slot, resolve_slots, resolve_input_ids, is_ready, select,
  find_ready_nodes, all_dead, has_dead_slot, is_impossible, impossible_nodes,
}
use codename_madagascar.Runtime.Committer.{
  freeze_final, edge_enabled, switch_edge, decide_edge, decide_edges, record_success, settle,
  commit_result, commit_results, skip_nodes, persist_outputs, persist_results, commit_wave,
}
use codename_madagascar.Runtime.Checkpoint.{save, load}
use codename_madagascar.Runtime.Loop.Events.{wave_events}
use codename_madagascar.Runtime.Loop.Round.{
  load_inputs, start_nodes, run_nodes, skip_impossible, run_wave, finalize, round,
}
use codename_madagascar.Runtime.Loop.Execute.{
  run_loop, initial_state, resume, put_all, get_all, frozen_event, run_from, prepare, execute,
}
use codename_madagascar.Executors.Models.{ProblemArtifact}
use codename_madagascar.Adapters.Tasks.{LcbTask}
use codename_madagascar.Sandbox.Official.{Runner, create_runner}
use codename_madagascar.Cli.Run.{
  RunArgs, SandboxSection, Host, lcb_official, mock_sandbox, official_sandbox, choose_sandbox,
}
use codename_madagascar.Cli.Run.Tasks.{TaskReport, Setup, RunConfig, report_of, run_one, run_tasks}
use codename_madagascar.Cli.Run.Reports.{IsReported, id_of, run_tasks-IsReported}
use codename_madagascar.Tests.Compiling.{compiled}
use codename_madagascar.Tests.Running.{rules, store, check, answer, empty_world}

-- All that a run of the command calls.
program : Unit {0}
unfolding lookup insert insert_all sort_by get_field payload_schemas evaluate resolve split_dots
    test validate_payload create_artifact matches put get incoming resolve_edges resolve_slot
    resolve_slots resolve_input_ids is_ready select find_ready_nodes all_dead has_dead_slot
    is_impossible impossible_nodes freeze_final edge_enabled switch_edge decide_edge decide_edges
    record_success settle commit_result commit_results skip_nodes persist_outputs persist_results
    commit_wave save load wave_events load_inputs start_nodes run_nodes skip_impossible run_wave
    finalize round run_loop initial_state resume put_all get_all frozen_event run_from prepare
    execute report_of run_one run_tasks
program = tt

abbrev args : RunArgs
args = record {
  task_id = "";
  limit = some (pos 1);
  mock_llm = false;
  dry_run = false;
  force_rerun = false;
  allow_config_drift = false;
}

abbrev section : SandboxSection
section = record {
  backend = lcb_official;
  per_test_timeout_ms = 6000;
  worker_grace_ms = 5000;
  max_worker_wall_ms = 60000;
  num_process_evaluate = 1;
  memory_mb = 2048;
  image = "python:3.11-slim";
}

abbrev host : Host
host = record { has_repository = true; has_docker = false; has_credentials = true }

abbrev runner : Runner
runner = record { worker_grace_ms = 5000; max_worker_wall_ms = 60000 }

choose_sandbox-official : choose_sandbox false section host ≡ ok (official_sandbox runner)
unfolding choose_sandbox create_runner
choose_sandbox-official = refl

abbrev config : RunConfig
config = record {
  run_id = "r1";
  contract_hash = "c0";
  release_version = "release_v6";
  max_parallel_nodes_per_task = 4;
  sandbox = section;
}

abbrev setup : Setup
setup = record {
  store = store;
  validate = check;
  executors = λ sandbox qid. answer;
  worlds = λ sandbox qid. empty_world;
  empty = [];
  rules = rules;
  dump_problem = λ problem. end;
  uuid = λ qid. "u1";
  now = λ qid. "now";
}

abbrev problem : ProblemArtifact
problem = record {
  question_id = "t1";
  title = "Sum";
  statement = "Add two numbers.";
  starter_code = "";
  difficulty = "easy";
  platform = "atcoder";
  contest_date = "2024-05-01";
  public_examples = [];
  function_name = none;
}

abbrev task_map : Dict String LcbTask
task_map =
    (
      "t1",
      record {
        question_id = "t1";
        release_version = "release_v6";
        problem = problem;
        contest_id = null;
      },
    )
    ∷ []

abbrev of_run : Option (Result Exception (List TaskReport)) → List TaskReport
of_run none = []
of_run (some (err e)) = []
of_run (some (ok reports)) = reports

abbrev reports : List TaskReport
reports = of_run (run_tasks setup mock_sandbox args config compiled 4 task_map ("t1" ∷ []))

run_tasks-IsReported_example :
    (map id_of reports ≡ "t1" ∷ [])
    × All (IsReported setup mock_sandbox args config compiled 4 task_map) reports
unfolding program
run_tasks-IsReported_example =
    run_tasks-IsReported setup mock_sandbox args config compiled 4 task_map ("t1" ∷ []) reports
      (λ qid state h. absurd (ground arith)) refl

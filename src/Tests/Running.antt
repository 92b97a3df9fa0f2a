-- ===== src/Tests/Running.antt =====
-- The stores and the runtime at the sample pipeline.
use codename_madagascar.Prelude.Sorting.{sort_by}
use codename_madagascar.Prelude.{
  String, true, false, Option, none, some, List, [], ◌∷◌, map, Dict, lookup, insert, insert_all,
  is_some, ◌==◌, string_eq, pair_eq, Result, ok, err, if◌then◌else◌, ◌≡◌, ◌↔◌, refl, arith,
}
use codename_madagascar.Exceptions.{checkpoint_drift_error, Exception, runtime_error}
use codename_madagascar.Json.{obj, Value, bool, Fields, end, field, get_field}
use codename_madagascar.Ir.Schemas.{payload_schemas}
use codename_madagascar.Ir.Nodes.{NodeSpec}
use codename_madagascar.Ir.Edges.{evaluate, resolve, split_dots, test}
use codename_madagascar.Ir.Artifacts.{
  ArtifactEnvelope, PayloadRules, validate_payload, create_artifact,
}
use codename_madagascar.Ir.Artifacts.Validation.{validate_payload-create_artifact}
use codename_madagascar.Storage.Interface.{ArtifactStore}
use codename_madagascar.Storage.Files.{Codec, Files, matches, put, get}
use codename_madagascar.Storage.Files.Laws.{lookup-put, get-put, put-put, file_store}
use codename_madagascar.Runtime.State.{succeeded, RuntimeState, NodeExecutionResult, no_usage}
use codename_madagascar.Runtime.Scheduler.{
  incoming, resolve_edges, resolve_slot, resolve_slots, resolve_input_ids, is_ready, select,
  find_ready_nodes, all_dead, has_dead_slot, is_impossible, impossible_nodes,
}
use codename_madagascar.Runtime.Committer.{
  Commit, freeze_final, edge_enabled, switch_edge, decide_edge, decide_edges, record_success,
  settle, commit_result, commit_results, skip_nodes, persist_outputs, persist_results, commit_wave,
}
use codename_madagascar.Runtime.Committer.Persist.{Keeps, AllStored, commit_wave-Stored}
use codename_madagascar.Runtime.Committer.Progress.{Progress}
use codename_madagascar.Runtime.Committer.Freezing.{commit_wave-Progress}
use codename_madagascar.Ir.Edges.Conditions.{IsAt, IsMet, evaluate-IsMet}
use codename_madagascar.Runtime.Checkpoint.{save, load}
use codename_madagascar.Runtime.Loop.Events.{wave_events}
use codename_madagascar.Runtime.Loop.Round.{
  World, load_inputs, start_nodes, run_nodes, skip_impossible, run_wave, finalize, round,
}
use codename_madagascar.Runtime.Loop.Execute.{
  RunContext, run_loop, initial_state, resume, put_all, get_all, frozen_event, run_from, prepare,
  execute,
}
use codename_madagascar.Runtime.Loop.Resume.{saved_world, is_accepted, execute-save}
use codename_madagascar.Runtime.Loop.Outcome.{execute_total, execute-IsFrozen}
use codename_madagascar.Runtime.Loop.Finished.{IsFinished, run_loop-IsFinished}
use codename_madagascar.Tests.Graphs.{passed, pipeline}

-- All that a run calls.
program : Unit {0}
unfolding lookup insert insert_all sort_by get_field payload_schemas evaluate resolve split_dots
    test validate_payload create_artifact matches put get incoming resolve_edges resolve_slot
    resolve_slots resolve_input_ids is_ready select find_ready_nodes all_dead has_dead_slot
    is_impossible impossible_nodes freeze_final edge_enabled switch_edge decide_edge decide_edges
    record_success settle commit_result commit_results skip_nodes persist_outputs persist_results
    commit_wave save load wave_events load_inputs start_nodes run_nodes skip_impossible run_wave
    finalize round run_loop initial_state resume put_all get_all frozen_event run_from prepare
    execute
program = tt

abbrev pub rules : PayloadRules
rules = record { parse = λ name payload. some payload; digest = λ payload. "d0" }

abbrev payload : Fields
payload = field "passed" (bool true) end

abbrev pub artifact : String → ArtifactEnvelope
artifact id = record {
  artifact_id = id;
  artifact_type = "CodeArtifact";
  schema_version = "1.0";
  producer_node_id = id;
  task_id = "t1";
  created_at = "now";
  payload = payload;
  parent_artifact_ids = [];
  content_hash = "d0";
}

abbrev pub codec : Codec
codec = record { encode = λ a. a.artifact_id; decode = λ text. some (artifact text) }

abbrev pub store : ArtifactStore
store = file_store rules codec

abbrev pub check : ArtifactEnvelope → Result Exception (Unit {0})
check a = ok tt

-- One artifact in each output slot.
abbrev pub answer : NodeSpec → Dict String ArtifactEnvelope → Result Exception NodeExecutionResult
answer node inputs = ok (record {
  node_id = node.node_id;
  success = true;
  outputs = map (λ (slot : String × String). (slot.0, artifact node.node_id)) node.output_slots;
  error = none;
  latency_ms = 5;
  usage = no_usage;
})

abbrev slots : Dict String ArtifactEnvelope
slots = ("problem", artifact "problem") ∷ []

abbrev context : RunContext
context = record {
  run_id = "r1";
  task_id = "t1";
  contract_hash = "c0";
  max_parallel_nodes_per_task = 4;
  allow_config_drift = false;
}

abbrev pub empty_world : World store check answer
empty_world = record {
  artifacts = [];
  events = [];
  checkpoints = record { dump = λ state. state.task_id; parse = λ text. none; files = [] };
}

validate_payload-create_artifact_example :
    validate_payload rules (create_artifact rules "CodeArtifact" payload "coder" "t1" [] "u1" "now")
    ≡ ok payload
unfolding program
validate_payload-create_artifact_example =
    validate_payload-create_artifact rules "CodeArtifact" payload "coder" "t1" [] "u1" "now" refl
      refl

evaluate-IsMet_example : (evaluate passed payload ≡ ok true) ↔ (
    (current : Value) × IsAt (split_dots passed.source_field) (obj payload) current
    × IsMet passed.operator current passed.value)
evaluate-IsMet_example = evaluate-IsMet passed payload

abbrev one_file : Files
one_file = (("t1", "a"), "a") ∷ []

get-put_example : get rules codec "a" one_file ≡ ok (artifact "a")
unfolding program
get-put_example = get-put rules codec (artifact "a") [] one_file refl refl refl

abbrev two_files : Files
two_files = (("t1", "a"), "a") ∷ (("t1", "b"), "b") ∷ []

abbrev first_path : String × String
first_path = ("t1", "a")

lookup-put_example : lookup first_path two_files ≡ some "a"
unfolding program
lookup-put_example =
    lookup-put rules codec (artifact "b") one_file two_files first_path "a" refl refl

put-put_example : put rules codec (artifact "a") one_file ≡ (
    if codec.encode (artifact "a") == codec.encode (artifact "a")
    then ok one_file
    else err runtime_error)
unfolding program
put-put_example =
    put-put rules codec (artifact "a") (artifact "a") [] one_file payload refl refl refl

abbrev pub start : RuntimeState
start = initial_state store check answer context pipeline slots

abbrev pub ready_first : List String
ready_first = "coder" ∷ []

-- The state of a run that is over, and a store of checkpoints that can read it back.
abbrev over : RuntimeState
over = record start {
  initial_artifacts = ("problem", "a") ∷ [];
  final_output_artifact_id = some "a";
  frozen = true;
}

abbrev over_world : World store check answer
over_world = record {
  artifacts = one_file;
  events = [];
  checkpoints = record { dump = λ state. state.task_id; parse = λ text. some over; files = [] };
}

execute-save_example :
    execute store check answer 0 context pipeline slots
      (saved_world store check answer over over_world)
    ≡ some (
        if is_accepted store check answer context pipeline over
        then ok (over, saved_world store check answer over over_world)
        else err checkpoint_drift_error)
unfolding program
execute-save_example =
    execute-save store check answer 0 context pipeline slots over over_world refl refl refl refl

execute_total_example :
    (outcome : Result Exception (RuntimeState × World store check answer)) × (execute store check
        answer 4 context pipeline slots empty_world
      ≡ some outcome)
execute_total_example =
    execute_total store check answer pipeline 4 context slots empty_world (omega arith)

abbrev W : Type 0
W = World store check answer

abbrev end_of : Option (Result Exception (RuntimeState × W)) → RuntimeState × W
end_of none = (start, empty_world)
end_of (some (err e)) = (start, empty_world)
end_of (some (ok r)) = r

abbrev last_run : RuntimeState × W
last_run = end_of (execute store check answer 4 context pipeline slots empty_world)

-- The three waves of the sample: its nodes have all succeeded, and its output is the freeze's.
run-pipeline :
    (last_run.0.node_status
      ≡ ("freeze", succeeded) ∷ ("judge", succeeded) ∷ ("coder", succeeded) ∷ [])
    × (last_run.0.final_output_artifact_id ≡ some "freeze")
    × (last_run.0.wave_id ≡ 3)
unfolding program
run-pipeline = (refl, refl, refl)

execute-IsFrozen_example :
    (last_run.0.frozen ≡ true) × (is_some last_run.0.final_output_artifact_id ≡ true)
unfolding program
execute-IsFrozen_example =
    execute-IsFrozen store check answer pipeline 4 context slots empty_world last_run.0 last_run.1
      (λ state h. absurd (ground arith)) refl

-- After the initial artifact is put.
abbrev loop_world : W
loop_world = record empty_world { artifacts = (("t1", "problem"), "problem") ∷ [] }

abbrev loop_run : RuntimeState × W
loop_run = end_of (run_loop store check answer 4 4 pipeline start loop_world)

run_loop-IsFinished_example : IsFinished store check answer pipeline start loop_run.0 loop_run.1
unfolding program
run_loop-IsFinished_example =
    run_loop-IsFinished store check answer pipeline 4 4 start loop_world loop_run.0 loop_run.1 refl
      refl refl

abbrev results : List NodeExecutionResult
results =
    record {
      node_id = "coder";
      success = true;
      outputs = ("code", artifact "coder") ∷ [];
      error = none;
      latency_ms = 5;
      usage = no_usage;
    }
    ∷ []

abbrev no_commit : Commit
no_commit = record { state = start; committed = []; activated = []; disabled = [] }

abbrev commit_of : Result Exception (Commit × Files) → Commit × Files
commit_of (err e) = (no_commit, [])
commit_of (ok r) = r

abbrev merged : Commit × Files
merged = commit_of (commit_wave store check pipeline start results one_file)

commit_wave-Stored_example :
    Keeps store check one_file merged.1 × AllStored store check merged.1 results
unfolding program
commit_wave-Stored_example =
    commit_wave-Stored store check pipeline start results one_file merged.1 merged.0 refl

commit_wave-Progress_example : Progress start merged.0.state
unfolding program
commit_wave-Progress_example =
    commit_wave-Progress store check pipeline start results one_file merged.1 merged.0 refl

-- ===== src/Tests/Reporting.antt =====
-- The clients of the runtime at sample inputs: attempts, logs, containers, environments, and the
-- measures and the scheduler at the sample pipeline.
use mathlib.Core.List.{Memᴰ}
use codename_madagascar.Prelude.Integers.{pos}
use codename_madagascar.Prelude.Sorting.{sort_by}
use codename_madagascar.Prelude.{
  ℕ, zero, suc, ◌<◌, String, Bool, true, false, none, some, List, [], ◌∷◌, Dict, lookup, insert_all,
  insert, has_key, contains, length, leb, string_eq, Result, ok, err, if◌then◌else◌, ◌≡◌, ◌⊎◌, inl,
  refl, arith,
}
use codename_madagascar.Exceptions.{Exception}
use codename_madagascar.Executors.Models.{AgentVisibleLcbTask, SandboxExecutionResult}
use codename_madagascar.Runtime.Scheduler.{
  incoming, resolve_edges, resolve_slot, resolve_slots, resolve_input_ids, is_ready, select,
  find_ready_nodes,
}
use codename_madagascar.Runtime.Scheduler.Live.{find_ready_nodes-live}
use codename_madagascar.Runtime.Loop.Execute.{initial_state}
use codename_madagascar.Llm.Retry.{Reply, lost, response, post}
use codename_madagascar.Llm.Retry.Attempts.{is_retried, post_lem}
use codename_madagascar.Sandbox.Docker.{Container, ended}
use codename_madagascar.Sandbox.Environment.{
  is_sensitive_environment_name, redact_environment, sanitized_environment, fixed_variables,
  allowed, worker_environment,
}
use codename_madagascar.Tests.Graphs.{pipeline, coder}
use codename_madagascar.Tests.Compiling.{compiled}
use codename_madagascar.Tests.Running.{start, ready_first}

-- A lost request, then a busy server, then an answer.
abbrev replies : ℕ → Reply String
replies zero = lost
replies (suc zero) = response 503 ""
replies (suc (suc n)) = response 200 "answer"

abbrev raises : ℕ → Bool
raises status = leb 400 status

both-retried : (j : ℕ) → j < 2 → is_retried raises (replies j) ≡ true
both-retried zero h = refl
both-retried (suc zero) h = refl
both-retried (suc (suc n)) h = absurd (omega arith)

post_lem_example : post raises replies ≡ (some (ok "answer"), 1 ∷ 2 ∷ [])
post_lem_example = post_lem raises replies 2 (omega arith) both-retried (inl refl)

abbrev task : AgentVisibleLcbTask
task = record {
  question_id = "q1";
  question_title = "Sum";
  question_content = "Add two numbers.";
  platform = "atcoder";
  contest_date = "1970-01-01T00:00:00";
  starter_code = "";
  difficulty = "easy";
  public_test_cases = record { input = "1 2"; output = "3"; testtype = "stdin" } ∷ [];
  function_name = none;
}

-- Every process prints 3.
abbrev container : Container
container = record {
  run = λ files stdin command timeout. ended (pos 0) (some "3") (some "");
  strip = λ text. text;
}

abbrev nothing_run : SandboxExecutionResult
nothing_run = record {
  compiled = false;
  passed_count = 0;
  total_count = 0;
  runtime_errors = 0;
  timeouts = 0;
  stderr_summary = none;
  per_test_visible_results = [];
  duration_ms = 0;
}

abbrev of_docker : Result Exception SandboxExecutionResult → SandboxExecutionResult
of_docker (ok r) = r
of_docker (err e) = nothing_run

abbrev environ : Dict String String
environ = ("PATH", "/bin") ∷ ("OPENAI_API_KEY", "k") ∷ []

worker_environment_example :
    lookup "OPENAI_API_KEY" (redact_environment (λ s. s) (sanitized_environment environ)).1 ≡ (
      if is_sensitive_environment_name (λ s. s) "OPENAI_API_KEY"
      then none
      else if has_key "OPENAI_API_KEY" fixed_variables
      then lookup "OPENAI_API_KEY" fixed_variables
      else if contains allowed "OPENAI_API_KEY"
      then lookup "OPENAI_API_KEY" environ
      else none)
worker_environment_example = worker_environment (λ s. s) environ "OPENAI_API_KEY"

find_ready_nodes-live_example : (contains ready_first "coder" ≡ true) ⊎ (length ready_first ≡ 4)
unfolding lookup insert insert_all sort_by incoming resolve_edges resolve_slot resolve_slots
    resolve_input_ids is_ready select find_ready_nodes initial_state
find_ready_nodes-live_example =
    find_ready_nodes-live 4 pipeline start coder ready_first
      (Memᴰ.tail (Memᴰ.tail (Memᴰ.head refl))) refl refl

-- ===== src/Telemetry.antt =====
-- src/orchestra/telemetry/summary.py and src/orchestra/storage/events.py. The files of a run are given
-- as parsed; `lower` is Python's method of str. A mean is the fraction of a sum and a count. The
-- speedup, the means of ratios and the writing of the two summary files are left out. A cost is
-- a float, of which the model knows no more than that Python's `sum` of a list is a parameter.
pub mod Bounds
use codename_madagascar.Prelude.Integers.{ℤ}
use codename_madagascar.Prelude.Sorting.{sort_by}
use codename_madagascar.Prelude.Texts.{occurs}
use codename_madagascar.Prelude.{
  ℕ, suc, ◌+◌, String, Bool, true, false, ◌||◌, Option, none, some, List, [], ◌∷◌, ◌++◌, map,
  length, ◌==◌, string_eq, if◌then◌else◌,
}

-- What the summary reads of a line of `events.jsonl`; `error` is the text of `metadata["error"]`.
pub record TelemetryEvent (Float : Type 0) : Type 0 where
  pub event_type : String
  pub prompt_tokens : Option ℕ
  pub completion_tokens : Option ℕ
  pub estimated_cost_usd : Option Float
  pub error : String

-- `AppendOnlyEventWriter.append`
abbrev pub append_event :
    {Float : Type 0}
    → TelemetryEvent Float
    → List (TelemetryEvent Float)
    → List (TelemetryEvent Float)
append_event event log = log ++ (event ∷ [])

-- The variables of the loop over the events.
pub record EventTotals (Float : Type 0) : Type 0 where
  pub prompt_tokens : ℕ
  pub completion_tokens : ℕ
  pub costs : List Float
  pub parse_failures : ℕ
  pub node_events : ℕ

abbrev pub no_totals : {Float : Type 0} → EventTotals Float
no_totals = record {
  prompt_tokens = 0;
  completion_tokens = 0;
  costs = [];
  parse_failures = 0;
  node_events = 0;
}

-- `int(event.get(name) or 0)`
abbrev pub int_or_zero : Option ℕ → ℕ
int_or_zero none = 0
int_or_zero (some n) = n

abbrev pub append_cost {ℓ} : {Float : Type ℓ} → Option Float → List Float → List Float
append_cost none costs = costs
append_cost (some cost) costs = costs ++ (cost ∷ [])

abbrev pub is_node_event : {Float : Type 0} → TelemetryEvent Float → Bool
is_node_event event = event.event_type == "NODE_COMPLETED" || event.event_type == "NODE_FAILED"

module _ {Float : Type 0} (lower : String → String) where
  abbrev pub is_parse_failure : TelemetryEvent Float → Bool
  is_parse_failure event = occurs "parse" (lower event.error)

  -- The body of the loop for an event of a node.
  abbrev pub count_event : TelemetryEvent Float → EventTotals Float → EventTotals Float
  count_event event totals = record {
    prompt_tokens = totals.prompt_tokens + int_or_zero event.prompt_tokens;
    completion_tokens = totals.completion_tokens + int_or_zero event.completion_tokens;
    costs = append_cost event.estimated_cost_usd totals.costs;
    parse_failures = totals.parse_failures + (if is_parse_failure event then 1 else 0);
    node_events = suc totals.node_events;
  }

  -- The loop over the lines of `events.jsonl`.
  unfoldable pub total_events : List (TelemetryEvent Float) → EventTotals Float → EventTotals Float
  total_events [] totals = totals
  total_events (event ∷ events) totals =
      total_events events (if is_node_event event then count_event event totals else totals)

-- What the summary reads of `graph_result.json` and of a result of the public harness.
pub record GraphResult : Type 0 where
  pub wall_latency_ms : ℕ
  pub sum_node_latency_ms : ℕ
  pub critical_path_latency_ms : ℕ
  pub failed_node_count : ℕ
  pub skipped_node_count : ℕ
  pub checkpoint_count : ℕ

pub record HarnessArtifact : Type 0 where
  pub created_at : String
  pub pass_ratio : ℤ × ℕ
  pub compile_success : Bool

-- The directory of a task: `final_evaluation.json` and `graph_result.json`, where they exist, and the
-- artifacts of the public harness.
pub record TaskDir : Type 0 where
  pub evaluation : Option Bool
  pub graph_result : Option GraphResult
  pub harness_artifacts : List HarnessArtifact

-- The variables of the loop over the directories.
pub record TaskTotals : Type 0 where
  pub hidden : List Bool
  pub public_initial : List (ℤ × ℕ)
  pub public_repaired : List (ℤ × ℕ)
  pub compile_success : List Bool
  pub results : List GraphResult

abbrev pub no_tasks : TaskTotals
no_tasks = record {
  hidden = [];
  public_initial = [];
  public_repaired = [];
  compile_success = [];
  results = [];
}

abbrev pub append_some {ℓ} : {A : Type ℓ} → Option A → List A → List A
append_some none xs = xs
append_some (some x) xs = xs ++ (x ∷ [])

-- `items[0]`, and `items[-1]` where there is more than one
abbrev pub first_of {ℓ} : {A : Type ℓ} → List A → Option A
first_of [] = none
first_of (x ∷ xs) = some x

abbrev pub last_of {ℓ} : {A : Type ℓ} → A → List A → A
last_of x [] = x
last_of x (y ∷ ys) = last_of y ys

abbrev pub later_one {ℓ} : {A : Type ℓ} → List A → Option A
later_one [] = none
later_one (x ∷ []) = none
later_one (x ∷ y ∷ ys) = some (last_of y ys)

abbrev pub ratio_of : Option HarnessArtifact → Option (ℤ × ℕ)
ratio_of none = none
ratio_of (some artifact) = some artifact.pass_ratio

abbrev pub compiled_of : Option HarnessArtifact → Option Bool
compiled_of none = none
compiled_of (some artifact) = some artifact.compile_success

-- The body of the loop over the directories.
unfoldable pub add_task : TaskDir → TaskTotals → TaskTotals
add_task dir totals =
    let sorted = sort_by (λ (a : HarnessArtifact). a.created_at) dir.harness_artifacts in
    record {
      hidden = append_some dir.evaluation totals.hidden;
      public_initial = append_some (ratio_of (first_of sorted)) totals.public_initial;
      public_repaired = append_some (ratio_of (later_one sorted)) totals.public_repaired;
      compile_success = append_some (compiled_of (first_of sorted)) totals.compile_success;
      results = append_some dir.graph_result totals.results;
    }

unfoldable pub add_tasks : List TaskDir → TaskTotals → TaskTotals
add_tasks [] totals = totals
add_tasks (dir ∷ dirs) totals = add_tasks dirs (add_task dir totals)

abbrev pub sum : List ℕ → ℕ
sum [] = 0
sum (n ∷ ns) = n + sum ns

-- `_mean`, as a sum over a count
abbrev pub mean : List ℕ → Option (ℕ × ℕ)
mean [] = none
mean (n ∷ ns) = some (sum (n ∷ ns), length (n ∷ ns))

-- `float(item)` of a truth value
abbrev pub to_number : Bool → ℕ
to_number true = 1
to_number false = 0

-- `sum(costs) if costs else None`
abbrev pub sum_of_costs {ℓ} :
    {Float : Type ℓ} → (sum_floats : List Float → Float) → List Float → Option Float
sum_of_costs sum_floats [] = none
sum_of_costs sum_floats (n ∷ ns) = some (sum_floats (n ∷ ns))

pub record RunSummary (Float : Type 0) : Type 0 where
  pub number_of_tasks : ℕ
  pub evaluated_tasks : ℕ
  pub hidden_pass : Option (ℕ × ℕ)
  pub public_pass_before_repair : List (ℤ × ℕ)
  pub public_pass_after_repair : List (ℤ × ℕ)
  pub compile_success_rate : Option (ℕ × ℕ)
  pub total_prompt_tokens : ℕ
  pub total_completion_tokens : ℕ
  pub total_model_cost_usd : Option Float
  -- parse failures over events of nodes, 0.0 where there are none
  pub parse_failure_rate : ℕ × ℕ
  pub average_graph_wall_latency_ms : Option (ℕ × ℕ)
  pub average_sum_node_latency_ms : Option (ℕ × ℕ)
  pub average_critical_path_latency_ms : Option (ℕ × ℕ)
  pub failed_node_count : ℕ
  pub skipped_node_count : ℕ
  pub checkpoint_count : ℕ

abbrev pub summary_from :
    {Float : Type 0}
    → (sum_floats : List Float → Float) → ℕ
    → TaskTotals
    → EventTotals Float
    → RunSummary Float
summary_from sum_floats number tasks events = record {
  number_of_tasks = number;
  evaluated_tasks = length tasks.hidden;
  hidden_pass = mean (map to_number tasks.hidden);
  public_pass_before_repair = tasks.public_initial;
  public_pass_after_repair = tasks.public_repaired;
  compile_success_rate = mean (map to_number tasks.compile_success);
  total_prompt_tokens = events.prompt_tokens;
  total_completion_tokens = events.completion_tokens;
  total_model_cost_usd = sum_of_costs sum_floats events.costs;
  parse_failure_rate = (events.parse_failures, events.node_events);
  average_graph_wall_latency_ms = mean (map (λ (r : GraphResult). r.wall_latency_ms) tasks.results);
  average_sum_node_latency_ms =
      mean (map (λ (r : GraphResult). r.sum_node_latency_ms) tasks.results);
  average_critical_path_latency_ms =
      mean (map (λ (r : GraphResult). r.critical_path_latency_ms) tasks.results);
  failed_node_count = sum (map (λ (r : GraphResult). r.failed_node_count) tasks.results);
  skipped_node_count = sum (map (λ (r : GraphResult). r.skipped_node_count) tasks.results);
  checkpoint_count = sum (map (λ (r : GraphResult). r.checkpoint_count) tasks.results);
}

-- `summarize_run`
unfoldable pub summarize_run :
    {Float : Type 0}
    → (sum_floats : List Float → Float) → (lower : String → String) → List TaskDir
    → List (TelemetryEvent Float)
    → RunSummary Float
summarize_run sum_floats lower dirs events =
    summary_from sum_floats (length dirs) (add_tasks dirs no_tasks)
      (total_events lower events no_totals)

-- ===== src/Telemetry/Bounds.antt =====
-- src/orchestra/telemetry/summary.py: the rates of a summary are rates.
use codename_madagascar.Prelude.{
  ℕ, suc, ◌+◌, ◌≤◌, String, Bool, true, false, Option, none, some, List, [], ◌∷◌, map, length,
  if◌then◌else◌, ◌≡◌, refl, arith,
}
use codename_madagascar.Telemetry.{
  TelemetryEvent, EventTotals, no_totals, is_node_event, count_event, total_events, TaskDir,
  TaskTotals, no_tasks, append_some, add_task, add_tasks, sum, mean, to_number, RunSummary,
  summarize_run,
}

-- A rate is over the number of items that it is about, and is not above one.
abbrev pub IsRate : ℕ → Option (ℕ × ℕ) → Type 0
IsRate items none = items ≡ 0
IsRate items (some (part, whole)) = (whole ≡ items) × (part ≤ whole)

pub record IsBounded {Float : Type 0} (summary : RunSummary Float) : Type 0 where
  pub evaluated : summary.evaluated_tasks ≤ summary.number_of_tasks
  pub hidden : IsRate summary.evaluated_tasks summary.hidden_pass
  pub failures : summary.parse_failure_rate.0 ≤ summary.parse_failure_rate.1

length-append_some {ℓ} :
    {A : Type ℓ} (o : Option A) (xs : List A) → length (append_some o xs) ≤ suc (length xs)
length-append_some none xs = omega arith
length-append_some (some x) [] = omega arith
length-append_some (some x) (y ∷ ys) = omega (arith, length-append_some (some x) ys)

hidden_le :
    (dirs : List TaskDir) (totals : TaskTotals)
    → length (add_tasks dirs totals).hidden ≤ length dirs + length totals.hidden
unfolding add_tasks add_task
hidden_le [] totals = omega arith
hidden_le (dir ∷ dirs) totals =
    omega
      (arith, hidden_le dirs (add_task dir totals), length-append_some dir.evaluation totals.hidden)

sum_le : (flags : List Bool) → sum (map to_number flags) ≤ length flags
sum_le [] = omega arith
sum_le (true ∷ flags) = omega (arith, sum_le flags)
sum_le (false ∷ flags) = omega (arith, sum_le flags)

length-map-to_number : (flags : List Bool) → length (map to_number flags) ≡ length flags
length-map-to_number [] = refl
length-map-to_number (flag ∷ flags) = omega (arith, length-map-to_number flags)

mean-IsRate : (flags : List Bool) → IsRate (length flags) (mean (map to_number flags))
mean-IsRate [] = refl
mean-IsRate (flag ∷ flags) = (
  omega (arith, length-map-to_number flags),
  omega (arith, length-map-to_number flags, sum_le (flag ∷ flags)),
)

failures_le :
    {Float : Type 0} (lower : String → String) (events : List (TelemetryEvent Float))
    (totals : EventTotals Float)
    → totals.parse_failures ≤ totals.node_events
    → (total_events lower events totals).parse_failures
      ≤ (total_events lower events totals).node_events
unfolding total_events
failures_le lower [] totals h = h
failures_le lower (event ∷ events) totals h =
    failures_le lower events
      (if is_node_event event then count_event lower event totals else totals) (ground arith)

-- In the summary of a run no more tasks are evaluated than there are, the rate of hidden passes is
-- over the evaluated tasks and not above one, and there are no more parse failures than events
-- of nodes.
pub summarize_run-IsBounded :
    {Float : Type 0} (sum_floats : List Float → Float) (lower : String → String)
    (dirs : List TaskDir) (events : List (TelemetryEvent Float))
    → IsBounded (summarize_run sum_floats lower dirs events)
unfolding summarize_run
summarize_run-IsBounded sum_floats lower dirs events = record {
  evaluated = omega (arith, hidden_le dirs no_tasks);
  hidden = mean-IsRate (add_tasks dirs no_tasks).hidden;
  failures = failures_le lower events no_totals (omega arith);
}

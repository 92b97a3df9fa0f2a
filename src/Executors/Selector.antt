-- ===== src/Executors/Selector.antt =====
-- src/orchestra/executors/selector.py
use codename_madagascar.Prelude.Integers.{
  ℤ, pos, neg, fraction_eqb, fraction_ltb, fraction_eqb-neg, fraction_ltb-neg, fraction_eqb-pos,
  fraction_ltb-pos,
}
use codename_madagascar.Prelude.{
  ℕ, String, Bool, true, false, not, ◌&&◌, List, [], ◌∷◌, Result, ok, ◌>>=◌, ◌>>◌, raise_if, arith,
  ltb, nat_eq, ◌==◌, string_eq, if◌then◌else◌, ◌≡◌, raise_if-bind, >>=-eq-ok,
}
use codename_madagascar.Exceptions.{Exception, value_error}
use codename_madagascar.Ir.Nodes.{NodeSpec}
use codename_madagascar.Runtime.State.{NodeExecutionResult, no_usage}
use codename_madagascar.Executors.Models.{Models, PublicHarnessResultArtifact}
use codename_madagascar.Executors.Publish.{
  Inputs, Moment, read_input, publish, IsPublished, publish-IsPublished,
}

abbrev pub Rank : Type 0
Rank = List (ℤ × ℕ)

-- `_rank`
unfoldable pub rank : PublicHarnessResultArtifact → Rank
rank result =
    result.pass_ratio
    ∷ (pos (if result.compile_success then 1 else 0), 0)
    ∷ (neg result.runtime_errors, 0)
    ∷ (neg result.timeouts, 0)
    ∷ (neg result.duration_ms, 0)
    ∷ []

-- `xs > ys` on tuples: the first difference decides.
unfoldable pub tuple_gtb : Rank → Rank → Bool
tuple_gtb [] ys = false
tuple_gtb (x ∷ xs) [] = true
tuple_gtb (x ∷ xs) (y ∷ ys) =
    let rest = tuple_gtb xs ys in if fraction_eqb x y then rest else fraction_ltb y x

abbrev pub chosen_slot : PublicHarnessResultArtifact → PublicHarnessResultArtifact → String
chosen_slot initial repaired =
    if tuple_gtb (rank repaired) (rank initial) then "repaired_code" else "initial_code"

unfoldable pub execute_selector :
    Models
    → (selector_id : String) → NodeSpec
    → Inputs
    → (task_id : String) → Moment
    → Result Exception NodeExecutionResult
execute_selector models selector_id node inputs task_id moment = do
  raise_if (not (selector_id == "deterministic_code_selector")) value_error
  initial ← read_input models.parse_result inputs "initial_result"
  repaired ← read_input models.parse_result inputs "repaired_result"
  code ← read_input models.parse_code inputs (chosen_slot initial repaired)
  publish models.rules node inputs task_id moment "CodeArtifact"
      (models.dump_code (record code { source_node = node.node_id })) no_usage

pub execute_selector-IsPublished :
    (models : Models) (selector_id : String) (node : NodeSpec) (inputs : Inputs) (task_id : String)
    (moment : Moment) {r : NodeExecutionResult}
    → execute_selector models selector_id node inputs task_id moment ≡ ok r
    → IsPublished node inputs task_id r
unfolding execute_selector
execute_selector-IsPublished models selector_id node inputs task_id moment h =
    let (_, h₁) =
      raise_if-bind (not (selector_id == "deterministic_code_selector")) value_error _ h in
    let (initial, _, h₂) =
      >>=-eq-ok (read_input models.parse_result inputs "initial_result") _ h₁ in
    let (repaired, _, h₃) =
      >>=-eq-ok (read_input models.parse_result inputs "repaired_result") _ h₂ in
    let (code, _, h₄) =
      >>=-eq-ok (read_input models.parse_code inputs (chosen_slot initial repaired)) _ h₃ in
    publish-IsPublished models.rules node inputs task_id moment "CodeArtifact" _ no_usage h₄

-- The order that the rank stands for, on the results themselves: a greater ratio; then a compile
-- that succeeds; then fewer runtime errors, fewer timeouts, a shorter time.
abbrev pub is_better : PublicHarnessResultArtifact → PublicHarnessResultArtifact → Bool
is_better repaired initial =
    if not (fraction_eqb repaired.pass_ratio initial.pass_ratio)
    then fraction_ltb initial.pass_ratio repaired.pass_ratio
    else if repaired.compile_success && not initial.compile_success
    then true
    else if not repaired.compile_success && initial.compile_success
    then false
    else if not (repaired.runtime_errors == initial.runtime_errors)
    then ltb repaired.runtime_errors initial.runtime_errors
    else if not (repaired.timeouts == initial.timeouts)
    then ltb repaired.timeouts initial.timeouts
    else ltb repaired.duration_ms initial.duration_ms

-- The repaired code is selected exactly where its result is better, so that the initial code wins
-- exact ties: a greater ratio; where the ratios are equal, a compile that succeeds against one that
-- fails; then fewer runtime errors, fewer timeouts, and a shorter time.
pub chosen_slot_lem :
    (initial repaired : PublicHarnessResultArtifact)
    → chosen_slot initial repaired
      ≡ (if is_better repaired initial then "repaired_code" else "initial_code")
unfolding tuple_gtb rank
chosen_slot_lem initial repaired = ground (
  arith,
  fraction_eqb-pos (if repaired.compile_success then 1 else 0)
      (if initial.compile_success then 1 else 0),
  fraction_ltb-pos (if initial.compile_success then 1 else 0)
      (if repaired.compile_success then 1 else 0),
  fraction_eqb-neg repaired.runtime_errors initial.runtime_errors,
  fraction_ltb-neg initial.runtime_errors repaired.runtime_errors,
  fraction_eqb-neg repaired.timeouts initial.timeouts,
  fraction_ltb-neg initial.timeouts repaired.timeouts,
  fraction_eqb-neg repaired.duration_ms initial.duration_ms,
  fraction_ltb-neg initial.duration_ms repaired.duration_ms,
)

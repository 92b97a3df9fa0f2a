-- ===== src/Executors/Transform.antt =====
-- src/orchestra/executors/transform.py
use codename_madagascar.Prelude.{
  String, none, List, [], ◌∷◌, ◌++◌, lookup, Result, ok, err, ◌>>=◌, or_raise, ◌==◌, string_eq,
  eq_iff, contains, count, if◌then◌else◌, ◌≡◌, >>=-eq-ok, arith,
}
use codename_madagascar.Exceptions.{Exception, key_error, value_error}
use codename_madagascar.Ir.Nodes.{NodeSpec}
use codename_madagascar.Json.{Fields}
use codename_madagascar.Runtime.State.{NodeExecutionResult, no_usage}
use codename_madagascar.Executors.Models.{
  Models, AlgorithmPlanArtifact, EdgeCaseArtifact, CombinedPlanArtifact,
}
use codename_madagascar.Executors.Publish.{
  Inputs, Moment, read_input, publish, IsPublished, publish-IsPublished,
}

-- `list(dict.fromkeys(xs))`: each text where it first stands.
abbrev keep_new : List String → List String → List String
keep_new seen [] = []
keep_new seen (x ∷ xs) =
    let later = keep_new (x ∷ seen) xs in if contains seen x then keep_new seen xs else x ∷ later

unfoldable pub from_keys : List String → List String
from_keys xs = keep_new [] xs

-- `merge_analysis_artifacts`
unfoldable pub merge : AlgorithmPlanArtifact → EdgeCaseArtifact → CombinedPlanArtifact
merge plan edge = record {
  problem_summary = plan.problem_summary;
  algorithm = plan.algorithm;
  correctness_argument = plan.correctness_argument;
  time_complexity = plan.time_complexity;
  space_complexity = plan.space_complexity;
  data_structures = plan.data_structures;
  edge_cases = from_keys (plan.edge_cases ++ edge.edge_cases);
  implementation_risks = from_keys (
      edge.overflow_risks
      ++ (edge.indexing_risks ++ (edge.interface_concerns ++ edge.likely_failure_modes)));
}

merge_payload : Models → Inputs → Result Exception (String × Fields)
merge_payload models inputs = do
  plan ← read_input models.parse_plan inputs "plan"
  edge ← read_input models.parse_edge_cases inputs "edge_cases"
  ok ("CombinedPlanArtifact", models.dump_combined (merge plan edge))

freeze_payload : Models → Inputs → Result Exception (String × Fields)
freeze_payload models inputs = do
  envelope ← or_raise (lookup "code" inputs) key_error
  code ← or_raise (models.parse_code envelope.payload) value_error
  ok (
    "FinalCodeArtifact",
    models.dump_final (record { code = code.code; source_artifact_id = envelope.artifact_id }),
  )

identity_payload : Models → NodeSpec → Inputs → Result Exception (String × Fields)
identity_payload models node inputs = do
  code ← read_input models.parse_code inputs "code"
  ok ("CodeArtifact", models.dump_code (record code { source_node = node.node_id }))

repair_payload : Models → NodeSpec → Inputs → Result Exception (String × Fields)
repair_payload models node inputs = do
  repair ← read_input models.parse_repair inputs "repair"
  ok (
    "CodeArtifact",
    models.dump_code
        (record { code = repair.revised_code; source_node = node.node_id; explanation = none }),
  )

-- The class and the dump of the payload that a transform gives.
unfoldable pub transform_payload :
    Models → (transform_id : String) → NodeSpec → Inputs → Result Exception (String × Fields)
unfolding merge_payload freeze_payload identity_payload repair_payload
transform_payload models transform_id node inputs =
    if transform_id == "merge_analysis_artifacts"
    then merge_payload models inputs
    else if transform_id == "freeze_code"
    then freeze_payload models inputs
    else if transform_id == "identity_code"
    then identity_payload models node inputs
    else if transform_id == "repair_to_code"
    then repair_payload models node inputs
    else err value_error

unfoldable pub execute_transform :
    Models
    → (transform_id : String) → NodeSpec
    → Inputs
    → (task_id : String) → Moment
    → Result Exception NodeExecutionResult
execute_transform models transform_id node inputs task_id moment = do
  (artifact_type, payload) ← transform_payload models transform_id node inputs
  publish models.rules node inputs task_id moment artifact_type payload no_usage

pub execute_transform-IsPublished :
    (models : Models) (transform_id : String) (node : NodeSpec) (inputs : Inputs) (task_id : String)
    (moment : Moment) {r : NodeExecutionResult}
    → execute_transform models transform_id node inputs task_id moment ≡ ok r
    → IsPublished node inputs task_id r
unfolding execute_transform
execute_transform-IsPublished models transform_id node inputs task_id moment h =
    let (p, _, h₁) = >>=-eq-ok (transform_payload models transform_id node inputs) _ h in
    publish-IsPublished models.rules node inputs task_id moment p.0 p.1 no_usage h₁

count-keep_new :
    (a : String) (seen xs : List String)
    → count a (keep_new seen xs) ≡ (if contains seen a then 0 else if contains xs a then 1 else 0)
count-keep_new a seen [] = ground arith
count-keep_new a seen (x ∷ xs) =
    ground (arith, count-keep_new a seen xs, count-keep_new a (x ∷ seen) xs, eq_iff x a)

-- The merged lists hold each text of their sources, and none of them twice.
pub merge-IsDistinct :
    (plan : AlgorithmPlanArtifact) (edge : EdgeCaseArtifact) (text : String)
    → (count text (merge plan edge).edge_cases
        ≡ (if contains (plan.edge_cases ++ edge.edge_cases) text then 1 else 0))
      × (count text (merge plan edge).implementation_risks ≡ (
          if contains
            (edge.overflow_risks
              ++ (edge.indexing_risks ++ (edge.interface_concerns ++ edge.likely_failure_modes)))
            text
          then 1
          else 0))
unfolding merge from_keys
merge-IsDistinct plan edge text = (count-keep_new text [] _, count-keep_new text [] _)

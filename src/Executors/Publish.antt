-- ===== src/Executors/Publish.antt =====
-- What the executors of src/orchestra/executors/ share: reading an input, and the result with the
-- one artifact of a node. An exception StopIteration leaves a coroutine as RuntimeError.
use codename_madagascar.Prelude.{
  ℕ, String, true, Option, none, [], ◌∷◌, map, Dict, lookup, string_eq, values, Result, ok, err,
  ◌>>=◌, or_raise, ◌≡◌, refl, subst, >>=-eq-ok, ok-injective,
}
use codename_madagascar.Exceptions.{Exception, key_error, value_error, runtime_error}
use codename_madagascar.Json.{Fields}
use codename_madagascar.Ir.Nodes.{NodeSpec}
use codename_madagascar.Ir.Artifacts.{ArtifactEnvelope, PayloadRules, create_artifact}
use codename_madagascar.Runtime.State.{NodeExecutionResult, LlmUsage}

abbrev pub Inputs : Type 0
Inputs = Dict String ArtifactEnvelope

-- What differs from call to call: the fresh UUID, the clock, and the time that the call took.
pub record Moment : Type 0 where
  pub uuid : String
  pub now : String
  pub latency_ms : ℕ

-- `Model.model_validate(inputs[slot].payload)`
unfoldable pub read_input {ℓ} :
    {A : Type ℓ} → (Fields → Option A) → Inputs → String → Result Exception A
read_input parse inputs slot = do
  artifact ← or_raise (lookup slot inputs) key_error
  or_raise (parse artifact.payload) value_error

-- `next(iter(node.output_slots))`
abbrev first_slot : Dict String String → Result Exception String
first_slot [] = err runtime_error
first_slot ((slot, schema) ∷ slots) = ok slot

unfoldable pub publish :
    PayloadRules
    → NodeSpec
    → Inputs
    → (task_id : String) → Moment
    → (artifact_type : String) → Fields
    → LlmUsage
    → Result Exception NodeExecutionResult
publish rules node inputs task_id moment artifact_type payload usage = do
  output_slot ← first_slot node.output_slots
  ok (record {
    node_id = node.node_id;
    success = true;
    outputs =
        (
          output_slot,
          create_artifact rules artifact_type payload node.node_id task_id
              (map (λ (item : ArtifactEnvelope). item.artifact_id) (values inputs)) moment.uuid
              moment.now,
        )
        ∷ [];
    error = none;
    latency_ms = moment.latency_ms;
    usage = usage;
  })

-- A result with one artifact, which the node has made for the task from its inputs.
pub record IsPublished (node : NodeSpec) (inputs : Inputs) (task_id : String)
    (r : NodeExecutionResult) : Type 0 where
  pub named : r.node_id ≡ node.node_id
  pub succeeds : r.success ≡ true
  pub slot : String
  pub artifact : ArtifactEnvelope
  pub only : r.outputs ≡ (slot, artifact) ∷ []
  pub produced : artifact.producer_node_id ≡ node.node_id
  pub for_task : artifact.task_id ≡ task_id
  pub parents :
      artifact.parent_artifact_ids
      ≡ map (λ (item : ArtifactEnvelope). item.artifact_id) (values inputs)

pub publish-IsPublished :
    (rules : PayloadRules) (node : NodeSpec) (inputs : Inputs) (task_id : String) (moment : Moment)
    (artifact_type : String) (payload : Fields) (usage : LlmUsage) {r : NodeExecutionResult}
    → publish rules node inputs task_id moment artifact_type payload usage ≡ ok r
    → IsPublished node inputs task_id r
unfolding publish create_artifact
publish-IsPublished rules node inputs task_id moment artifact_type payload usage h =
    let (slot, _, h₁) = >>=-eq-ok (first_slot node.output_slots) _ h in
    subst (IsPublished node inputs task_id) (ok-injective h₁) (record {
      named = refl;
      succeeds = refl;
      slot = slot;
      artifact =
          create_artifact rules artifact_type payload node.node_id task_id
            (map (λ (item : ArtifactEnvelope). item.artifact_id) (values inputs)) moment.uuid
            moment.now;
      only = refl;
      produced = refl;
      for_task = refl;
      parents = refl;
    })

-- ===== src/Executors/Registry.antt =====
-- src/orchestra/executors/registry.py and agent.py. The language model, the rendering of prompts and
-- the parsing of answers are parameters; a timeout of a call is one of the exceptions it may raise.
use codename_madagascar.Prelude.{
  ℕ, zero, suc, String, Bool, true, false, not, Option, none, some, List, [], ◌∷◌, Dict, lookup,
  Result, ok, err, ◌>>=◌, ◌>>◌, or_raise, raise_if, ◌==◌, string_eq, if◌then◌else◌,
}
use codename_madagascar.Exceptions.{Exception, key_error, value_error, is_caught}
use codename_madagascar.Json.{Fields}
use codename_madagascar.Ir.Nodes.{NodeSpec, NodeKind, agent, harness, transform, selector}
use codename_madagascar.Ir.Contracts.{AgentContract}
use codename_madagascar.Runtime.State.{NodeExecutionResult, LlmUsage, failed_result}
use codename_madagascar.Executors.Models.{Models}
use codename_madagascar.Executors.Publish.{Inputs, Moment, publish}
use codename_madagascar.Executors.Selector.{execute_selector}
use codename_madagascar.Executors.Transform.{execute_transform}
use codename_madagascar.Executors.Harness.{Sandbox, execute_harness}

-- `client.generate` on the rendered contract, and `parse_output`, which gives the class of the
-- payload and its dump.
pub record Client : Type 0 where
  pub generate : AgentContract → Inputs → (timeout_ms : ℕ) → Result Exception (String × LlmUsage)
  pub parse_output :
      (parser_id text output_schema source_node : String) → Result Exception (String × Fields)

pub record Executors : Type 0 where
  pub models : Models
  pub client : Client
  pub contracts : Dict String AgentContract
  pub sandbox : Sandbox
  pub harness_timeout_ms : ℕ
  -- `f"{type(error).__name__}: {error}"`
  pub message : Exception → String

abbrev has_tools : List String → Bool
has_tools [] = false
has_tools (tool ∷ tools) = true

-- `node.timeout_seconds or contract.timeout_seconds`
abbrev timeout_for : Option ℕ → ℕ → ℕ
timeout_for none default = default
timeout_for (some zero) default = default
timeout_for (some (suc n)) default = suc n

-- The schema of the only output slot.
abbrev only_schema : Dict String String → Result Exception String
only_schema ((slot, schema) ∷ []) = ok schema
only_schema _ = err value_error

unfoldable pub execute_agent :
    Executors
    → (contract_id : String) → NodeSpec
    → Inputs
    → (task_id : String) → Moment
    → Result Exception NodeExecutionResult
execute_agent executors contract_id node inputs task_id moment = do
  contract ← or_raise (lookup contract_id executors.contracts) key_error
  raise_if (has_tools contract.allowed_tools) value_error
  (text, usage) ←
      executors.client.generate contract inputs (timeout_for node.timeout_ms contract.timeout_ms)
  (name, payload) ←
      executors.client.parse_output contract.parser_id text contract.output_schema node.node_id
  schema ← only_schema node.output_slots
  raise_if (not (name == schema)) value_error
  publish executors.models.rules node inputs task_id moment name payload usage

-- The executor for the class of the node.
unfoldable pub dispatch :
    Executors
    → NodeKind
    → NodeSpec
    → Inputs
    → (task_id : String) → Moment
    → Result Exception NodeExecutionResult
dispatch executors (agent contract_id) node inputs task_id moment =
    execute_agent executors contract_id node inputs task_id moment
dispatch executors (harness harness_id) node inputs task_id moment =
    execute_harness executors.models executors.sandbox executors.harness_timeout_ms node inputs
      task_id moment
dispatch executors (transform transform_id) node inputs task_id moment =
    execute_transform executors.models transform_id node inputs task_id moment
dispatch executors (selector selector_id) node inputs task_id moment =
    execute_selector executors.models selector_id node inputs task_id moment

-- The `except` clause.
unfoldable pub catch :
    (Exception → String)
    → String
    → ℕ
    → Result Exception NodeExecutionResult
    → Result Exception NodeExecutionResult
catch message node_id latency_ms (ok result) = ok result
catch message node_id latency_ms (err e) =
    if is_caught e then ok (failed_result node_id (message e) latency_ms) else err e

unfoldable pub execute_safely :
    Executors
    → NodeSpec
    → Inputs
    → (task_id : String) → Moment
    → Result Exception NodeExecutionResult
execute_safely executors node inputs task_id moment =
    catch executors.message node.node_id moment.latency_ms
      (dispatch executors node.node_kind node inputs task_id moment)

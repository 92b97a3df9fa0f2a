-- ===== src/Runtime/State.antt =====
-- src/orchestra/runtime/state.py and src/orchestra/llm/usage.py
use codename_madagascar.Prelude.{ℕ, String, Bool, true, false, Option, none, some, List, [], Dict}
use codename_madagascar.Ir.Artifacts.{ArtifactEnvelope}

pub data NodeStatus : Type 0 where
  pending ready running succeeded failed skipped cancelled : NodeStatus

-- `status is NodeStatus.PENDING`
abbrev pub is_pending : NodeStatus → Bool
is_pending pending = true
is_pending _ = false

-- The statuses of a node that will give no output.
abbrev pub is_dead : NodeStatus → Bool
is_dead failed = true
is_dead skipped = true
is_dead cancelled = true
is_dead _ = false

pub record RuntimeState : Type 0 where
  pub run_id : String
  pub task_id : String
  pub graph_id : String
  pub graph_hash : String
  pub contract_hash : String
  pub node_status : Dict String NodeStatus
  pub node_outputs : Dict String (Dict String String)
  pub initial_artifacts : Dict String String
  pub active_edges : List String
  pub inactive_edges : List String
  pub final_output_artifact_id : Option String
  pub frozen : Bool
  pub wave_id : ℕ
  pub checkpoint_count : ℕ
  pub node_latencies_ms : Dict String ℕ

pub record LlmUsage : Type 0 where
  pub prompt_tokens : ℕ
  pub completion_tokens : ℕ
  pub cached_tokens : ℕ
  pub total_tokens : ℕ
  -- a float, as its text
  pub estimated_cost_usd : Option String

abbrev pub no_usage : LlmUsage
no_usage = record {
  prompt_tokens = 0;
  completion_tokens = 0;
  cached_tokens = 0;
  total_tokens = 0;
  estimated_cost_usd = none;
}

pub record NodeExecutionResult : Type 0 where
  pub node_id : String
  pub success : Bool
  pub outputs : Dict String ArtifactEnvelope
  pub error : Option String
  pub latency_ms : ℕ
  pub usage : LlmUsage

-- `NodeExecutionResult.failed`; the text of the exception is given.
abbrev pub failed_result : String → String → ℕ → NodeExecutionResult
failed_result node_id error latency_ms = record {
  node_id = node_id;
  success = false;
  outputs = [];
  error = some error;
  latency_ms = latency_ms;
  usage = no_usage;
}

-- ===== src/Ir/Nodes.antt =====
-- src/orchestra/ir/nodes.py. A node is its base fields and a tag with the field of its class.
use codename_madagascar.Prelude.{ℕ, String, Option, Dict}

pub data NodeKind : Type 0 where
  agent : (contract_id : String) → NodeKind
  harness : (harness_id : String) → NodeKind
  transform : (transform_id : String) → NodeKind
  selector : (selector_id : String) → NodeKind

pub record NodeSpec : Type 0 where
  pub node_id : String
  pub node_kind : NodeKind
  pub input_slots : Dict String String
  pub output_slots : Dict String String
  -- in milliseconds
  pub timeout_ms : Option ℕ

-- ===== src/Compiler/Checks.antt =====
-- src/orchestra/ir/compiler.py: the constructor's registries, the errors, and the checks that
-- `compile` makes on each node and on each edge.
pub mod Edges
use codename_madagascar.Prelude.{
  String, Bool, false, not, ◌&&◌, Option, none, some, List, [], ◌∷◌, Dict, lookup, values, contains,
  ◌==◌, string_eq, Result, ok, ◌>>=◌, ◌>>◌, raise_if, or_raise, ◌||◌, err,
}
use codename_madagascar.Ir.Nodes.{NodeSpec, NodeKind, agent, harness, transform, selector}
use codename_madagascar.Ir.Edges.{EdgeSpec, EdgeCondition, split_dots}
use codename_madagascar.Ir.Contracts.{AgentContract}
use codename_madagascar.Ir.Schemas.{payload_schemas}

pub record GraphCompiler : Type 0 where
  pub contracts : Dict String AgentContract
  pub harness_ids : List String
  pub transform_ids : List String
  pub selector_ids : List String

-- GraphCompilationError, by its message. `out_of_fuel` is the model's own: see Compiler/Compile.
pub data CompilationError : Type 0 where
  duplicate_node_ids duplicate_edge_ids : CompilationError
  missing_contract : (contract_id : String) → CompilationError
  undeclared_output : (contract_id node_id : String) → CompilationError
  undeclared_input : (contract_id node_id : String) → CompilationError
  missing_harness : (harness_id : String) → CompilationError
  missing_transform : (transform_id : String) → CompilationError
  missing_selector : (selector_id : String) → CompilationError
  unknown_node_in_edge : (edge_id : String) → CompilationError
  unknown_source_slot : (node_id slot : String) → CompilationError
  unknown_destination_slot : (node_id slot : String) → CompilationError
  incompatible_edge : (edge_id source_type destination_type : String) → CompilationError
  missing_condition_field : (edge_id source_type field : String) → CompilationError
  unbound_input_slot : (node_id slot : String) → CompilationError
  no_entry_nodes contains_cycle : CompilationError
  no_final_producer : (slot : String) → CompilationError
  unreachable_output out_of_fuel : CompilationError

abbrev pub Checked : Type 0 → Type 0
Checked A = Result CompilationError A

-- The two tests on the schemas of an agent's contract.
check_contract : AgentContract → NodeSpec → Checked Unit
check_contract contract node = do
  raise_if (not (contains (values node.output_slots) contract.output_schema))
      (undeclared_output contract.contract_id node.node_id)
  raise_if
      (not (contract.input_schema == "ArtifactBundle")
        && not (contains (values node.input_slots) contract.input_schema))
      (undeclared_input contract.contract_id node.node_id)

unfoldable pub check_kind : GraphCompiler → NodeSpec → NodeKind → Checked Unit
unfolding check_contract
check_kind c node (agent contract_id) = do
  contract ← or_raise (lookup contract_id c.contracts) (missing_contract contract_id)
  check_contract contract node
check_kind c node (harness harness_id) =
    raise_if (not (contains c.harness_ids harness_id)) (missing_harness harness_id)
check_kind c node (transform transform_id) =
    raise_if (not (contains c.transform_ids transform_id)) (missing_transform transform_id)
check_kind c node (selector selector_id) =
    raise_if (not (contains c.selector_ids selector_id)) (missing_selector selector_id)

unfoldable pub check_node : GraphCompiler → NodeSpec → Checked Unit
unfolding check_kind
check_node c node = check_kind c node node.node_kind

-- `source_field.split(".", 1)[0]`
first_part : List String → String
first_part [] = ""
first_part (part ∷ parts) = part

abbrev has_field : Option (List String) → String → Bool
has_field none field = false
has_field (some fields) field = contains fields field

unfoldable pub check_condition : EdgeSpec → String → Option EdgeCondition → Checked Unit
unfolding first_part
check_condition edge source_type none = ok tt
check_condition edge source_type (some condition) =
    let field = first_part (split_dots condition.source_field) in
    raise_if (not (has_field (lookup source_type payload_schemas) field))
      (missing_condition_field edge.edge_id source_type field)

-- The tests at the head of the loop over the edges, in order.
unfoldable pub check_edge : Dict String NodeSpec → EdgeSpec → Checked Unit
check_edge nodes edge = do
  source ← or_raise (lookup edge.source_node nodes) (unknown_node_in_edge edge.edge_id)
  destination ← or_raise (lookup edge.destination_node nodes) (unknown_node_in_edge edge.edge_id)
  source_type ←
      or_raise (lookup edge.source_output source.output_slots)
        (unknown_source_slot edge.source_node edge.source_output)
  destination_type ←
      or_raise (lookup edge.destination_input destination.input_slots)
        (unknown_destination_slot edge.destination_node edge.destination_input)
  raise_if (not (source_type == destination_type))
      (incompatible_edge edge.edge_id source_type destination_type)
  check_condition edge source_type edge.condition

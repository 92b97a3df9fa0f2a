-- ===== src/Tests/Graphs.antt =====
-- A graph after configs/graphs/b1_single_harness.yaml: a coder, the public harness, and a freeze
-- that waits for a passing result.
use codename_madagascar.Prelude.{String, Option, none, some, List, [], ◌∷◌, Dict}
use codename_madagascar.Json.{null}
use codename_madagascar.Ir.Nodes.{NodeSpec, NodeKind, agent, harness, transform}
use codename_madagascar.Ir.Edges.{EdgeSpec, EdgeCondition, is_true, full}
use codename_madagascar.Ir.Contracts.{AgentContract, local_scope}
use codename_madagascar.Ir.Graph.{OrchestraGraph}
use codename_madagascar.Compiler.Checks.{GraphCompiler}

abbrev pub node : String → NodeKind → Dict String String → Dict String String → NodeSpec
node id kind inputs outputs = record {
  node_id = id;
  node_kind = kind;
  input_slots = inputs;
  output_slots = outputs;
  timeout_ms = none;
}

abbrev pub edge : String → String × String → String × String → Option EdgeCondition → EdgeSpec
edge id from to condition = record {
  edge_id = id;
  source_node = from.0;
  source_output = from.1;
  destination_node = to.0;
  destination_input = to.1;
  payload_policy = full;
  condition = condition;
}

abbrev pub passed : EdgeCondition
passed = record { source_field = "passed"; operator = is_true; value = null }

abbrev pub coder_contract : AgentContract
coder_contract = record {
  contract_id = "direct_coder";
  role = "coder";
  system_prompt_template = "";
  user_prompt_template = "{artifacts_json}";
  model = "gpt-5-mini";
  temperature_milli = 0;
  max_tokens = 4096;
  timeout_ms = 120000;
  allowed_tools = [];
  input_schema = "ArtifactBundle";
  output_schema = "CodeArtifact";
  parser_id = "python_code";
  memory_scope = local_scope;
}

abbrev pub compiler : GraphCompiler
compiler = record {
  contracts = ("direct_coder", coder_contract) ∷ [];
  harness_ids = "public_code_harness" ∷ [];
  transform_ids = "identity_code" ∷ "freeze_code" ∷ [];
  selector_ids = [];
}

abbrev pub problem_slot : Dict String String
problem_slot = ("problem", "ProblemArtifact") ∷ []

abbrev pub coder : NodeSpec
coder = node "coder" (agent "direct_coder") problem_slot (("code", "CodeArtifact") ∷ [])

abbrev pub judge : NodeSpec
judge =
    node "judge" (harness "public_code_harness")
      (("problem", "ProblemArtifact") ∷ ("code", "CodeArtifact") ∷ [])
      (("result", "PublicHarnessResultArtifact") ∷ [])

abbrev pub freeze : NodeSpec
freeze =
    node "freeze" (transform "freeze_code")
      (("code", "CodeArtifact") ∷ ("gate", "PublicHarnessResultArtifact") ∷ [])
      (("final_code", "FinalCodeArtifact") ∷ [])

abbrev pub graph_of : List NodeSpec → List EdgeSpec → OrchestraGraph
graph_of nodes edges = record {
  graph_id = "sample";
  version = "1.0";
  nodes = nodes;
  edges = edges;
  initial_artifact_slots = problem_slot;
  final_output_slot = "final_code";
  content_hash = "g0";
}

abbrev pub pipeline_edges : List EdgeSpec
pipeline_edges =
    edge "code_to_judge" ("coder", "code") ("judge", "code") none
    ∷ edge "code_to_freeze" ("coder", "code") ("freeze", "code") none
    ∷ edge "pass_to_freeze" ("judge", "result") ("freeze", "gate") (some passed)
    ∷ []

abbrev pub pipeline : OrchestraGraph
pipeline = graph_of (freeze ∷ judge ∷ coder ∷ []) pipeline_edges

-- An identity node that feeds itself through another.
abbrev pub echo : String → NodeSpec
echo id =
    node id (transform "identity_code") (("code", "CodeArtifact") ∷ [])
      (("code", "CodeArtifact") ∷ [])

abbrev pub cyclic : OrchestraGraph
cyclic = graph_of (coder ∷ echo "a" ∷ echo "b" ∷ []) (
    edge "a_to_b" ("a", "code") ("b", "code") none
    ∷ edge "b_to_a" ("b", "code") ("a", "code") none
    ∷ [])

-- The final output is made by a node that takes the initial slot at another type, so that nothing
-- starts there.
abbrev pub detached : OrchestraGraph
detached =
    graph_of
      (coder
        ∷ node "lone" (transform "freeze_code") (("problem", "CodeArtifact") ∷ [])
            (("final_code", "FinalCodeArtifact") ∷ [])
        ∷ [])
      []

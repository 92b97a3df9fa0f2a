-- ===== src/Ir/Graph.antt =====
-- src/orchestra/ir/graph.py. The content hash stands in Ir/Artifacts.
use codename_madagascar.Prelude.{String, List, Dict}
use codename_madagascar.Ir.Nodes.{NodeSpec}
use codename_madagascar.Ir.Edges.{EdgeSpec}

pub record OrchestraGraph : Type 0 where
  pub graph_id : String
  pub version : String
  pub nodes : List NodeSpec
  pub edges : List EdgeSpec
  pub initial_artifact_slots : Dict String String
  pub final_output_slot : String
  pub content_hash : String

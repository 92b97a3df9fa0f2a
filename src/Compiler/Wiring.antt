-- ===== src/Compiler/Wiring.antt =====
-- src/orchestra/ir/compiler.py: the loop over the edges, which checks each edge and collects the
-- adjacency lists, the indegrees and the number of edges into each slot. The three dictionaries are
-- total functions; `indegree` is read and written at nodes of the graph alone, which `check_edge`
-- has made sure of.
pub mod Tables
use codename_madagascar.Prelude.Integers.{ℤ, pos, suc_ℤ}
use codename_madagascar.Prelude.{
  ℕ, suc, String, List, [], ◌∷◌, ◌++◌, Dict, update, string_eq, pair_eq, Result, ok, err, ◌>>=◌,
  ◌>>◌,
}
use codename_madagascar.Ir.Nodes.{NodeSpec}
use codename_madagascar.Ir.Edges.{EdgeSpec}
use codename_madagascar.Compiler.Checks.{Checked, check_edge}

pub record Wiring : Type 0 where
  pub adjacency : String → List String
  pub indegree : String → ℤ
  pub incoming_slots : String × String → ℕ

abbrev pub unwired : Wiring
unwired = record { adjacency = λ _. []; indegree = λ _. pos 0; incoming_slots = λ _. 0 }

-- The three statements at the end of the loop's body.
unfoldable pub add_edge : Wiring → EdgeSpec → Wiring
add_edge w edge = record {
  adjacency =
      update w.adjacency edge.source_node
        (w.adjacency edge.source_node ++ edge.destination_node ∷ []);
  indegree = update w.indegree edge.destination_node (suc_ℤ (w.indegree edge.destination_node));
  incoming_slots =
      let slot : String × String = (edge.destination_node, edge.destination_input) in
      update w.incoming_slots slot (suc (w.incoming_slots slot));
}

unfoldable pub wire_edges : Dict String NodeSpec → Wiring → List EdgeSpec → Checked Wiring
unfolding add_edge
wire_edges nodes w [] = ok w
wire_edges nodes w (edge ∷ edges) =
    check_edge nodes edge >>= λ _. wire_edges nodes (add_edge w edge) edges

-- ===== src/Compiler/Wiring/Tables.antt =====
-- src/orchestra/ir/compiler.py: what the loop over the edges has checked and collected.
use codename_madagascar.Prelude.Integers.{pos}
use mathlib.Core.List.{append_assoc, append-nil}
use codename_madagascar.Prelude.{
  ℕ, ◌+◌, ◌≡◌, sym, ap, ◌∙◌, String, List, [], ◌∷◌, ◌++◌, Dict, string_eq, pair_eq, subst,
  ok-injective, ok, >>=-eq-ok, length, count, arith, eq_iff, All, if◌then◌else◌, ◌==◌, ◌&&◌,
  Bool-cases, inl, inr,
}
use codename_madagascar.Ir.Nodes.{NodeSpec}
use codename_madagascar.Ir.Edges.{EdgeSpec}
use codename_madagascar.Compiler.Checks.{check_edge}
use codename_madagascar.Compiler.Waves.Rounds.{targets_of, waiting}
use codename_madagascar.Compiler.Wiring.{Wiring, add_edge, wire_edges}

-- The edges into one slot of one node.
abbrev pub edges_into : List EdgeSpec → String → String → List EdgeSpec
edges_into [] node slot = []
edges_into (edge ∷ edges) node slot =
    let rest = edges_into edges node slot in
    if edge.destination_node == node && edge.destination_input == slot then edge ∷ rest else rest

-- The tables of `w'` hold those of `w` and what the edges add.
pub record Extends (w : Wiring) (edges : List EdgeSpec) (w' : Wiring) : Type 0 where
  pub adjacent : (u : String) → w'.adjacency u ≡ w.adjacency u ++ targets_of edges u
  pub entered :
      (v : String) (n : ℕ)
      → w.indegree v ≡ pos n
      → w'.indegree v ≡ pos (n + count v (waiting edges []))
  pub bound :
      (d i : String)
      → w'.incoming_slots (d, i) ≡ w.incoming_slots (d, i) + length (edges_into edges d i)

Extends-nil : (w : Wiring) → Extends w [] w
Extends-nil w = record {
  adjacent = λ u. sym (append-nil _);
  entered = λ v n h. h ∙ ap pos (omega arith);
  bound = λ d i. omega arith;
}

add_edge-adjacency :
    (w : Wiring) (edge : EdgeSpec) (edges : List EdgeSpec) (u : String)
    → (add_edge w edge).adjacency u ++ targets_of edges u
      ≡ w.adjacency u ++ targets_of (edge ∷ edges) u
unfolding add_edge
add_edge-adjacency w edge edges u = elim (Bool-cases (edge.source_node == u)) [
  | inl here ↦ ground (
    arith,
    eq_iff edge.source_node u,
    append_assoc (w.adjacency u) (edge.destination_node ∷ []) (targets_of edges u),
  )
  | inr elsewhere ↦ rw (elsewhere)
]

add_edge-indegree :
    (w : Wiring) (edge : EdgeSpec) (v : String) (n : ℕ)
    → w.indegree v ≡ pos n
    → (add_edge w edge).indegree v ≡ pos (n + count v (edge.destination_node ∷ []))
unfolding add_edge
add_edge-indegree w edge v n h = ground (arith, eq_iff edge.destination_node v)

add_edge-incoming :
    (w : Wiring) (edge : EdgeSpec) (edges : List EdgeSpec) (d i : String)
    → (add_edge w edge).incoming_slots (d, i) + length (edges_into edges d i)
      ≡ w.incoming_slots (d, i) + length (edges_into (edge ∷ edges) d i)
unfolding add_edge
add_edge-incoming w edge edges d i =
    ground (arith, eq_iff edge.destination_node d, eq_iff edge.destination_input i)

Extends-cons :
    (w : Wiring) (edge : EdgeSpec) (edges : List EdgeSpec) (w' : Wiring)
    → Extends (add_edge w edge) edges w'
    → Extends w (edge ∷ edges) w'
Extends-cons w edge edges w' h = record {
  adjacent = λ u. h.adjacent u ∙ add_edge-adjacency w edge edges u;
  entered = λ v n e. h.entered v _ (add_edge-indegree w edge v n e) ∙ ap pos (omega arith);
  bound = λ d i. h.bound d i ∙ add_edge-incoming w edge edges d i;
}

pub wire_edges-Extends :
    (nodes : Dict String NodeSpec) (w : Wiring) (edges : List EdgeSpec) {w' : Wiring}
    → wire_edges nodes w edges ≡ ok w'
    → Extends w edges w' × All (λ (edge : EdgeSpec). check_edge nodes edge ≡ ok tt) edges
unfolding wire_edges
wire_edges-Extends nodes w [] h = (subst (Extends w []) (ok-injective h) (Extends-nil w), tt)
wire_edges-Extends nodes w (edge ∷ edges) h =
    let (u, checked, rest) = >>=-eq-ok (check_edge nodes edge) _ h in
    let (extends, all_checked) = wire_edges-Extends nodes (add_edge w edge) edges rest in
    (Extends-cons w edge edges _ extends, (checked, all_checked))

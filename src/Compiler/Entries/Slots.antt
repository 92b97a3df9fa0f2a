-- ===== src/Compiler/Entries/Slots.antt =====
-- src/orchestra/ir/compiler.py: the entry nodes that the loop finds, and the slots that it accepts.
use codename_madagascar.Prelude.{
  ℕ, ◌≤◌, ◌<◌, ◌≡◌, sym, ap, ◌∙◌, String, true, false, List, [], ◌∷◌, Dict, keys, has_key, map,
  length, not, ◌&&◌, count, string_eq, nat_eq, ok, arith, ◌==◌, All, ◌⊎◌, inl, inr, Bool-cases,
  >>=-eq-ok, raise_if-bind, ok-injective, if◌then◌else◌,
}
use codename_madagascar.Ir.Nodes.{NodeSpec}
use codename_madagascar.Ir.Graph.{OrchestraGraph}
use codename_madagascar.Compiler.Checks.{unbound_input_slot}
use codename_madagascar.Compiler.Wiring.Tables.{edges_into}
use codename_madagascar.Compiler.Entries.{initial_match, find_entries, check_bound}

-- The nodes all of whose input slots are initial slots of the same schema.
abbrev pub entries_of : Dict String String → List NodeSpec → List String
entries_of initial [] = []
entries_of initial (node ∷ nodes) =
    let rest = entries_of initial nodes in
    if initial_match initial node then node.node_id ∷ rest else rest

-- The slot is an initial slot, or some edge enters it.
abbrev pub IsBound : OrchestraGraph → String → String → Type 0
IsBound graph node_id slot =
    (has_key slot graph.initial_artifact_slots ≡ true)
    ⊎ (0 < length (edges_into graph.edges node_id slot))

abbrev pub IsAllBound : OrchestraGraph → NodeSpec → Type 0
IsAllBound graph node = All (IsBound graph node.node_id) (keys node.input_slots)

module _ (graph : OrchestraGraph) (incoming : String × String → ℕ)
    (counted : (d i : String) → incoming (d, i) ≡ length (edges_into graph.edges d i)) where
  check_bound-IsBound :
      (node_id : String) (slots : List String)
      → check_bound graph.initial_artifact_slots incoming node_id slots ≡ ok tt
      → All (IsBound graph node_id) slots
  unfolding check_bound
  check_bound-IsBound node_id [] h = tt
  check_bound-IsBound node_id (slot ∷ slots) h =
      let unbound =
        not (has_key slot graph.initial_artifact_slots) && incoming (node_id, slot) == 0 in
      let (bound, rest) = raise_if-bind unbound (unbound_input_slot node_id slot) _ h in
      (slot_bound bound, check_bound-IsBound node_id slots rest)
    where
      slot_bound :
          (not (has_key slot graph.initial_artifact_slots)
              && nat_eq.beq (incoming (node_id, slot)) 0)
            ≡ false
          → IsBound graph node_id slot
      slot_bound e = elim (Bool-cases (has_key slot graph.initial_artifact_slots)) [
        | inl given ↦ inl given
        | inr absent ↦ inr (ground (arith, counted node_id slot))
      ]

  pub find_entries_lem :
      (nodes : List NodeSpec) {entries : List String}
      → find_entries graph.initial_artifact_slots incoming nodes ≡ ok entries
      → (entries ≡ entries_of graph.initial_artifact_slots nodes) × All (IsAllBound graph) nodes
  unfolding find_entries
  find_entries_lem [] h = (sym (ok-injective h), tt)
  find_entries_lem (node ∷ nodes) h =
      let (_, bound, h₁) =
        >>=-eq-ok
          (check_bound graph.initial_artifact_slots incoming node.node_id (keys node.input_slots)) _
          h in
      let (rest, found, h₂) =
        >>=-eq-ok (find_entries graph.initial_artifact_slots incoming nodes) _ h₁ in
      let (same, all_bound) = find_entries_lem nodes found in
      (
        sym (ok-injective h₂)
            ∙ ap
                (λ l.
                  if initial_match graph.initial_artifact_slots node then node.node_id ∷ l else l)
                same,
        (check_bound-IsBound node.node_id (keys node.input_slots) bound, all_bound),
      )

pub count-entries_of-le :
    (initial : Dict String String) (nodes : List NodeSpec) (v : String)
    → count v (entries_of initial nodes) ≤ count v (map (λ (n : NodeSpec). n.node_id) nodes)
count-entries_of-le initial [] v = omega arith
count-entries_of-le initial (node ∷ nodes) v = ground (arith, count-entries_of-le initial nodes v)

-- ===== src/Compiler/Entries/Members.antt =====
-- src/orchestra/ir/compiler.py: the entry nodes and the producers of a slot, described on the nodes of
-- the graph.
use mathlib.Core.List.{Memᴰ}
use codename_madagascar.Prelude.{
  ◌≡◌, ◌↔◌, refl, sym, ap, ◌∙◌, String, Bool, true, false, Option, none, some, List, [], ◌∷◌, map,
  filter, all, contains, Dict, lookup, has_key, string_eq, ◌==◌, ◌&&◌, eq_iff, arith, All,
  Bool-cases, inl, inr,
}
use codename_madagascar.Ir.Nodes.{NodeSpec}
use codename_madagascar.Ir.Graph.{OrchestraGraph}
use codename_madagascar.Compiler.Checks.Edges.{NodeAt}
use codename_madagascar.Compiler.Entries.{initial_match, option_beq}
use codename_madagascar.Compiler.Entries.Slots.{entries_of}
use codename_madagascar.Compiler.Compile.{producers}

-- The slot is an initial one of that schema.
abbrev IsInitial : Dict String String → String × String → Type 0
IsInitial initial (slot, schema) = lookup slot initial ≡ some schema

-- The name of a node all of whose input slots are initial slots of the same schema.
abbrev pub IsEntry : OrchestraGraph → String → Type 0
IsEntry graph v =
    (node : NodeSpec) × NodeAt graph.nodes v node
    × All (IsInitial graph.initial_artifact_slots) node.input_slots

-- The name of a node that has the final slot among its output slots.
abbrev pub IsProducer : OrchestraGraph → String → Type 0
IsProducer graph v =
    (node : NodeSpec) × NodeAt graph.nodes v node
    × (has_key graph.final_output_slot node.output_slots ≡ true)

abbrev name_of : NodeSpec → String
name_of node = node.node_id

abbrev IsChosen : (NodeSpec → Bool) → List NodeSpec → String → Type 0
IsChosen test nodes v = (node : NodeSpec) × NodeAt nodes v node × (test node ≡ true)

IsChosen-later :
    (test : NodeSpec → Bool) (n : NodeSpec) (nodes : List NodeSpec) (v : String)
    → IsChosen test nodes v
    → IsChosen test (n ∷ nodes) v
IsChosen-later test n nodes v (node, at, passed) =
    (node, record { planned = Memᴰ.tail at.planned; named = at.named }, passed)

contains-IsChosen :
    (test : NodeSpec → Bool) (nodes : List NodeSpec) (v : String)
    → contains (map name_of (filter test nodes)) v ≡ true
    → IsChosen test nodes v
contains-IsChosen test [] v h = cc
contains-IsChosen test (n ∷ nodes) v h = elim (Bool-cases (test n)) [
  | inl passed ↦ elim (Bool-cases (n.node_id == v)) [
    | inl same ↦
        (n, record { planned = Memᴰ.head refl; named = (eq_iff n.node_id v).0 same }, passed)
    | inr other ↦
        IsChosen-later test n nodes v
          (contains-IsChosen test nodes v (ground (arith, eq_iff n.node_id v, eq_iff v n.node_id)))
  ]
  | inr failed ↦ IsChosen-later test n nodes v (contains-IsChosen test nodes v (rw failed at h))
]

Memᴰ-contains :
    (test : NodeSpec → Bool) (node : NodeSpec) (nodes : List NodeSpec)
    → Memᴰ node nodes
    → test node ≡ true
    → contains (map name_of (filter test nodes)) node.node_id ≡ true
Memᴰ-contains test node [] m passed = elim m [ ]
Memᴰ-contains test node (n ∷ nodes) (Memᴰ.head e) passed =
    rw e (ground (arith, passed, eq_iff node.node_id node.node_id))
Memᴰ-contains test node (n ∷ nodes) (Memᴰ.tail m) passed =
    ground (arith, Memᴰ-contains test node nodes m passed)

chosen_lem :
    (test : NodeSpec → Bool) (nodes : List NodeSpec) (v : String)
    → (contains (map name_of (filter test nodes)) v ≡ true) ↔ IsChosen test nodes v
chosen_lem test nodes v = (
  contains-IsChosen test nodes v,
  λ (node, at, passed).
      ap (contains (map name_of (filter test nodes))) (sym (at.named))
      ∙ Memᴰ-contains test node nodes (at.planned) passed,
)

same_schema :
    (found : Option String) (schema : String)
    → (option_beq found schema ≡ true) ↔ (found ≡ some schema)
same_schema none schema = (λ h. absurd cc, λ h. absurd cc)
same_schema (some f) schema = (λ h. ap some ((eq_iff f schema).0 h), λ h. (eq_iff f schema).1 cc)

both {ℓ κ} :
    {P : Type ℓ} {Q : Type κ} (a b : Bool)
    → (a ≡ true) ↔ P
    → (b ≡ true) ↔ Q
    → ((a && b) ≡ true) ↔ (P × Q)
both true b p q = (λ h. (p.0 refl, q.0 h), λ (_, h). q.1 h)
both false b p q = (λ h. absurd cc, λ (h, _). absurd (ground (arith, p.1 h)))

all-IsInitial :
    (initial : Dict String String) (slots : Dict String String)
    → (all (λ (slot : String × String). option_beq (lookup slot.0 initial) slot.1) slots ≡ true)
      ↔ All (IsInitial initial) slots
all-IsInitial initial [] = ground arith
all-IsInitial initial ((slot, schema) ∷ slots) =
    both _ _ (same_schema (lookup slot initial) schema) (all-IsInitial initial slots)

entries_of-filter :
    (initial : Dict String String) (nodes : List NodeSpec)
    → entries_of initial nodes ≡ map name_of (filter (initial_match initial) nodes)
entries_of-filter initial [] = refl
entries_of-filter initial (node ∷ nodes) = ground (arith, entries_of-filter initial nodes)

pub entries_of-IsEntry :
    (graph : OrchestraGraph) (v : String)
    → (contains (entries_of graph.initial_artifact_slots graph.nodes) v ≡ true) ↔ IsEntry graph v
unfolding initial_match
entries_of-IsEntry graph v =
    let initial = graph.initial_artifact_slots in
    let chosen = chosen_lem (initial_match initial) graph.nodes v in
    let same = ap (λ ids. contains ids v) (entries_of-filter initial graph.nodes) in
    (
      λ h.
          let (node, at, passed) = chosen.0 (sym same ∙ h) in
          (node, at, (all-IsInitial initial node.input_slots).0 passed),
      λ (node, at, fed). same ∙ chosen.1 (node, at, (all-IsInitial initial node.input_slots).1 fed),
    )

pub producers-IsProducer :
    (graph : OrchestraGraph) (v : String)
    → (contains (producers graph.final_output_slot graph.nodes) v ≡ true) ↔ IsProducer graph v
unfolding producers
producers-IsProducer graph v =
    chosen_lem (λ node. has_key graph.final_output_slot node.output_slots) graph.nodes v

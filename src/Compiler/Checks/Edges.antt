-- ===== src/Compiler/Checks/Edges.antt =====
-- src/orchestra/ir/compiler.py: what an accepted node or edge satisfies.
use mathlib.Core.List.{Memᴰ}
use codename_madagascar.Prelude.{
  ◌≡◌, sym, ap, ◌∙◌, String, some, List, [], ◌∷◌, map, Dict, lookup, insert, insert_all,
  lookup-insert, string_eq, ok, or_raise, raise_if, or_raise-eq-ok, >>=-eq-ok, raise_if-eq-ok,
  arith, eq_iff, ◌==◌, ◌⊎◌, inl, inr, Bool-cases, not, false, refl, Option, none, true, contains,
}
use codename_madagascar.Ir.Nodes.{NodeSpec}
use codename_madagascar.Ir.Edges.{EdgeSpec}
use codename_madagascar.Ir.Schemas.{payload_schemas}
use codename_madagascar.Ir.Edges.{EdgeCondition, split_dots, split_dots-cons}
use codename_madagascar.Compiler.Checks.{
  CompilationError, check_edge, check_condition, has_field, first_part,
}

-- A key of a dictionary built from pairs comes from one of them.
lookup-insert_all :
    {V : Type 0} (k : String) (ps : List (String × V)) (d : Dict String V) {v : V}
    → lookup k (insert_all ps d) ≡ some v
    → Memᴰ {A = String × V} (k, v) ps ⊎ (lookup k d ≡ some v)
unfolding insert_all
lookup-insert_all k [] d h = inr h
lookup-insert_all k ((j, w) ∷ ps) d {v} h = elim (lookup-insert_all k ps (insert j w d) h) [
  | inl later ↦ inl (Memᴰ.tail later)
  | inr now ↦ elim (Bool-cases (j == k)) [
    | inl same ↦ inl (Memᴰ.head (ground (arith, lookup-insert j k w d, eq_iff j k)))
    | inr other ↦ inr (ground (arith, lookup-insert j k w d))
  ]
]

-- The node of that name in the graph.
pub record NodeAt (nodes : List NodeSpec) (node_id : String) (node : NodeSpec) : Type 0 where
  pub planned : Memᴰ node nodes
  pub named : node.node_id ≡ node_id

Memᴰ-named :
    (k : String) (node : NodeSpec) (nodes : List NodeSpec)
    → Memᴰ {A = String × NodeSpec} (k, node) (map (λ (n : NodeSpec). (n.node_id, n)) nodes)
    → NodeAt nodes k node
Memᴰ-named k node [] m = elim m [ ]
Memᴰ-named k node (n ∷ nodes) (Memᴰ.head e) = record {
  planned = Memᴰ.head (ap (λ (p : String × NodeSpec). p.1) e);
  named =
      ap (λ (p : String × NodeSpec). p.1.node_id) e ∙ sym (ap (λ (p : String × NodeSpec). p.0) e);
}
Memᴰ-named k node (n ∷ nodes) (Memᴰ.tail m) =
    let found = Memᴰ-named k node nodes m in
    record { planned = Memᴰ.tail (found.planned); named = found.named }

pub lookup-nodes :
    (k : String) (nodes : List NodeSpec) {node : NodeSpec}
    → lookup k (insert_all (map (λ (n : NodeSpec). (n.node_id, n)) nodes) []) ≡ some node
    → NodeAt nodes k node
unfolding lookup
lookup-nodes k nodes {node} h = elim (lookup-insert_all k _ [] h) [
  | inl m ↦ Memᴰ-named k node nodes m
  | inr nowhere ↦ absurd (cc)
]

-- The condition is on the first part of a path, which the schema of the type has as a field.
pub record IsOnSchema (source_type : String) (condition : EdgeCondition) : Type 0 where
  pub fields : List String
  pub part : String
  pub parts : List String
  pub has_schema : lookup source_type payload_schemas ≡ some fields
  pub path : split_dots condition.source_field ≡ part ∷ parts
  pub is_field : contains fields part ≡ true

-- A condition that an edge has.
abbrev pub IsConditional : String → Option EdgeCondition → Type 0
IsConditional source_type none = Unit
IsConditional source_type (some condition) = IsOnSchema source_type condition

-- The edge joins two nodes of the graph at slots that they declare, of one type, and a condition
-- that it has is on a field of that type.
pub record IsTyped (nodes : List NodeSpec) (edge : EdgeSpec) : Type 0 where
  pub source : NodeSpec
  pub destination : NodeSpec
  pub from_node : NodeAt nodes edge.source_node source
  pub to_node : NodeAt nodes edge.destination_node destination
  pub slot_type : String
  pub produced : lookup edge.source_output source.output_slots ≡ some slot_type
  pub consumed : lookup edge.destination_input destination.input_slots ≡ some slot_type
  pub conditional : IsConditional slot_type edge.condition

same_type :
    (s d : String) (e : CompilationError) {u : Unit {0}} → raise_if (not (s == d)) e ≡ ok u → s ≡ d
same_type s d e h = ground (arith, raise_if-eq-ok (not (s == d)) e h, eq_iff s d)

check_condition-IsConditional :
    (edge : EdgeSpec) (source_type : String) (condition : Option EdgeCondition)
    → check_condition edge source_type condition ≡ ok tt
    → IsConditional source_type condition
unfolding check_condition first_part
check_condition-IsConditional edge source_type none h = tt
check_condition-IsConditional edge source_type (some given) h =
    let (part, parts, split) = split_dots-cons given.source_field in
    (on_part part parts split (lookup source_type payload_schemas) refl
      (raise_if-eq-ok _ _ (rw split at h)))
  where
    on_part :
        (part : String) (parts : List String)
        → split_dots given.source_field ≡ part ∷ parts
        → (found : Option (List String)) → lookup source_type payload_schemas ≡ found
        → not (has_field found part) ≡ false
        → IsOnSchema source_type given
    on_part part parts split none same_type absent = cc
    on_part part parts split (some fields) same_type present = record {
      fields = fields;
      part = part;
      parts = parts;
      has_schema = same_type;
      path = split;
      is_field = ground arith;
    }

pub check_edge-IsTyped :
    (nodes : List NodeSpec) (edge : EdgeSpec)
    → check_edge (insert_all (map (λ (n : NodeSpec). (n.node_id, n)) nodes) []) edge ≡ ok tt
    → IsTyped nodes edge
unfolding check_edge
check_edge-IsTyped nodes edge h =
    let (source, has_source, h₁) = >>=-eq-ok (or_raise _ _) _ h in
    let (destination, has_destination, h₂) = >>=-eq-ok (or_raise _ _) _ h₁ in
    let (s, has_s, h₃) = >>=-eq-ok (or_raise _ _) _ h₂ in
    let (d, has_d, h₄) = >>=-eq-ok (or_raise _ _) _ h₃ in
    let (_, same, h₅) = >>=-eq-ok (raise_if _ _) _ h₄ in
    record {
      source = source;
      destination = destination;
      from_node = lookup-nodes edge.source_node nodes (or_raise-eq-ok _ _ has_source);
      to_node = lookup-nodes edge.destination_node nodes (or_raise-eq-ok _ _ has_destination);
      slot_type = s;
      produced = or_raise-eq-ok _ _ has_s;
      consumed = or_raise-eq-ok _ _ has_d ∙ ap some (sym (same_type s d _ same));
      conditional = check_condition-IsConditional edge s edge.condition h₅;
    }

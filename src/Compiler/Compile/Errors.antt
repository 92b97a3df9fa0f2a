-- ===== src/Compiler/Compile/Errors.antt =====
-- src/orchestra/ir/compiler.py: which step of `compile` raises which error.
use codename_madagascar.Prelude.{
  ℕ, ◌≡◌, refl, String, Bool, true, false, List, [], ◌∷◌, Dict, Result, ok, err, ◌>>=◌, >>=-eq-err,
  raise_if, arith, inl, inr, keys,
}
use codename_madagascar.Ir.Nodes.{NodeSpec, NodeKind, agent, harness, transform, selector}
use codename_madagascar.Ir.Edges.{EdgeSpec}
use codename_madagascar.Ir.Graph.{OrchestraGraph}
use codename_madagascar.Compiler.Checks.{
  GraphCompiler, CompilationError, no_entry_nodes, contains_cycle, no_final_producer,
  unreachable_output, out_of_fuel, check_node, check_edge, check_kind, check_condition,
  duplicate_node_ids, duplicate_edge_ids,
}
use codename_madagascar.Compiler.Wiring.{Wiring, unwired, wire_edges, add_edge}
use codename_madagascar.Compiler.Entries.{find_entries, check_bound}
use codename_madagascar.Compiler.Compile.{
  node_ids, edge_ids, nodes_by_id, check_nodes, finish, compile, has_repeats,
}
use codename_madagascar.Compiler.Compile.Inversion.{IsWired, no_repeats}

-- The errors that only the last part raises, from the entry nodes on.
abbrev pub is_late : CompilationError → Bool
is_late no_entry_nodes = true
is_late contains_cycle = true
is_late (no_final_producer slot) = true
is_late unreachable_output = true
is_late out_of_fuel = true
is_late _ = false

check_kind_early :
    (c : GraphCompiler) (node : NodeSpec) (kind : NodeKind) (e : CompilationError)
    → check_kind c node kind ≡ err e
    → is_late e ≡ false
unfolding check_kind
check_kind_early c node (agent i) e h = ground arith
check_kind_early c node (harness i) e h = ground arith
check_kind_early c node (transform i) e h = ground arith
check_kind_early c node (selector i) e h = ground arith

check_nodes_early :
    (c : GraphCompiler) (nodes : List NodeSpec) (e : CompilationError)
    → check_nodes c nodes ≡ err e
    → is_late e ≡ false
unfolding check_nodes check_node
check_nodes_early c [] e h = cc
check_nodes_early c (node ∷ nodes) e h = elim (>>=-eq-err (check_kind c node node.node_kind) _ h) [
  | inl now ↦ check_kind_early c node node.node_kind e now
  | inr (_, _, later) ↦ check_nodes_early c nodes e later
]

check_edge_early :
    (nodes : Dict String NodeSpec) (edge : EdgeSpec) (e : CompilationError)
    → check_edge nodes edge ≡ err e
    → is_late e ≡ false
unfolding check_edge check_condition
check_edge_early nodes edge e h = ground arith

check_bound_early :
    (initial : Dict String String) (incoming : String × String → ℕ) (node_id : String)
    (slots : List String) (e : CompilationError)
    → check_bound initial incoming node_id slots ≡ err e
    → is_late e ≡ false
unfolding check_bound
check_bound_early initial incoming node_id [] e h = cc
check_bound_early initial incoming node_id (slot ∷ slots) e h =
    ground (arith, check_bound_early initial incoming node_id slots e)

wire_edges_early :
    (nodes : Dict String NodeSpec) (w : Wiring) (edges : List EdgeSpec) (e : CompilationError)
    → wire_edges nodes w edges ≡ err e
    → is_late e ≡ false
unfolding wire_edges
wire_edges_early nodes w [] e h = cc
wire_edges_early nodes w (edge ∷ edges) e h = elim (>>=-eq-err (check_edge nodes edge) _ h) [
  | inl now ↦ check_edge_early nodes edge e now
  | inr (_, _, later) ↦ wire_edges_early nodes (add_edge w edge) edges e later
]

find_entries_early :
    (initial : Dict String String) (incoming : String × String → ℕ) (nodes : List NodeSpec)
    (e : CompilationError)
    → find_entries initial incoming nodes ≡ err e
    → is_late e ≡ false
unfolding find_entries
find_entries_early initial incoming [] e h = cc
find_entries_early initial incoming (node ∷ nodes) e h =
    elim (>>=-eq-err (check_bound initial incoming node.node_id (keys node.input_slots)) _ h) [
      | inl now ↦ check_bound_early initial incoming node.node_id (keys node.input_slots) e now
      | inr (_, _, later) ↦ elim (>>=-eq-err (find_entries initial incoming nodes) _ later) [
        | inl rest ↦ find_entries_early initial incoming nodes e rest
        | inr (_, _, returned) ↦ cc
      ]
    ]

-- A step that raises no late error has succeeded where the block raises one.
past {ℓ κ} :
    {A : Type ℓ} {B : Type κ} (m : Result CompilationError A) (f : A → Result CompilationError B)
    {e : CompilationError}
    → (m ≡ err e → is_late e ≡ false)
    → is_late e ≡ true
    → (m >>= f) ≡ err e
    → (a : A) × (m ≡ ok a) × (f a ≡ err e)
past m f early late h = elim (>>=-eq-err m f h) [
  | inl now ↦ absurd (cc (early now))
  | inr later ↦ later
]

raise_if_early :
    (b : Bool) (d e : CompilationError)
    → is_late d ≡ false
    → raise_if {E = CompilationError} b d ≡ err e
    → is_late e ≡ false
raise_if_early b d e early h = ground arith

-- A late error comes from the last part, after all checks have passed.
pub compile-late :
    (c : GraphCompiler) (graph : OrchestraGraph) (e : CompilationError)
    → is_late e ≡ true
    → compile c graph ≡ err e
    → (w : Wiring) × (entries : List String) × IsWired c graph w entries
      × (finish graph w entries ≡ err e)
unfolding compile
compile-late c graph e late h =
    let nodes_repeat = raise_if (has_repeats (node_ids graph)) duplicate_node_ids in
    let (_, nodes_ok, h₁) =
      past nodes_repeat _ (raise_if_early _ duplicate_node_ids e refl) late h in
    let edges_repeat = raise_if (has_repeats (edge_ids graph)) duplicate_edge_ids in
    let (_, edges_ok, h₂) =
      past edges_repeat _ (raise_if_early _ duplicate_edge_ids e refl) late h₁ in
    let (_, checked, h₃) =
      past (check_nodes c graph.nodes) _ (check_nodes_early c graph.nodes e) late h₂ in
    let nodes = nodes_by_id graph.nodes in
    let (w, wired, h₄) =
      past (wire_edges nodes unwired graph.edges) _ (wire_edges_early nodes unwired graph.edges e)
        late h₃ in
    let (entries, entered, h₅) =
      past (find_entries graph.initial_artifact_slots w.incoming_slots graph.nodes) _
        (find_entries_early graph.initial_artifact_slots w.incoming_slots graph.nodes e) late h₄ in
    (
      w,
      entries,
      record {
        distinct_nodes = no_repeats (node_ids graph) _ nodes_ok;
        distinct_edges = no_repeats (edge_ids graph) _ edges_ok;
        checked = checked;
        wired = wired;
        entered = entered;
      },
      h₅,
    )

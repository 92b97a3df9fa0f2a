-- ===== src/Compiler/Compile/Inversion.antt =====
-- src/orchestra/ir/compiler.py: what holds of a graph that `compile` accepts, step by step.
use codename_madagascar.Prelude.{
  ℕ, suc, ◌≡◌, refl, subst, ap, ◌∙◌, String, Bool, false, true, not, some, List, length, to_set,
  IsDistinct, IsDistinct-of_to_set, any, contains, nat_eq, string_eq, ok, raise_if-bind,
  or_raise-bind, >>=-eq-ok, raise_if, raise_if-eq-ok, ok-injective, arith,
}
use codename_madagascar.Ir.Graph.{OrchestraGraph}
use codename_madagascar.Compiler.Checks.{
  out_of_fuel, no_entry_nodes, contains_cycle, no_final_producer, unreachable_output, GraphCompiler,
  CompilationError,
}
use codename_madagascar.Compiler.Wiring.{Wiring, unwired, wire_edges}
use codename_madagascar.Compiler.Entries.{find_entries}
use codename_madagascar.Compiler.Waves.{wave_loop, first_wave}
use codename_madagascar.Compiler.Reach.{close_loop}
use codename_madagascar.Compiler.Compile.{
  CompiledGraph, node_ids, edge_ids, nodes_by_id, check_nodes, has_repeats, is_empty, producers,
  finish, compile,
}

-- The steps up to the wiring.
pub record IsWired (c : GraphCompiler) (graph : OrchestraGraph) (w : Wiring) (entries : List String)
    : Type 0 where
  pub distinct_nodes : IsDistinct (node_ids graph)
  pub distinct_edges : IsDistinct (edge_ids graph)
  pub checked : check_nodes c graph.nodes ≡ ok tt
  pub wired : wire_edges (nodes_by_id graph.nodes) unwired graph.edges ≡ ok w
  pub entered : find_entries graph.initial_artifact_slots w.incoming_slots graph.nodes ≡ ok entries

-- The steps from the entry nodes on.
pub record IsFinal (graph : OrchestraGraph) (w : Wiring) (entries : List String) (g : CompiledGraph)
    : Type 0 where
  pub same_graph : g.graph ≡ graph
  pub same_entries : g.entry_nodes ≡ entries
  pub looped :
      wave_loop
        (suc (length graph.nodes))
        w.adjacency
        (first_wave (node_ids graph) w.indegree)
        w.indegree
        0
      ≡ some (g.waves, length graph.nodes)
  pub produced : g.final_producers ≡ producers graph.final_output_slot graph.nodes
  pub closure : List String
  pub closed : close_loop (suc (length graph.nodes)) w.adjacency entries ≡ some closure
  pub reached : any (contains closure) g.final_producers ≡ true

pub no_repeats :
    (ids : List String) (e : CompilationError) {u : Unit {0}}
    → raise_if (has_repeats ids) e ≡ ok u
    → IsDistinct ids
no_repeats ids e h = IsDistinct-of_to_set ids (
    ground (
      arith,
      raise_if-eq-ok (has_repeats ids) e h,
      nat_eq.beq_iff (length (to_set ids)) (length ids),
    ))

pub compile-IsWired :
    (c : GraphCompiler) (graph : OrchestraGraph) (g : CompiledGraph)
    → compile c graph ≡ ok g
    → (w : Wiring) × (entries : List String) × IsWired c graph w entries
      × (finish graph w entries ≡ ok g)
unfolding compile
compile-IsWired c graph g h =
    let (_, nodes_ok, h₁) = >>=-eq-ok (raise_if _ _) _ h in
    let (_, edges_ok, h₂) = >>=-eq-ok (raise_if _ _) _ h₁ in
    let (_, checked, h₃) = >>=-eq-ok (check_nodes c graph.nodes) _ h₂ in
    let (w, wired, h₄) =
      >>=-eq-ok (wire_edges (nodes_by_id graph.nodes) unwired graph.edges) _ h₃ in
    let (entries, entered, h₅) =
      >>=-eq-ok (find_entries graph.initial_artifact_slots w.incoming_slots graph.nodes) _ h₄ in
    (
      w,
      entries,
      record {
        distinct_nodes = no_repeats (node_ids graph) _ nodes_ok;
        distinct_edges = no_repeats (edge_ids graph) _ edges_ok;
        checked = checked;
        wired = wired;
        entered = entered;
      },
      h₅,
    )

visited_all : (m n : ℕ) → not (nat_eq.beq m n) ≡ false → m ≡ n
visited_all m n h = ground (arith, nat_eq.beq_iff m n)

not-false : (b : Bool) → not b ≡ false → b ≡ true
not-false true h = refl
not-false false h = cc

pub finish-IsFinal :
    (graph : OrchestraGraph) (w : Wiring) (entries : List String) (g : CompiledGraph)
    → finish graph w entries ≡ ok g
    → IsFinal graph w entries g
unfolding finish
finish-IsFinal graph w entries g h =
    let (_, h₁) = raise_if-bind (is_empty entries) no_entry_nodes _ h in
    let (r, looped, h₂) =
      or_raise-bind
        (wave_loop (suc (length graph.nodes)) w.adjacency (first_wave (node_ids graph) w.indegree)
          w.indegree 0)
        out_of_fuel _ h₁ in
    let (all_visited, h₃) =
      raise_if-bind (not (nat_eq.beq r.1 (length graph.nodes))) contains_cycle _ h₂ in
    let found = producers graph.final_output_slot graph.nodes in
    let (_, h₄) = raise_if-bind (is_empty found) (no_final_producer graph.final_output_slot) _ h₃ in
    let (closure, closed, h₅) =
      or_raise-bind (close_loop (suc (length graph.nodes)) w.adjacency entries) out_of_fuel _ h₄ in
    let (reached, h₆) =
      raise_if-bind (not (any (contains closure) found)) unreachable_output _ h₅ in
    subst (IsFinal graph w entries) (ok-injective h₆) (record {
      same_graph = refl;
      same_entries = refl;
      looped = looped ∙ ap (λ n. some (r.0, n)) (visited_all r.1 (length graph.nodes) all_visited);
      produced = refl;
      closure = closure;
      closed = closed;
      reached = not-false (any (contains closure) found) reached;
    })

-- ===== src/Compiler/Compile/Reachable.antt =====
-- src/orchestra/ir/compiler.py: bound slots and the reachability of the final output.
use codename_madagascar.Prelude.{
  suc, ◌≤◌, ◌≡◌, ◌≢◌, ◌↔◌, refl, ◌∙◌, String, true, false, Option, some, List, [], ◌∷◌, length, any,
  contains, contains_iff, count, string_eq, nat_eq, ok, err, arith, All, inl, inr, Bool-cases,
  eq_iff,
}
use codename_madagascar.Ir.Graph.{OrchestraGraph}
use codename_madagascar.Compiler.Checks.{GraphCompiler, unreachable_output, out_of_fuel}
use codename_madagascar.Compiler.Wiring.{Wiring}
use codename_madagascar.Compiler.Wiring.Tables.{wire_edges-Extends}
use codename_madagascar.Compiler.Entries.Slots.{
  entries_of, IsAllBound, find_entries_lem, count-entries_of-le,
}
use codename_madagascar.Compiler.Entries.Members.{
  IsEntry, IsProducer, entries_of-IsEntry, producers-IsProducer,
}
use codename_madagascar.Compiler.Reach.{close_loop}
use codename_madagascar.Compiler.Reach.Closure.{
  Reaches, IsClosure, loop-IsClosure, closure_complete, closure_total,
}
use codename_madagascar.Compiler.Compile.{CompiledGraph, node_ids, producers, finish, compile}
use codename_madagascar.Compiler.Compile.Inversion.{IsWired, compile-IsWired, finish-IsFinal}
use codename_madagascar.Compiler.Compile.Wired.{wired_typed, wired_adjacency, targets_known}
use codename_madagascar.Compiler.Compile.Errors.{compile-late}
use codename_madagascar.Compiler.Compile.Order.{loop_total, length-node_ids}

module _ (c : GraphCompiler) (graph : OrchestraGraph) (w : Wiring) (entries : List String)
    (h : IsWired c graph w entries) where
  wired_entries :
      (entries ≡ entries_of graph.initial_artifact_slots graph.nodes)
      × All (IsAllBound graph) graph.nodes
  wired_entries =
      find_entries_lem graph w.incoming_slots
        (λ d i. (wire_edges-Extends _ _ _ h.wired).0.bound d i ∙ omega arith) graph.nodes h.entered

  abbrev closing : Option (List String)
  closing = close_loop (suc (length graph.nodes)) w.adjacency entries

  closing-IsClosure : (r : List String) → closing ≡ some r → IsClosure graph.edges entries r
  closing-IsClosure r e =
      loop-IsClosure graph.edges entries (suc (length graph.nodes))
        (rw (wired_adjacency c graph w entries h) at e)

  entries_le : (v : String) → count v entries ≤ count v (node_ids graph)
  entries_le v =
      rw (wired_entries.0) (count-entries_of-le graph.initial_artifact_slots graph.nodes v)

  closing_total : (r : List String) × (closing ≡ some r)
  closing_total =
      rw (wired_adjacency c graph w entries h, ← length-node_ids graph.nodes)
        (closure_total graph.edges entries (node_ids graph)
          (λ v. omega (arith, entries_le v, h.distinct_nodes v))
          (λ v k. omega (arith, entries_le v, (contains_iff v entries).0 k))
          (λ u v. targets_known graph graph.edges u v (wired_typed c graph w entries h)))

  finish_no_fuel : finish graph w entries ≢ err out_of_fuel
  unfolding finish
  finish_no_fuel failed =
      let (r, looped) = loop_total c graph w entries h in
      let (q, closed) = closing_total in ground (arith, looped, closed)

  finish_unreachable :
      (q : List String)
      → closing ≡ some q
      → finish graph w entries ≡ err unreachable_output
      → any (contains q) (producers graph.final_output_slot graph.nodes) ≡ false
  unfolding finish
  finish_unreachable q closed failed = ground (arith, closed)

any-contains :
    (q vs : List String)
    → any (contains q) vs ≡ true
    → (v : String) × (contains vs v ≡ true) × (contains q v ≡ true)
any-contains q [] h = cc
any-contains q (v ∷ vs) h = elim (Bool-cases (contains q v)) [
  | inl here ↦ (v, ground (arith, eq_iff v v), here)
  | inr later ↦ let (u, among, found) = any-contains q vs (ground arith) in (u, ground arith, found)
]

contains-any :
    (q vs : List String) (v : String)
    → contains vs v ≡ true
    → contains q v ≡ true
    → any (contains q) vs ≡ true
contains-any q [] v h k = cc
contains-any q (u ∷ vs) v h k = ground (arith, contains-any q vs v, eq_iff u v)

-- Of an accepted graph, the entry nodes are those all of whose input slots are initial slots of the
-- same schema, in the order of the graph, and every input slot is bound. The final producers are the
-- nodes that have the final slot among their outputs, and some producer is reached from an entry.
pub compile-Reaches :
    (c : GraphCompiler) (graph : OrchestraGraph) (g : CompiledGraph)
    → compile c graph ≡ ok g
    → (g.entry_nodes ≡ entries_of graph.initial_artifact_slots graph.nodes)
      × ((v : String) → (contains g.entry_nodes v ≡ true) ↔ IsEntry graph v)
      × All (IsAllBound graph) graph.nodes
      × ((v : String) → (contains g.final_producers v ≡ true) ↔ IsProducer graph v)
      × ((v : String) × IsProducer graph v × Reaches graph.edges g.entry_nodes v)
compile-Reaches c graph g e =
    let (w, entries, wired, finished) = compile-IsWired c graph g e in
    let final = finish-IsFinal graph w entries g finished in
    let (found, bound) = wired_entries c graph w entries wired in
    let (v, among, in_closure) = any-contains final.closure g.final_producers final.reached in
    let closure = closing-IsClosure c graph w entries wired final.closure final.closed in
    (
      final.same_entries ∙ found,
      λ u. rw (final.same_entries, found) (entries_of-IsEntry graph u),
      bound,
      λ u. rw final.produced (producers-IsProducer graph u),
      (
        v,
        (producers-IsProducer graph v).0 (rw final.produced at among),
        rw final.same_entries (closure.sound v in_closure),
      ),
    )

-- Where the final output is reported unreachable, no producer is reached from an entry node.
pub compile_unreachable :
    (c : GraphCompiler) (graph : OrchestraGraph) (v : String)
    → compile c graph ≡ err unreachable_output
    → contains (producers graph.final_output_slot graph.nodes) v ≡ true
    → ¬ Reaches graph.edges (entries_of graph.initial_artifact_slots graph.nodes) v
compile_unreachable c graph v e among path =
    let (w, entries, wired, failed) = compile-late c graph unreachable_output refl e in
    let (q, closed) = closing_total c graph w entries wired in
    let (found, _) = wired_entries c graph w entries wired in
    let in_closure =
      closure_complete graph.edges entries q (closing-IsClosure c graph w entries wired q closed)
        (rw found path) in
    let made = producers graph.final_output_slot graph.nodes in
    cc (
      contains-any q made v among in_closure,
      finish_unreachable c graph w entries wired q closed failed,
    )

-- Both loops of `compile` end within one round more than there are nodes.
pub compile-ne-out_of_fuel :
    (c : GraphCompiler) (graph : OrchestraGraph) → compile c graph ≢ err out_of_fuel
compile-ne-out_of_fuel c graph e =
    let (w, entries, wired, failed) = compile-late c graph out_of_fuel refl e in
    finish_no_fuel c graph w entries wired failed

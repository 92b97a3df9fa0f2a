-- ===== src/Tests/Compiling.antt =====
-- The compiler at the sample graphs.
use codename_madagascar.Prelude.{
  ◌≡◌, ◌↔◌, ◌≢◌, refl, ok, err, [], ◌∷◌, String, ℕ, arith, lookup, insert, insert_all, to_set,
  SameItems, concat, IsDistinct, All, contains, true, ◌==◌, if◌then◌else◌, string_eq,
}
use codename_madagascar.Compiler.Compile.{CompiledGraph, node_ids, edge_ids, compile}
use codename_madagascar.Compiler.Wiring.{wire_edges}
use codename_madagascar.Compiler.Entries.{find_entries, check_bound, initial_match}
use codename_madagascar.Compiler.Waves.{wave_loop, first_wave, relax_wave, relax_targets}
use codename_madagascar.Compiler.Entries.Members.{IsEntry, IsProducer}
use codename_madagascar.Compiler.Reach.{close_loop, add_round, add_targets}
use codename_madagascar.Prelude.Sorting.{sort_by}
use codename_madagascar.Ir.Schemas.{payload_schemas}
use codename_madagascar.Ir.Edges.{split_dots}
use codename_madagascar.Compiler.Checks.{
  contains_cycle, unreachable_output, out_of_fuel, check_node, check_edge, check_condition,
}
use codename_madagascar.Compiler.Waves.Layers.{IsLayered}
use codename_madagascar.Compiler.Reach.Closure.{Reaches}
use codename_madagascar.Compiler.Entries.Slots.{entries_of, IsAllBound}
use codename_madagascar.Compiler.Compile.Wired.{IsAllTyped}
use codename_madagascar.Compiler.Compile.Order.{compile-IsLayered, compile_acyclic}
use codename_madagascar.Compiler.Compile.Typing.{compile-IsAllTyped}
use codename_madagascar.Compiler.Compile.Reachable.{
  compile-Reaches, compile_unreachable, compile-ne-out_of_fuel,
}
use codename_madagascar.Tests.Graphs.{
  compiler, pipeline, pipeline_edges, problem_slot, cyclic, detached,
}

-- All that a run of the compiler calls.
program : Unit {0}
unfolding compile check_node check_edge check_condition wire_edges find_entries check_bound
    initial_match wave_loop first_wave relax_wave relax_targets sort_by close_loop add_round
    add_targets lookup insert insert_all to_set payload_schemas split_dots
program = tt

abbrev pub compiled : CompiledGraph
compiled = record {
  graph = pipeline;
  entry_nodes = "coder" ∷ [];
  waves = ("coder" ∷ []) ∷ ("judge" ∷ []) ∷ ("freeze" ∷ []) ∷ [];
  conditional_branches = 1;
  final_producers = "freeze" ∷ [];
}

pub compile-pipeline : compile compiler pipeline ≡ ok compiled
unfolding program
compile-pipeline = refl

compile-cyclic : compile compiler cyclic ≡ err contains_cycle
unfolding program
compile-cyclic = refl

compile-detached : compile compiler detached ≡ err unreachable_output
unfolding program
compile-detached = refl

compile-IsLayered_example :
    IsLayered pipeline_edges [] compiled.waves
    × SameItems (concat compiled.waves) (node_ids pipeline)
compile-IsLayered_example = compile-IsLayered compiler pipeline compiled compile-pipeline

compile-IsAllTyped_example :
    IsDistinct (node_ids pipeline)
    × IsDistinct (edge_ids pipeline)
    × IsAllTyped pipeline pipeline_edges
compile-IsAllTyped_example = compile-IsAllTyped compiler pipeline compiled compile-pipeline

compile-Reaches_example :
    (compiled.entry_nodes ≡ entries_of problem_slot pipeline.nodes)
    × ((v : String) → (contains compiled.entry_nodes v ≡ true) ↔ IsEntry pipeline v)
    × All (IsAllBound pipeline) pipeline.nodes
    × ((v : String) → (contains compiled.final_producers v ≡ true) ↔ IsProducer pipeline v)
    × ((v : String) × IsProducer pipeline v × Reaches pipeline_edges compiled.entry_nodes v)
compile-Reaches_example = compile-Reaches compiler pipeline compiled compile-pipeline

abbrev rank : String → ℕ
rank id = if id == "coder" then 0 else if id == "judge" then 1 else 2

compile_acyclic_example : compile compiler pipeline ≢ err contains_cycle
compile_acyclic_example = compile_acyclic compiler pipeline rank (omega arith)

compile-ne-out_of_fuel_example : compile compiler cyclic ≢ err out_of_fuel
compile-ne-out_of_fuel_example = compile-ne-out_of_fuel compiler cyclic

compile_unreachable_example : ¬ Reaches [] ("coder" ∷ []) "lone"
unfolding program
compile_unreachable_example = compile_unreachable compiler detached "lone" compile-detached refl

-- ===== src/Compiler/Reach.antt =====
-- src/orchestra/ir/compiler.py: the closure of the entry nodes under the edges. A set is a list
-- without repetitions; its order is not observed.
pub mod Targets
pub mod Closure
use codename_madagascar.Prelude.{
  ℕ, zero, suc, String, Bool, true, false, Option, none, some, List, [], ◌∷◌, contains, string_eq,
  if◌then◌else◌,
}

-- `for target in adjacency[source]`, with the flag `changed`.
unfoldable pub add_targets : List String → List String × Bool → List String × Bool
add_targets [] s = s
add_targets (target ∷ targets) (reachable, changed) =
    add_targets targets
      (if contains reachable target then (reachable, changed) else (target ∷ reachable, true))

-- `for source in tuple(reachable)`
unfoldable pub add_round :
    (String → List String) → List String → List String × Bool → List String × Bool
add_round adjacency [] s = s
add_round adjacency (source ∷ sources) s =
    add_round adjacency sources (add_targets (adjacency source) s)

-- `while changed`, on fuel.
unfoldable pub close_loop : ℕ → (String → List String) → List String → Option (List String)
close_loop zero adjacency reachable = none
close_loop (suc fuel) adjacency reachable =
    let (reachable', changed) = add_round adjacency reachable (reachable, false) in
    let again = close_loop fuel adjacency reachable' in if changed then again else some reachable'

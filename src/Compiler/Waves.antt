-- ===== src/Compiler/Waves.antt =====
-- src/orchestra/ir/compiler.py: Kahn's algorithm, which orders the nodes in waves.
pub mod Relax
pub mod Rounds
pub mod Layers
pub mod Kahn
use codename_madagascar.Prelude.Integers.{ℤ, pred_ℤ, is_zero}
use codename_madagascar.Prelude.Sorting.{sort}
use codename_madagascar.Prelude.{
  ℕ, zero, suc, ◌+◌, String, Option, none, some, List, [], ◌∷◌, ◌++◌, length, filter, update,
  string_eq, if◌then◌else◌,
}

abbrev pub Indegree : Type 0
Indegree = String → ℤ

-- `for target in adjacency[node_id]`
unfoldable pub relax_targets : List String → Indegree → List String → Indegree × List String
relax_targets [] indegree next = (indegree, next)
relax_targets (target ∷ targets) indegree next =
    let left = pred_ℤ (indegree target) in
    relax_targets targets (update indegree target left)
      (if is_zero left then next ++ target ∷ [] else next)

-- `for node_id in current`
unfoldable pub relax_wave :
    (String → List String) → List String → Indegree → List String → Indegree × List String
relax_wave adjacency [] indegree next = (indegree, next)
relax_wave adjacency (node_id ∷ nodes) indegree next =
    let (indegree', next') = relax_targets (adjacency node_id) indegree next in
    relax_wave adjacency nodes indegree' next'

abbrev push_wave : List String → Option (List (List String) × ℕ) → Option (List (List String) × ℕ)
push_wave wave none = none
push_wave wave (some (waves, visited)) = some (wave ∷ waves, visited)

-- `while current`, on fuel; the result is `waves` and `visited`.
unfoldable pub wave_loop :
    ℕ → (String → List String) → List String → Indegree → ℕ → Option (List (List String) × ℕ)
wave_loop fuel adjacency [] indegree visited = some ([], visited)
wave_loop zero adjacency (node_id ∷ nodes) indegree visited = none
wave_loop (suc fuel) adjacency (node_id ∷ nodes) indegree visited =
    let (indegree', next) = relax_wave adjacency (node_id ∷ nodes) indegree [] in
    push_wave (node_id ∷ nodes)
      (wave_loop fuel adjacency (sort next) indegree' (visited + length (node_id ∷ nodes)))

unfoldable pub first_wave : List String → Indegree → List String
first_wave node_ids indegree = sort (filter (λ node_id. is_zero (indegree node_id)) node_ids)

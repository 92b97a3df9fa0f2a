-- ===== src/Compiler/Waves/Kahn.antt =====
-- src/orchestra/ir/compiler.py: Kahn's algorithm as a whole, from the nodes of indegree zero.
use codename_madagascar.Prelude.Integers.{pos, is_zero}
use codename_madagascar.Prelude.Sorting.{count-sort}
use codename_madagascar.Prelude.{
  ℕ, zero, suc, ◌<◌, ◌≡◌, ap, ◌∙◌, String, some, List, [], ◌∷◌, length, concat, count, count-filter,
  IsDistinct, SameItems, SameItems-of_count-le, length-eq_of_SameItems, string_eq, if◌then◌else◌,
  arith, eq_iff, All, contains_iff,
}
use codename_madagascar.Ir.Edges.{EdgeSpec}
use codename_madagascar.Compiler.Waves.{Indegree, wave_loop, first_wave}
use codename_madagascar.Compiler.Waves.Rounds.{targets_of, waiting}
use codename_madagascar.Compiler.Waves.Layers.{
  IsLayered, Degrees, Placed, IsFinished, wave_loop-IsFinished, wave_loop_total,
}

-- Every edge goes up in rank, so no path of edges returns to its start.
abbrev pub IsRanking : List EdgeSpec → (String → ℕ) → Type 0
IsRanking edges rank = All (λ (e : EdgeSpec). rank e.source_node < rank e.destination_node) edges

module _ (edges : List EdgeSpec) (ids : List String) (distinct : IsDistinct ids)
    (known : (v : String) → 0 < count v (waiting edges []) → 0 < count v ids) (indegree : Indegree)
    (degrees : Degrees edges [] indegree) where
  first_count :
      (v : String)
      → count v (first_wave ids indegree)
        ≡ (if is_zero (pos (count v (waiting edges []))) then count v ids else 0)
  unfolding first_wave
  first_count v =
      count-sort v _
      ∙ count-filter v (λ u. is_zero (indegree u)) ids
      ∙ ap (λ n. if is_zero n then count v ids else 0) (degrees v)

  start_Placed : Placed edges ids [] (first_wave ids indegree)
  start_Placed = record {
    bounded = λ v. ground (arith, first_count v);
    unentered = λ v h. ground (arith, first_count v);
    complete = λ v i w. ground (arith, first_count v);
  }

  -- With a ranking, a node is placed once all nodes below its rank are.
  module _ (rank : String → ℕ) (ranking : IsRanking edges rank) (done : List String)
      (placed : Placed edges ids done [])
      (sources : All (λ (e : EdgeSpec). 0 < count e.source_node ids) edges) where
    none_waiting :
        (es : List EdgeSpec) (v : String)
        → IsRanking es rank
        → All (λ (e : EdgeSpec). 0 < count e.source_node ids) es
        → ((u : String) → rank u < rank v → 0 < count u ids → 0 < count u done)
        → count v (waiting es done) ≡ 0
    none_waiting [] v r s below = omega arith
    none_waiting (e ∷ es) v r s below = ground (
      arith,
      none_waiting es v r.1 s.1 below,
      below e.source_node,
      r.0,
      s.0,
      contains_iff e.source_node done,
      eq_iff e.destination_node v,
    )

    placed_below : (n : ℕ) (v : String) → rank v < n → 0 < count v ids → 0 < count v done
    placed_below zero v h i = absurd (omega arith)
    placed_below (suc n) v h i =
        let below = λ (u : String) (l : rank u < rank v). placed_below n u (omega arith) in
        omega (arith, placed.complete v i (none_waiting edges v ranking sources below))

    all_placed : length done ≡ length ids
    all_placed = length-eq_of_SameItems done ids (λ v.
        ground (arith, placed.bounded v, distinct v, placed_below (suc (rank v)) v (omega arith)))

  module _ (fuel : ℕ) (r : List (List String) × ℕ)
      (returns : wave_loop fuel (targets_of edges) (first_wave ids indegree) indegree 0
        ≡ some r) where
    finished : IsFinished edges ids distinct known [] 0 r
    finished =
        wave_loop-IsFinished edges ids distinct known fuel [] (first_wave ids indegree) indegree 0 r
          degrees start_Placed returns

    pub kahn-IsLayered : IsLayered edges [] r.0
    kahn-IsLayered = finished.layered

    pub kahn-SameItems : r.1 ≡ length ids → SameItems (concat r.0) ids
    kahn-SameItems all =
        SameItems-of_count-le (concat r.0) ids (λ v. omega (arith, finished.placed.bounded v))
          (omega (arith, finished.counted))

    pub kahn_acyclic :
        (rank : String → ℕ)
        → IsRanking edges rank
        → All (λ (e : EdgeSpec). 0 < count e.source_node ids) edges
        → r.1 ≡ length ids
    kahn_acyclic rank ranking sources =
        omega
          (arith, finished.counted, all_placed rank ranking (concat r.0) finished.placed sources)

  pub kahn_total :
      (fuel : ℕ)
      → length ids < fuel
      → (r : List (List String) × ℕ) × (wave_loop fuel
            (targets_of edges)
            (first_wave ids indegree)
            indegree
            0
          ≡ some r)
  kahn_total fuel enough =
      wave_loop_total edges ids distinct known fuel [] (first_wave ids indegree) indegree 0 degrees
        start_Placed (omega arith)

-- ===== src/Runtime/Measures/Critical.antt =====
-- src/orchestra/runtime/native_async.py: the critical path of a compiled graph.
use codename_madagascar.Prelude.{
  ℕ, ◌≡◌, String, List, [], ◌∷◌, Dict, IsDistinct, SameItems, concat, string_eq,
}
use codename_madagascar.Ir.Edges.{EdgeSpec}
use codename_madagascar.Ir.Graph.{OrchestraGraph}
use codename_madagascar.Compiler.Compile.{node_ids}
use codename_madagascar.Compiler.Waves.Layers.{IsLayered}
use codename_madagascar.Runtime.Measures.{critical_path}
use codename_madagascar.Runtime.Measures.Trails.{IsTrail, trail_latency}

module _ (latency : Dict String ℕ) (edges : List EdgeSpec) (ids : List String) where
  -- A path that ends in the node takes that long.
  abbrev Row : String × ℕ → Type 0
  Row (v, n) =
      (trail : List String) × IsTrail edges ids (v ∷ trail)
      × (trail_latency latency (v ∷ trail) ≡ n)

  abbrev Attained : ℕ → Type 0
  Attained n = (trail : List String) × IsTrail edges ids trail × (trail_latency latency trail ≡ n)

module _ (latency : Dict String ℕ) (graph : OrchestraGraph) (waves : List (List String))
    (layered : IsLayered graph.edges [] waves) (same : SameItems (concat waves) (node_ids graph))
    (distinct : IsDistinct (node_ids graph)) where
  abbrev long : ℕ
  long = critical_path latency graph.edges (concat waves)

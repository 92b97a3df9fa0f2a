-- ===== src/Runtime/Measures/Ordering.antt =====
-- src/orchestra/runtime/native_async.py: the nodes of the waves, in the order of _result.
use codename_madagascar.Prelude.{
  ◌<◌, ◌≡◌, String, true, List, [], ◌∷◌, ◌++◌, contains, count, count-append, concat, string_eq,
  eq_iff, arith,
}
use codename_madagascar.Ir.Edges.{EdgeSpec}
use codename_madagascar.Compiler.Waves.Layers.{IsLayered}
use codename_madagascar.Compiler.Waves.Rounds.{Follows}
use codename_madagascar.Runtime.Measures.{parents_of}
use codename_madagascar.Runtime.Measures.Trails.{before, IsOrdered}

Follows-parents :
    (edges : List EdgeSpec) (done wave : List String) (v u : String)
    → Follows edges done wave
    → 0 < count v wave
    → contains (parents_of v edges) u ≡ true
    → 0 < count u done
Follows-parents [] done wave v u f h k = cc
Follows-parents (edge ∷ edges) done wave v u f h k = ground (
  arith,
  Follows-parents edges done wave v u f.1 h,
  f.0,
  eq_iff edge.destination_node v,
  eq_iff edge.source_node u,
)

-- Every member of `xs` is one of `ys`.
abbrev pub Covers : List String → List String → Type 0
Covers xs ys = (u : String) → 0 < count u xs → 0 < count u ys

wave-IsOrdered :
    (edges : List EdgeSpec) (nodes rest before now : List String)
    → ((v u : String)
        → 0 < count v nodes
        → contains (parents_of v edges) u ≡ true
        → 0 < count u before)
    → Covers before now
    → ((later : List String) → Covers (now ++ nodes) later → IsOrdered edges later rest)
    → IsOrdered edges now (nodes ++ rest)
wave-IsOrdered edges [] rest before now above covers next =
    next now (λ u h. ground (arith, count-append u now []))
wave-IsOrdered edges (v ∷ nodes) rest before now above covers next = (
  λ u h. covers u (above v u (ground (arith, eq_iff v v)) h),
  wave-IsOrdered edges nodes rest before (v ∷ now) (λ w u h. above w u (omega arith))
      (λ u h. omega (arith, covers u h))
      (λ later c.
        next later (λ u h.
          c u (omega (arith, h, count-append u now (v ∷ nodes), count-append u now nodes)))),
)

pub waves-IsOrdered :
    (edges : List EdgeSpec) (waves : List (List String)) (done now : List String)
    → IsLayered edges done waves
    → Covers done now
    → IsOrdered edges now (concat waves)
waves-IsOrdered edges [] done now layered covers = tt
waves-IsOrdered edges (wave ∷ waves) done now layered covers =
    wave-IsOrdered edges wave (concat waves) done now
      (λ v u h k. Follows-parents edges done wave v u layered.0 h k) covers
      (λ later c. waves-IsOrdered edges waves (done ++ wave) later layered.1 (λ u h.
        c u (ground (arith, h, covers u, count-append u done wave, count-append u now wave))))

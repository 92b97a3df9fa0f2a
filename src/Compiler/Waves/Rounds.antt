-- ===== src/Compiler/Waves/Rounds.antt =====
-- src/orchestra/ir/compiler.py: the edges that still count while the waves are built.
use codename_madagascar.Prelude.{
  ◌+◌, ◌≤◌, ◌<◌, ◌≡◌, refl, ap, String, false, List, [], ◌∷◌, ◌++◌, count, count-append, contains,
  contains_iff, SameItems, IsDistinct, string_eq, if◌then◌else◌, arith, eq_iff, ◌==◌, All,
}
use codename_madagascar.Ir.Edges.{EdgeSpec}
use codename_madagascar.Compiler.Waves.Relax.{targets}

-- The destinations of the edges that leave `source`.
abbrev pub targets_of : List EdgeSpec → String → List String
targets_of [] source = []
targets_of (edge ∷ edges) source =
    let rest = targets_of edges source in
    if edge.source_node == source then edge.destination_node ∷ rest else rest

-- The destinations of the edges whose source is not done.
abbrev pub waiting : List EdgeSpec → List String → List String
waiting [] done = []
waiting (edge ∷ edges) done =
    let rest = waiting edges done in
    if contains done edge.source_node then rest else edge.destination_node ∷ rest

contains_cong : (v : String) (xs ys : List String) → SameItems xs ys → contains xs v ≡ contains ys v
contains_cong v xs ys same = ground (arith, same v, contains_iff v xs, contains_iff v ys)

pub waiting_cong :
    (edges : List EdgeSpec) (xs ys : List String)
    → SameItems xs ys
    → waiting edges xs ≡ waiting edges ys
waiting_cong [] xs ys same = refl
waiting_cong (edge ∷ edges) xs ys same =
    ground (arith, waiting_cong edges xs ys same, contains_cong edge.source_node xs ys same)

pub count-waiting-le :
    (edges : List EdgeSpec) (done : List String) (v : String)
    → count v (waiting edges done) ≤ count v (waiting edges [])
count-waiting-le [] done v = omega arith
count-waiting-le (edge ∷ edges) done v = ground (arith, count-waiting-le edges done v)

-- A node that becomes done takes the edges that leave it along.
waiting-cons :
    (edges : List EdgeSpec) (u v : String) (done : List String)
    → contains done u ≡ false
    → count v (targets_of edges u) + count v (waiting edges (u ∷ done))
      ≡ count v (waiting edges done)
waiting-cons [] u v done h = omega arith
waiting-cons (edge ∷ edges) u v done h =
    ground
      (arith, waiting-cons edges u v done h, eq_iff edge.source_node u, eq_iff u edge.source_node)

append_comm : (xs ys : List String) → SameItems (xs ++ ys) (ys ++ xs)
append_comm xs ys v = omega (arith, count-append v xs ys, count-append v ys xs)

waiting-prepend :
    (edges : List EdgeSpec) (wave done : List String) (v : String)
    → IsDistinct (wave ++ done)
    → count v (targets (targets_of edges) wave) + count v (waiting edges (wave ++ done))
      ≡ count v (waiting edges done)
waiting-prepend edges [] done v distinct = omega arith
waiting-prepend edges (u ∷ wave) done v distinct = ground (
  arith,
  count-append v (targets_of edges u) (targets (targets_of edges) wave),
  waiting-prepend edges wave done v (λ x. ground (arith, distinct x)),
  waiting-cons edges u v (wave ++ done)
      (ground (arith, distinct u, eq_iff u u, contains_iff u (wave ++ done))),
)

pub waiting-append :
    (edges : List EdgeSpec) (done wave : List String) (v : String)
    → IsDistinct (done ++ wave)
    → count v (targets (targets_of edges) wave) + count v (waiting edges (done ++ wave))
      ≡ count v (waiting edges done)
waiting-append edges done wave v distinct = omega (
  arith,
  ap (count v) (waiting_cong edges (done ++ wave) (wave ++ done) (append_comm done wave)),
  waiting-prepend edges wave done v (λ x. omega (arith, distinct x, append_comm done wave x)),
)

-- Every edge into one of the nodes starts in `done`.
abbrev pub Follows : List EdgeSpec → List String → List String → Type 0
Follows edges done nodes =
    All (λ (e : EdgeSpec). 0 < count e.destination_node nodes → 0 < count e.source_node done) edges

pub Follows-of_waiting :
    (edges : List EdgeSpec) (done nodes : List String)
    → ((v : String) → 0 < count v nodes → count v (waiting edges done) ≡ 0)
    → Follows edges done nodes
Follows-of_waiting [] done nodes h = tt
Follows-of_waiting (edge ∷ edges) done nodes h = (
  λ into. ground (
    arith,
    h edge.destination_node into,
    contains_iff edge.source_node done,
    eq_iff edge.destination_node edge.destination_node,
  ),
  Follows-of_waiting edges done nodes (λ v into. ground (arith, h v into)),
)

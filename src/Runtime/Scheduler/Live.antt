-- ===== src/Runtime/Scheduler/Live.antt =====
-- src/orchestra/runtime/scheduler.py: no ready node is passed over while there is room for it.
use mathlib.Core.List.{Memᴰ}
use codename_madagascar.Prelude.Sorting.{sort_by, All-of_sort_by}
use codename_madagascar.Prelude.{
  ℕ, zero, suc, String, Bool, true, List, [], ◌∷◌, take, length, contains, All, All-map, string_eq,
  eq_iff, Result, ok, >>=-eq-ok, ok-injective, ◌≡◌, ◌∙◌, ◌⊎◌, inr, refl, sym, subst, if◌then◌else◌,
  arith,
}
use codename_madagascar.Exceptions.{Exception}
use codename_madagascar.Ir.Nodes.{NodeSpec}
use codename_madagascar.Ir.Graph.{OrchestraGraph}
use codename_madagascar.Runtime.State.{RuntimeState}
use codename_madagascar.Runtime.Scheduler.{is_ready, select, find_ready_nodes}

All-mem :
    (P : NodeSpec → Type 0) (nodes : List NodeSpec) (node : NodeSpec)
    → All P nodes
    → Memᴰ node nodes
    → P node
All-mem P [] node h m = elim m [ ]
All-mem P (x ∷ nodes) node h (Memᴰ.head same) = subst P (sym same) h.0
All-mem P (x ∷ nodes) node h (Memᴰ.tail later) = All-mem P nodes node h.1 later

-- What the test accepts is selected.
abbrev IsKept : (NodeSpec → Result Exception Bool) → List String → NodeSpec → Type 0
IsKept test ids node = test node ≡ ok true → contains ids node.node_id ≡ true

contains-chosen :
    (chosen : Bool) (id : String) (rest : List String)
    → chosen ≡ true
    → contains (if chosen then id ∷ rest else rest) id ≡ true
contains-chosen chosen id rest h = ground (arith, eq_iff id id)

contains-more :
    (chosen : Bool) (id : String) (rest : List String) (other : String)
    → contains rest other ≡ true
    → contains (if chosen then id ∷ rest else rest) other ≡ true
contains-more chosen id rest other h = ground arith

select-IsKept :
    (test : NodeSpec → Result Exception Bool) (nodes : List NodeSpec) {ids : List String}
    → select test nodes ≡ ok ids
    → All (IsKept test ids) nodes
unfolding select
select-IsKept test [] h = tt
select-IsKept test (node ∷ nodes) {ids} h =
    let (chosen, tested, h₁) = >>=-eq-ok (test node) _ h in
    let (rest, found, h₂) = >>=-eq-ok (select test nodes) _ h₁ in
    subst (λ xs. All (IsKept test xs) (node ∷ nodes)) (ok-injective h₂)
      (
        λ accepted. contains-chosen chosen node.node_id rest (ok-injective (sym tested ∙ accepted)),
        All-map (IsKept test rest) (IsKept test (if chosen then node.node_id ∷ rest else rest))
            (λ other kept accepted.
              contains-more chosen node.node_id rest other.node_id (kept accepted))
            nodes (select-IsKept test nodes found),
      )

contains-take :
    (n : ℕ) (ids : List String) (id : String)
    → contains ids id ≡ true
    → (contains (take n ids) id ≡ true) ⊎ (length (take n ids) ≡ n)
contains-take zero ids id h = inr refl
contains-take (suc n) [] id h = absurd (ground arith)
contains-take (suc n) (x ∷ ids) id h = ground (arith, contains-take n ids id)

-- A node of the graph that is ready is among the chosen ones, or the limit is reached.
pub find_ready_nodes-live :
    (max_parallel_nodes : ℕ) (graph : OrchestraGraph) (state : RuntimeState) (node : NodeSpec)
    (chosen : List String)
    → Memᴰ node graph.nodes
    → is_ready graph state node ≡ ok true
    → find_ready_nodes max_parallel_nodes graph state ≡ ok chosen
    → (contains chosen node.node_id ≡ true) ⊎ (length chosen ≡ max_parallel_nodes)
unfolding find_ready_nodes
find_ready_nodes-live limit graph state node chosen member ready h =
    let sorted = sort_by (λ (node : NodeSpec). node.node_id) graph.nodes in
    let (ids, selected, h₁) = >>=-eq-ok (select (is_ready graph state) sorted) _ h in
    let kept =
      All-of_sort_by (λ (node : NodeSpec). node.node_id) (IsKept (is_ready graph state) ids)
        graph.nodes (select-IsKept (is_ready graph state) sorted selected) in
    subst (λ xs. (contains xs node.node_id ≡ true) ⊎ (length xs ≡ limit)) (ok-injective h₁)
      (contains-take limit ids node.node_id
        (All-mem (IsKept (is_ready graph state) ids) graph.nodes node kept member ready))

-- ===== src/Runtime/Scheduler/Ready.antt =====
-- src/orchestra/runtime/scheduler.py: what a ready node and an impossible node are.
use mathlib.Core.List.{Memᴰ}
use codename_madagascar.Prelude.Sorting.{sort_by, All-sort_by}
use codename_madagascar.Prelude.{
  ℕ, ◌≤◌, ◌≡◌, refl, ap, ◌∙◌, String, Bool, true, false, some, List, [], ◌∷◌, Dict, lookup, keys,
  has_key, has_key-keys, contains, all, length, length-take-le, All, All-take, All-of_mem,
  string_eq, eq_iff, Result, ok, err, ◌>>=◌, >>=-eq-ok, or_raise-bind, ok-injective, arith,
  if◌then◌else◌, subst,
}
use codename_madagascar.Exceptions.{Exception, key_error}
use codename_madagascar.Ir.Nodes.{NodeSpec}
use codename_madagascar.Ir.Graph.{OrchestraGraph}
use codename_madagascar.Runtime.State.{NodeStatus, RuntimeState, pending, is_pending}
use codename_madagascar.Runtime.Scheduler.{
  resolve_input_ids, is_ready, select, find_ready_nodes, same_set,
}

pub all-contains :
    (p : String → Bool) (vs : List String) (v : String)
    → all p vs ≡ true
    → contains vs v ≡ true
    → p v ≡ true
all-contains p [] v h k = cc
all-contains p (u ∷ vs) v h k = ground (arith, all-contains p vs v, eq_iff u v)

-- The node is in the graph and pending, and each of its input slots has an artifact.
pub record IsRunnable (graph : OrchestraGraph) (state : RuntimeState) (node_id : String)
    : Type 0 where
  pub node : NodeSpec
  pub planned : Memᴰ node graph.nodes
  pub named : node.node_id ≡ node_id
  pub is_waiting : lookup node_id state.node_status ≡ some pending
  pub ids : Dict String String
  pub resolved : resolve_input_ids graph state node_id ≡ ok ids
  pub filled :
      (slot : String) → contains (keys node.input_slots) slot ≡ true → has_key slot ids ≡ true

select-All :
    (P : String → Type 0) (test : NodeSpec → Result Exception Bool) (nodes : List NodeSpec)
    {ids : List String}
    → All (λ (node : NodeSpec). test node ≡ ok true → P node.node_id) nodes
    → select test nodes ≡ ok ids
    → All P ids
unfolding select
select-All P test [] h e = subst (All P) (ok-injective e) tt
select-All P test (node ∷ nodes) h e =
    let (chosen, tested, h₁) = >>=-eq-ok (test node) _ e in
    let (rest, found, h₂) = >>=-eq-ok (select test nodes) _ h₁ in
    let later = select-All P test nodes h.1 found in
    subst (All P) (ok-injective h₂) (chosen_All chosen (λ c. h.0 (tested ∙ ap ok c)) rest later)
  where
    chosen_All :
        (b : Bool)
        → (b ≡ true → P node.node_id)
        → (rest : List String) → All P rest
        → All P (if b then node.node_id ∷ rest else rest)
    chosen_All true p rest l = (p refl, l)
    chosen_All false p rest l = l

is_pending-eq : (status : NodeStatus) → is_pending status ≡ true → status ≡ pending
is_pending-eq status h = ground arith

-- The branch of `is_ready` that a chosen node has taken.
chosen_branch :
    (node : NodeSpec) (status : NodeStatus) (r : Result Exception (Dict String String))
    → (if is_pending status
        then (r >>= λ ids. ok (same_set (keys ids) (keys node.input_slots)))
        else ok false)
      ≡ ok true
    → (status ≡ pending)
      × ((ids : Dict String String) × (r ≡ ok ids)
          × (same_set (keys ids) (keys node.input_slots) ≡ true))
chosen_branch node status (ok ids) h = (ground arith, (ids, refl, ground arith))
chosen_branch node status (err e) h = ground arith

is_ready-IsRunnable :
    (graph : OrchestraGraph) (state : RuntimeState) (node : NodeSpec)
    → Memᴰ node graph.nodes
    → is_ready graph state node ≡ ok true
    → IsRunnable graph state node.node_id
unfolding is_ready
is_ready-IsRunnable graph state node m h =
    let (status, found, h₁) = or_raise-bind (lookup node.node_id state.node_status) key_error _ h in
    let (waits, (ids, resolved, same)) =
      chosen_branch node status (resolve_input_ids graph state node.node_id) h₁ in
    record {
      node = node;
      planned = m;
      named = refl;
      is_waiting = found ∙ ap some waits;
      ids = ids;
      resolved = resolved;
      filled = λ slot h.
          has_key-keys slot ids
          ∙ all-contains (contains (keys ids)) (keys node.input_slots) slot (ground arith) h;
    }

pub find_ready_nodes-IsRunnable :
    (max_parallel : ℕ) (graph : OrchestraGraph) (state : RuntimeState) (ready : List String)
    → find_ready_nodes max_parallel graph state ≡ ok ready
    → (length ready ≤ max_parallel) × All (IsRunnable graph state) ready
unfolding find_ready_nodes
find_ready_nodes-IsRunnable max_parallel graph state ready h =
    let by_id = λ (node : NodeSpec). node.node_id in
    let (all_ready, selected, h₁) =
      >>=-eq-ok (select (is_ready graph state) (sort_by by_id graph.nodes)) _ h in
    let same = ok-injective h₁ in
    (
      rw (← same) (length-take-le max_parallel all_ready),
      subst (All (IsRunnable graph state)) same (
          All-take _ max_parallel all_ready (
            select-All (IsRunnable graph state) (is_ready graph state) (sort_by by_id graph.nodes)
              (All-sort_by by_id _ graph.nodes
                (All-of_mem graph.nodes (λ node m e. is_ready-IsRunnable graph state node m e)))
              selected)),
    )

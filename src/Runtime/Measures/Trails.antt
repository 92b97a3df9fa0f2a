-- ===== src/Runtime/Measures/Trails.antt =====
-- src/orchestra/runtime/native_async.py: the loop of _result over the nodes, against the paths of
-- the graph.
use codename_madagascar.Prelude.{
  ℕ, ◌+◌, ◌≤◌, ◌<◌, ◌≡◌, refl, sym, subst, String, true, false, List, [], ◌∷◌, map, Dict, insert,
  lookup-insert, contains, count, ◌==◌, string_eq, eq_iff, if◌then◌else◌, arith, inl, inr,
  Bool-cases,
}
use codename_madagascar.Ir.Edges.{EdgeSpec}
use codename_madagascar.Runtime.Measures.{get_or_zero, maximum, total, parents_of, longest_paths}

-- A path of the edges, from its last node back to its first, through nodes of `ids`.
abbrev pub IsTrail : List EdgeSpec → List String → List String → Type 0
IsTrail edges ids [] = Unit
IsTrail edges ids (v ∷ []) = 0 < count v ids
IsTrail edges ids (v ∷ u ∷ trail) =
    (0 < count v ids) × (contains (parents_of v edges) u ≡ true) × IsTrail edges ids (u ∷ trail)

-- The latencies of its nodes, added up.
abbrev pub trail_latency : Dict String ℕ → List String → ℕ
trail_latency latency trail = total (map (λ (v : String). get_or_zero v latency) trail)

get_or_zero-insert :
    (k j : String) (n : ℕ) (d : Dict String ℕ)
    → get_or_zero j (insert k n d) ≡ (if k == j then n else get_or_zero j d)
get_or_zero-insert k j n d = ground (arith, lookup-insert k j n d)

-- The values at the parents, as the loop reads them.
abbrev pub before : List String → Dict String ℕ → ℕ
before parents d = maximum (map (λ (u : String). get_or_zero u d) parents)

before-insert :
    (k : String) (n : ℕ) (d : Dict String ℕ) (parents : List String)
    → contains parents k ≡ false
    → before parents (insert k n d) ≡ before parents d
before-insert k n d [] h = refl
before-insert k n d (u ∷ parents) h =
    ground (arith, before-insert k n d parents, get_or_zero-insert k u n d, eq_iff u k, eq_iff k u)

pub before-ge :
    (d : Dict String ℕ) (parents : List String) (u : String)
    → contains parents u ≡ true
    → get_or_zero u d ≤ before parents d
before-ge d [] u h = cc
before-ge d (w ∷ parents) u h = ground (arith, before-ge d parents u, eq_iff w u)

-- Each node stands after the nodes that its edges come from.
abbrev pub IsOrdered : List EdgeSpec → List String → List String → Type 0
IsOrdered edges done [] = Unit
IsOrdered edges done (v ∷ nodes) =
    ((u : String) → contains (parents_of v edges) u ≡ true → 0 < count u done)
    × IsOrdered edges (v ∷ done) nodes

module _ (latency : Dict String ℕ) (edges : List EdgeSpec) where
  -- The table solves the equations of the longest paths at the nodes that are done.
  pub record IsSolved (done : List String) (d : Dict String ℕ) : Type 0 where
    pub solved :
        (v : String)
        → 0 < count v done
        → get_or_zero v d ≡ get_or_zero v latency + before (parents_of v edges) d
    pub closed :
        (v u : String)
        → 0 < count v done
        → contains (parents_of v edges) u ≡ true
        → 0 < count u done

  step : String → Dict String ℕ → Dict String ℕ
  step v d = insert v (get_or_zero v latency + before (parents_of v edges) d) d

  not_parent :
      (done : List String) (d : Dict String ℕ) (v w : String)
      → IsSolved done d
      → count v done ≡ 0
      → 0 < count w done
      → contains (parents_of w edges) v ≡ false
  not_parent done d v w s new old = ground (arith, s.closed w v old)

  step_new :
      (d : Dict String ℕ) (v : String)
      → contains (parents_of v edges) v ≡ false
      → get_or_zero v (step v d) ≡ get_or_zero v latency + before (parents_of v edges) (step v d)
  unfolding step
  step_new d v h =
      let n = get_or_zero v latency + before (parents_of v edges) d in
      ground
        (arith, get_or_zero-insert v v n d, before-insert v n d (parents_of v edges) h, eq_iff v v)

  step_old :
      (d : Dict String ℕ) (v w : String)
      → (v == w) ≡ false
      → contains (parents_of w edges) v ≡ false
      → get_or_zero w d ≡ get_or_zero w latency + before (parents_of w edges) d
      → get_or_zero w (step v d) ≡ get_or_zero w latency + before (parents_of w edges) (step v d)
  unfolding step
  step_old d v w other h old =
      let n = get_or_zero v latency + before (parents_of v edges) d in
      ground (arith, get_or_zero-insert v w n d, before-insert v n d (parents_of w edges) h)

  step-IsSolved :
      (done : List String) (d : Dict String ℕ) (v : String)
      → IsSolved done d
      → count v done ≡ 0
      → ((u : String) → contains (parents_of v edges) u ≡ true → 0 < count u done)
      → IsSolved (v ∷ done) (step v d)
  step-IsSolved done d v s new parents = record {
    solved = λ w h. elim (Bool-cases (v == w)) [
      | inl same ↦
          subst
            (λ (x : String).
              get_or_zero x (step v d)
              ≡ get_or_zero x latency + before (parents_of x edges) (step v d))
            ((eq_iff v w).0 same) (step_new d v (ground (arith, parents v)))
      | inr other ↦
          let old : 0 < count w done = ground arith in
          step_old d v w other (not_parent done d v w s new old) (s.solved w old)
    ];
    closed = λ w u h k. elim (Bool-cases (v == w)) [
      | inl same ↦
          let above : 0 < count u done = parents u (
            subst (λ (x : String). contains (parents_of x edges) u ≡ true)
              (sym ((eq_iff v w).0 same)) k) in
          ground arith
      | inr other ↦ ground (arith, s.closed w u)
    ];
  }

  pub longest_paths-IsSolved :
      (nodes done : List String) (d : Dict String ℕ)
      → IsSolved done d
      → IsOrdered edges done nodes
      → ((v : String) → count v done + count v nodes ≤ 1)
      → (all : List String) × ((v : String) → count v all ≡ count v done + count v nodes)
        × IsSolved all (longest_paths latency edges nodes d)
  unfolding longest_paths step
  longest_paths-IsSolved [] done d s ordered distinct = (done, (λ v. omega arith), s)
  longest_paths-IsSolved (v ∷ nodes) done d s ordered distinct =
      let (all, same, rest) =
        longest_paths-IsSolved nodes (v ∷ done) (step v d)
          (step-IsSolved done d v s (ground (arith, distinct v, eq_iff v v)) ordered.0) ordered.1
          (λ w. omega (arith, distinct w)) in
      (all, (λ w. omega (arith, same w)), rest)

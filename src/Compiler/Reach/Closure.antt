-- ===== src/Compiler/Reach/Closure.antt =====
-- src/orchestra/ir/compiler.py: the closure against paths of edges.
use mathlib.Core.Option.{some-injective}
use codename_madagascar.Prelude.{
  ℕ, zero, suc, ◌+◌, ◌≤◌, ◌<◌, ◌≡◌, sym, ap, subst, ◌∙◌, String, Bool, true, false, ◌||◌, some,
  List, [], ◌∷◌, length, contains, contains_iff, count, IsDistinct, length-le_of_count,
  count-le_of_distinct, string_eq, arith, eq_iff, Bool-cases, inl, inr,
}
use codename_madagascar.Ir.Edges.{EdgeSpec}
use codename_madagascar.Compiler.Waves.Relax.{targets}
use codename_madagascar.Compiler.Waves.Rounds.{targets_of}
use codename_madagascar.Compiler.Reach.{add_round, close_loop}
use codename_madagascar.Compiler.Reach.Targets.{
  contains-append, add_round-eq-add_targets, contains-add_targets, add_targets_unchanged,
  count-add_targets, length-add_targets-lt,
}

-- A node that some edges lead to from the start.
pub data Reaches (edges : List EdgeSpec) (start : List String) : String → Type 0 where
  start_at : {v : String} → contains start v ≡ true → Reaches edges start v
  follow :
      {u v : String}
      → Reaches edges start u
      → contains (targets_of edges u) v ≡ true
      → Reaches edges start v

contains-targets :
    (adjacency : String → List String) (us : List String) (v : String)
    → contains (targets adjacency us) v ≡ true
    → (u : String) × (contains us u ≡ true) × (contains (adjacency u) v ≡ true)
contains-targets adjacency [] v h = cc
contains-targets adjacency (w ∷ us) v h = elim (Bool-cases (contains (adjacency w) v)) [
  | inl here ↦ (w, ground (arith, eq_iff w w), here)
  | inr later ↦
      let (u, among, to_v) =
        contains-targets adjacency us v
          (ground (arith, contains-append v (adjacency w) (targets adjacency us))) in
      (u, ground arith, to_v)
]

targets-contains :
    (adjacency : String → List String) (us : List String) (u v : String)
    → contains us u ≡ true
    → contains (adjacency u) v ≡ true
    → contains (targets adjacency us) v ≡ true
targets-contains adjacency [] u v h k = cc
targets-contains adjacency (w ∷ us) u v h k = ground (
  arith,
  targets-contains adjacency us u v,
  contains-append v (adjacency w) (targets adjacency us),
  eq_iff w u,
)

module _ (edges : List EdgeSpec) (start : List String) where
  abbrev round : List String → List String × Bool
  round r = add_round (targets_of edges) r (r, false)

  abbrev AllReached : List String → Type 0
  AllReached r = (v : String) → contains r v ≡ true → Reaches edges start v

  contains-round :
      (r : List String) (v : String)
      → contains (round r).0 v ≡ (contains r v || contains (targets (targets_of edges) r) v)
  contains-round r v = rw add_round-eq-add_targets (contains-add_targets v _ r false)

  round-AllReached : (r : List String) → AllReached r → AllReached (round r).0
  round-AllReached r all v h = elim (Bool-cases (contains r v)) [
    | inl old ↦ all v old
    | inr new ↦
        let (u, among, to_v) =
          contains-targets (targets_of edges) r v (ground (arith, contains-round r v)) in
        Reaches.follow (all u among) to_v
  ]

  -- The nodes of the result are reached, and every reached node is among them.
  pub record IsClosure (r : List String) : Type 0 where
    pub sound : AllReached r
    pub includes : (v : String) → contains start v ≡ true → contains r v ≡ true
    pub closed :
        (u v : String)
        → contains r u ≡ true
        → contains (targets_of edges u) v ≡ true
        → contains r v ≡ true

  abbrev Includes : List String → Type 0
  Includes r = (v : String) → contains start v ≡ true → contains r v ≡ true

  round_same : (r : List String) → (round r).1 ≡ false → (round r).0 ≡ r
  round_same r stop =
      ap (λ (s : List String × Bool). s.0)
        (add_round-eq-add_targets (targets_of edges) r (r, false))
      ∙ (add_targets_unchanged (targets (targets_of edges) r) r false
          (rw add_round-eq-add_targets at stop)).1

  round_closed :
      (r : List String) (u v : String)
      → (round r).1 ≡ false
      → contains (round r).0 u ≡ true
      → contains (targets_of edges u) v ≡ true
      → contains (round r).0 v ≡ true
  round_closed r u v stop h k =
      let among : contains r u ≡ true = ap (λ l. contains l u) (sym (round_same r stop)) ∙ h in
      ground (arith, contains-round r v, targets-contains (targets_of edges) r u v among k)

  round_stops :
      (r : List String) → AllReached r → Includes r → (round r).1 ≡ false → IsClosure (round r).0
  round_stops r all includes stop = record {
    sound = round-AllReached r all;
    includes = λ v h. ground (arith, contains-round r v, includes v h);
    closed = λ u v h k. round_closed r u v stop h k;
  }

  close_loop-IsClosure :
      (fuel : ℕ) (r : List String) {q : List String}
      → AllReached r
      → Includes r
      → close_loop fuel (targets_of edges) r ≡ some q
      → IsClosure q
  unfolding close_loop
  close_loop-IsClosure zero r all includes e = cc
  close_loop-IsClosure (suc fuel) r all includes e = elim (Bool-cases (round r).1) [
    | inl changed ↦
        close_loop-IsClosure fuel (round r).0 (round-AllReached r all)
          (λ v h. ground (arith, contains-round r v, includes v h)) (rw changed at e)
    | inr stop ↦
        subst IsClosure (some-injective _ _ (rw stop at e)) (round_stops r all includes stop)
  ]

  -- The nodes of `ids`, without repetition.
  record IsWithin (ids r : List String) : Type 0 where
    distinct : IsDistinct r
    among : (v : String) → contains r v ≡ true → 0 < count v ids

  length-IsWithin : (ids r : List String) → IsWithin ids r → length r ≤ length ids
  length-IsWithin ids r w =
      length-le_of_count r ids
        (count-le_of_distinct r ids w.distinct (λ v h. w.among v ((contains_iff v r).1 h)))

  module _ (ids : List String)
      (known : (u v : String) → contains (targets_of edges u) v ≡ true → 0 < count v ids) where
    round-IsWithin : (r : List String) → IsWithin ids r → IsWithin ids (round r).0
    round-IsWithin r w = record {
      distinct = λ v. rw add_round-eq-add_targets (count-add_targets v _ r false (w.distinct v));
      among = λ v h. elim (Bool-cases (contains r v)) [
        | inl old ↦ w.among v old
        | inr new ↦
            let (u, _, to_v) =
              contains-targets (targets_of edges) r v (ground (arith, contains-round r v)) in
            known u v to_v
      ];
    }

    length-round-lt : (r : List String) → (round r).1 ≡ true → length r < length (round r).0
    length-round-lt r h =
        rw add_round-eq-add_targets (
          length-add_targets-lt (targets (targets_of edges) r) r (rw add_round-eq-add_targets at h))

    close_loop_total :
        (fuel : ℕ) (r : List String)
        → IsWithin ids r
        → length ids < fuel + length r
        → (q : List String) × (close_loop fuel (targets_of edges) r ≡ some q)
    unfolding close_loop
    close_loop_total zero r w enough = absurd (omega (arith, length-IsWithin ids r w))
    close_loop_total (suc fuel) r w enough = elim (Bool-cases (round r).1) [
      | inl changed ↦ rw changed (
          close_loop_total fuel (round r).0 (round-IsWithin r w)
            (omega (arith, length-round-lt r changed)))
      | inr stop ↦ ((round r).0, rw stop)
    ]

-- What the closure of the start holds.
pub loop-IsClosure :
    (edges : List EdgeSpec) (start : List String) (fuel : ℕ) {r : List String}
    → close_loop fuel (targets_of edges) start ≡ some r
    → IsClosure edges start r
loop-IsClosure edges start fuel e =
    close_loop-IsClosure edges start fuel start (λ v h. Reaches.start_at h) (λ v h. h) e

pub closure_complete :
    (edges : List EdgeSpec) (start r : List String)
    → IsClosure edges start r
    → {v : String} → Reaches edges start v
    → contains r v ≡ true
closure_complete edges start r c (start_at h) = c.includes _ h
closure_complete edges start r c (follow {u = u} {v = v} path h) =
    c.closed u v (closure_complete edges start r c path) h

-- Fuel for one more round than there are nodes is enough.
pub closure_total :
    (edges : List EdgeSpec) (start ids : List String)
    → IsDistinct start
    → ((v : String) → contains start v ≡ true → 0 < count v ids)
    → ((u v : String) → contains (targets_of edges u) v ≡ true → 0 < count v ids)
    → (q : List String) × (close_loop (suc (length ids)) (targets_of edges) start ≡ some q)
closure_total edges start ids distinct among known =
    close_loop_total edges start ids known (suc (length ids)) start
      (record { distinct = distinct; among = among }) (omega arith)

-- ===== src/Compiler/Waves/Layers.antt =====
-- src/orchestra/ir/compiler.py: the invariant of `while current`, and what the loop returns.
use mathlib.Core.List.{append_assoc, append-nil}
use mathlib.Core.Option.{some-injective}
use codename_madagascar.Prelude.Integers.{pos}
use codename_madagascar.Prelude.Sorting.{sort, count-sort}
use codename_madagascar.Prelude.{
  ℕ, zero, suc, ◌+◌, ◌≤◌, ◌<◌, ◌≡◌, refl, sym, subst, ap, ◌∙◌, String, Option, none, some, List, [],
  ◌∷◌, ◌++◌, length, length-append, length-le_of_count, concat, count, count-append, IsDistinct,
  string_eq, arith,
}
use codename_madagascar.Ir.Edges.{EdgeSpec}
use codename_madagascar.Compiler.Waves.{Indegree, relax_wave, wave_loop, push_wave}
use codename_madagascar.Compiler.Waves.Relax.{
  Counts, freed, targets, relax_targets-Counts, relax_targets-freed, relax_wave-eq-relax_targets,
}
use codename_madagascar.Compiler.Waves.Rounds.{
  targets_of, waiting, waiting-append, count-waiting-le, Follows, Follows-of_waiting,
}

push_wave-eq-some :
    (wave : List String) (o : Option (List (List String) × ℕ)) {r : List (List String) × ℕ}
    → push_wave wave o ≡ some r
    → (q : List (List String) × ℕ) × (o ≡ some q) × (r ≡ (wave ∷ q.0, q.1))
push_wave-eq-some wave none e = cc
push_wave-eq-some wave (some q) e = (q, refl, sym (some-injective _ _ e))

-- Every wave follows the waves before it, the first of them those in `done`.
abbrev pub IsLayered : List EdgeSpec → List String → List (List String) → Type 0
IsLayered edges done [] = Unit
IsLayered edges done (wave ∷ waves) = Follows edges done wave × IsLayered edges (done ++ wave) waves

-- The indegrees count the edges from outside `done`.
abbrev pub Degrees : List EdgeSpec → List String → Indegree → Type 0
Degrees edges done indegree = (v : String) → indegree v ≡ pos (count v (waiting edges done))

module _ (edges : List EdgeSpec) (ids : List String) where
  -- `done` and `current` hold exactly the nodes of `ids` that no edge from outside `done` enters.
  pub record Placed (done current : List String) : Type 0 where
    pub bounded : (v : String) → count v done + count v current ≤ count v ids
    pub unentered :
        (v : String) → 0 < count v done + count v current → count v (waiting edges done) ≡ 0
    pub complete :
        (v : String)
        → 0 < count v ids
        → count v (waiting edges done) ≡ 0
        → 0 < count v done + count v current

module _ (edges : List EdgeSpec) (ids : List String) (distinct : IsDistinct ids)
    (known : (v : String) → 0 < count v (waiting edges []) → 0 < count v ids) where
  module _ (done current : List String) (indegree : Indegree)
      (degrees : Degrees edges done indegree) (placed : Placed edges ids done current) where
    left : List String
    left = waiting edges (done ++ current)

    wave-IsDistinct : IsDistinct (done ++ current)
    wave-IsDistinct v = omega (arith, placed.bounded v, distinct v, count-append v done current)

    taken :
        (v : String)
        → count v (targets (targets_of edges) current) + count v left ≡ count v (waiting edges done)
    unfolding left
    taken v = waiting-append edges done current v wave-IsDistinct

    wave_Counts : Counts indegree (targets (targets_of edges) current) (λ v. count v left)
    wave_Counts v = degrees v ∙ ap pos (sym (taken v))

    after : Indegree × List String
    after = relax_wave (targets_of edges) current indegree []

    after_Degrees : Degrees edges (done ++ current) after.0
    unfolding after left
    after_Degrees v = rw relax_wave-eq-relax_targets (
        relax_targets-Counts (targets (targets_of edges) current) indegree [] (λ u. count u left)
          wave_Counts v
        ∙ ap pos (omega arith))

    next_count :
        (v : String)
        → count v (sort after.1) ≡ freed (targets (targets_of edges) current) (λ u. count u left) v
    unfolding after left
    next_count v =
        count-sort v after.1
        ∙ rw relax_wave-eq-relax_targets (
            relax_targets-freed (targets (targets_of edges) current) indegree [] (λ u. count u left)
              v wave_Counts
            ∙ omega arith)

    after_Placed : Placed edges ids (done ++ current) (sort after.1)
    unfolding left
    after_Placed = record {
      bounded = λ v. ground (
        arith,
        next_count v,
        taken v,
        placed.bounded v,
        placed.unentered v,
        known v,
        count-waiting-le edges done v,
        count-append v done current,
      );
      unentered = λ v h.
          ground (arith, next_count v, taken v, placed.unentered v, count-append v done current);
      complete = λ v i w.
          ground (arith, next_count v, taken v, placed.complete v, count-append v done current);
    }

  wave_Follows :
      (done current : List String) → Placed edges ids done current → Follows edges done current
  wave_Follows done current placed =
      Follows-of_waiting edges done current (λ v h. placed.unentered v (omega arith))

  -- What the loop returns from a state where the invariant holds.
  pub record IsFinished (done : List String) (visited : ℕ) (r : List (List String) × ℕ)
      : Type 0 where
    pub layered : IsLayered edges done r.0
    pub placed : Placed edges ids (done ++ concat r.0) []
    pub counted : r.1 ≡ visited + length (concat r.0)

  IsFinished-push :
      (done wave : List String) (visited : ℕ) (r : List (List String) × ℕ)
      → Follows edges done wave
      → IsFinished (done ++ wave) (visited + length wave) r
      → IsFinished done visited (wave ∷ r.0, r.1)
  IsFinished-push done wave visited r f h = record {
    layered = (f, h.layered);
    placed = rw append_assoc at (h.placed);
    counted = omega (arith, h.counted, length-append wave (concat r.0));
  }

  IsFinished-nil :
      (done : List String) (visited : ℕ)
      → Placed edges ids done []
      → IsFinished done visited ([], visited)
  IsFinished-nil done visited placed = record {
    layered = tt;
    placed = rw append-nil placed;
    counted = omega arith;
  }

  pub wave_loop-IsFinished :
      (fuel : ℕ) (done current : List String) (indegree : Indegree) (visited : ℕ)
      (r : List (List String) × ℕ)
      → Degrees edges done indegree
      → Placed edges ids done current
      → wave_loop fuel (targets_of edges) current indegree visited ≡ some r
      → IsFinished done visited r
  unfolding wave_loop after
  wave_loop-IsFinished fuel done [] indegree visited r degrees placed e =
      subst (IsFinished done visited) (some-injective _ _ e) (IsFinished-nil done visited placed)
  wave_loop-IsFinished zero done (c ∷ cs) indegree visited r degrees placed e = cc
  wave_loop-IsFinished (suc fuel) done (c ∷ cs) indegree visited r degrees placed e =
      let wave : List String = c ∷ cs in
      let (rest, returns, pushed) = push_wave-eq-some wave _ e in
      subst (IsFinished done visited) (sym pushed) (
        IsFinished-push done wave visited rest (wave_Follows done wave placed) (
          wave_loop-IsFinished fuel (done ++ wave) _ _ _ rest
            (after_Degrees done wave indegree degrees placed)
            (after_Placed done wave indegree degrees placed) returns))

  -- Each round takes a node, so more fuel than nodes is enough.
  pub wave_loop_total :
      (fuel : ℕ) (done current : List String) (indegree : Indegree) (visited : ℕ)
      → Degrees edges done indegree
      → Placed edges ids done current
      → length ids < fuel + length done
      → (r : List (List String) × ℕ) × (wave_loop fuel (targets_of edges) current indegree visited
          ≡ some r)
  unfolding wave_loop after
  wave_loop_total fuel done [] indegree visited degrees placed enough = (([], visited), refl)
  wave_loop_total zero done (c ∷ cs) indegree visited degrees placed enough =
      absurd (omega (arith, length-le_of_count done ids (λ v. omega (arith, placed.bounded v))))
  wave_loop_total (suc fuel) done (c ∷ cs) indegree visited degrees placed enough =
      let wave : List String = c ∷ cs in
      let (rest, returns) =
        wave_loop_total fuel (done ++ wave) _ _ (visited + length wave)
          (after_Degrees done wave indegree degrees placed)
          (after_Placed done wave indegree degrees placed)
          (omega (arith, length-append done wave)) in
      ((wave ∷ rest.0, rest.1), ap (push_wave wave) returns)

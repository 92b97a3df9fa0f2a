-- ===== src/Compiler/Reach/Targets.antt =====
-- src/orchestra/ir/compiler.py: one round of the closure, as one pass over the targets.
use codename_madagascar.Prelude.{
  ◌≤◌, ◌<◌, ◌≡◌, refl, sym, ◌∙◌, String, Bool, true, false, ◌||◌, List, [], ◌∷◌, ◌++◌, length,
  contains, contains_iff, count, string_eq, arith, eq_iff,
}
use codename_madagascar.Compiler.Waves.Relax.{targets}
use codename_madagascar.Compiler.Reach.{add_targets, add_round}

pub contains-append :
    (v : String) (xs ys : List String) → contains (xs ++ ys) v ≡ (contains xs v || contains ys v)
contains-append v [] ys = refl
contains-append v (x ∷ xs) ys = ground (arith, contains-append v xs ys)

add_targets-append :
    (xs ys : List String) (s : List String × Bool)
    → add_targets (xs ++ ys) s ≡ add_targets ys (add_targets xs s)
unfolding add_targets
add_targets-append [] ys s = refl
add_targets-append (x ∷ xs) ys (r, c) = add_targets-append xs ys _

-- A round is one pass over the targets of all its sources.
pub add_round-eq-add_targets :
    (adjacency : String → List String) (sources : List String) (s : List String × Bool)
    → add_round adjacency sources s ≡ add_targets (targets adjacency sources) s
unfolding add_round
add_round-eq-add_targets adjacency [] s = unfold add_targets in refl
add_round-eq-add_targets adjacency (u ∷ us) s =
    add_round-eq-add_targets adjacency us _
    ∙ sym (add_targets-append (adjacency u) (targets adjacency us) s)

pub contains-add_targets :
    (v : String) (ts r : List String) (c : Bool)
    → contains (add_targets ts (r, c)).0 v ≡ (contains r v || contains ts v)
unfolding add_targets
contains-add_targets v [] r c = ground arith
contains-add_targets v (t ∷ ts) r c =
    ground
      (arith, contains-add_targets v ts r c, contains-add_targets v ts (t ∷ r) true, eq_iff t v)

-- The flag stays down only where nothing is added.
pub add_targets_unchanged :
    (ts r : List String) (c : Bool)
    → (add_targets ts (r, c)).1 ≡ false
    → (c ≡ false) × ((add_targets ts (r, c)).0 ≡ r)
unfolding add_targets
add_targets_unchanged [] r c h = (h, refl)
add_targets_unchanged (t ∷ ts) r c h =
    ground (arith, add_targets_unchanged ts r c, add_targets_unchanged ts (t ∷ r) true)

pub count-add_targets :
    (v : String) (ts r : List String) (c : Bool)
    → count v r ≤ 1
    → count v (add_targets ts (r, c)).0 ≤ 1
unfolding add_targets
count-add_targets v [] r c h = h
count-add_targets v (t ∷ ts) r c h = ground (
  arith,
  count-add_targets v ts r c,
  count-add_targets v ts (t ∷ r) true,
  contains_iff t r,
  eq_iff t v,
)

length-add_targets-le :
    (ts r : List String) (c : Bool) → length r ≤ length (add_targets ts (r, c)).0
unfolding add_targets
length-add_targets-le [] r c = omega arith
length-add_targets-le (t ∷ ts) r c =
    ground (arith, length-add_targets-le ts r c, length-add_targets-le ts (t ∷ r) true)

-- The flag goes up only where the set has grown.
pub length-add_targets-lt :
    (ts r : List String)
    → (add_targets ts (r, false)).1 ≡ true
    → length r < length (add_targets ts (r, false)).0
unfolding add_targets
length-add_targets-lt [] r h = cc
length-add_targets-lt (t ∷ ts) r h =
    ground (arith, length-add_targets-lt ts r, length-add_targets-le ts (t ∷ r) true)

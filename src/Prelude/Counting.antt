-- ===== src/Prelude/Counting.antt =====
-- How often a key stands in a list: membership, distinctness and the multiset view as numbers.
use Prim.Native.Nat.{ℕ, suc, ◌+◌, ◌-◌, ◌≤◌, ◌<◌}
use mathlib.Core.Path.{◌≡◌, refl}
use mathlib.Core.Logic.{◌↔◌, inl, inr}
use mathlib.Core.Bool.{Bool, true}
use mathlib.Core.List.{List, [], ◌∷◌, ◌++◌}
use native.Mathlib.Omega.{arith}
use codename_madagascar.Prelude.Tests.{if◌then◌else◌, Bool-cases}
use codename_madagascar.Prelude.Lists.{length, filter}
use codename_madagascar.Prelude.Equality.{Eq, ◌==◌, contains, to_set}

module _ {ℓ} {A : Type ℓ} ⦃e : Eq A⦄ where
  abbrev pub count : A → List A → ℕ
  count a [] = 0
  count a (x ∷ xs) = (if x == a then 1 else 0) + count a xs

  -- No key stands in the list twice.
  abbrev pub IsDistinct : List A → Type ℓ
  IsDistinct xs = (a : A) → count a xs ≤ 1

  -- The two lists hold the same keys, each as often.
  abbrev pub SameItems : List A → List A → Type ℓ
  SameItems xs ys = (a : A) → count a xs ≡ count a ys

  pub contains_iff : (a : A) (xs : List A) → (contains xs a ≡ true) ↔ (0 < count a xs)
  contains_iff a [] = ground arith
  contains_iff a (x ∷ xs) = ground (arith, contains_iff a xs)

  pub count-append : (a : A) (xs ys : List A) → count a (xs ++ ys) ≡ count a xs + count a ys
  count-append a [] ys = omega arith
  count-append a (x ∷ xs) ys = omega (arith, count-append a xs ys)

  pub count-filter :
      (a : A) (p : A → Bool) (xs : List A) → count a (filter p xs) ≡ (if p a then count a xs else 0)
  count-filter a p [] = ground arith
  count-filter a p (x ∷ xs) = ground (arith, count-filter a p xs, e.beq_iff x a)

  -- Removes the first `a`.
  abbrev erase : A → List A → List A
  erase a [] = []
  erase a (x ∷ xs) = let rest = erase a xs in if x == a then xs else x ∷ rest

  count-erase :
      (a b : A) (xs : List A) → count b (erase a xs) ≡ count b xs - (if a == b then 1 else 0)
  count-erase a b [] = omega arith
  count-erase a b (x ∷ xs) =
      ground (arith, count-erase a b xs, e.beq_iff x a, e.beq_iff a b, e.beq_iff x b)

  length-erase : (a : A) (xs : List A) → 0 < count a xs → suc (length (erase a xs)) ≡ length xs
  length-erase a [] h = absurd (omega arith)
  length-erase a (x ∷ xs) h = ground (arith, length-erase a xs)

  erase_le :
      (x : A) (xs ys : List A)
      → ((a : A) → count a (x ∷ xs) ≤ count a ys)
      → (a : A) → count a xs ≤ count a (erase x ys)
  erase_le x xs ys h a = ground (arith, h a, count-erase x a ys)

  count-head : (x : A) (xs : List A) → 0 < count x (x ∷ xs)
  count-head x xs = ground (arith, e.beq_iff x x)

  pub length-le_of_count :
      (xs ys : List A) → ((a : A) → count a xs ≤ count a ys) → length xs ≤ length ys
  length-le_of_count [] ys h = omega arith
  length-le_of_count (x ∷ xs) ys h = omega (
    arith,
    length-le_of_count xs (erase x ys) (erase_le x xs ys h),
    length-erase x ys (ground (arith, h x, count-head x xs)),
  )

  -- Where the longer list is no longer, the counts agree.
  pub SameItems-of_count-le :
      (xs ys : List A)
      → ((a : A) → count a xs ≤ count a ys)
      → length ys ≤ length xs
      → SameItems xs ys
  SameItems-of_count-le [] [] h l a = refl
  SameItems-of_count-le [] (y ∷ ys) h l a = absurd (omega arith)
  SameItems-of_count-le (x ∷ xs) ys h l a =
      let shorter = length-erase x ys (ground (arith, h x, count-head x xs)) in
      let rest =
        SameItems-of_count-le xs (erase x ys) (erase_le x xs ys h) (omega (arith, shorter)) in
      ground (arith, rest a, count-erase x a ys, h a)

  pub length-eq_of_SameItems : (xs ys : List A) → SameItems xs ys → length xs ≡ length ys
  length-eq_of_SameItems xs ys h = omega (
    arith,
    length-le_of_count xs ys (λ a. omega (arith, h a)),
    length-le_of_count ys xs (λ a. omega (arith, h a)),
  )

  -- Distinct keys that all stand in another list.
  pub count-le_of_distinct :
      (xs ys : List A)
      → IsDistinct xs
      → ((a : A) → 0 < count a xs → 0 < count a ys)
      → (a : A) → count a xs ≤ count a ys
  count-le_of_distinct xs ys d sub a = grind (arith, d a, sub a)

  pub count-to_set : (a : A) (xs : List A) → count a (to_set xs) ≡ (if contains xs a then 1 else 0)
  unfolding to_set
  count-to_set a [] = refl
  count-to_set a (x ∷ xs) = ground (
    arith,
    count-to_set a xs,
    count-to_set x xs,
    contains_iff x (to_set xs),
    contains_iff x xs,
    e.beq_iff x a,
  )

  pub length-to_set-le : (xs : List A) → length (to_set xs) ≤ length xs
  unfolding to_set
  length-to_set-le [] = omega arith
  length-to_set-le (x ∷ xs) = ground (arith, length-to_set-le xs)

  -- `len(set(xs)) == len(xs)` says that no key stands in `xs` twice.
  pub IsDistinct-of_to_set : (xs : List A) → length (to_set xs) ≡ length xs → IsDistinct xs
  unfolding to_set
  IsDistinct-of_to_set [] h a = omega arith
  IsDistinct-of_to_set (x ∷ xs) h a = elim (Bool-cases (contains (to_set xs) x)) [
    | inl old ↦ absurd (ground (arith, length-to_set-le xs))
    | inr new ↦ ground (
      arith,
      IsDistinct-of_to_set xs (ground arith) a,
      contains_iff x (to_set xs),
      count-to_set x xs,
      contains_iff x xs,
      e.beq_iff x a,
    )
  ]

  pub length-to_set_of_distinct : (xs : List A) → IsDistinct xs → length (to_set xs) ≡ length xs
  length-to_set_of_distinct xs d =
      length-eq_of_SameItems (to_set xs) xs
        (λ a. ground (arith, count-to_set a xs, contains_iff a xs, d a))

-- ===== src/Prelude/Sorting.antt =====
-- Python's `sorted`, which is stable, as an insertion sort by a key; texts compare by code points.
use Prim.Native.Nat.{◌+◌}
use Prim.Native.String.{String, compare}
use mathlib.Core.Path.{◌≡◌, refl, ap, sym, ◌∙◌}
use mathlib.Core.Bool.{Bool, true, false}
use mathlib.Core.List.{List, [], ◌∷◌, map}
use native.Mathlib.Omega.{arith}
use text.Mathlib.Text.{is_le, is_lt}
use codename_madagascar.Prelude.Tests.{if◌then◌else◌}
use codename_madagascar.Prelude.Lists.{All-if, All}
use codename_madagascar.Prelude.Equality.{string_eq, Eq, ◌==◌}
use codename_madagascar.Prelude.Counting.{count}

-- `s <= t` and `s < t`
abbrev pub str_leb : String → String → Bool
str_leb s t = is_le (compare s t)

abbrev pub str_ltb : String → String → Bool
str_ltb s t = is_lt (compare s t)

module _ {ℓ} {A : Type ℓ} (key : A → String) where
  -- Before the first item whose key is not smaller.
  unfoldable pub insert_by : A → List A → List A
  insert_by a [] = a ∷ []
  insert_by a (x ∷ xs) =
      let rest = insert_by a xs in if str_leb (key a) (key x) then a ∷ x ∷ xs else x ∷ rest

  -- `sorted(xs, key=key)`
  unfoldable pub sort_by : List A → List A
  unfolding insert_by
  sort_by [] = []
  sort_by (x ∷ xs) = insert_by x (sort_by xs)

  module _ {κ} (P : A → Type κ) where
    All-insert_by : (a : A) (xs : List A) → P a → All P xs → All P (insert_by a xs)
    unfolding insert_by
    All-insert_by a [] p h = (p, tt)
    All-insert_by a (x ∷ xs) p h =
        All-if P (str_leb (key a) (key x)) (a ∷ x ∷ xs) (x ∷ insert_by a xs) (p, h)
          (h.0, All-insert_by a xs p h.1)

    pub All-sort_by : (xs : List A) → All P xs → All P (sort_by xs)
    unfolding sort_by
    All-sort_by [] h = tt
    All-sort_by (x ∷ xs) h = All-insert_by x (sort_by xs) h.0 (All-sort_by xs h.1)

    All-of_insert_by : (a : A) (xs : List A) → All P (insert_by a xs) → P a × All P xs
    unfolding insert_by
    All-of_insert_by a [] h = (h.0, tt)
    All-of_insert_by a (x ∷ xs) h = placed (str_leb (key a) (key x)) (All-of_insert_by a xs) h
      where
        placed :
            (b : Bool)
            → (All P (insert_by a xs) → P a × All P xs)
            → All P (if b then a ∷ x ∷ xs else x ∷ insert_by a xs)
            → P a × All P (x ∷ xs)
        placed true later l = (l.0, l.1)
        placed false later l = let (head, rest) = later l.1 in (head, (l.0, rest))

    pub All-of_sort_by : (xs : List A) → All P (sort_by xs) → All P xs
    unfolding sort_by
    All-of_sort_by [] h = tt
    All-of_sort_by (x ∷ xs) h =
        let (head, rest) = All-of_insert_by x (sort_by xs) h in (head, All-of_sort_by xs rest)

  module _ {κ} {K : Type κ} ⦃e : Eq K⦄ (f : A → K) (k : K) where
    count-insert_by :
        (a : A) (xs : List A)
        → count k (map f (insert_by a xs)) ≡ (if f a == k then 1 else 0) + count k (map f xs)
    unfolding insert_by
    count-insert_by a [] = refl
    count-insert_by a (x ∷ xs) = ground (arith, count-insert_by a xs)

    -- Sorting keeps every item as often as it was given, seen through any field.
    pub count-sort_by : (xs : List A) → count k (map f (sort_by xs)) ≡ count k (map f xs)
    unfolding sort_by
    count-sort_by [] = refl
    count-sort_by (x ∷ xs) = omega (arith, count-insert_by x (sort_by xs), count-sort_by xs)

-- `sorted(xs)`
abbrev pub sort : List String → List String
sort xs = sort_by (λ x. x) xs

map_id {ℓ} : {A : Type ℓ} (xs : List A) → map (λ x. x) xs ≡ xs
map_id [] = refl
map_id (x ∷ xs) = ap (λ (t : List _). x ∷ t) (map_id xs)

pub count-sort : (k : String) (xs : List String) → count k (sort xs) ≡ count k xs
count-sort k xs =
    ap (count k) (sym (map_id (sort xs)))
    ∙ count-sort_by (λ x. x) (λ x. x) k xs
    ∙ ap (count k) (map_id xs)

-- ===== src/Adapters/Mapper/Sample.antt =====
-- src/orchestra/adapters/livecodebench/mapper.py: what a sampled manifest holds.
use mathlib.Core.List.{Memᴰ}
use codename_madagascar.Prelude.Integers.{ℤ, pos, negsuc}
use codename_madagascar.Prelude.{
  ℕ, zero, suc, ◌-◌, keys, All-map, ◌+◌, ◌≤◌, String, Bool, true, false, not, List, [], ◌∷◌, ◌++◌,
  map, filter, take, length, contains, Dict, ◌==◌, nat_eq, string_eq, eq_iff, ok, raise_if-bind,
  >>=-eq-ok, ok-injective, ◌≡◌, ◌∙◌, refl, sym, ap, subst, All, All-take, All-append, All-of_mem,
  count, count-append, IsDistinct, IsDistinct-of_to_set, to_set, if◌then◌else◌, arith,
}
use codename_madagascar.Exceptions.{value_error}
use codename_madagascar.Adapters.Tasks.{LcbTask}
use codename_madagascar.Adapters.Mapper.{
  ManifestEntry, LcbManifest, Random, entry_of, id_of, is_candidate, first_items, is_short, pick,
  pick_all, sample_manifest,
}

-- How many of so many candidates a count asks for; a negative count asks for all but its amount.
abbrev pub size_of : ℤ → ℕ → ℕ
size_of (pos n) available = n
size_of (negsuc n) available = available - suc n

-- How many candidates of a difficulty there are.
abbrev pub available : List LcbTask → List String → String → ℕ
available tasks excluded difficulty = length (filter (is_candidate difficulty excluded) tasks)

-- How many entries of a difficulty the counts ask for.
unfoldable pub quota : List LcbTask → List String → String → Dict String ℤ → ℕ
quota tasks excluded difficulty [] = 0
quota tasks excluded difficulty ((key, n) ∷ counts) =
    (if key == difficulty then size_of n (available tasks excluded key) else 0)
    + quota tasks excluded difficulty counts

abbrev pub difficulty_of : ManifestEntry → String
difficulty_of entry = entry.difficulty

-- The entry describes one of the tasks, which is not excluded.
abbrev pub IsDrawn : List LcbTask → List String → ManifestEntry → Type 0
IsDrawn tasks excluded entry =
    (contains excluded entry.question_id ≡ false)
    × (task : LcbTask) × Memᴰ task tasks
    × (entry ≡ entry_of task)

-- The counts name the difficulty of the entry.
abbrev pub IsNamed : Dict String ℤ → ManifestEntry → Type 0
IsNamed counts entry = contains (keys counts) entry.difficulty ≡ true

pub record IsSampled (tasks : List LcbTask) (excluded : List String) (counts : Dict String ℤ)
    (entries : List ManifestEntry) : Type 0 where
  pub quotas :
      (difficulty : String)
      → count difficulty (map difficulty_of entries) ≡ quota tasks excluded difficulty counts
  pub named : All (IsNamed counts) entries
  pub distinct : IsDistinct (map id_of entries)
  pub drawn : All (IsDrawn tasks excluded) entries

abbrev IsPicked : List LcbTask → List String → String → LcbTask → Type 0
IsPicked tasks excluded difficulty task =
    Memᴰ task tasks × (is_candidate difficulty excluded task ≡ true)

All-cons_if :
    (Q : LcbTask → Type 0) (b : Bool) (x : LcbTask) (xs : List LcbTask)
    → (b ≡ true → Q x)
    → All Q xs
    → All Q (if b then x ∷ xs else xs)
All-cons_if Q true x xs head rest = (head refl, rest)
All-cons_if Q false x xs head rest = rest

All-filter :
    (P : LcbTask → Type 0) (p : LcbTask → Bool) (xs : List LcbTask)
    → All P xs
    → All (λ x. P x × (p x ≡ true)) (filter p xs)
All-filter P p [] h = tt
All-filter P p (x ∷ xs) h =
    All-cons_if (λ y. P y × (p y ≡ true)) (p x) x (filter p xs) (λ e. (h.0, e))
      (All-filter P p xs h.1)

length-take : (n : ℕ) (xs : List LcbTask) → n ≤ length xs → length (take n xs) ≡ n
length-take zero xs h = refl
length-take (suc n) [] h = absurd (omega arith)
length-take (suc n) (x ∷ xs) h = omega (arith, length-take n xs (omega arith))

map-append {ℓ κ} :
    {A : Type ℓ} {B : Type κ} (f : A → B) (xs ys : List A) → map f (xs ++ ys) ≡ map f xs ++ map f ys
map-append f [] ys = refl
map-append f (x ∷ xs) ys = cc (map-append f xs ys)

length-map {ℓ κ} :
    {A : Type ℓ} {B : Type κ} (f : A → B) (xs : List A) → length (map f xs) ≡ length xs
length-map f [] = refl
length-map f (x ∷ xs) = ap suc (length-map f xs)

count-difficulties :
    (other : String) (xs ys : List ManifestEntry)
    → count other (map difficulty_of (xs ++ ys))
      ≡ count other (map difficulty_of xs) + count other (map difficulty_of ys)
count-difficulties other xs ys =
    ap (count other) (map-append difficulty_of xs ys)
    ∙ count-append other (map difficulty_of xs) (map difficulty_of ys)

-- Tasks of one difficulty, counted by any difficulty.
count-picked :
    (tasks : List LcbTask) (excluded : List String) (difficulty other : String) (xs : List LcbTask)
    → All (IsPicked tasks excluded difficulty) xs
    → count other (map difficulty_of (map entry_of xs))
      ≡ (if difficulty == other then length xs else 0)
count-picked tasks excluded difficulty other [] h = ground arith
count-picked tasks excluded difficulty other (x ∷ xs) h = ground (
  arith,
  count-picked tasks excluded difficulty other xs h.1,
  h.0,
  eq_iff x.problem.difficulty difficulty,
)

IsDrawn-of :
    (tasks : List LcbTask) (excluded : List String) (difficulty : String) (xs : List LcbTask)
    → All (IsPicked tasks excluded difficulty) xs
    → All (IsDrawn tasks excluded) (map entry_of xs)
IsDrawn-of tasks excluded difficulty [] h = tt
IsDrawn-of tasks excluded difficulty (x ∷ xs) h =
    ((ground (arith, h.0.1), x, h.0.0, refl), IsDrawn-of tasks excluded difficulty xs h.1)

IsNamed-of :
    (tasks : List LcbTask) (excluded : List String) (difficulty : String) (n : ℤ)
    (counts : Dict String ℤ) (xs : List LcbTask)
    → All (IsPicked tasks excluded difficulty) xs
    → All (IsNamed ((difficulty, n) ∷ counts)) (map entry_of xs)
IsNamed-of tasks excluded difficulty n counts [] h = tt
IsNamed-of tasks excluded difficulty n counts (x ∷ xs) h = (
  ground (
    arith,
    h.0.1,
    eq_iff x.problem.difficulty difficulty,
    eq_iff difficulty x.problem.difficulty,
  ),
  IsNamed-of tasks excluded difficulty n counts xs h.1,
)

length-first_items :
    (count : ℤ) (xs : List LcbTask) (candidates : ℕ)
    → length xs ≡ candidates
    → is_short candidates count ≡ false
    → length (first_items count xs) ≡ size_of count candidates
length-first_items (pos n) xs candidates same enough = length-take n xs (ground arith)
length-first_items (negsuc n) xs candidates same enough =
    omega (arith, length-take (length xs - suc n) xs (omega arith))

All-first_items :
    (P : LcbTask → Type 0) (count : ℤ) (xs : List LcbTask) → All P xs → All P (first_items count xs)
All-first_items P (pos n) xs h = All-take P n xs h
All-first_items P (negsuc n) xs h = All-take P (length xs - suc n) xs h

beq_of : {m n : ℕ} → not (m == n) ≡ false → m ≡ n
beq_of h = ground arith

module _ (random : Random) (tasks : List LcbTask) (excluded : List String) where
  -- The tasks of one pass.
  pick-IsPicked :
      (difficulty : String) (n : ℤ) (state next : random.State) (selected : List LcbTask)
      → pick random tasks excluded difficulty n state ≡ ok (selected, next)
      → (length selected ≡ size_of n (available tasks excluded difficulty))
        × All (IsPicked tasks excluded difficulty) selected
  unfolding pick
  pick-IsPicked difficulty n state next selected h =
      let candidates = filter (is_candidate difficulty excluded) tasks in
      let (enough, h₁) = raise_if-bind (is_short (length candidates) n) value_error _ h in
      let shuffled = (random.shuffle candidates state).0 in
      let same : first_items n shuffled ≡ selected = ap (λ r. r.0) (ok-injective h₁) in
      let picked = random.All-shuffle (IsPicked tasks excluded difficulty) candidates state (
        All-filter (λ task. Memᴰ task tasks) (is_candidate difficulty excluded) tasks
          (All-of_mem tasks (λ task m. m))) in
      subst
        (λ xs.
          (length xs ≡ size_of n (length candidates)) × All (IsPicked tasks excluded difficulty) xs)
        same
        (
          length-first_items n shuffled (length candidates) (random.length-shuffle candidates state)
              enough,
          All-first_items (IsPicked tasks excluded difficulty) n shuffled picked,
        )

  abbrev IsPartial : Dict String ℤ → List ManifestEntry → Type 0
  IsPartial counts entries =
      ((difficulty : String)
        → count difficulty (map difficulty_of entries) ≡ quota tasks excluded difficulty counts)
      × All (IsNamed counts) entries
      × All (IsDrawn tasks excluded) entries

  pick_all-IsPartial :
      (counts : Dict String ℤ) (state : random.State) (selected : List LcbTask)
      → pick_all random tasks excluded counts state ≡ ok selected
      → IsPartial counts (map entry_of selected)
  unfolding pick_all quota
  pick_all-IsPartial [] state selected h =
      subst (λ xs. IsPartial [] (map entry_of xs)) (ok-injective h) (λ d. refl, tt, tt)
  pick_all-IsPartial ((difficulty, n) ∷ counts) state selected h =
      let ((xs, next), picked, h₁) =
        >>=-eq-ok (pick random tasks excluded difficulty n state) _ h in
      let (ys, later, h₂) = >>=-eq-ok (pick_all random tasks excluded counts next) _ h₁ in
      let (size, items) = pick-IsPicked difficulty n state next xs picked in
      let (quotas, named, drawn) = pick_all-IsPartial counts next ys later in
      subst (λ zs. IsPartial ((difficulty, n) ∷ counts) (map entry_of zs)) (ok-injective h₂)
        (subst (IsPartial ((difficulty, n) ∷ counts)) (sym (map-append entry_of xs ys)) (
          λ other. ground (
            arith,
            count-difficulties other (map entry_of xs) (map entry_of ys),
            count-picked tasks excluded difficulty other xs items,
            quotas other,
            size,
          ),
          All-append (IsNamed ((difficulty, n) ∷ counts)) (map entry_of xs) (map entry_of ys)
              (IsNamed-of tasks excluded difficulty n counts xs items)
              (All-map (IsNamed counts) (IsNamed ((difficulty, n) ∷ counts))
                (λ entry k. ground (arith, k)) (map entry_of ys) named),
          All-append (IsDrawn tasks excluded) (map entry_of xs) (map entry_of ys)
              (IsDrawn-of tasks excluded difficulty xs items) drawn,
        ))

  -- A manifest that is sampled holds for each difficulty the number of entries that the counts ask
  -- for, no question twice, and only tasks that are not excluded.
  pub sample_manifest-IsSampled :
      (digest : LcbManifest → String) (release : String) (seed : ℤ) (counts : Dict String ℤ)
      (commit : String) {manifest : LcbManifest}
      → sample_manifest random tasks excluded digest release seed counts commit ≡ ok manifest
      → IsSampled tasks excluded counts manifest.entries
  unfolding sample_manifest
  sample_manifest-IsSampled digest release seed counts commit h =
      let (selected, picked, h₁) =
        >>=-eq-ok (pick_all random tasks excluded counts (random.seeded seed)) _ h in
      let entries = map entry_of selected in
      let (distinct, h₂) =
        raise_if-bind (not (length (to_set (map id_of entries)) == length entries)) value_error _
          h₁ in
      let same : length (to_set (map id_of entries)) ≡ length (map id_of entries) =
        beq_of distinct ∙ sym (length-map id_of entries) in
      let (quotas, named, drawn) = pick_all-IsPartial counts (random.seeded seed) selected picked in
      subst (λ (m : LcbManifest). IsSampled tasks excluded counts m.entries) (ok-injective h₂)
        (record {
          quotas = quotas;
          named = named;
          distinct = IsDistinct-of_to_set (map id_of entries) same;
          drawn = drawn;
        })

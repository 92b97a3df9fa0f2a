-- ===== src/Cli/Prepare/Samples.antt =====
-- src/orchestra/cli/prepare_lcb.py: what a prepared manifest holds.
use mathlib.Core.List.{Memᴰ}
use codename_madagascar.Prelude.Integers.{ℤ, pos, negsuc}
use codename_madagascar.Prelude.{
  ℕ, suc, ◌-◌, String, Bool, true, not, ◌&&◌, ◌||◌, Option, none, some, List, [], ◌∷◌, ◌++◌, map,
  filter, all, length, concat, contains, count, Dict, string_eq, eq_iff, ok, ◌==◌, ◌≡◌, ◌∙◌, ◌⊎◌,
  refl, sym, ap, >>=-eq-ok, All, IsDistinct, arith,
}
use codename_madagascar.Adapters.Tasks.{LcbTask, PrivateTestRepository}
use codename_madagascar.Adapters.Loader.{Texts}
use codename_madagascar.Adapters.Loader.Load.{load}
use codename_madagascar.Adapters.Mapper.{
  Random, ManifestEntry, LcbManifest, entry_of, id_of, is_candidate,
}
use codename_madagascar.Adapters.Mapper.Sample.{
  IsSampled, IsNamed, IsDrawn, difficulty_of, quota, size_of, available, sample_manifest-IsSampled,
}
use codename_madagascar.Cli.Prepare.{
  PrepareArgs, pinned_commit, counts_of, excluded_ids, no_filters, prepare,
}

-- The exclusion file, where it exists, does not list the question.
abbrev pub is_unlisted : Option (List String) → String → Bool
is_unlisted none question = true
is_unlisted (some ids) question = not (contains ids question)

-- The manifest has no entry of the question.
abbrev pub is_absent : String → LcbManifest → Bool
is_absent question manifest = not (contains (map id_of manifest.entries) question)

-- Neither the exclusion file nor an excluded manifest names the question.
abbrev pub is_allowed : Option (List String) → List LcbManifest → String → Bool
is_allowed file manifests question = is_unlisted file question && all (is_absent question) manifests

-- The tasks of a difficulty that are not excluded.
abbrev pub allowed_tasks :
    List LcbTask → Option (List String) → List LcbManifest → String → List LcbTask
allowed_tasks tasks file manifests difficulty =
    filter
      (λ (task : LcbTask).
        task.problem.difficulty == difficulty && is_allowed file manifests task.question_id)
      tasks

-- The number of entries that a count asks for: the count, or where it is negative all but its amount of
-- the tasks.
abbrev pub IsQuota : ℤ → List LcbTask → ℕ → Type 0
IsQuota (pos n) allowed k = k ≡ n
IsQuota (negsuc n) allowed k = k ≡ length allowed - suc n

-- The entry describes one of the tasks, of one of the three difficulties, that is not excluded.
abbrev pub IsAllowedEntry :
    List LcbTask → Option (List String) → List LcbManifest → ManifestEntry → Type 0
IsAllowedEntry tasks file manifests entry =
    (is_allowed file manifests entry.question_id ≡ true)
    × ((entry.difficulty ≡ "easy") ⊎ ((entry.difficulty ≡ "medium") ⊎ (entry.difficulty ≡ "hard")))
    × (task : LcbTask) × Memᴰ task tasks
    × (entry ≡ entry_of task)

pub record IsSample (args : PrepareArgs) (tasks : List LcbTask) (file : Option (List String))
    (manifests : List LcbManifest) (entries : List ManifestEntry) : Type 0 where
  pub easy :
      IsQuota args.num_easy
        (allowed_tasks tasks file manifests "easy")
        (count "easy" (map difficulty_of entries))
  pub medium :
      IsQuota args.num_medium
        (allowed_tasks tasks file manifests "medium")
        (count "medium" (map difficulty_of entries))
  pub hard :
      IsQuota args.num_hard
        (allowed_tasks tasks file manifests "hard")
        (count "hard" (map difficulty_of entries))
  pub distinct : IsDistinct (map id_of entries)
  pub allowed : All (IsAllowedEntry tasks file manifests) entries

contains-append :
    (xs ys : List String) (v : String) → contains (xs ++ ys) v ≡ (contains xs v || contains ys v)
contains-append [] ys v = refl
contains-append (x ∷ xs) ys v = ground (arith, contains-append xs ys v)

contains-manifests :
    (manifests : List LcbManifest) (v : String)
    → not (contains (concat (map (λ (m : LcbManifest). map id_of m.entries) manifests)) v)
      ≡ all (is_absent v) manifests
contains-manifests [] v = refl
contains-manifests (m ∷ manifests) v = ground (
  arith,
  contains-append (map id_of m.entries)
      (concat (map (λ (m : LcbManifest). map id_of m.entries) manifests)) v,
  contains-manifests manifests v,
)

excluded_ids-is_allowed :
    (file : Option (List String)) (manifests : List LcbManifest) (v : String)
    → not (contains (excluded_ids file manifests) v) ≡ is_allowed file manifests v
excluded_ids-is_allowed none manifests v = contains-manifests manifests v
excluded_ids-is_allowed (some ids) manifests v = ground (
  arith,
  contains-append ids (concat (map (λ (m : LcbManifest). map id_of m.entries) manifests)) v,
  contains-manifests manifests v,
)

filter-ext :
    (p q : LcbTask → Bool) (xs : List LcbTask)
    → ((x : LcbTask) → p x ≡ q x)
    → filter p xs ≡ filter q xs
filter-ext p q [] same = refl
filter-ext p q (x ∷ xs) same = ground (arith, same x, filter-ext p q xs same)

one_of_three :
    (difficulty : String)
    → contains ("easy" ∷ "medium" ∷ "hard" ∷ []) difficulty ≡ true
    → (difficulty ≡ "easy") ⊎ ((difficulty ≡ "medium") ⊎ (difficulty ≡ "hard"))
one_of_three difficulty h =
    ground (arith, eq_iff "easy" difficulty, eq_iff "medium" difficulty, eq_iff "hard" difficulty)

module _ (args : PrepareArgs) (tasks : List LcbTask) (file : Option (List String))
    (manifests : List LcbManifest) where
  candidates-allowed_tasks :
      (difficulty : String)
      → filter (is_candidate difficulty (excluded_ids file manifests)) tasks
        ≡ allowed_tasks tasks file manifests difficulty
  candidates-allowed_tasks difficulty = filter-ext _ _ tasks (λ task.
      ap (λ b. task.problem.difficulty == difficulty && b)
        (excluded_ids-is_allowed file manifests task.question_id))

  abbrev excluded : List String
  excluded = excluded_ids file manifests

  size_of-IsQuota :
      (difficulty : String) (asked : ℤ) (k : ℕ)
      → k ≡ size_of asked (available tasks excluded difficulty)
      → IsQuota asked (allowed_tasks tasks file manifests difficulty) k
  size_of-IsQuota difficulty (pos n) k h = h
  size_of-IsQuota difficulty (negsuc n) k h =
      h ∙ ap (λ l. length l - suc n) (candidates-allowed_tasks difficulty)

  entries_allowed :
      (entries : List ManifestEntry)
      → All (IsNamed (counts_of args)) entries
      → All (IsDrawn tasks excluded) entries
      → All (IsAllowedEntry tasks file manifests) entries
  entries_allowed [] named drawn = tt
  entries_allowed (entry ∷ entries) named drawn =
      let (kept, task, among, same) = drawn.0 in
      (
        (
          sym (excluded_ids-is_allowed file manifests entry.question_id) ∙ ap not kept,
          one_of_three entry.difficulty named.0,
          task,
          among,
          same,
        ),
        entries_allowed entries named.1 drawn.1,
      )

  IsSampled-IsSample :
      (entries : List ManifestEntry)
      → IsSampled tasks (excluded_ids file manifests) (counts_of args) entries
      → IsSample args tasks file manifests entries
  unfolding quota
  IsSampled-IsSample entries h = record {
    easy = size_of-IsQuota "easy" args.num_easy _ (h.quotas "easy" ∙ omega arith);
    medium = size_of-IsQuota "medium" args.num_medium _ (h.quotas "medium" ∙ omega arith);
    hard = size_of-IsQuota "hard" args.num_hard _ (h.quotas "hard" ∙ omega arith);
    distinct = h.distinct;
    allowed = entries_allowed entries h.named h.drawn;
  }

-- A manifest that is prepared holds, for each of the three difficulties, as many entries as its count
-- asks for (where a count is negative, all allowed tasks but its amount), no question twice, and only
-- tasks of the benchmark that neither the exclusion file nor an excluded manifest names.
pub prepare-IsSample :
    (texts : Texts) (random : Random) (digest : LcbManifest → String)
    (data_dir : Dict String (List String)) (args : PrepareArgs) (file : Option (List String))
    (manifests : List LcbManifest) (manifest : LcbManifest)
    → prepare texts random digest data_dir args file manifests ≡ ok manifest
    → (tasks : List LcbTask) × (repository : PrivateTestRepository) × (load texts no_filters
          args.release_version data_dir
        ≡ ok (tasks, repository))
      × IsSample args tasks file manifests manifest.entries
unfolding prepare
prepare-IsSample texts random digest data_dir args file manifests manifest h =
    let ((tasks, repository), loaded, h₁) =
      >>=-eq-ok (load texts no_filters args.release_version data_dir) _ h in
    (
      tasks,
      repository,
      loaded,
      IsSampled-IsSample args tasks file manifests manifest.entries (
          sample_manifest-IsSampled random tasks (excluded_ids file manifests) digest
            args.release_version args.seed (counts_of args) pinned_commit h₁),
    )

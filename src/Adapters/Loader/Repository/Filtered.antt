-- ===== src/Adapters/Loader/Repository/Filtered.antt =====
-- src/orchestra/adapters/livecodebench/loader.py: the tasks that load returns, against the filters.
use codename_madagascar.Prelude.Sorting.{All-sort_by, str_ltb}
use codename_madagascar.Prelude.Texts.{prefix}
use codename_madagascar.Prelude.{
  String, true, false, List, [], ◌∷◌, Dict, lookup, has_key, string_eq, eq_iff, ok, or_raise, ◌≡◌,
  refl, subst, >>=-eq-ok, ok-injective, All, All-map, Bool, contains, ◌||◌, ◌⊎◌, inl, inr, arith,
}
use codename_madagascar.Exceptions.{value_error}
use codename_madagascar.Adapters.Tasks.{LcbTask, PrivateTestRepository}
use codename_madagascar.Adapters.Loader.{Texts, Filters, text_drops, set_drops, release_files}
use codename_madagascar.Adapters.Loader.Load.{load_files, load}
use codename_madagascar.Adapters.Loader.Repository.{IsUndropped, load_files-IsRun}

-- The task is within the dates, the difficulties, the platforms and the identifiers that are given,
-- and its private data is in the repository.
pub record IsLoaded (filters : Filters) (repository : PrivateTestRepository) (task : LcbTask)
    : Type 0 where
  pub from_start :
      (filters.start_date ≡ "")
      ⊎ (str_ltb (prefix 10 task.problem.contest_date) filters.start_date ≡ false)
  pub until_end :
      (filters.end_date ≡ "")
      ⊎ (str_ltb filters.end_date (prefix 10 task.problem.contest_date) ≡ false)
  pub of_difficulty :
      (filters.difficulties ≡ []) ⊎ (contains filters.difficulties task.problem.difficulty ≡ true)
  pub of_platform :
      (filters.platforms ≡ []) ⊎ (contains filters.platforms task.problem.platform ≡ true)
  pub of_task_ids : (filters.task_ids ≡ []) ⊎ (contains filters.task_ids task.question_id ≡ true)
  pub has_private_data : has_key task.question_id repository ≡ true

text_kept :
    (filter : String) (dropped : Bool)
    → text_drops filter dropped ≡ false
    → (filter ≡ "") ⊎ (dropped ≡ false)
text_kept filter true h = inl (ground (arith, eq_iff filter ""))
text_kept filter false h = inr refl

set_kept :
    (filter : List String) (value : String)
    → set_drops filter value ≡ false
    → (filter ≡ []) ⊎ (contains filter value ≡ true)
set_kept [] value h = inl refl
set_kept (x ∷ xs) value h = inr (ground arith)

none_drops :
    (a b c d e : Bool)
    → (a || (b || (c || (d || e)))) ≡ false
    → (a ≡ false) × (b ≡ false) × (c ≡ false) × (d ≡ false) × (e ≡ false)
none_drops a b c d e h = ground arith

IsUndropped-IsLoaded :
    (filters : Filters) (repository : PrivateTestRepository) (task : LcbTask)
    → IsUndropped filters repository task
    → IsLoaded filters repository task
IsUndropped-IsLoaded filters repository task (kept, present) =
    let (start, until, difficulty, platform, id) = none_drops _ _ _ _ _ kept in
    record {
      from_start = text_kept filters.start_date _ start;
      until_end = text_kept filters.end_date _ until;
      of_difficulty = set_kept filters.difficulties task.problem.difficulty difficulty;
      of_platform = set_kept filters.platforms task.problem.platform platform;
      of_task_ids = set_kept filters.task_ids task.question_id id;
      has_private_data = present;
    }

-- Every task that is loaded is in the range of dates, of a difficulty, a platform and an
-- identifier that the filters allow, where they are given, and its private data can be got from the
-- repository.
pub load-IsLoaded :
    (texts : Texts) (filters : Filters) (release : String) (directory : Dict String (List String))
    (tasks : List LcbTask) (repository : PrivateTestRepository)
    → load texts filters release directory ≡ ok (tasks, repository)
    → All (IsLoaded filters repository) tasks
unfolding load
load-IsLoaded texts filters release directory tasks repository h =
    let (names, _, h₁) = >>=-eq-ok (or_raise (lookup release release_files) value_error) _ h in
    let ((unsorted, last), loaded, h₂) =
      >>=-eq-ok (load_files texts filters release directory names []) _ h₁ in
    subst (λ (q : List LcbTask × PrivateTestRepository). All (IsLoaded filters q.1) q.0)
      (ok-injective h₂)
      (All-map (IsUndropped filters last) (IsLoaded filters last)
        (λ task. IsUndropped-IsLoaded filters last task) _
        (All-sort_by _ (IsUndropped filters last) unsorted
          (load_files-IsRun texts filters release directory names [] loaded).1))

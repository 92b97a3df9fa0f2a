-- ===== src/Adapters/Mapper.antt =====
-- src/orchestra/adapters/livecodebench/mapper.py. The generator of Python's `random` and the digest of
-- the canonical JSON of a manifest are parameters. Reading and writing the file of a manifest is
-- left out.
pub mod Sample
use codename_madagascar.Prelude.Integers.{ℤ, pos, negsuc}
use codename_madagascar.Prelude.{
  ℕ, suc, ◌-◌, String, Bool, true, false, not, ◌&&◌, Option, none, some, List, [], ◌∷◌, ◌++◌, map,
  filter, take, length, to_set, contains, Dict, ltb, ◌==◌, nat_eq, string_eq, Result, ok, err,
  ◌>>=◌, ◌>>◌, raise_if, ◌≡◌, All, if◌then◌else◌,
}
use codename_madagascar.Exceptions.{Exception, value_error}
use codename_madagascar.Adapters.Tasks.{LcbTask}

pub record ManifestEntry : Type 0 where
  pub question_id : String
  pub title : String
  pub difficulty : String
  pub platform : String
  pub contest_date : String

pub record LcbManifest : Type 0 where
  pub release_version : String
  pub seed : ℤ
  pub entries : List ManifestEntry
  pub livecodebench_commit : String
  pub manifest_sha256 : Option String

-- `random.Random(seed)` and `shuffle`, which rearranges the items of a list.
pub record Random : Type 1 where
  pub State : Type 0
  pub seeded : ℤ → State
  pub shuffle : List LcbTask → State → List LcbTask × State
  pub length-shuffle : (xs : List LcbTask) (s : State) → length (shuffle xs s).0 ≡ length xs
  pub All-shuffle :
      (P : LcbTask → Type 0) (xs : List LcbTask) (s : State) → All P xs → All P (shuffle xs s).0

abbrev pub entry_of : LcbTask → ManifestEntry
entry_of task = record {
  question_id = task.question_id;
  title = task.problem.title;
  difficulty = task.problem.difficulty;
  platform = task.problem.platform;
  contest_date = task.problem.contest_date;
}

abbrev pub id_of : ManifestEntry → String
id_of entry = entry.question_id

-- `finalized`; the digest leaves the field `manifest_sha256` out.
abbrev pub finalized : (LcbManifest → String) → LcbManifest → LcbManifest
finalized digest manifest = record manifest {
  manifest_sha256 = some (digest (record manifest { manifest_sha256 = none }));
}

-- The list comprehension of one difficulty.
abbrev pub is_candidate : String → List String → LcbTask → Bool
is_candidate difficulty excluded item =
    item.problem.difficulty == difficulty && not (contains excluded item.question_id)

-- `items[:count]`
abbrev pub first_items : ℤ → List LcbTask → List LcbTask
first_items (pos n) items = take n items
first_items (negsuc n) items = take (length items - suc n) items

-- `size < count`
abbrev pub is_short : ℕ → ℤ → Bool
is_short size (pos n) = ltb size n
is_short size (negsuc n) = false

module _ (random : Random) (tasks : List LcbTask) (excluded : List String) where
  -- One pass of the loop over `counts.items()`.
  unfoldable pub pick : String → ℤ → random.State → Result Exception (List LcbTask × random.State)
  pick difficulty count state = do
    let candidates = filter (is_candidate difficulty excluded) tasks
    enough ← raise_if (is_short (length candidates) count) value_error
    let (shuffled, next) = random.shuffle candidates state
    ok (first_items count shuffled, next)

  unfoldable pub pick_all : Dict String ℤ → random.State → Result Exception (List LcbTask)
  pick_all [] state = ok []
  pick_all ((difficulty, count) ∷ counts) state = do
    (selected, next) ← pick difficulty count state
    rest ← pick_all counts next
    ok (selected ++ rest)

  unfoldable pub sample_manifest :
      (LcbManifest → String)
      → (release_version : String) → (seed : ℤ) → (counts : Dict String ℤ)
      → (livecodebench_commit : String) → Result Exception LcbManifest
  sample_manifest digest release seed counts commit = do
    selected ← pick_all counts (random.seeded seed)
    let entries = map entry_of selected
    distinct ← raise_if (not (length (to_set (map id_of entries)) == length entries)) value_error
    ok (
        finalized digest (record {
          release_version = release;
          seed = seed;
          entries = entries;
          livecodebench_commit = commit;
          manifest_sha256 = none;
        }))

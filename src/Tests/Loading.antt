-- ===== src/Tests/Loading.antt =====
-- The loader and the sample of a manifest at two rows.
use codename_madagascar.Prelude.Integers.{negsuc, pos}
use codename_madagascar.Prelude.Sorting.{sort_by}
use codename_madagascar.Prelude.Texts.{prefix, is_blank}
use codename_madagascar.Prelude.{
  ℕ, String, Option, none, some, List, [], ◌∷◌, Dict, lookup, insert, to_set, All, ◌==◌, string_eq,
  eq_iff, arith, Result, ok, err, if◌then◌else◌, ◌≡◌, refl,
}
use codename_madagascar.Exceptions.{Exception, value_error}
use codename_madagascar.Json.{Value, str, arr, obj, cons, nil, Fields, end, field, get_field}
use codename_madagascar.Adapters.Tasks.{LcbTask, PrivateTestRepository}
use codename_madagascar.Adapters.Loader.{Texts, Filters, parse_json_field, parse_private_tests}
use codename_madagascar.Adapters.Loader.Rows.{
  tests_of, public_of, function_name_of, starter_of, key_from, key_of, problem_from, problem_of,
  private_of, row_of,
}
use codename_madagascar.Adapters.Loader.Load.{load_row, load_line, load_lines, load_files, load}
use codename_madagascar.Adapters.Loader.Repository.Filtered.{IsLoaded, load-IsLoaded}
use codename_madagascar.Adapters.Loader.Isolation.{Agrees, load_lines-agrees}
use codename_madagascar.Adapters.Mapper.{Random, LcbManifest, pick, pick_all, sample_manifest}
use codename_madagascar.Cli.Prepare.Samples.{IsSample, prepare-IsSample}
use codename_madagascar.Cli.Prepare.{PrepareArgs, no_filters, prepare}

-- All that a load and a sample call.
program : Unit {0}
unfolding prefix is_blank sort_by lookup insert to_set get_field parse_json_field
    parse_private_tests tests_of public_of function_name_of starter_of key_from key_of problem_from
    problem_of private_of row_of load_row load_line load_lines load_files load pick pick_all
    sample_manifest
program = tt

abbrev test_case : String → Fields
test_case output = field "input" (str "1 2") (field "output" (str output) end)

abbrev row : String → String → Fields
row id output = field "question_id" (str id) (
    field "contest_date" (str "2024-05-01T00:00:00") (
      field "difficulty" (str "easy") (
        field "platform" (str "atcoder") (
          field "public_test_cases" (arr (cons (obj (test_case "3")) nil))
            (field "private_test_cases" (arr (cons (obj (test_case output)) nil)) end)))))

abbrev str_of : Value → String
str_of (str text) = text
str_of value = ""

abbrev loads : String → Option Value
loads line =
    if line == "row 1"
    then some (obj (row "q1" "5"))
    else if line == "row 2"
    then some (obj (row "q2" "7"))
    else some (obj (row "q1" "9"))

abbrev texts : Texts
texts = record {
  str_of = str_of;
  parse_datetime = λ text. some text;
  lower = λ text. text;
  loads = loads;
  unpack = λ text. err value_error;
}

abbrev filters : Filters
filters = record {
  start_date = "2024-01-01";
  end_date = "";
  difficulties = "easy" ∷ "medium" ∷ [];
  platforms = [];
  task_ids = "q1" ∷ [];
}

abbrev directory : Dict String (List String)
directory = ("test.jsonl", "row 1" ∷ " " ∷ "row 2" ∷ []) ∷ []

abbrev of_load :
    Result Exception (List LcbTask × PrivateTestRepository) → List LcbTask × PrivateTestRepository
of_load (ok r) = r
of_load (err e) = ([], [])

abbrev loaded : List LcbTask × PrivateTestRepository
loaded = of_load (load texts filters "release_v1" directory)

load-IsLoaded_example : All (IsLoaded filters loaded.1) loaded.0
unfolding program
load-IsLoaded_example = load-IsLoaded texts filters "release_v1" directory loaded.0 loaded.1 refl

abbrev of_lines : List String → List LcbTask × PrivateTestRepository
of_lines lines = of_load (load_lines texts filters "release_v1" lines [])

rows-Agrees : Agrees (row "q1" "5") (row "q1" "9")
unfolding get_field
rows-Agrees k other =
    ground (arith, other, eq_iff k "private_test_cases", eq_iff "private_test_cases" k)

-- The two lines differ in the output of their private test.
load_lines-agrees_example : (of_lines ("row 1" ∷ [])).0 ≡ (of_lines ("row 3" ∷ [])).0
unfolding program
load_lines-agrees_example =
    load_lines-agrees texts filters "release_v1" ("row 1" ∷ []) ("row 3" ∷ []) [] []
      (of_lines ("row 1" ∷ [])).0 (of_lines ("row 3" ∷ [])).0 (of_lines ("row 1" ∷ [])).1
      (of_lines ("row 3" ∷ [])).1
      ((refl, λ full. (row "q1" "5", row "q1" "9", refl, refl, rows-Agrees)), tt) refl refl

abbrev random : Random
random = record {
  State = ℕ;
  seeded = λ seed. 0;
  shuffle = λ xs state. (xs, state);
  length-shuffle = λ xs state. refl;
  All-shuffle = λ P xs state h. h;
}

abbrev no_manifest : LcbManifest
no_manifest = record {
  release_version = "";
  seed = pos 0;
  entries = [];
  livecodebench_commit = "";
  manifest_sha256 = none;
}

abbrev of_sample : Result Exception LcbManifest → LcbManifest
of_sample (ok m) = m
of_sample (err e) = no_manifest

abbrev prepare_args : PrepareArgs
prepare_args = record {
  release_version = "release_v1";
  num_easy = pos 1;
  num_medium = negsuc 0;
  num_hard = pos 0;
  seed = pos 7;
}

abbrev prepared : LcbManifest
prepared = of_sample (prepare texts random (λ m. "d0") directory prepare_args (some ("q2" ∷ [])) [])

prepare-IsSample_example :
    (tasks : List LcbTask) × (repository : PrivateTestRepository) × (load texts no_filters
        "release_v1" directory
      ≡ ok (tasks, repository))
    × IsSample prepare_args tasks (some ("q2" ∷ [])) [] prepared.entries
unfolding program prepare
prepare-IsSample_example =
    prepare-IsSample texts random (λ m. "d0") directory prepare_args (some ("q2" ∷ [])) [] prepared
      refl

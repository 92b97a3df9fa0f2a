-- ===== src/Adapters/Loader/Load.antt =====
-- src/orchestra/adapters/livecodebench/loader.py: LiveCodeBenchLoader.
use codename_madagascar.Prelude.Sorting.{sort_by}
use codename_madagascar.Prelude.Texts.{is_blank}
use codename_madagascar.Prelude.{
  String, Option, none, some, List, [], ◌∷◌, ◌++◌, map, Dict, lookup, string_eq, Result, ok, err,
  ◌>>=◌, or_raise, if◌then◌else◌,
}
use codename_madagascar.Exceptions.{Exception, value_error, type_error, file_not_found_error}
use codename_madagascar.Json.{Value, obj, Fields}
use codename_madagascar.Executors.Models.{AgentVisibleLcbTask}
use codename_madagascar.Adapters.Tasks.{
  LcbTask, HiddenLcbEvaluationRecord, PrivateTestRepository, add,
}
use codename_madagascar.Adapters.Loader.{Texts, Filters, release_files}
use codename_madagascar.Adapters.Loader.Rows.{key_of, is_dropped, row_of}

-- A row that is no object fails at `raw["question_id"]`.
abbrev pub as_row : Value → Result Exception Fields
as_row (obj fields) = ok fields
as_row value = err type_error

abbrev pub prepend : Option LcbTask → List LcbTask → List LcbTask
prepend none tasks = tasks
prepend (some task) tasks = task ∷ tasks

module _ (texts : Texts) where
  -- The body of the loop of `load`; no task where the row is dropped.
  unfoldable pub load_row :
      Filters
      → (release_version : String) → Fields
      → PrivateTestRepository
      → Result Exception (Option LcbTask × PrivateTestRepository)
  load_row filters release raw repository = do
    key ← key_of texts raw
    if is_dropped filters key
        then ok (none, repository)
        else do (task, hidden) ← row_of texts release key raw; ok (some task, add hidden repository)

  -- One line of a file, up to what the loop does with it.
  unfoldable pub load_line :
      Filters
      → (release_version : String) → String
      → PrivateTestRepository
      → Result Exception (Option LcbTask × PrivateTestRepository)
  load_line filters release line repository = if is_blank line then ok (none, repository) else do
    value ← or_raise (texts.loads line) value_error
    raw ← as_row value
    load_row filters release raw repository

  unfoldable pub load_lines :
      Filters
      → (release_version : String) → List String
      → PrivateTestRepository
      → Result Exception (List LcbTask × PrivateTestRepository)
  load_lines filters release [] repository = ok ([], repository)
  load_lines filters release (line ∷ lines) repository = do
    (task, next) ← load_line filters release line repository
    (tasks, last) ← load_lines filters release lines next
    ok (prepend task tasks, last)

  -- `iter_raw` and the loop of `load` over what it yields.
  unfoldable pub load_files :
      Filters
      → (release_version : String) → Dict String (List String)
      → List String
      → PrivateTestRepository
      → Result Exception (List LcbTask × PrivateTestRepository)
  load_files filters release directory [] repository = ok ([], repository)
  load_files filters release directory (name ∷ names) repository = do
    lines ← or_raise (lookup name directory) file_not_found_error
    (first, next) ← load_lines filters release lines repository
    (tasks, last) ← load_files filters release directory names next
    ok (first ++ tasks, last)

  -- LiveCodeBenchLoader(…).load(…): the sorted tasks, and the private repository.
  unfoldable pub load :
      Filters
      → (release_version : String) → Dict String (List String)
      → Result Exception (List LcbTask × PrivateTestRepository)
  load filters release directory = do
    names ← or_raise (lookup release release_files) value_error
    (tasks, repository) ← load_files filters release directory names []
    ok (sort_by (λ (task : LcbTask). task.question_id) tasks, repository)

  visible_from : LcbTask → String → AgentVisibleLcbTask
  visible_from task date = record {
    question_id = task.question_id;
    question_title = task.problem.title;
    question_content = task.problem.statement;
    platform = task.problem.platform;
    contest_date = date;
    starter_code = task.problem.starter_code;
    difficulty = task.problem.difficulty;
    public_test_cases = task.problem.public_examples;
    function_name = task.problem.function_name;
  }

  -- The first list comprehension, which fails on a date that pydantic refuses.
  visible_of : List LcbTask → Result Exception (List AgentVisibleLcbTask)
  unfolding visible_from
  visible_of [] = ok []
  visible_of (task ∷ tasks) = do
    date ← or_raise (texts.parse_datetime task.problem.contest_date) value_error
    rest ← visible_of tasks
    ok (visible_from task date ∷ rest)

  unfoldable pub load_visible :
      Filters
      → (release_version : String) → Dict String (List String)
      → Result Exception (List AgentVisibleLcbTask × List HiddenLcbEvaluationRecord)
  unfolding visible_of
  load_visible filters release directory = do
    (tasks, repository) ← load filters release directory
    visible ← visible_of tasks
    ok (
      visible,
      map
          (λ (task : LcbTask). record {
            question_id = task.question_id;
            private_test_cases_ref = task.question_id;
          })
          tasks,
    )

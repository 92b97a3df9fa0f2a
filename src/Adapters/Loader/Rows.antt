-- ===== src/Adapters/Loader/Rows.antt =====
-- src/orchestra/adapters/livecodebench/loader.py: what LiveCodeBenchLoader.load makes of one row.
-- Where a row has several faults, the model may name another one of them than the code.
use codename_madagascar.Prelude.Texts.{prefix}
use codename_madagascar.Prelude.Sorting.{str_ltb}
use codename_madagascar.Prelude.{
  String, Bool, ◌||◌, Option, none, some, List, [], ◌∷◌, ◌==◌, string_eq, Result, ok, err, ◌>>=◌,
  or_raise, if◌then◌else◌,
}
use codename_madagascar.Exceptions.{Exception, value_error, key_error, type_error}
use codename_madagascar.Json.{Value, null, str, arr, obj, Items, nil, cons, Fields, end, get_field}
use codename_madagascar.Executors.Models.{PublicExample, ProblemArtifact}
use codename_madagascar.Adapters.Tasks.{LcbTask, PrivateTestCase, PrivateTaskData}
use codename_madagascar.Adapters.Loader.{
  Texts, Filters, value_or, is_truthy, text_drops, set_drops, parse_json_field, parse_private_tests,
  text_of,
}

-- The parts of a row that the filters read.
pub record RowKey : Type 0 where
  pub question_id : String
  pub date : String
  pub difficulty : String
  pub platform : String

-- The five tests with `continue`.
abbrev pub is_dropped : Filters → RowKey → Bool
is_dropped filters key =
    text_drops filters.start_date (str_ltb key.date filters.start_date)
    || (text_drops filters.end_date (str_ltb filters.end_date key.date)
        || (set_drops filters.difficulties key.difficulty
            || (set_drops filters.platforms key.platform
                || set_drops filters.task_ids key.question_id)))

module _ (texts : Texts) where
  -- `{"input": …, "output": …, "testtype": …}` of one item.
  test_of : Fields → PrivateTestCase
  test_of item = record {
    input = text_of texts "input" "" item;
    output = text_of texts "output" "" item;
    testtype = text_of texts "testtype" "stdin" item;
  }

  tests_of_items : Items → Result Exception (List PrivateTestCase)
  tests_of_items nil = ok []
  tests_of_items (cons (obj item) items) = do
    tests ← tests_of_items items
    ok (test_of item ∷ tests)
  tests_of_items (cons value items) = err type_error

  -- The comprehension over the items of a list.
  unfoldable pub tests_of : Value → Result Exception (List PrivateTestCase)
  unfolding tests_of_items test_of
  tests_of (arr items) = tests_of_items items
  tests_of (obj end) = ok []
  tests_of (str text) = if text == "" then ok [] else err type_error
  tests_of value = err type_error

  -- The class of public examples has two types of tests.
  unfoldable pub public_of : List PrivateTestCase → Result Exception (List PublicExample)
  public_of [] = ok []
  public_of (test ∷ tests) = do
    examples ← public_of tests
    if test.testtype == "stdin" || test.testtype == "functional"
        then ok (
            record { input = test.input; output = test.output; testtype = test.testtype }
            ∷ examples)
        else err value_error

  -- `metadata.get("func_name")`, which the models take as a text or None.
  unfoldable pub function_name_of : Value → Result Exception (Option String)
  function_name_of (obj fields) = elim (get_field "func_name" fields) [
    | none ↦ ok none
    | some null ↦ ok none
    | some (str text) ↦ ok (some text)
    | some value ↦ err value_error
  ]
  function_name_of value = err type_error

  -- `str(raw.get("starter_code", "") or "")`
  unfoldable pub starter_of : Fields → String
  starter_of raw =
      let value = value_or (get_field "starter_code" raw) (str "") in
      if is_truthy value then texts.str_of value else ""

  unfoldable pub key_from :
      Option Value → (date difficulty platform : String) → Result Exception RowKey
  key_from question_id date difficulty platform = do
    qid ← or_raise question_id key_error
    ok (record {
      question_id = texts.str_of qid;
      date = prefix 10 date;
      difficulty = texts.lower difficulty;
      platform = texts.lower platform;
    })

  unfoldable pub key_of : Fields → Result Exception RowKey
  key_of raw =
      key_from (get_field "question_id" raw) (text_of texts "contest_date" "" raw)
        (text_of texts "difficulty" "" raw) (text_of texts "platform" "" raw)

  -- The public part of a row, from the fields that it is made of.
  unfoldable pub problem_from :
      RowKey
      → (metadata public_tests : Option Value) → (title statement starter contest_date : String)
      → Result Exception ProblemArtifact
  unfolding tests_of public_of function_name_of
  problem_from key metadata public_tests title statement starter contest_date = do
    fields ← parse_json_field texts metadata (obj end)
    public_raw ← parse_json_field texts public_tests (arr nil)
    items ← tests_of public_raw
    examples ← public_of items
    function_name ← function_name_of fields
    ok (record {
      question_id = key.question_id;
      title = title;
      statement = statement;
      starter_code = starter;
      difficulty = key.difficulty;
      platform = key.platform;
      contest_date = contest_date;
      public_examples = examples;
      function_name = function_name;
    })

  unfoldable pub problem_of : RowKey → Fields → Result Exception ProblemArtifact
  unfolding starter_of
  problem_of key raw =
      problem_from key (get_field "metadata" raw) (get_field "public_test_cases" raw)
        (text_of texts "question_title" "" raw) (text_of texts "question_content" "" raw)
        (starter_of raw) (text_of texts "contest_date" "" raw)

  unfoldable pub private_of : Fields → Result Exception (List PrivateTestCase)
  unfolding tests_of
  private_of raw = do
    value ← parse_private_tests texts (get_field "private_test_cases" raw)
    tests_of value

  -- The rest of the body of the loop: the task and the private data of the row.
  unfoldable pub row_of :
      (release_version : String) → RowKey → Fields → Result Exception (LcbTask × PrivateTaskData)
  row_of release_version key raw = do
    problem ← problem_of key raw
    tests ← private_of raw
    ok (
      record {
        question_id = key.question_id;
        release_version = release_version;
        problem = problem;
        contest_id = value_or (get_field "contest_id" raw) (str "");
      },
      record {
        question_id = key.question_id;
        private_tests = tests;
        public_tests = problem.public_examples;
        function_name = problem.function_name;
      },
    )

-- ===== src/Adapters/Loader.antt =====
-- src/orchestra/adapters/livecodebench/loader.py. The directory is a dictionary from file names to
-- lines. Of the library of Python, `str` of a value, `lower`, `json.loads`, pydantic's reading of a datetime (by its ISO text) and the unpacking of
-- private tests (base64, zlib, pickle) are parameters. Where the code would call a method that a
-- value lacks, the model raises TypeError. An exception leaves no repository to look at.
pub mod Rows
pub mod Load
pub mod Repository
pub mod Isolation
use Prim.Native.String
use codename_madagascar.Prelude.Sorting.{sort_by, str_ltb}
use codename_madagascar.Prelude.Texts.{prefix, is_blank}
use codename_madagascar.Prelude.{
  ℕ, zero, suc, String, Bool, true, false, not, ◌&&◌, ◌||◌, Option, none, some, List, [], ◌∷◌, map,
  take, Dict, lookup, contains, ◌==◌, string_eq, nat_eq, Result, ok, err, ◌>>=◌, or_raise,
  if◌then◌else◌,
}
use codename_madagascar.Prelude.Integers.{ℤ, is_zero}
use codename_madagascar.Exceptions.{
  Exception, value_error, key_error, type_error, file_not_found_error,
}
use codename_madagascar.Json.{
  Value, null, bool, num, str, arr, obj, Items, nil, cons, Fields, end, get_field,
}
use codename_madagascar.Executors.Models.{PublicExample, ProblemArtifact, AgentVisibleLcbTask}
use codename_madagascar.Adapters.Tasks.{
  LcbTask, PrivateTestCase, PrivateTaskData, HiddenLcbEvaluationRecord, PrivateTestRepository, add,
}

pub record Texts : Type 0 where
  pub str_of : Value → String
  pub lower : String → String
  pub parse_datetime : String → Option String
  pub loads : String → Option Value
  pub unpack : String → Result Exception Value

abbrev pub shards : List String
shards =
    "test.jsonl" ∷ "test2.jsonl" ∷ "test3.jsonl" ∷ "test4.jsonl" ∷ "test5.jsonl" ∷ "test6.jsonl"
    ∷ []

-- `RELEASE_FILES`
abbrev pub release_files : Dict String (List String)
release_files =
    ("release_v1", take 1 shards)
    ∷ ("release_v2", take 2 shards)
    ∷ ("release_v3", take 3 shards)
    ∷ ("release_v4", take 4 shards)
    ∷ ("release_v5", take 5 shards)
    ∷ ("release_v6", take 6 shards)
    ∷ []

-- The filters of `load`; an empty set or text filters nothing, as None does.
pub record Filters : Type 0 where
  pub start_date : String
  pub end_date : String
  pub difficulties : List String
  pub platforms : List String
  pub task_ids : List String

abbrev value_or : Option Value → Value → Value
value_or none default = default
value_or (some value) default = value

-- `bool(value)`
abbrev pub is_truthy : Value → Bool
is_truthy null = false
is_truthy (bool b) = b
is_truthy (num n d) = not (is_zero n)
is_truthy (str text) = not (text == "")
is_truthy (arr nil) = false
is_truthy (arr (cons x xs)) = true
is_truthy (obj end) = false
is_truthy (obj fields) = true

-- A filter that is given, against a test that drops the row.
abbrev pub text_drops : String → Bool → Bool
text_drops filter dropped = not (filter == "") && dropped

abbrev pub set_drops : List String → String → Bool
set_drops [] value = false
set_drops (x ∷ xs) value = not (contains (x ∷ xs) value)

module _ (texts : Texts) where
  -- `_parse_json_field`
  unfoldable pub parse_json_field : Option Value → Value → Result Exception Value
  parse_json_field none default = ok default
  parse_json_field (some null) default = ok default
  parse_json_field (some (str text)) default =
      if text == "" then ok default else or_raise (texts.loads text) value_error
  parse_json_field (some value) default = ok value

  -- The `except` clause of `_parse_private_tests`.
  unpack_tests : Option Value → Result Exception Value
  unpack_tests (some (str text)) = texts.unpack text >>= λ (decoded : Value). parse_decoded decoded
    where
      parse_decoded : Value → Result Exception Value
      parse_decoded (str inner) = or_raise (texts.loads inner) value_error
      parse_decoded value = ok value
  unpack_tests _ = err type_error

  -- `_parse_private_tests`
  unfoldable pub parse_private_tests : Option Value → Result Exception Value
  unfolding unpack_tests
  parse_private_tests value = elim (parse_json_field value (arr nil)) [
    | ok tests ↦ ok tests
    | err e ↦ unpack_tests value
  ]

  -- `str(raw.get(name, default))`
  abbrev pub text_of : String → String → Fields → String
  text_of name default raw = elim (get_field name raw) [
    | none ↦ default
    | some value ↦ texts.str_of value
  ]

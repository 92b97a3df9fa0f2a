-- ===== src/Adapters/Loader/Repository.antt =====
-- src/orchestra/adapters/livecodebench/loader.py: the tasks that load returns, and the private data
-- that it keeps of them.
pub mod Filtered
use codename_madagascar.Prelude.Sorting.{All-sort_by, str_ltb}
use codename_madagascar.Prelude.Texts.{prefix, is_blank}
use codename_madagascar.Prelude.{
  String, true, false, Option, none, some, List, [], ◌∷◌, Dict, lookup, lookup-insert, has_key,
  string_eq, eq_iff, ok, or_raise, ◌≡◌, refl, sym, ap, subst, ◌∙◌, >>=-eq-ok, ok-injective, All,
  All-map, All-append, Bool, contains, ◌||◌, ◌⊎◌, Bool-cases, inl, inr, arith,
}
use codename_madagascar.Exceptions.{value_error, key_error, file_not_found_error}
use codename_madagascar.Json.{Fields, get_field, obj, arr, end, nil}
use codename_madagascar.Executors.Models.{ProblemArtifact}
use codename_madagascar.Adapters.Tasks.{LcbTask, PrivateTaskData, PrivateTestRepository, add}
use codename_madagascar.Adapters.Loader.{
  Texts, Filters, text_drops, set_drops, release_files, parse_json_field, text_of,
}
use codename_madagascar.Adapters.Loader.Rows.{
  RowKey, key_of, key_from, is_dropped, problem_of, problem_from, private_of, row_of, tests_of,
  public_of, function_name_of,
}
use codename_madagascar.Adapters.Loader.Load.{
  prepend, load_row, load_line, load_lines, load_files, load, as_row,
}

-- What the filters read of a task.
abbrev pub task_key : LcbTask → RowKey
task_key task = record {
  question_id = task.question_id;
  date = prefix 10 task.problem.contest_date;
  difficulty = task.problem.difficulty;
  platform = task.problem.platform;
}

-- No filter drops the task, and its private data is in the repository.
abbrev IsUndropped : Filters → PrivateTestRepository → LcbTask → Type 0
IsUndropped filters repository task =
    (is_dropped filters (task_key task) ≡ false) × (has_key task.question_id repository ≡ true)

abbrev Grows : PrivateTestRepository → PrivateTestRepository → Type 0
Grows r s = (id : String) → has_key id r ≡ true → has_key id s ≡ true

add-Grows : (item : PrivateTaskData) (r : PrivateTestRepository) → Grows r (add item r)
add-Grows item r id h = ground (arith, lookup-insert item.question_id id item r)

has_key-add :
    (item : PrivateTaskData) (r : PrivateTestRepository)
    → has_key item.question_id (add item r) ≡ true
has_key-add item r = ground (
  arith,
  lookup-insert item.question_id item.question_id item r,
  eq_iff item.question_id item.question_id,
)

-- One step of the loop: the repository grows, and the task of the step is loaded.
abbrev IsStep : Filters → PrivateTestRepository → Option LcbTask × PrivateTestRepository → Type 0
IsStep filters r (task, s) = Grows r s × All (IsUndropped filters s) (prepend task [])

abbrev IsRun : Filters → PrivateTestRepository → List LcbTask × PrivateTestRepository → Type 0
IsRun filters r (tasks, s) = Grows r s × All (IsUndropped filters s) tasks

IsUndropped-later :
    (filters : Filters) (r s : PrivateTestRepository) (tasks : List LcbTask)
    → Grows r s
    → All (IsUndropped filters r) tasks
    → All (IsUndropped filters s) tasks
IsUndropped-later filters r s tasks grows loaded =
    All-map (IsUndropped filters r) (IsUndropped filters s)
      (λ task h. (h.0, grows task.question_id h.1)) tasks loaded

module _ (texts : Texts) (filters : Filters) (release : String) where
  problem_of-keeps :
      (key : RowKey) (raw : Fields) {problem : ProblemArtifact}
      → problem_of texts key raw ≡ ok problem
      → (problem.contest_date ≡ text_of texts "contest_date" "" raw)
        × (problem.difficulty ≡ key.difficulty)
        × (problem.platform ≡ key.platform)
  unfolding problem_of problem_from
  problem_of-keeps key raw h =
      let (fields, _, h₁) =
        >>=-eq-ok (parse_json_field texts (get_field "metadata" raw) (obj end)) _ h in
      let (public_raw, _, h₂) =
        >>=-eq-ok (parse_json_field texts (get_field "public_test_cases" raw) (arr nil)) _ h₁ in
      let (items, _, h₃) = >>=-eq-ok (tests_of texts public_raw) _ h₂ in
      let (examples, _, h₄) = >>=-eq-ok (public_of texts items) _ h₃ in
      let (name, _, h₅) = >>=-eq-ok (function_name_of texts fields) _ h₄ in
      subst
        (λ (p : ProblemArtifact).
          (p.contest_date ≡ text_of texts "contest_date" "" raw)
          × (p.difficulty ≡ key.difficulty)
          × (p.platform ≡ key.platform))
        (ok-injective h₅) (refl, refl, refl)

  key_of-date :
      (raw : Fields) {key : RowKey}
      → key_of texts raw ≡ ok key
      → key.date ≡ prefix 10 (text_of texts "contest_date" "" raw)
  unfolding key_of key_from
  key_of-date raw h =
      let (qid, _, h₁) = >>=-eq-ok (or_raise (get_field "question_id" raw) key_error) _ h in
      ap (λ (k : RowKey). k.date) (sym (ok-injective h₁))

  row_of-task_key :
      (key : RowKey) (raw : Fields) {task : LcbTask} {hidden : PrivateTaskData}
      → key_of texts raw ≡ ok key
      → row_of texts release key raw ≡ ok (task, hidden)
      → (task_key task ≡ key) × (hidden.question_id ≡ task.question_id)
  unfolding row_of
  row_of-task_key key raw k h =
      let (problem, made, h₁) = >>=-eq-ok (problem_of texts key raw) _ h in
      let (tests, _, h₂) = >>=-eq-ok (private_of texts raw) _ h₁ in
      let (dated, difficulty, platform) = problem_of-keeps key raw made in
      let date = key_of-date raw k in
      subst
        (λ (r : LcbTask × PrivateTaskData).
          (task_key r.0 ≡ key) × (r.1.question_id ≡ r.0.question_id))
        (ok-injective h₂) (cc (dated, date, difficulty, platform), refl)

  load_row-IsStep :
      (raw : Fields) (r : PrivateTestRepository) {out : Option LcbTask × PrivateTestRepository}
      → load_row texts filters release raw r ≡ ok out
      → IsStep filters r out
  unfolding load_row
  load_row-IsStep raw r h =
      let (key, found, h₁) = >>=-eq-ok (key_of texts raw) _ h in
      elim (Bool-cases (is_dropped filters key)) [
        | inl dropped ↦ subst (IsStep filters r) (ok-injective (rw dropped at h₁)) (λ id k. k, tt)
        | inr kept ↦
            let ((task, hidden), made, h₂) =
              >>=-eq-ok (row_of texts release key raw) _ (rw kept at h₁) in
            let (same, named) = row_of-task_key key raw found made in
            subst (IsStep filters r) (ok-injective h₂) (
              add-Grows hidden r,
              (
                (
                  ap (is_dropped filters) same ∙ kept,
                  ap (λ id. has_key id (add hidden r)) (sym named) ∙ has_key-add hidden r,
                ),
                tt,
              ),
            )
      ]

  load_line-IsStep :
      (line : String) (r : PrivateTestRepository) {out : Option LcbTask × PrivateTestRepository}
      → load_line texts filters release line r ≡ ok out
      → IsStep filters r out
  unfolding load_line
  load_line-IsStep line r h = elim (Bool-cases (is_blank line)) [
    | inl blank ↦ subst (IsStep filters r) (ok-injective (rw blank at h)) (λ id k. k, tt)
    | inr full ↦
        let (value, _, h₁) = >>=-eq-ok (or_raise (texts.loads line) value_error) _ (rw full at h) in
        let (raw, _, h₂) = >>=-eq-ok (as_row value) _ h₁ in load_row-IsStep raw r h₂
  ]

  load_lines-IsRun :
      (lines : List String) (r : PrivateTestRepository) {out : List LcbTask × PrivateTestRepository}
      → load_lines texts filters release lines r ≡ ok out
      → IsRun filters r out
  unfolding load_lines
  load_lines-IsRun [] r h = subst (IsRun filters r) (ok-injective h) (λ id k. k, tt)
  load_lines-IsRun (line ∷ lines) r h =
      let ((task, next), one, h₁) = >>=-eq-ok (load_line texts filters release line r) _ h in
      let ((tasks, last), more, h₂) =
        >>=-eq-ok (load_lines texts filters release lines next) _ h₁ in
      let (grows, first) = load_line-IsStep line r one in
      let (later, rest) = load_lines-IsRun lines next more in
      subst (IsRun filters r) (ok-injective h₂) (
        λ id k. later id (grows id k),
        prepended task tasks last (IsUndropped-later filters next last _ later first) rest,
      )
    where
      prepended :
          (task : Option LcbTask) (tasks : List LcbTask) (s : PrivateTestRepository)
          → All (IsUndropped filters s) (prepend task [])
          → All (IsUndropped filters s) tasks
          → All (IsUndropped filters s) (prepend task tasks)
      prepended none tasks s first rest = rest
      prepended (some task) tasks s first rest = (first.0, rest)

  load_files-IsRun :
      (directory : Dict String (List String)) (names : List String) (r : PrivateTestRepository)
      {out : List LcbTask × PrivateTestRepository}
      → load_files texts filters release directory names r ≡ ok out
      → IsRun filters r out
  unfolding load_files
  load_files-IsRun directory [] r h = subst (IsRun filters r) (ok-injective h) (λ id k. k, tt)
  load_files-IsRun directory (name ∷ names) r h =
      let (lines, _, h₁) = >>=-eq-ok (or_raise (lookup name directory) file_not_found_error) _ h in
      let ((first, next), one, h₂) = >>=-eq-ok (load_lines texts filters release lines r) _ h₁ in
      let ((tasks, last), more, h₃) =
        >>=-eq-ok (load_files texts filters release directory names next) _ h₂ in
      let (grows, some_loaded) = load_lines-IsRun lines r one in
      let (later, rest) = load_files-IsRun directory names next more in
      subst (IsRun filters r) (ok-injective h₃) (
        λ id k. later id (grows id k),
        All-append (IsUndropped filters last) first tasks
            (IsUndropped-later filters next last first later some_loaded) rest,
      )

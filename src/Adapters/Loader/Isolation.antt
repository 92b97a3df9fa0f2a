-- ===== src/Adapters/Loader/Isolation.antt =====
-- src/orchestra/adapters/livecodebench/loader.py: what a task can show of the private tests.
use codename_madagascar.Prelude.Texts.{is_blank}
use codename_madagascar.Prelude.{
  String, false, Option, none, some, List, [], ◌∷◌, ◌==◌, string_eq, ok, if◌then◌else◌, ◌≡◌, refl,
  sym, ap, ◌∙◌, >>=-eq-ok, ok-injective, Bool-cases, inl, inr,
}
use codename_madagascar.Json.{Fields, get_field, Value, obj, str}
use codename_madagascar.Adapters.Tasks.{LcbTask, PrivateTaskData, PrivateTestRepository}
use codename_madagascar.Adapters.Loader.{Texts, Filters, text_of, value_or, is_truthy}
use codename_madagascar.Adapters.Loader.Rows.{
  RowKey, key_of, is_dropped, problem_of, private_of, row_of, starter_of,
}
use codename_madagascar.Adapters.Loader.Load.{load_row, load_line, load_lines}

-- The rows have the same fields but for the private tests.
abbrev pub Agrees : Fields → Fields → Type 0
Agrees raw raw' =
    (k : String) → (k == "private_test_cases") ≡ false → get_field k raw ≡ get_field k raw'

module _ (texts : Texts) (filters : Filters) (release : String) where
  text_of-agrees :
      (name default : String) (raw raw' : Fields)
      → get_field name raw ≡ get_field name raw'
      → text_of texts name default raw ≡ text_of texts name default raw'
  text_of-agrees name default raw raw' e =
      ap (λ (o : Option Value). elim o [ none ↦ default | some value ↦ texts.str_of value ]) e

  starter_of-agrees :
      (raw raw' : Fields)
      → get_field "starter_code" raw ≡ get_field "starter_code" raw'
      → starter_of texts raw ≡ starter_of texts raw'
  unfolding starter_of
  starter_of-agrees raw raw' e =
      ap
        (λ (o : Option Value).
          let value = value_or o (str "") in if is_truthy value then texts.str_of value else "")
        e

  key_of-Agrees : (raw raw' : Fields) → Agrees raw raw' → key_of texts raw ≡ key_of texts raw'
  unfolding key_of
  key_of-Agrees raw raw' a = cc (
    a "question_id" refl,
    text_of-agrees "contest_date" "" raw raw' (a "contest_date" refl),
    text_of-agrees "difficulty" "" raw raw' (a "difficulty" refl),
    text_of-agrees "platform" "" raw raw' (a "platform" refl),
  )

  problem_of-Agrees :
      (key : RowKey) (raw raw' : Fields)
      → Agrees raw raw'
      → problem_of texts key raw ≡ problem_of texts key raw'
  unfolding problem_of
  problem_of-Agrees key raw raw' a = cc (
    a "metadata" refl,
    a "public_test_cases" refl,
    text_of-agrees "question_title" "" raw raw' (a "question_title" refl),
    text_of-agrees "question_content" "" raw raw' (a "question_content" refl),
    starter_of-agrees raw raw' (a "starter_code" refl),
    text_of-agrees "contest_date" "" raw raw' (a "contest_date" refl),
  )

  row_of-Agrees :
      (key : RowKey) (raw raw' : Fields) {r r' : LcbTask × PrivateTaskData}
      → Agrees raw raw'
      → row_of texts release key raw ≡ ok r
      → row_of texts release key raw' ≡ ok r'
      → r.0 ≡ r'.0
  unfolding row_of
  row_of-Agrees key raw raw' a h k =
      let (problem, made, h₁) = >>=-eq-ok (problem_of texts key raw) _ h in
      let (tests, _, h₂) = >>=-eq-ok (private_of texts raw) _ h₁ in
      let (problem', made', k₁) = >>=-eq-ok (problem_of texts key raw') _ k in
      let (tests', _, k₂) = >>=-eq-ok (private_of texts raw') _ k₁ in
      let same : problem ≡ problem' =
        ok-injective (sym made ∙ problem_of-Agrees key raw raw' a ∙ made') in
      let contest = a "contest_id" refl in
      ap (λ (q : LcbTask × PrivateTaskData). q.0) (sym (ok-injective h₂))
      ∙ cc (same, contest)
      ∙ ap (λ (q : LcbTask × PrivateTaskData). q.0) (ok-injective k₂)

  -- Rows that differ in their private tests only give the same task, or are both dropped.
  load_row-Agrees :
      (raw raw' : Fields) (r r' : PrivateTestRepository)
      {o o' : Option LcbTask × PrivateTestRepository}
      → Agrees raw raw'
      → load_row texts filters release raw r ≡ ok o
      → load_row texts filters release raw' r' ≡ ok o'
      → o.0 ≡ o'.0
  unfolding load_row
  load_row-Agrees raw raw' r r' a h k =
      let (key, found, h₁) = >>=-eq-ok (key_of texts raw) _ h in
      let k₁ = rw (sym (key_of-Agrees raw raw' a) ∙ found) at k in
      elim (Bool-cases (is_dropped filters key)) [
        | inl dropped ↦
            first_same (ok-injective (rw dropped at h₁)) (ok-injective (rw dropped at k₁)) refl
        | inr kept ↦
            let (row, made, h₂) = >>=-eq-ok (row_of texts release key raw) _ (rw kept at h₁) in
            let (row', made', k₂) = >>=-eq-ok (row_of texts release key raw') _ (rw kept at k₁) in
            first_same (ok-injective h₂) (ok-injective k₂)
              (ap some (row_of-Agrees key raw raw' a made made'))
      ]
    where
      first_same :
          {p p' q q' : Option LcbTask × PrivateTestRepository}
          → p ≡ q
          → p' ≡ q'
          → p.0 ≡ p'.0
          → q.0 ≡ q'.0
      first_same e e' same =
          ap (λ (x : Option LcbTask × PrivateTestRepository). x.0) (sym e)
          ∙ same
          ∙ ap (λ (x : Option LcbTask × PrivateTestRepository). x.0) e'

  -- Two lines that are both blank, or both hold rows that differ in their private tests only.
  abbrev pub SameLine : String → String → Type 0
  SameLine line line' =
      (is_blank line ≡ is_blank line')
      × (is_blank line ≡ false
          → (raw : Fields) × (raw' : Fields) × (texts.loads line ≡ some (obj raw))
            × (texts.loads line' ≡ some (obj raw'))
            × Agrees raw raw')

  abbrev pub SameLines : List String → List String → Type 0
  SameLines [] [] = Unit
  SameLines (line ∷ lines) (line' ∷ lines') = SameLine line line' × SameLines lines lines'
  SameLines _ _ = ⊥

  load_line-agrees :
      (line line' : String) (r r' : PrivateTestRepository)
      {o o' : Option LcbTask × PrivateTestRepository}
      → SameLine line line'
      → load_line texts filters release line r ≡ ok o
      → load_line texts filters release line' r' ≡ ok o'
      → o.0 ≡ o'.0
  unfolding load_line
  load_line-agrees line line' r r' same h k = elim (Bool-cases (is_blank line)) [
    | inl blank ↦
        let e = ok-injective (rw blank at h) in
        let e' = ok-injective (rw (sym same.0 ∙ blank) at k) in
        ap (λ (x : Option LcbTask × PrivateTestRepository). x.0) (sym e)
        ∙ ap (λ (x : Option LcbTask × PrivateTestRepository). x.0) e'
    | inr full ↦
        let (raw, raw', parsed, parsed', agrees) = same.1 full in
        load_row-Agrees raw raw' r r' agrees (rw (full, parsed) at h)
          (rw (sym same.0 ∙ full, parsed') at k)
  ]

  -- The tasks of two files whose rows differ in their private tests only are the same.
  pub load_lines-agrees :
      (lines lines' : List String) (r r' : PrivateTestRepository) (tasks tasks' : List LcbTask)
      (s s' : PrivateTestRepository)
      → SameLines lines lines'
      → load_lines texts filters release lines r ≡ ok (tasks, s)
      → load_lines texts filters release lines' r' ≡ ok (tasks', s')
      → tasks ≡ tasks'
  unfolding load_lines
  load_lines-agrees [] [] r r' tasks tasks' s s' same h k =
      ap (λ (x : List LcbTask × PrivateTestRepository). x.0) (sym (ok-injective h))
      ∙ ap (λ (x : List LcbTask × PrivateTestRepository). x.0) (ok-injective k)
  load_lines-agrees [] (line' ∷ lines') r r' tasks tasks' s s' same h k = absurd same
  load_lines-agrees (line ∷ lines) [] r r' tasks tasks' s s' same h k = absurd same
  load_lines-agrees (line ∷ lines) (line' ∷ lines') r r' tasks tasks' s s' same h k =
      let ((task, next), one, h₁) = >>=-eq-ok (load_line texts filters release line r) _ h in
      let ((more, last), rest, h₂) = >>=-eq-ok (load_lines texts filters release lines next) _ h₁ in
      let ((task', next'), one', k₁) = >>=-eq-ok (load_line texts filters release line' r') _ k in
      let ((more', last'), rest', k₂) =
        >>=-eq-ok (load_lines texts filters release lines' next') _ k₁ in
      let first = load_line-agrees line line' r r' same.0 one one' in
      let later =
        load_lines-agrees lines lines' next next' more more' last last' same.1 rest rest' in
      ap (λ (x : List LcbTask × PrivateTestRepository). x.0) (sym (ok-injective h₂))
      ∙ cc (first, later)
      ∙ ap (λ (x : List LcbTask × PrivateTestRepository). x.0) (ok-injective k₂)

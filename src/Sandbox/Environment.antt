-- ===== src/Sandbox/Environment.antt =====
-- The environment of a worker: `_sanitized_environment` of src/orchestra/sandbox/lcb_official.py, which
-- the parent passes on, and the redaction of src/orchestra/sandbox/lcb_worker.py. `upper` is Python's
-- method of str. The names of `os.environ` are its keys.
use codename_madagascar.Prelude.Sorting.{sort, count-sort}
use codename_madagascar.Prelude.Texts.{ends_with}
use codename_madagascar.Prelude.{
  String, Bool, ◌&&◌, ◌||◌, none, some, List, [], ◌∷◌, Dict, lookup, insert, insert_all, keys,
  has_key, has_key-keys, contains, contains_iff, any, ◌==◌, string_eq, eq_iff, if◌then◌else◌, ◌≡◌,
  refl, Bool-cases, Option-cases, IsDistinct, IsDistinct-of_to_set, to_set, ap, lookup-insert, ◌∙◌,
  inl, inr, arith,
}

abbrev pub sensitive_suffixes : List String
sensitive_suffixes = "_KEY" ∷ "_TOKEN" ∷ "_SECRET" ∷ "_PASSWORD" ∷ []

abbrev pub sensitive_exact_names : List String
sensitive_exact_names =
    "API_KEY" ∷ "SECRET" ∷ "PASSWORD" ∷ "TOKEN" ∷ "ACCESS_TOKEN" ∷ "REFRESH_TOKEN" ∷ []

-- `os.environ.pop(name, None)`
unfoldable pub pop : String → Dict String String → Dict String String
pop name [] = []
pop name ((key, value) ∷ d) =
    let rest = pop name d in if key == name then rest else (key, value) ∷ rest

lookup-pop :
    (name key : String) (d : Dict String String)
    → lookup key (pop name d) ≡ (if name == key then none else lookup key d)
unfolding lookup pop
lookup-pop name key [] = ground arith
lookup-pop name key ((k, v) ∷ d) =
    ground (arith, lookup-pop name key d, eq_iff k name, eq_iff k key, eq_iff name key)

abbrev pub allowed : List String
allowed = "PATH" ∷ "LANG" ∷ "LC_ALL" ∷ "PYTHONIOENCODING" ∷ []

abbrev pub fixed_variables : Dict String String
fixed_variables =
    ("PYTHONDONTWRITEBYTECODE", "1")
    ∷ ("OPENBLAS_NUM_THREADS", "1")
    ∷ ("OMP_NUM_THREADS", "1")
    ∷ ("MKL_NUM_THREADS", "1")
    ∷ ("NUMEXPR_NUM_THREADS", "1")
    ∷ []

-- The dict comprehension over `allowed`.
unfoldable pub pass_on : List String → Dict String String → Dict String String
pass_on [] environ = []
pass_on (name ∷ names) environ =
    let rest = pass_on names environ in
    elim (lookup name environ) [ none ↦ rest | some value ↦ (name, value) ∷ rest ]

-- `_sanitized_environment`
unfoldable pub sanitized_environment : Dict String String → Dict String String
sanitized_environment environ = insert_all fixed_variables (pass_on allowed environ)

lookup-pass_on :
    (name : String) (names : List String) (environ : Dict String String)
    → lookup name (pass_on names environ)
      ≡ (if contains names name then lookup name environ else none)
unfolding lookup pass_on
lookup-pass_on name [] environ = refl
lookup-pass_on name (key ∷ names) environ = elim (Option-cases (lookup key environ)) [
  | inl absent ↦ ground (arith, lookup-pass_on name names environ, eq_iff key name)
  | inr (value, found) ↦ ground (arith, lookup-pass_on name names environ, eq_iff key name)
]

lookup-insert_all :
    (name : String) (new old : Dict String String)
    → IsDistinct (keys new)
    → lookup name (insert_all new old)
      ≡ (if has_key name new then lookup name new else lookup name old)
unfolding lookup insert_all
lookup-insert_all name [] old h = refl
lookup-insert_all name ((key, value) ∷ new) old h = ground (
  arith,
  lookup-insert_all name new (insert key value old) (λ a. ground (arith, h a)),
  lookup-insert key name value old,
  has_key-keys name new,
  contains_iff name (keys new),
  h name,
  eq_iff key name,
)

-- A worker starts with the five fixed variables and with those of the four allowed ones that are
-- set, unchanged; no other variable of the parent reaches it.
pub sanitized_environment_lem :
    (environ : Dict String String) (name : String)
    → lookup name (sanitized_environment environ) ≡ (
        if has_key name fixed_variables
        then lookup name fixed_variables
        else if contains allowed name
        then lookup name environ
        else none)
unfolding sanitized_environment to_set
sanitized_environment_lem environ name =
    lookup-insert_all name fixed_variables (pass_on allowed environ)
      (IsDistinct-of_to_set (keys fixed_variables) refl)
    ∙ ap (λ passed. if has_key name fixed_variables then lookup name fixed_variables else passed)
        (lookup-pass_on name allowed environ)

module _ (upper : String → String) where
  unfoldable pub is_sensitive_environment_name : String → Bool
  is_sensitive_environment_name name =
      contains sensitive_exact_names (upper name) || any (ends_with (upper name)) sensitive_suffixes

  -- The loop over `list(os.environ)`.
  unfoldable pub redact_names : List String → Dict String String → List String × Dict String String
  redact_names [] environ = ([], environ)
  redact_names (name ∷ names) environ =
      let sensitive = is_sensitive_environment_name name in
      let (redacted, left) = redact_names names (if sensitive then pop name environ else environ) in
      (if sensitive then name ∷ redacted else redacted, left)

  unfoldable pub redact_environment : Dict String String → List String × Dict String String
  redact_environment environ =
      let (redacted, left) = redact_names (keys environ) environ in (sort redacted, left)

  lookup-redact_names :
      (key : String) (names : List String) (environ : Dict String String)
      → lookup key (redact_names names environ).1 ≡ (
          if contains names key && is_sensitive_environment_name key
          then none
          else lookup key environ)
  unfolding redact_names
  lookup-redact_names key [] environ = refl
  lookup-redact_names key (name ∷ names) environ =
      elim (Bool-cases (is_sensitive_environment_name name)) [
        | inl sensitive ↦ ground (
          arith,
          lookup-redact_names key names (pop name environ),
          lookup-pop name key environ,
          eq_iff name key,
        )
        | inr plain ↦ ground (arith, lookup-redact_names key names environ, eq_iff name key)
      ]

  contains-redact_names :
      (key : String) (names : List String) (environ : Dict String String)
      → contains (redact_names names environ).0 key
        ≡ (contains names key && is_sensitive_environment_name key)
  unfolding redact_names
  contains-redact_names key [] environ = refl
  contains-redact_names key (name ∷ names) environ =
      elim (Bool-cases (is_sensitive_environment_name name)) [
        | inl sensitive ↦
            ground (arith, contains-redact_names key names (pop name environ), eq_iff name key)
        | inr plain ↦ ground (arith, contains-redact_names key names environ, eq_iff name key)
      ]

  -- The worker keeps exactly the variables whose names are not sensitive, unchanged, and reports
  -- exactly the names that it removes.
  pub redact_environment_lem :
      (environ : Dict String String) (name : String)
      → (lookup name (redact_environment environ).1
          ≡ (if is_sensitive_environment_name name then none else lookup name environ))
        × (contains (redact_environment environ).0 name
            ≡ (has_key name environ && is_sensitive_environment_name name))
  unfolding redact_environment
  redact_environment_lem environ name = (
    ground (arith, lookup-redact_names name (keys environ) environ, has_key-keys name environ),
    ground (
      arith,
      contains-redact_names name (keys environ) environ,
      has_key-keys name environ,
      contains_iff name (redact_names (keys environ) environ).0,
      contains_iff name (sort (redact_names (keys environ) environ).0),
      count-sort name (redact_names (keys environ) environ).0,
    ),
  )

  -- Generated code runs with the fixed variables and with those of the allowed ones that are set,
  -- unchanged, less any whose name is sensitive; no other variable of the parent is there.
  pub worker_environment :
      (environ : Dict String String) (name : String)
      → lookup name (redact_environment (sanitized_environment environ)).1 ≡ (
          if is_sensitive_environment_name name
          then none
          else if has_key name fixed_variables
          then lookup name fixed_variables
          else if contains allowed name
          then lookup name environ
          else none)
  worker_environment environ name =
      (redact_environment_lem (sanitized_environment environ) name).0
      ∙ ap (λ found. if is_sensitive_environment_name name then none else found)
          (sanitized_environment_lem environ name)

-- ===== src/Cli/Settings.antt =====
-- src/orchestra/settings.py. Of Python's str, `strip` of blanks and of a quote, and `split("=", 1)`, are
-- parameters; the environment is a dictionary.
use codename_madagascar.Prelude.Texts.{starts_with, slice, text_length}
use codename_madagascar.Prelude.{
  String, Bool, true, false, ◌||◌, Option, none, some, List, [], ◌∷◌, Dict, lookup, insert,
  lookup-insert, has_key, ◌==◌, string_eq, eq_iff, if◌then◌else◌, ◌≡◌, arith,
}

pub record LineTexts : Type 0 where
  pub strip : String → String
  pub strip_quote : (quote text : String) → String
  -- `line.split("=", 1)`, or none where the line has no "="
  pub split_once : String → Option (String × String)

-- `os.environ.setdefault(key, value)`
unfoldable pub setdefault : String → String → Dict String String → Dict String String
setdefault key value environ = if has_key key environ then environ else insert key value environ

module _ (texts : LineTexts) where
  -- `line[7:]` after "export "
  abbrev pub without_export : String → String
  without_export line = if starts_with line "export " then slice 7 (text_length line) line else line

  abbrev pub assign : Option (String × String) → Dict String String → Dict String String
  assign none environ = environ
  assign (some (key, value)) environ =
      setdefault (texts.strip key)
        (texts.strip_quote "'" (texts.strip_quote "\"" (texts.strip value))) environ

  -- The body of the loop over the lines of the file.
  unfoldable pub load_line : String → Dict String String → Dict String String
  load_line raw environ =
      let line = texts.strip raw in
      if line == "" || starts_with line "#"
      then environ
      else assign (texts.split_once (without_export line)) environ

  unfoldable pub load_lines : List String → Dict String String → Dict String String
  load_lines [] environ = environ
  load_lines (line ∷ lines) environ = load_lines lines (load_line line environ)

  -- `os.environ.get("LCB_REPO_PATH", …)`
  abbrev pub repository_path : Dict String String → String
  repository_path environ = elim (lookup "LCB_REPO_PATH" environ) [
    | none ↦ "/root/projects/LiveCodeBench"
    | some path ↦ path
  ]

  abbrev pub set_defaults : Dict String String → Dict String String
  set_defaults environ =
      let with_models = setdefault "LCB_DATA_DIR" "/root/data/livecodebench/code_generation_lite" (
        setdefault "REPAIR_MODEL" "gpt-5-mini" (
          setdefault "CODER_MODEL" "gpt-5-mini"
            (setdefault "ANALYST_MODEL" "gpt-5-mini" environ))) in
      setdefault "LCB_REPOSITORY_PATH" (repository_path with_models) with_models

  -- `load_env_file`, on the lines of the file, none where there is no file.
  unfoldable pub load_env_file : List String → Dict String String → Dict String String
  load_env_file lines environ = set_defaults (load_lines lines environ)

abbrev Keeps : Dict String String → Dict String String → Type 0
Keeps old new = (key value : String) → lookup key old ≡ some value → lookup key new ≡ some value

setdefault-Keeps :
    (name text : String) (environ : Dict String String)
    → Keeps environ (setdefault name text environ)
unfolding setdefault
setdefault-Keeps name text environ key value h =
    ground (arith, h, lookup-insert name key text environ, eq_iff name key)

module _ (texts : LineTexts) where
  assign-Keeps :
      (found : Option (String × String)) (environ : Dict String String)
      → Keeps environ (assign texts found environ)
  assign-Keeps none environ key value h = h
  assign-Keeps (some (name, text)) environ key value h =
      setdefault-Keeps (texts.strip name)
        (texts.strip_quote "'" (texts.strip_quote "\"" (texts.strip text))) environ key value h

  load_line-Keeps :
      (raw : String) (environ : Dict String String) → Keeps environ (load_line texts raw environ)
  unfolding load_line
  load_line-Keeps raw environ key value h =
      at (texts.strip raw == "" || starts_with (texts.strip raw) "#")
    where
      at :
          (skipped : Bool)
          → lookup key (
              if skipped
              then environ
              else assign texts (texts.split_once (without_export texts (texts.strip raw))) environ)
            ≡ some value
      at true = h
      at false =
          assign-Keeps (texts.split_once (without_export texts (texts.strip raw))) environ key value
            h

  load_lines-Keeps :
      (lines : List String) (environ : Dict String String)
      → Keeps environ (load_lines texts lines environ)
  unfolding load_lines
  load_lines-Keeps [] environ key value h = h
  load_lines-Keeps (line ∷ lines) environ key value h =
      load_lines-Keeps lines (load_line texts line environ) key value
        (load_line-Keeps line environ key value h)

  -- A variable that is set keeps its value, whatever the file says.
  pub load_env_file-keeps :
      (lines : List String) (environ : Dict String String) (key value : String)
      → lookup key environ ≡ some value
      → lookup key (load_env_file texts lines environ) ≡ some value
  unfolding load_env_file
  load_env_file-keeps lines environ key value h =
      let e₁ = load_lines texts lines environ in
      let e₂ = setdefault "ANALYST_MODEL" "gpt-5-mini" e₁ in
      let e₃ = setdefault "CODER_MODEL" "gpt-5-mini" e₂ in
      let e₄ = setdefault "REPAIR_MODEL" "gpt-5-mini" e₃ in
      let e₅ = setdefault "LCB_DATA_DIR" "/root/data/livecodebench/code_generation_lite" e₄ in
      setdefault-Keeps "LCB_REPOSITORY_PATH" (repository_path texts e₅) e₅ key value (
        setdefault-Keeps "LCB_DATA_DIR" "/root/data/livecodebench/code_generation_lite" e₄ key value
          (setdefault-Keeps "REPAIR_MODEL" "gpt-5-mini" e₃ key value (
            setdefault-Keeps "CODER_MODEL" "gpt-5-mini" e₂ key value (
              setdefault-Keeps "ANALYST_MODEL" "gpt-5-mini" e₁ key value
                (load_lines-Keeps lines environ key value h)))))

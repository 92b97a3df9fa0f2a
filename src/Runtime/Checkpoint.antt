-- ===== src/Runtime/Checkpoint.antt =====
-- src/orchestra/runtime/checkpoint.py. The files are a dictionary from task identifiers to texts. The
-- JSON text of a state and its parsing, which pydantic gives, are part of the store.
use codename_madagascar.Prelude.{
  String, Bool, not, ◌&&◌, ◌||◌, Option, none, some, Dict, lookup, insert, ◌==◌, string_eq, Result,
  ok, err, if◌then◌else◌, lookup-insert_self, ◌>>=◌, ◌>>◌, raise_if, or_raise, ◌≡◌, refl, ◌∙◌,
  arith, >>=-eq-ok, ok-injective, or_raise-eq-ok,
}
use codename_madagascar.Exceptions.{Exception, value_error, checkpoint_drift_error}
use codename_madagascar.Runtime.State.{RuntimeState}

pub record Checkpoints : Type 0 where
  -- `model_dump_json` and `model_validate_json`
  pub dump : RuntimeState → String
  pub parse : String → Option RuntimeState
  pub files : Dict String String

unfoldable pub save : RuntimeState → Checkpoints → Checkpoints
save state checkpoints = record checkpoints {
  files = insert state.task_id (checkpoints.dump state) checkpoints.files;
}

has_drift : RuntimeState → String → String → Bool
has_drift state graph_hash contract_hash =
    not (state.graph_hash == graph_hash) || not (state.contract_hash == contract_hash)

check_drift : String → String → Bool → RuntimeState → Result Exception (Option RuntimeState)
unfolding has_drift
check_drift graph_hash contract_hash allow_config_drift state = do
  raise_if (has_drift state graph_hash contract_hash && not allow_config_drift)
      checkpoint_drift_error
  ok (some state)

-- The text of the file, where there is one, is parsed and compared.
load_text :
    (graph_hash contract_hash : String)
    → (allow_config_drift : Bool) → Checkpoints
    → Option String
    → Result Exception (Option RuntimeState)
unfolding check_drift
load_text graph_hash contract_hash allow_config_drift checkpoints none = ok none
load_text graph_hash contract_hash allow_config_drift checkpoints (some text) = do
  state ← or_raise (checkpoints.parse text) value_error
  check_drift graph_hash contract_hash allow_config_drift state

unfoldable pub load :
    String
    → (graph_hash contract_hash : String) → (allow_config_drift : Bool) → Checkpoints
    → Result Exception (Option RuntimeState)
unfolding load_text
load task_id graph_hash contract_hash allow_config_drift checkpoints =
    load_text graph_hash contract_hash allow_config_drift checkpoints
      (lookup task_id checkpoints.files)

-- The file of the task holds a text that parses to the state.
abbrev pub IsStored : String → RuntimeState → Checkpoints → Type 0
IsStored task state checkpoints =
    (text : String) × (lookup task checkpoints.files ≡ some text)
    × (checkpoints.parse text ≡ some state)

-- The file of its task holds the text of the state.
abbrev pub IsSaved : RuntimeState → Checkpoints → Type 0
IsSaved state checkpoints = lookup state.task_id checkpoints.files ≡ some (checkpoints.dump state)

load_text-IsStored :
    (graph_hash contract_hash : String) (allow : Bool) (checkpoints : Checkpoints)
    (found : Option String) {state : RuntimeState}
    → load_text graph_hash contract_hash allow checkpoints found ≡ ok (some state)
    → (text : String) × (found ≡ some text) × (checkpoints.parse text ≡ some state)
unfolding load_text
load_text-IsStored graph_hash contract_hash allow checkpoints none h = absurd (ground arith)
load_text-IsStored graph_hash contract_hash allow checkpoints (some text) h =
    let (state, parsed, h₁) = >>=-eq-ok (or_raise (checkpoints.parse text) value_error) _ h in
    let (u, _, h₂) =
      >>=-eq-ok
        (raise_if (has_drift state graph_hash contract_hash && not allow) checkpoint_drift_error) _
        h₁ in
    (text, refl, or_raise-eq-ok _ _ parsed ∙ ok-injective h₂)

-- What a load gives is stored as the checkpoint of the task.
pub load-IsStored :
    (task graph_hash contract_hash : String) (allow : Bool) (checkpoints : Checkpoints)
    {state : RuntimeState}
    → load task graph_hash contract_hash allow checkpoints ≡ ok (some state)
    → IsStored task state checkpoints
unfolding load
load-IsStored task graph_hash contract_hash allow checkpoints h =
    load_text-IsStored graph_hash contract_hash allow checkpoints (lookup task checkpoints.files) h

-- After a save, a load of that task gives the saved state back, or reports drift where a hash differs
-- and drift is not allowed, if parsing undoes dumping.
pub load-save :
    (state : RuntimeState) (graph_hash contract_hash : String) (allow : Bool)
    (checkpoints : Checkpoints)
    → checkpoints.parse (checkpoints.dump state) ≡ some state
    → load state.task_id graph_hash contract_hash allow (save state checkpoints) ≡ (
        if (state.graph_hash == graph_hash && state.contract_hash == contract_hash) || allow
        then ok (some state)
        else err checkpoint_drift_error)
unfolding load save
load-save state graph_hash contract_hash allow checkpoints round =
    ground
      (arith, lookup-insert_self state.task_id (checkpoints.dump state) checkpoints.files, round)

-- ===== src/Storage/Files.antt =====
-- src/orchestra/storage/artifacts.py: FileArtifactStore. The directory `tasks` is a dictionary from
-- (task, artifact) to the text of that file; identifiers hold no wildcard of `glob`.
pub mod Laws
use codename_madagascar.Prelude.{
  String, Bool, true, false, not, Option, none, some, List, [], ◌∷◌, Dict, lookup, insert, filter,
  map, ◌==◌, string_eq, pair_eq, Result, ok, err, ◌>>=◌, ◌>>◌, or_raise, if◌then◌else◌, values,
}
use codename_madagascar.Prelude.Sorting.{sort_by}
use codename_madagascar.Exceptions.{Exception, value_error, key_error, runtime_error}
use codename_madagascar.Ir.Artifacts.{ArtifactEnvelope, PayloadRules, validate_payload}

-- `model_dump_json(indent=2)` and `model_validate_json`
pub record Codec : Type 0 where
  pub encode : ArtifactEnvelope → String
  pub decode : String → Option ArtifactEnvelope

abbrev pub Files : Type 0
Files = Dict (String × String) String

-- The files `*/artifacts/{artifact_id}.json`.
unfoldable pub matches : String → Files → List String
matches artifact_id [] = []
matches artifact_id ((path, text) ∷ files) =
    let rest = matches artifact_id files in if path.1 == artifact_id then text ∷ rest else rest

-- The files of `{task_id}/artifacts`.
unfoldable pub files_of : String → Files → Files
files_of task_id [] = []
files_of task_id ((path, text) ∷ files) =
    let rest = files_of task_id files in if path.0 == task_id then (path, text) ∷ rest else rest

module _ (rules : PayloadRules) (codec : Codec) where
  -- What the rest of `put` does with the file that is there.
  write_once : ArtifactEnvelope → Option String → Files → Result Exception Files
  write_once artifact (some text) files =
      if text == codec.encode artifact then ok files else err runtime_error
  write_once artifact none files =
      ok (insert (artifact.task_id, artifact.artifact_id) (codec.encode artifact) files)

  unfoldable pub put : ArtifactEnvelope → Files → Result Exception Files
  unfolding write_once
  put artifact files = do
    parsed ← validate_payload rules artifact
    write_once artifact (lookup (artifact.task_id, artifact.artifact_id) files) files

  read_one : List String → Result Exception ArtifactEnvelope
  read_one (text ∷ []) = do
    artifact ← or_raise (codec.decode text) value_error
    parsed ← validate_payload rules artifact
    ok artifact
  read_one _ = err key_error

  unfoldable pub get : String → Files → Result Exception ArtifactEnvelope
  unfolding read_one
  get artifact_id files = read_one (matches artifact_id files)

  -- In the order of the file names; nothing is validated.
  decode_all : List String → Result Exception (List ArtifactEnvelope)
  decode_all [] = ok []
  decode_all (text ∷ texts) = do
    artifact ← or_raise (codec.decode text) value_error
    artifacts ← decode_all texts
    ok (artifact ∷ artifacts)

  unfoldable pub list_for_task : String → Files → Result Exception (List ArtifactEnvelope)
  unfolding decode_all
  list_for_task task_id files =
      decode_all (
        values (sort_by (λ (file : (String × String) × String). file.0.1) (files_of task_id files)))

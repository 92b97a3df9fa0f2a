-- ===== src/Ir/Artifacts.antt =====
-- src/orchestra/ir/artifacts.py. What pydantic, json and hashlib do enters as a parameter: parsing a
-- payload against a schema and dumping it again, and the digest of its canonical JSON text.
pub mod Validation
use Prim.Native.String.{◌++◌ as str_append}
use codename_madagascar.Prelude.{
  String, not, Option, List, Dict, has_key, lookup, is_some, ◌==◌, string_eq, ◌>>=◌, ◌>>◌, Result,
  ok, err, raise_if, or_raise,
}
use codename_madagascar.Exceptions.{Exception, value_error}
use codename_madagascar.Json.{Fields}
use codename_madagascar.Ir.Schemas.{payload_schemas}

pub record ArtifactEnvelope : Type 0 where
  pub artifact_id : String
  pub artifact_type : String
  pub schema_version : String
  pub producer_node_id : String
  pub task_id : String
  pub created_at : String
  pub payload : Fields
  pub parent_artifact_ids : List String
  pub content_hash : String

pub record PayloadRules : Type 0 where
  -- `PAYLOAD_SCHEMAS[name].model_validate(payload).model_dump(mode="json")`
  pub parse : String → Fields → Option Fields
  -- `hashlib.sha256(canonical.encode()).hexdigest()`
  pub digest : Fields → String

module _ (rules : PayloadRules) where
  unfoldable pub validate_payload : ArtifactEnvelope → Result Exception Fields
  validate_payload artifact = do
    raise_if (not (has_key artifact.artifact_type payload_schemas)) value_error
    parsed ← or_raise (rules.parse artifact.artifact_type artifact.payload) value_error
    raise_if (not (rules.digest parsed == artifact.content_hash)) value_error
    ok parsed

  -- The class of the payload and its dump, the twelve digits of a fresh UUID, and the time.
  unfoldable pub create_artifact :
      (artifact_type : String) (payload : Fields) (producer_node_id task_id : String)
      (parent_artifact_ids : List String) (uuid now : String)
      → ArtifactEnvelope
  create_artifact artifact_type payload producer_node_id task_id parents uuid now = record {
    artifact_id =
        str_append task_id (str_append "-" (str_append producer_node_id (str_append "-" uuid)));
    artifact_type = artifact_type;
    schema_version = "1.0";
    producer_node_id = producer_node_id;
    task_id = task_id;
    created_at = now;
    payload = payload;
    parent_artifact_ids = parents;
    content_hash = rules.digest payload;
  }

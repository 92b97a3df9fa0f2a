-- ===== src/Ir/Artifacts/Validation.antt =====
-- src/orchestra/ir/artifacts.py: `validate_payload` against `create_artifact`.
use codename_madagascar.Prelude.{
  String, true, some, List, has_key, ◌≡◌, string_eq, ok, arith, eq_iff,
}
use codename_madagascar.Json.{Fields}
use codename_madagascar.Ir.Schemas.{payload_schemas}
use codename_madagascar.Ir.Artifacts.{PayloadRules, validate_payload, create_artifact}

module _ (rules : PayloadRules) where
  -- An artifact that is created from a registered class validates, and its payload parses to
  -- itself, where dumping and parsing the payload gives it back.
  pub validate_payload-create_artifact :
      (artifact_type : String) (payload : Fields) (producer task : String) (parents : List String)
      (uuid now : String)
      → has_key artifact_type payload_schemas ≡ true
      → rules.parse artifact_type payload ≡ some payload
      → validate_payload rules
          (create_artifact rules artifact_type payload producer task parents uuid now)
        ≡ ok payload
  unfolding validate_payload create_artifact
  validate_payload-create_artifact artifact_type payload producer task parents uuid now known
        round =
      ground (arith, known, round, eq_iff (rules.digest payload) (rules.digest payload))

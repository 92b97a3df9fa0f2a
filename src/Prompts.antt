-- ===== src/Prompts.antt =====
-- src/orchestra/prompts/ and src/orchestra/harness/code_extract.py. The regular expression for blocks
-- of code, which both modules hold, is the parameter `code_blocks`; `strip`, `replace`, json and
-- pydantic are parameters.
pub mod Surroundings
use codename_madagascar.Prelude.Sorting.{sort_by}
use codename_madagascar.Prelude.Texts.{find, rfind, slice, starts_with, ends_with}
use codename_madagascar.Prelude.{
  ℕ, suc, String, Bool, true, false, not, ◌||◌, Option, none, some, List, [], ◌∷◌, Dict, has_key,
  lookup, leb, ◌==◌, string_eq, Result, ok, err, ◌>>=◌, ◌>>◌, raise_if, or_raise, if◌then◌else◌,
  ◌≡◌, ap, Bool-cases, inl, inr, ok-injective, arith,
}
use codename_madagascar.Exceptions.{Exception, value_error, key_error}
use codename_madagascar.Json.{Value, null, bool, num, str, arr, obj, Fields, end, field}
use codename_madagascar.Ir.Schemas.{payload_schemas}
use codename_madagascar.Ir.Artifacts.{ArtifactEnvelope}
use codename_madagascar.Ir.Contracts.{AgentContract}
use codename_madagascar.Executors.Models.{CodeArtifact}

pub record Texts : Type 0 where
  pub code_blocks : String → List String
  pub strip : String → String
  pub loads : String → Option Value
  pub dumps : Value → String
  -- `template.replace("{artifacts_json}", …)`
  pub fill : (template serialized : String) → String
  -- `PAYLOAD_SCHEMAS[name].model_validate`, with the dump of its result
  pub validate : (name : String) → Value → Option Fields
  pub dump_code : CodeArtifact → Fields

-- `blocks[-1]`
abbrev pub last_block : String → List String → String
last_block block [] = block
last_block block (next ∷ blocks) = last_block next blocks

module _ (texts : Texts) where
  abbrev pub code_from : List String → String → String
  code_from [] text = texts.strip text
  code_from (block ∷ blocks) text = texts.strip (last_block block blocks)

  abbrev pub code_payload : String → String → String × Fields
  code_payload code source_node = (
    "CodeArtifact",
    texts.dump_code (record { code = code; source_node = source_node; explanation = none }),
  )

  -- `text[start : end + 1]`, where there is a first brace and a last one after it.
  unfoldable pub json_part : Option ℕ → Option ℕ → String → Option String
  json_part (some start) (some last) text =
      if leb last start then none else some (slice start (suc last) text)
  json_part _ _ text = none

  -- The object that was found, by json and by its class.
  unfoldable pub parse_part : Option String → String → Result Exception (String × Fields)
  parse_part part output_schema = do
    text ← or_raise part value_error
    value ← or_raise (texts.loads text) value_error
    payload ← or_raise (texts.validate output_schema value) value_error
    ok (output_schema, payload)

  -- `parse_output`: the class of the result and its dump.
  unfoldable pub parse_output :
      (parser_id text output_schema source_node : String) → Result Exception (String × Fields)
  parse_output parser_id text output_schema source_node = do
    known ← raise_if (not (has_key output_schema payload_schemas)) key_error
    if parser_id == "python_code"
        then ok (code_payload (code_from (texts.code_blocks text) text) source_node)
        else parse_part (json_part (find "{" text) (rfind "}" text) text) output_schema

  abbrev pub is_malformed : String → Bool
  is_malformed stripped = starts_with stripped "```" || ends_with stripped "```"

  abbrev pub extract_from : List String → String → Result Exception String
  extract_from [] text =
      if is_malformed (texts.strip text) then err value_error else ok (texts.strip text)
  extract_from (block ∷ blocks) text = ok (texts.strip (last_block block blocks))

  -- `extract_code` of harness/code_extract.py
  unfoldable pub extract_code : String → Result Exception String
  extract_code text = extract_from (texts.code_blocks text) text

  -- The comprehension over `sorted(inputs.items())`.
  unfoldable pub slots_value : Dict String ArtifactEnvelope → Fields
  slots_value [] = end
  slots_value ((slot, artifact) ∷ inputs) =
      field slot
        (obj (
          field "artifact_type" (str artifact.artifact_type)
            (field "payload" (obj artifact.payload) end)))
        (slots_value inputs)

  -- `render_contract`: the roles and the contents of the two messages.
  unfoldable pub render_contract :
      AgentContract → Dict String ArtifactEnvelope → List (String × String)
  render_contract contract inputs =
      ("system", contract.system_prompt_template)
      ∷ (
        "user",
        texts.fill contract.user_prompt_template (
            texts.dumps
              (obj (slots_value (sort_by (λ (item : String × ArtifactEnvelope). item.0) inputs)))),
      )
      ∷ []

  extract_from-agrees :
      (blocks : List String) (text code : String)
      → extract_from blocks text ≡ ok code
      → code_from blocks text ≡ code
  extract_from-agrees [] text code h = elim (Bool-cases (is_malformed (texts.strip text))) [
    | inl bad ↦ absurd (ground arith)
    | inr good ↦ ok-injective (rw good at h)
  ]
  extract_from-agrees (block ∷ blocks) text code h = ok-injective h

  -- Where the harness extracts a code from an answer, the parser of code gives the same code, for
  -- any registered schema; the harness alone refuses an answer with a broken block.
  pub parse_output-extract_code :
      (text code output_schema source_node : String)
      → has_key output_schema payload_schemas ≡ true
      → extract_code text ≡ ok code
      → parse_output "python_code" text output_schema source_node
        ≡ ok (code_payload code source_node)
  unfolding parse_output extract_code
  parse_output-extract_code text code output_schema source_node known h = rw known (
      ap (λ c. ok (code_payload c source_node))
        (extract_from-agrees (texts.code_blocks text) text code h))

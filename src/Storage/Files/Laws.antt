-- ===== src/Storage/Files/Laws.antt =====
-- src/orchestra/storage/artifacts.py: the laws of FileArtifactStore.
use codename_madagascar.Prelude.{
  String, none, some, [], ◌∷◌, lookup, insert, lookup-insert_ne, lookup-insert_self, ◌==◌,
  string_eq, pair_eq, ok, err, if◌then◌else◌, ◌≡◌, ◌⊎◌, refl, arith, eq_iff, >>=-eq-ok, inl, inr,
  Option-cases,
}
use codename_madagascar.Exceptions.{runtime_error}
use codename_madagascar.Json.{Fields}
use codename_madagascar.Ir.Artifacts.{ArtifactEnvelope, PayloadRules, validate_payload}
use codename_madagascar.Storage.Interface.{ArtifactStore}
use codename_madagascar.Storage.Files.{Codec, Files, matches, write_once, put, get}

abbrev pub path : ArtifactEnvelope → String × String
path a = (a.task_id, a.artifact_id)

module _ (rules : PayloadRules) (codec : Codec) where
  abbrev pub IsFiled : ArtifactEnvelope → Files → Type 0
  IsFiled a files = lookup (path a) files ≡ some (codec.encode a)

  put-write_once :
      (a : ArtifactEnvelope) (files files' : Files)
      → put rules codec a files ≡ ok files'
      → (parsed : Fields) × (validate_payload rules a ≡ ok parsed)
        × (write_once rules codec a (lookup (path a) files) files ≡ ok files')
  unfolding put
  put-write_once a files files' h = >>=-eq-ok (validate_payload rules a) _ h

  -- The two ways in which `put` succeeds.
  put_cases :
      (a : ArtifactEnvelope) (files files' : Files)
      → put rules codec a files ≡ ok files'
      → (IsFiled a files × (files' ≡ files))
        ⊎ ((lookup (path a) files ≡ none) × (files' ≡ insert (path a) (codec.encode a) files))
  unfolding write_once
  put_cases a files files' h =
      let (_, _, w) = put-write_once a files files' h in
      elim (Option-cases (lookup (path a) files)) [
        | inl absent ↦ inr (absent, ground (arith, absent))
        | inr (text, present) ↦
            inl (ground (arith, present, eq_iff text (codec.encode a)), ground (arith, present))
      ]

  pub put-IsFiled :
      (a : ArtifactEnvelope) (files files' : Files)
      → put rules codec a files ≡ ok files'
      → IsFiled a files'
  put-IsFiled a files files' h = elim (put_cases a files files' h) [
    | inl (old, same) ↦ rw same old
    | inr (_, new) ↦ rw new (lookup-insert_self (path a) (codec.encode a) files)
  ]

  -- What a file holds never changes.
  pub lookup-put :
      (a : ArtifactEnvelope) (files files' : Files) (k : String × String) (text : String)
      → put rules codec a files ≡ ok files'
      → lookup k files ≡ some text
      → lookup k files' ≡ some text
  lookup-put a files files' k text h e = elim (put_cases a files files' h) [
    | inl (_, same) ↦ rw same e
    | inr (absent, new) ↦ rw new (lookup-insert_ne (path a) k (codec.encode a) text files absent e)
  ]

  matches-insert :
      (task id text : String) (files : Files)
      → matches id files ≡ []
      → matches id (insert (task, id) text files) ≡ text ∷ []
  unfolding matches insert
  matches-insert task id text [] h = ground (arith, eq_iff id id)
  matches-insert task id text ((k, old) ∷ files) h = ground (
    arith,
    matches-insert task id text files,
    eq_iff id id,
    pair_eq.beq_iff k (task, id),
    eq_iff k.1 id,
  )

  lookup-matches :
      (task id : String) (files : Files) → matches id files ≡ [] → lookup (task, id) files ≡ none
  unfolding matches lookup
  lookup-matches task id [] h = refl
  lookup-matches task id ((k, text) ∷ files) h = ground (arith, lookup-matches task id files)

  -- An artifact under an identifier that no file of the run has is read back as it was put.
  pub get-put :
      (a : ArtifactEnvelope) (files files' : Files)
      → codec.decode (codec.encode a) ≡ some a
      → matches a.artifact_id files ≡ []
      → put rules codec a files ≡ ok files'
      → get rules codec a.artifact_id files' ≡ ok a
  unfolding get
  get-put a files files' round fresh h = elim (put_cases a files files' h) [
    | inl (old, _) ↦ cc (lookup-matches a.task_id a.artifact_id files fresh, old)
    | inr (_, new) ↦
        let (parsed, valid, _) = put-write_once a files files' h in
        let found = matches-insert a.task_id a.artifact_id (codec.encode a) files fresh in
        ground (arith, found, valid, new, round)
  ]

  -- A second `put` of the same artifact changes nothing; of another with the same path, it fails.
  pub put-put :
      (a b : ArtifactEnvelope) (files files' : Files) (parsed : Fields)
      → path b ≡ path a
      → validate_payload rules b ≡ ok parsed
      → put rules codec a files ≡ ok files'
      → put rules codec b files'
        ≡ (if codec.encode a == codec.encode b then ok files' else err runtime_error)
  unfolding put write_once
  put-put a b files files' parsed same valid h =
      let filed : lookup (path b) files' ≡ some (codec.encode a) =
        rw same (put-IsFiled a files files' h) in
      ground (arith, valid, filed)

-- FileArtifactStore keeps the contract of ArtifactStore.
abbrev pub file_store : PayloadRules → Codec → ArtifactStore
file_store rules codec = record {
  State = Files;
  put = put rules codec;
  get = get rules codec;
  Stored = IsFiled rules codec;
  put_stored = put-IsFiled rules codec;
  put_keeps = λ a b files files' h old.
      lookup-put rules codec a files files' (path b) (codec.encode b) h old;
}

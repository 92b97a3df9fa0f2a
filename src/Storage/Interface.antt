-- ===== src/Storage/Interface.antt =====
-- src/orchestra/storage/artifacts.py: the abstract class ArtifactStore, with what its clients rely
-- on. Storage/Files/Laws fills it for FileArtifactStore.
use codename_madagascar.Prelude.{String, ◌≡◌, Result, ok}
use codename_madagascar.Exceptions.{Exception}
use codename_madagascar.Ir.Artifacts.{ArtifactEnvelope}

pub record ArtifactStore : Type 1 where
  pub State : Type 0
  pub put : ArtifactEnvelope → State → Result Exception State
  pub get : String → State → Result Exception ArtifactEnvelope
  -- The artifact lies in the store, as it was put.
  pub Stored : ArtifactEnvelope → State → Type 0
  pub put_stored : (a : ArtifactEnvelope) (s t : State) → put a s ≡ ok t → Stored a t
  pub put_keeps : (a b : ArtifactEnvelope) (s t : State) → put a s ≡ ok t → Stored b s → Stored b t

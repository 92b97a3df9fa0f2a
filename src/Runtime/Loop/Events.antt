-- ===== src/Runtime/Loop/Events.antt =====
-- src/orchestra/runtime/native_async.py: the events of a round.
use codename_madagascar.Prelude.{
  ℕ, String, Option, none, some, List, [], ◌∷◌, ◌++◌, map, values, concat, string_eq, if◌then◌else◌,
}
use codename_madagascar.Ir.Artifacts.{ArtifactEnvelope}
use codename_madagascar.Runtime.State.{NodeExecutionResult}
use codename_madagascar.Runtime.Committer.{Commit}

pub data EventType : Type 0 where
  node_skipped wave_started node_ready node_started node_completed node_failed artifact_committed
        edge_activated edge_disabled wave_committed checkpoint_saved final_output_frozen :
      EventType

pub record Event : Type 0 where
  pub event_type : EventType
  pub wave_id : Option ℕ
  pub node_id : Option String
  pub artifact_ids : List String
  -- "ready_nodes" or "edge_id" of the metadata
  pub about : List String

abbrev pub event : EventType → ℕ → Option String → List String → List String → Event
event type wave node artifacts about = record {
  event_type = type;
  wave_id = some wave;
  node_id = node;
  artifact_ids = artifacts;
  about = about;
}

abbrev artifact_id_of : ArtifactEnvelope → String
artifact_id_of artifact = artifact.artifact_id

-- The events of one result, then one for each of its artifacts.
result_events : ℕ → NodeExecutionResult → List Event
result_events wave result =
    event (if result.success then node_completed else node_failed) wave (some result.node_id)
      (map artifact_id_of (values result.outputs)) []
    ∷ map
        (λ (a : ArtifactEnvelope).
          event artifact_committed wave (some result.node_id) (a.artifact_id ∷ []) [])
        (values result.outputs)

-- All events after a wave is committed, in order.
unfoldable pub wave_events : ℕ → List NodeExecutionResult → Commit → List Event
unfolding result_events
wave_events wave results c =
    concat (map (result_events wave) results)
    ++ (map (λ (id : String). event edge_activated wave none [] (id ∷ [])) c.activated
        ++ (map (λ (id : String). event edge_disabled wave none [] (id ∷ [])) c.disabled
            ++ (event wave_committed wave none c.committed []
                ∷ event checkpoint_saved wave none [] []
                ∷ [])))

-- ===== src/Runtime/Committer/Persist.antt =====
-- src/orchestra/runtime/committer.py: the artifacts that a commit puts into the store.
use codename_madagascar.Prelude.{
  List, [], ◌∷◌, values, Result, ok, ◌≡◌, All, All-map, >>=-eq-ok, ok-injective, if◌then◌else◌,
  subst, ap,
}
use codename_madagascar.Exceptions.{Exception}
use codename_madagascar.Ir.Artifacts.{ArtifactEnvelope}
use codename_madagascar.Ir.Graph.{OrchestraGraph}
use codename_madagascar.Storage.Interface.{ArtifactStore}
use codename_madagascar.Runtime.State.{RuntimeState, NodeExecutionResult}
use codename_madagascar.Runtime.Scheduler.{impossible_nodes}
use codename_madagascar.Runtime.Committer.{
  Commit, persist_outputs, persist_results, commit_wave, commit_results,
}

-- The outputs of a result that has succeeded.
abbrev pub outputs_of : NodeExecutionResult → List ArtifactEnvelope
outputs_of result = if result.success then values result.outputs else []

module _ (store : ArtifactStore) (validate : ArtifactEnvelope → Result Exception (Unit {0})) where
  -- Every stored artifact stays.
  abbrev pub Keeps : store.State → store.State → Type 0
  Keeps s t = (a : ArtifactEnvelope) → store.Stored a s → store.Stored a t

  persist_outputs-Stored :
      (artifacts : List ArtifactEnvelope) (s : store.State) {t : store.State}
      → persist_outputs store validate artifacts s ≡ ok t
      → Keeps s t
        × All (λ (a : ArtifactEnvelope). store.Stored a t × (validate a ≡ ok tt)) artifacts
  unfolding persist_outputs
  persist_outputs-Stored [] s {t} h = (λ a old. subst (store.Stored a) (ok-injective h) old, tt)
  persist_outputs-Stored (a ∷ artifacts) s {t} h =
      let (_, valid, h₁) = >>=-eq-ok (validate a) _ h in
      let (next, done, h₂) = >>=-eq-ok (store.put a s) _ h₁ in
      let (keeps, stored) = persist_outputs-Stored artifacts next h₂ in
      (
        λ b old. keeps b (store.put_keeps a b s next done old),
        ((keeps a (store.put_stored a s next done), valid), stored),
      )

  abbrev pub AllStored : store.State → List NodeExecutionResult → Type 0
  AllStored t results =
      All
        (λ (r : NodeExecutionResult).
          All (λ (a : ArtifactEnvelope). store.Stored a t × (validate a ≡ ok tt)) (outputs_of r))
        results

  persist_results-Stored :
      (results : List NodeExecutionResult) (s : store.State) {t : store.State}
      → persist_results store validate results s ≡ ok t
      → Keeps s t × AllStored t results
  unfolding persist_results
  persist_results-Stored [] s {t} h = (λ a old. subst (store.Stored a) (ok-injective h) old, tt)
  persist_results-Stored (result ∷ results) s {t} h =
      let (next, done, h₁) = >>=-eq-ok (persist_outputs store validate (outputs_of result) s) _ h in
      let (first_keeps, first) = persist_outputs-Stored (outputs_of result) s done in
      let (keeps, rest) = persist_results-Stored results next h₁ in
      (
        λ b old. keeps b (first_keeps b old),
        (
          All-map _ _
              (λ a (both : store.Stored a next × (validate a ≡ ok tt)). (keeps a both.0, both.1))
              (outputs_of result) first,
          rest,
        ),
      )

  -- When a wave is committed, every output of every succeeded result is validated and stored, and
  -- what was stored before still is.
  pub commit_wave-Stored :
      (graph : OrchestraGraph) (state : RuntimeState) (results : List NodeExecutionResult)
      (s t : store.State) (c : Commit)
      → commit_wave store validate graph state results s ≡ ok (c, t)
      → Keeps s t × AllStored t results
  unfolding commit_wave
  commit_wave-Stored graph state results s t c h =
      let (t', persisted, h₁) = >>=-eq-ok (persist_results store validate results s) _ h in
      let (c', _, h₂) = >>=-eq-ok (commit_results graph _ _) _ h₁ in
      let (impossible, _, h₃) = >>=-eq-ok (impossible_nodes graph c'.state) _ h₂ in
      subst (λ (u : store.State). Keeps s u × AllStored u results)
        (ap (λ (p : Commit × store.State). p.1) (ok-injective h₃))
        (persist_results-Stored results s persisted)

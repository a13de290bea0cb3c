-- ===== src/Artifacts/Watcher.antt =====
-- services/api/artifacts/watcher.py: the registration of outputs of trusted executions. The new
-- identifiers that `IdFactory` yields are arguments. An error of the watcher is always the code
-- `watcher_reference_invalid`.
pub mod Registration
use nipo_science.Artifacts.Models.{
  ArtifactErrorCode, ArtifactScope, ArtifactVersion, PendingArtifactCommit, VersionDraft,
  WatcherClaim, WatcherOutput, draft_eq, optional_uuid_eq, optional_version_eq, output_eq,
  reconciliation_eq, scope_eq, version_eq, watcher_reference_invalid,
}
use nipo_science.Artifacts.Recovery.{
  Recovery, claim_output, claim_pending, finalize_claim, register_output, release_claim,
  resolve_output,
}
use nipo_science.Artifacts.Store.{Platform, require_some, version}
use nipo_science.Prelude.{
  Bool, Bytes, Dict, Eq, List, Option, Result, Text, Uuid, [], codes, err, false, get,
  if◌then◌else◌, length, ltb, mem, nat_eq, none, not, ok, some, text_eq, true, uuid_pair_eq,
  uuid_triple_eq, ℕ, ℕ_discrete, ◌++◌, ◌||◌, ◌∷◌,
}

-- models.py: 50 * 1024 * 1024
abbrev pub max_artifact_output_bytes : ℕ
max_artifact_output_bytes = 52428800

abbrev pub safe_artifact_media_types : List Text
safe_artifact_media_types =
    codes "application/json"
    ∷ codes "application/octet-stream"
    ∷ codes "application/pdf"
    ∷ codes "application/vnd.openxmlformats-officedocument.spreadsheetml.sheet"
    ∷ codes "image/jpeg"
    ∷ codes "image/png"
    ∷ codes "image/tiff"
    ∷ codes "text/csv"
    ∷ codes "text/markdown"
    ∷ codes "text/plain"
    ∷ codes "text/tab-separated-values"
    ∷ []

abbrev pub ExecutionKey : Type 0
ExecutionKey = Uuid × Uuid × Uuid × Uuid

unfoldable pub ExecutionKey-discrete : Discrete ExecutionKey
ExecutionKey-discrete = hlevel ℕ_discrete

instance abbrev pub execution_key_eq : Eq ExecutionKey
execution_key_eq = record { decide = ExecutionKey-discrete }

-- The adapter and the connection that an execution runs on.
pub record Binding : Type 0 where
  pub runtime_adapter_id : Text
  pub runtime_connection_id : Uuid

abbrev pub Executions : Type 0
Executions = Dict ExecutionKey Binding

abbrev pub execution_key : ArtifactScope → Uuid → ExecutionKey
execution_key scope execution_id =
    (scope.org_id, scope.project_id, scope.requester_id, execution_id)

-- `f"watcher/{uuid}"`
unfoldable pub reference_text : Platform → Uuid → Text
reference_text platform id = codes "watcher/" ++ platform.uuid_text id

abbrev pub output_of :
    Platform → ArtifactScope → Uuid → Bytes → Text → Uuid → Binding → WatcherOutput
output_of platform scope execution_id payload media_type id binding = record {
  reference = reference_text platform id;
  org_id = scope.org_id;
  project_id = scope.project_id;
  requester_id = scope.requester_id;
  execution_id = execution_id;
  runtime_adapter_id = binding.runtime_adapter_id;
  runtime_connection_id = binding.runtime_connection_id;
  payload = payload;
  content_sha256 = platform.sha256 payload;
  media_type = media_type;
}

-- `if not (accepted): raise`, on a call of the recovery authority.
abbrev pub accepted {ℓ} : {A : Type ℓ} → A → Bool × Recovery → Result ArtifactErrorCode A × Recovery
accepted a (true, r) = (ok a, r)
accepted a (false, r) = (err watcher_reference_invalid, r)

abbrev pub found {ℓ} : {A : Type ℓ} → Option A × Recovery → Result ArtifactErrorCode A × Recovery
found (some a, r) = (ok a, r)
found (none, r) = (err watcher_reference_invalid, r)

unfoldable pub register :
    Platform
    → Executions
    → ArtifactScope
    → Uuid
    → Bytes
    → Text
    → Uuid
    → Recovery
    → Result ArtifactErrorCode Text × Recovery
register platform executions scope execution_id payload media_type id r =
    elim (get (execution_key scope execution_id) executions) [
      | none ↦ (err watcher_reference_invalid, r)
      | some binding ↦
          if not (mem media_type safe_artifact_media_types)
            || ltb max_artifact_output_bytes (length payload)
          then (err watcher_reference_invalid, r)
          else accepted (reference_text platform id) (
              register_output (output_of platform scope execution_id payload media_type id binding)
                r)
    ]

unfoldable pub resolve :
    Platform → ArtifactScope → Uuid → Text → Recovery → Result ArtifactErrorCode WatcherOutput
resolve platform scope execution_id reference r =
    require_some (resolve_output platform.sha256 scope execution_id reference r)
      watcher_reference_invalid

unfoldable pub claim :
    Platform
    → ArtifactScope
    → Uuid
    → Text
    → Uuid
    → Recovery
    → Result ArtifactErrorCode WatcherClaim × Recovery
claim platform scope execution_id reference token r =
    found (claim_output platform.sha256 scope execution_id reference token r)

abbrev pub intent_of :
    ArtifactScope → VersionDraft → ArtifactVersion → WatcherOutput → Uuid → PendingArtifactCommit
intent_of scope draft version output token = record {
  scope = scope;
  draft = draft;
  claim = record { reference = draft.watcher_reference; token = token; output = output };
  version = version;
}

unfoldable pub prepare_commit :
    Platform
    → ArtifactScope
    → VersionDraft
    → ArtifactVersion
    → WatcherOutput
    → Uuid
    → Recovery
    → Result ArtifactErrorCode PendingArtifactCommit × Recovery
prepare_commit platform scope draft version output token r =
    let intent = intent_of scope draft version output token in
    accepted intent (claim_pending platform.sha256 scope draft.producing_execution_id intent r)

unfoldable pub release : WatcherClaim → Recovery → Result ArtifactErrorCode (Unit {0}) × Recovery
release held r = accepted tt (release_claim held r)

unfoldable pub finalize : WatcherClaim → Recovery → Result ArtifactErrorCode (Unit {0}) × Recovery
finalize held r = accepted tt (finalize_claim held r)

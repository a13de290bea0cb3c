-- ===== src/Artifacts/Models.antt =====
-- services/api/artifacts/models.py, store_contract.py and recovery.py: the records, the stable error
-- codes and the outcomes of the stores. Bytes are numbers; the names of fields are the source's.
use nipo_science.Prelude.{Bytes, Eq, List, Option, Sha256, Text, Timestamp, Uuid, ℕ, ℕ_discrete}

pub record ArtifactScope : Type 0 where
  pub org_id : Uuid
  pub project_id : Uuid
  pub requester_id : Uuid

pub record VersionDraft : Type 0 where
  pub artifact_id : Uuid
  pub base_version_no : ℕ
  pub watcher_reference : Text
  pub producing_execution_id : Uuid
  pub environment_sha256 : Sha256
  pub code_sha256 : Sha256
  pub runtime_adapter_id : Text
  pub runtime_connection_id : Uuid
  pub skill_content_hashes : List Sha256
  pub source_hashes : List Sha256
  pub input_version_ids : List Uuid

pub data ArtifactErrorCode : Type 0 where
  not_found project_archived stale_base invalid_lineage : ArtifactErrorCode
  watcher_reference_invalid association_exists checksum_mismatch : ArtifactErrorCode
  download_ttl_invalid download_invalid download_expired : ArtifactErrorCode

pub record ArtifactRecord : Type 0 where
  pub id : Uuid
  pub org_id : Uuid
  pub project_id : Uuid
  pub name : Text
  pub created_at : Timestamp

pub record ArtifactVersion : Type 0 where
  pub id : Uuid
  pub org_id : Uuid
  pub project_id : Uuid
  pub artifact_id : Uuid
  pub version_no : ℕ
  pub object_key : Text
  pub content_sha256 : Sha256
  pub size_bytes : ℕ
  pub media_type : Text
  pub producing_execution_id : Uuid
  pub environment_sha256 : Sha256
  pub code_sha256 : Sha256
  pub runtime_adapter_id : Text
  pub runtime_connection_id : Uuid
  pub skill_content_hashes : List Sha256
  pub source_hashes : List Sha256
  pub input_version_ids : List Uuid
  pub created_at : Timestamp

pub record SessionArtifactLink : Type 0 where
  pub org_id : Uuid
  pub project_id : Uuid
  pub session_id : Uuid
  pub artifact_version_id : Uuid
  pub revision : ℕ
  pub created_at : Timestamp

pub record WatcherOutput : Type 0 where
  pub reference : Text
  pub org_id : Uuid
  pub project_id : Uuid
  pub requester_id : Uuid
  pub execution_id : Uuid
  pub runtime_adapter_id : Text
  pub runtime_connection_id : Uuid
  pub payload : Bytes
  pub content_sha256 : Sha256
  pub media_type : Text

pub record WatcherClaim : Type 0 where
  pub reference : Text
  pub token : Uuid
  pub output : WatcherOutput

-- recovery.py
pub record PendingArtifactCommit : Type 0 where
  pub scope : ArtifactScope
  pub draft : VersionDraft
  pub claim : WatcherClaim
  pub version : ArtifactVersion

pub record CompletedArtifactCommit : Type 0 where
  pub scope : ArtifactScope
  pub draft : VersionDraft
  pub version : ArtifactVersion

pub data ArtifactReconciliation : Type 0 where
  pending : PendingArtifactCommit → ArtifactReconciliation
  completed : CompletedArtifactCommit → ArtifactReconciliation

-- store_contract.py
pub data StoreOutcome : Type 0 where
  created not_found archived stale invalid_lineage association_exists : StoreOutcome

-- What a store call may raise: `BlobIntegrityError`, `ArtifactCommitError`, another
-- `ArtifactStoreError`, or the `KeyError` of a dict.
pub data StoreFailure : Type 0 where
  blob_integrity commit_unknown unavailable missing_key : StoreFailure

unfoldable pub ArtifactScope-discrete : Discrete ArtifactScope
ArtifactScope-discrete = hlevel ℕ_discrete

instance abbrev pub scope_eq : Eq ArtifactScope
scope_eq = record { decide = ArtifactScope-discrete }

unfoldable pub VersionDraft-discrete : Discrete VersionDraft
VersionDraft-discrete = hlevel ℕ_discrete

instance abbrev pub draft_eq : Eq VersionDraft
draft_eq = record { decide = VersionDraft-discrete }

unfoldable pub ArtifactVersion-discrete : Discrete ArtifactVersion
ArtifactVersion-discrete = hlevel ℕ_discrete

instance abbrev pub version_eq : Eq ArtifactVersion
version_eq = record { decide = ArtifactVersion-discrete }

unfoldable pub OptionalVersion-discrete : Discrete (Option ArtifactVersion)
OptionalVersion-discrete = hlevel ℕ_discrete

instance abbrev pub optional_version_eq : Eq (Option ArtifactVersion)
optional_version_eq = record { decide = OptionalVersion-discrete }

unfoldable pub WatcherOutput-discrete : Discrete WatcherOutput
WatcherOutput-discrete = hlevel ℕ_discrete

instance abbrev pub output_eq : Eq WatcherOutput
output_eq = record { decide = WatcherOutput-discrete }

unfoldable pub OptionalUuid-discrete : Discrete (Option Uuid)
OptionalUuid-discrete = hlevel ℕ_discrete

instance abbrev pub optional_uuid_eq : Eq (Option Uuid)
optional_uuid_eq = record { decide = OptionalUuid-discrete }

unfoldable pub Reconciliation-discrete : Discrete (Option ArtifactReconciliation)
Reconciliation-discrete = hlevel ℕ_discrete

instance abbrev pub reconciliation_eq : Eq (Option ArtifactReconciliation)
reconciliation_eq = record { decide = Reconciliation-discrete }

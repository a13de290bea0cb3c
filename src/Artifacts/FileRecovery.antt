-- ===== src/Artifacts/FileRecovery.antt =====
-- services/api/artifacts/file_recovery_storage.py and file_recovery.py: the authority over watcher
-- outputs as one sealed record in a private file for each reference. Its lock makes each call one
-- step. The file names, the JSON and its HMAC are parameters; a record that cannot be read or
-- written is the source's `ArtifactRecoveryError`, and a failing file system is not modelled.
pub mod Records
pub mod Writes
pub mod Outputs
pub mod Claims
pub mod Refinement
use nipo_science.Artifacts.Models.{
  ArtifactReconciliation, ArtifactScope, PendingArtifactCommit, WatcherClaim, WatcherOutput,
  completed, draft_eq, optional_uuid_eq, optional_version_eq, output_eq, pending, reconciliation_eq,
  scope_eq, version_eq,
}
use nipo_science.Artifacts.Recovery.{completed_of}
use nipo_science.Artifacts.Watcher.{execution_key_eq, max_artifact_output_bytes}
use nipo_science.Prelude.{
  Bool, Bytes, Dict, Option, Result, Sha256, Text, Uuid, err, false, get, if◌then◌else◌, is_absent,
  ltb, nat_eq, none, not, ok, optional_text_eq, put, raise_if, some, text_eq, true, uuid_pair_eq,
  uuid_triple_eq, ℕ, ◌!=◌, ◌&&◌, ◌*◌, ◌+◌, ◌/◌, ◌==◌, ◌>>=◌, ◌>>◌, ◌||◌,
}

pub data RecoveryFailure : Type 0 where
  artifact_recovery_error : RecoveryFailure

pub record FileRecoveryState : Type 0 where
  pub output : WatcherOutput
  pub claim_token : Option Uuid
  pub consumed_token : Option Uuid
  pub reconciliation : Option ArtifactReconciliation

-- `_Envelope`
pub record Envelope : Type 0 where
  pub body : FileRecoveryState
  pub integrity_hmac_sha256 : Sha256

-- `_path` within the directory of records, `_integrity` under the key, and the JSON of an
-- envelope with its bytes.
pub record RecordCodec (J : Type 0) : Type 0 where
  pub sha256 : Bytes → Sha256
  pub path : Text → Text
  pub integrity : FileRecoveryState → Sha256
  pub dump_json : Envelope → J
  pub validate_json : J → Option Envelope
  pub size : J → ℕ

-- The directory of records.
abbrev pub Files : Type 0 → Type 0
Files J = Dict Text J

unfoldable pub recovery_record_bytes_limit : ℕ → ℕ
recovery_record_bytes_limit payload_bytes =
    let encoded_payload_bytes = 4 * ((payload_bytes + 2) / 3) in
    2 * encoded_payload_bytes + 8 * 1024 * 1024

unfoldable pub is_oversize : ℕ → Bool
is_oversize bytes = ltb (recovery_record_bytes_limit max_artifact_output_bytes) bytes

-- What a method does with the record that it read.
abbrev pub with_record {ℓ} :
    {A : Type ℓ} {J : Type 0}
    → Result RecoveryFailure (Option FileRecoveryState)
    → A
    → Files J
    → (FileRecoveryState → Result RecoveryFailure A × Files J)
    → Result RecoveryFailure A × Files J
with_record (err e) missing files use_state = (err e, files)
with_record (ok none) missing files use_state = (ok missing, files)
with_record (ok (some state)) missing files use_state = use_state state

unfoldable pub file_claimable : FileRecoveryState → ArtifactScope → Uuid → Bool
file_claimable state scope execution_id =
    is_absent state.claim_token
    && (is_absent state.consumed_token
        && (is_absent state.reconciliation
            && (state.output.org_id == scope.org_id
                && (state.output.project_id == scope.project_id
                    && (state.output.requester_id == scope.requester_id
                        && state.output.execution_id == execution_id)))))

unfoldable pub file_active_claim : FileRecoveryState → WatcherClaim → Bool
file_active_claim state claim =
    state.claim_token == some claim.token && state.output == claim.output

module _ {J : Type 0} (codec : RecordCodec J) where
  abbrev pub sealed : FileRecoveryState → Envelope
  sealed body = record { body = body; integrity_hmac_sha256 = codec.integrity body }

  -- The checks of `read` on an envelope that parses.
  unfoldable pub verify_record : Text → Envelope → Result RecoveryFailure (Option FileRecoveryState)
  verify_record reference envelope = do
    raise_if
        (envelope.body.output.reference != reference
          || codec.integrity envelope.body != envelope.integrity_hmac_sha256)
        artifact_recovery_error
    raise_if (codec.sha256 envelope.body.output.payload != envelope.body.output.content_sha256)
        artifact_recovery_error
    ok (some envelope.body)

  unfoldable pub decode : Text → J → Result RecoveryFailure (Option FileRecoveryState)
  decode reference encoded =
      if is_oversize (codec.size encoded)
      then err artifact_recovery_error
      else elim (codec.validate_json encoded) [
        | none ↦ err artifact_recovery_error
        | some envelope ↦ verify_record reference envelope
      ]

  unfoldable pub read_record : Text → Files J → Result RecoveryFailure (Option FileRecoveryState)
  read_record reference files = elim (get (codec.path reference) files) [
    | none ↦ ok none
    | some encoded ↦ decode reference encoded
  ]

  -- `write`, and the answer after it.
  unfoldable pub write_record {ℓ} :
      {A : Type ℓ} → FileRecoveryState → A → Files J → Result RecoveryFailure A × Files J
  write_record body answer files =
      if is_oversize (codec.size (codec.dump_json (sealed body)))
      then (err artifact_recovery_error, files)
      else (ok answer, put (codec.path body.output.reference) (codec.dump_json (sealed body)) files)

  unfoldable pub file_register_output :
      WatcherOutput → Files J → Result RecoveryFailure Bool × Files J
  file_register_output output files = elim (read_record output.reference files) [
    | err e ↦ (err e, files)
    | ok (some state) ↦ (ok false, files)
    | ok none ↦
        write_record
          (record {
            output = output;
            claim_token = none;
            consumed_token = none;
            reconciliation = none;
          })
          true files
  ]

  unfoldable pub file_resolve_output :
      ArtifactScope
      → Uuid
      → Text
      → Files J
      → Result RecoveryFailure (Option WatcherOutput) × Files J
  file_resolve_output scope execution_id reference files =
      with_record (read_record reference files) none files (λ state.
        if not (file_claimable state scope execution_id)
        then (ok none, files)
        else (ok (some state.output), files))

  unfoldable pub file_claim_output :
      ArtifactScope
      → Uuid
      → Text
      → Uuid
      → Files J
      → Result RecoveryFailure (Option WatcherClaim) × Files J
  file_claim_output scope execution_id reference token files =
      with_record (read_record reference files) none files (λ state.
        if not (file_claimable state scope execution_id)
        then (ok none, files)
        else write_record (record state { claim_token = some token })
            (some (record { reference = reference; token = token; output = state.output })) files)

  unfoldable pub file_claim_pending :
      ArtifactScope → Uuid → PendingArtifactCommit → Files J → Result RecoveryFailure Bool × Files J
  file_claim_pending scope execution_id commit files =
      with_record (read_record commit.claim.reference files) false files (λ state.
        if not (file_claimable state scope execution_id) || state.output != commit.claim.output
        then (ok false, files)
        else write_record
            (record state {
              claim_token = some commit.claim.token;
              reconciliation = some (pending commit);
            })
            true files)

  unfoldable pub file_release_claim : WatcherClaim → Files J → Result RecoveryFailure Bool × Files J
  file_release_claim claim files =
      with_record (read_record claim.reference files) false files (λ state.
        if state.consumed_token == some claim.token
        then (ok (state.output == claim.output), files)
        else if not (file_active_claim state claim) || not (is_absent state.reconciliation)
        then (ok false, files)
        else write_record (record state { claim_token = none }) true files)

  unfoldable pub file_finalize_claim :
      WatcherClaim → Files J → Result RecoveryFailure Bool × Files J
  file_finalize_claim claim files =
      with_record (read_record claim.reference files) false files (λ state.
        if state.consumed_token == some claim.token
        then (ok (state.output == claim.output), files)
        else if not (file_active_claim state claim) || not (is_absent state.reconciliation)
        then (ok false, files)
        else write_record (record state { claim_token = none; consumed_token = some claim.token })
            true files)

  unfoldable pub file_reconciliation :
      Text → Files J → Result RecoveryFailure (Option ArtifactReconciliation) × Files J
  file_reconciliation reference files =
      with_record (read_record reference files) none files
        (λ state. (ok state.reconciliation, files))

  unfoldable pub file_save_completed :
      PendingArtifactCommit → Files J → Result RecoveryFailure Bool × Files J
  file_save_completed commit files =
      with_record (read_record commit.claim.reference files) false files (λ state.
        if state.reconciliation == some (completed (completed_of commit))
        then (ok (state.consumed_token == some commit.claim.token), files)
        else if state.reconciliation != some (pending commit)
            || not (file_active_claim state commit.claim)
        then (ok false, files)
        else write_record
            (record state {
              claim_token = none;
              consumed_token = some commit.claim.token;
              reconciliation = some (completed (completed_of commit));
            })
            true files)

  unfoldable pub file_discard_pending :
      PendingArtifactCommit → Files J → Result RecoveryFailure Bool × Files J
  file_discard_pending commit files =
      with_record (read_record commit.claim.reference files) false files (λ state.
        if is_absent state.reconciliation && is_absent state.claim_token
        then (ok true, files)
        else if state.reconciliation != some (pending commit)
            || not (file_active_claim state commit.claim)
        then (ok false, files)
        else write_record (record state { claim_token = none; reconciliation = none }) true files)

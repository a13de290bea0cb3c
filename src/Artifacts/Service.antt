-- ===== src/Artifacts/Service.antt =====
-- services/api/artifacts/service.py: `create_version`, with the reconciliation of commits in doubt,
-- over any artifact store and the recovery authority. The lock of the service makes each call one
-- step. Identifiers and the present are arguments.
pub mod Settlement
pub mod Filing
pub mod Idempotence
use nipo_science.Artifacts.Downloads.{
  ServiceError, assertion_failed, passed, recovery_failed, refused, require_created,
}
use nipo_science.Artifacts.Models.{
  ArtifactErrorCode, ArtifactReconciliation, ArtifactScope, ArtifactVersion, PendingArtifactCommit,
  StoreFailure, StoreOutcome, VersionDraft, WatcherOutput, blob_integrity, checksum_mismatch,
  commit_unknown, completed, created, draft_eq, missing_key, optional_uuid_eq, optional_version_eq,
  output_eq, pending, reconciliation_eq, scope_eq, unavailable, version_eq,
  watcher_reference_invalid,
}
use nipo_science.Artifacts.Recovery.{Recovery, discard_pending, reconciliation, save_completed}
use nipo_science.Artifacts.Store.{Platform}
use nipo_science.Artifacts.Watcher.{execution_key_eq, prepare_commit, resolve}
use nipo_science.Prelude.{
  Bool, Bytes, Option, Result, Sha256, Text, Timestamp, Uuid, err, false, if◌then◌else◌, length,
  nat_eq, none, ok, some, sorted, text_eq, true, uuid_pair_eq, uuid_triple_eq, ℕ, ◌!=◌, ◌&&◌, ◌+◌,
  ◌==◌, ◌||◌,
}

-- `ArtifactStore`, as far as `create_version` calls it.
pub record StoreOps (S : Type 0) : Type 0 where
  pub object_key : ArtifactScope → Sha256 → Text
  pub commit_version :
      ArtifactScope → ℕ → ArtifactVersion → Bytes → S → Result StoreFailure StoreOutcome × S
  pub version : ArtifactScope → Uuid → S → Result StoreFailure (Option ArtifactVersion)

pub record ServiceState (S : Type 0) : Type 0 where
  pub store : S
  pub recovery : Recovery

-- What one call takes from `IdFactory` and `Clock`.
pub record Fresh : Type 0 where
  pub version_id : Uuid
  pub token : Uuid
  pub now : Timestamp

-- `except ArtifactStoreError`
abbrev pub is_store_error : StoreFailure → Bool
is_store_error blob_integrity = false
is_store_error missing_key = false
is_store_error commit_unknown = true
is_store_error unavailable = true

-- The draft with its inputs in order.
abbrev pub sorted_draft : VersionDraft → VersionDraft
sorted_draft draft = record draft { input_version_ids = sorted draft.input_version_ids }

-- The output ran on another adapter or connection than the draft says.
abbrev pub misbound : VersionDraft → WatcherOutput → Bool
misbound draft output =
    draft.runtime_adapter_id != output.runtime_adapter_id
    || draft.runtime_connection_id != output.runtime_connection_id

-- What a call returns or raises, and the state it leaves.
abbrev pub Answer : Type 0 → Type 0
Answer S = Result ServiceError ArtifactVersion × ServiceState S

-- `self._require_created(outcome)`, then `raise AssertionError`.
abbrev pub outcome_error : Result ServiceError (Unit {0}) → ServiceError
outcome_error (err error) = error
outcome_error (ok _) = assertion_failed

module _ {S : Type 0} where
  abbrev pub with_recovery : ServiceState S → Recovery → ServiceState S
  with_recovery state r = record state { recovery = r }

  abbrev pub completes : PendingArtifactCommit → ServiceState S → Bool × Recovery → Answer S
  completes intent state (true, r) = (ok intent.version, with_recovery state r)
  completes intent state (false, r) = (err recovery_failed, with_recovery state r)

  unfoldable pub complete_reconciliation : PendingArtifactCommit → ServiceState S → Answer S
  complete_reconciliation intent state =
      completes intent state (save_completed intent state.recovery)

  abbrev pub raises : ServiceError → ServiceState S → Bool × Recovery → Answer S
  raises error state (true, r) = (err error, with_recovery state r)
  raises error state (false, r) = (err recovery_failed, with_recovery state r)

  -- `self._discard_pending(pending)`, then `raise error`.
  unfoldable pub discard_and_raise :
      PendingArtifactCommit → ServiceError → ServiceState S → Answer S
  discard_and_raise intent error state = raises error state (discard_pending intent state.recovery)

  module _ (ops : StoreOps S) where
    -- What a lookup of the version says about a commit that raised `ArtifactCommitError`.
    abbrev pub reconcile_initial :
        PendingArtifactCommit
        → ServiceState S
        → Result StoreFailure (Option ArtifactVersion)
        → Answer S
    reconcile_initial intent state (err failure) =
        if is_store_error failure
        then (err (passed commit_unknown), state)
        else (err (passed failure), state)
    reconcile_initial intent state (ok persisted) =
        if persisted == some intent.version
        then complete_reconciliation intent state
        else discard_and_raise intent (passed commit_unknown) state

    unfoldable pub reconcile_initial_commit : PendingArtifactCommit → ServiceState S → Answer S
    reconcile_initial_commit intent state =
        reconcile_initial intent state (ops.version intent.scope intent.version.id state.store)

    abbrev pub reconcile_retried :
        PendingArtifactCommit
        → ServiceState S
        → Result StoreFailure (Option ArtifactVersion)
        → Answer S
    reconcile_retried intent state (err failure) =
        if is_store_error failure
        then (err (passed commit_unknown), state)
        else (err (passed failure), state)
    reconcile_retried intent state (ok none) = (err (passed commit_unknown), state)
    reconcile_retried intent state (ok (some persisted)) =
        if persisted == intent.version
        then complete_reconciliation intent state
        else discard_and_raise intent (passed commit_unknown) state

    unfoldable pub reconcile_retried_commit : PendingArtifactCommit → ServiceState S → Answer S
    reconcile_retried_commit intent state =
        reconcile_retried intent state (ops.version intent.scope intent.version.id state.store)

    -- What follows `commit_version`; `in_doubt` handles an `ArtifactCommitError`.
    abbrev pub settle_commit :
        (PendingArtifactCommit → ServiceState S → Answer S)
        → PendingArtifactCommit
        → Recovery
        → Result StoreFailure StoreOutcome × S
        → Answer S
    settle_commit in_doubt intent r (err blob_integrity, store) =
        discard_and_raise intent (refused ArtifactErrorCode.checksum_mismatch)
          (record { store = store; recovery = r })
    settle_commit in_doubt intent r (err commit_unknown, store) =
        in_doubt intent (record { store = store; recovery = r })
    settle_commit in_doubt intent r (err unavailable, store) =
        (err (passed unavailable), record { store = store; recovery = r })
    settle_commit in_doubt intent r (err missing_key, store) =
        (err (passed missing_key), record { store = store; recovery = r })
    settle_commit in_doubt intent r (ok StoreOutcome.created, store) =
        complete_reconciliation intent (record { store = store; recovery = r })
    settle_commit in_doubt intent r (ok outcome, store) =
        discard_and_raise intent (outcome_error (require_created outcome))
          (record { store = store; recovery = r })

    abbrev pub retry_with :
        PendingArtifactCommit
        → ServiceState S
        → Result StoreFailure (Option ArtifactVersion)
        → Answer S
    retry_with intent state (err failure) =
        if is_store_error failure
        then (err (passed commit_unknown), state)
        else (err (passed failure), state)
    retry_with intent state (ok (some persisted)) =
        if persisted == intent.version
        then complete_reconciliation intent state
        else discard_and_raise intent (passed commit_unknown) state
    retry_with intent state (ok none) =
        settle_commit reconcile_retried_commit intent state.recovery (
          ops.commit_version intent.scope intent.draft.base_version_no intent.version
            intent.claim.output.payload state.store)

    unfoldable pub retry_pending_commit : PendingArtifactCommit → ServiceState S → Answer S
    retry_pending_commit intent state =
        retry_with intent state (ops.version intent.scope intent.version.id state.store)

    abbrev pub new_version : ArtifactScope → VersionDraft → WatcherOutput → Fresh → ArtifactVersion
    new_version scope draft output new = record {
      id = new.version_id;
      org_id = scope.org_id;
      project_id = scope.project_id;
      artifact_id = draft.artifact_id;
      version_no = draft.base_version_no + 1;
      object_key = ops.object_key scope output.content_sha256;
      content_sha256 = output.content_sha256;
      size_bytes = length output.payload;
      media_type = output.media_type;
      producing_execution_id = draft.producing_execution_id;
      environment_sha256 = draft.environment_sha256;
      code_sha256 = draft.code_sha256;
      runtime_adapter_id = output.runtime_adapter_id;
      runtime_connection_id = output.runtime_connection_id;
      skill_content_hashes = draft.skill_content_hashes;
      source_hashes = draft.source_hashes;
      input_version_ids = draft.input_version_ids;
      created_at = new.now;
    }

    -- Once the intent is on record, the store commits it.
    abbrev pub commit_prepared :
        ArtifactScope
        → VersionDraft
        → ArtifactVersion
        → WatcherOutput
        → S
        → Result ArtifactErrorCode PendingArtifactCommit × Recovery
        → Answer S
    commit_prepared scope draft version output store (err code, r) =
        (err (refused code), record { store = store; recovery = r })
    commit_prepared scope draft version output store (ok intent, r) =
        settle_commit reconcile_initial_commit intent r
          (ops.commit_version scope draft.base_version_no version output.payload store)

    module _ (platform : Platform) where
      abbrev pub commit_output :
          ArtifactScope
          → VersionDraft
          → Fresh
          → ServiceState S
          → Result ArtifactErrorCode WatcherOutput
          → Answer S
      commit_output scope draft new state (err code) = (err (refused code), state)
      commit_output scope draft new state (ok output) =
          if misbound draft output
          then (err (refused ArtifactErrorCode.watcher_reference_invalid), state)
          else let version = new_version scope draft output new in
            commit_prepared scope draft version output state.store
              (prepare_commit platform scope draft version output new.token state.recovery)

      unfoldable pub create_fresh_version :
          ArtifactScope → VersionDraft → Fresh → ServiceState S → Answer S
      create_fresh_version scope draft new state = commit_output scope draft new state (
          resolve platform scope draft.producing_execution_id draft.watcher_reference
            state.recovery)

      -- The three cases of the reconciliation on record.
      abbrev pub create_with :
          ArtifactScope
          → VersionDraft
          → Fresh
          → ServiceState S
          → Option ArtifactReconciliation
          → Answer S
      create_with scope draft new state (some (completed c)) =
          if c.scope == scope && c.draft == draft
          then (ok c.version, state)
          else (err (refused ArtifactErrorCode.watcher_reference_invalid), state)
      create_with scope draft new state (some (pending p)) =
          if p.scope != scope || p.draft != draft
          then (err (refused ArtifactErrorCode.watcher_reference_invalid), state)
          else retry_pending_commit p state
      create_with scope draft new state none = create_fresh_version scope draft new state

      unfoldable pub create_version :
          ArtifactScope → VersionDraft → Fresh → ServiceState S → Answer S
      create_version scope draft new state =
          create_with scope (sorted_draft draft) new state
            (reconciliation draft.watcher_reference state.recovery)

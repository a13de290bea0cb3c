-- ===== src/Protocols/Restore/Advance.antt =====
-- protocols/recovery.py, the restore's transitions and the authority that they need. The resolver of
-- anchors is an interface of the source, so its answers are parameters.
use nipo_science.Prelude.{
  List, Option, Result, Sha256, Text, [], any, err, if◌then◌else◌, is_absent, mem, nat_eq, none,
  not, ok, optional_text_eq, raise_if, some, text_eq, uuid_pair_eq, uuid_triple_eq, ℕ, ◌!=◌, ◌>>=◌,
  ◌>>◌, ◌||◌, ◌∷◌,
}
use nipo_science.Protocols.Restore.{
  RestoreError, RestoreGovernanceManifest, RestoreGovernanceResolver, RestoreLifecycle,
  RestorePhase, backup_digest_unverified, deletion_receipt_mismatch, has_duplicates,
  hold_snapshot_mismatch, invalid_restore_transition, is_gated, phases_after,
  restore_manifest_anchor_mismatch, restore_manifest_mismatch, restore_phase_eq, roots_eq, texts_eq,
  tombstone_snapshot_mismatch, validate_restore,
}

abbrev pub all_some : List Sha256 → List (Option Sha256)
all_some [] = []
all_some (root ∷ roots) = some root ∷ all_some roots

abbrev pub receipted : RestoreLifecycle → Option Sha256 → Result RestoreError RestoreLifecycle
receipted lifecycle none = err restore_manifest_anchor_mismatch
receipted lifecycle (some receipt) =
    ok (record lifecycle { activation_receipt_sha256 = some receipt })

module _ (resolver : RestoreGovernanceResolver) where
  -- The receipts' roots as they resolve, one for each system.
  abbrev pub resolved_receipts : List Text → Sha256 → ℕ → List (Option Sha256)
  resolved_receipts [] backup epoch = []
  resolved_receipts (system ∷ systems) backup epoch =
      resolver.resolve_deletion_receipt_root system backup epoch
      ∷ resolved_receipts systems backup epoch

  -- The activation receipt that `advance_restore_authoritatively` resolves and takes over.
  abbrev pub with_receipt :
      RestoreLifecycle → RestorePhase → Option Sha256 → Result RestoreError RestoreLifecycle
  with_receipt lifecycle phase none = err backup_digest_unverified
  with_receipt lifecycle phase (some backup) =
      receipted lifecycle (resolver.resolve_activation_receipt backup lifecycle.restore_epoch phase)

  abbrev pub receipt_check : RestoreLifecycle → Option Sha256 → Result RestoreError (Unit {0})
  receipt_check lifecycle none = err restore_manifest_anchor_mismatch
  receipt_check lifecycle (some backup) = do
    raise_if (not (is_gated lifecycle.phase)) restore_manifest_anchor_mismatch
    raise_if
        (is_absent lifecycle.activation_receipt_sha256
          || (is_absent
                (resolver.resolve_activation_receipt backup lifecycle.restore_epoch lifecycle.phase)
              || lifecycle.activation_receipt_sha256
                != resolver.resolve_activation_receipt backup lifecycle.restore_epoch
                    lifecycle.phase))
        restore_manifest_anchor_mismatch

  unfoldable pub validate_activation_receipt : RestoreLifecycle → Result RestoreError (Unit {0})
  validate_activation_receipt lifecycle = receipt_check lifecycle lifecycle.backup_sha256

module _ (manifest_digest : RestoreGovernanceManifest → Sha256) where
  -- `_advance_restore`
  unfoldable pub advance_phase :
      RestoreLifecycle → RestorePhase → Result RestoreError RestoreLifecycle
  advance_phase lifecycle phase = do
    raise_if (not (mem phase (phases_after lifecycle.phase))) invalid_restore_transition
    (if is_gated phase then validate_restore manifest_digest lifecycle else ok tt)
    ok (record lifecycle { phase = phase })

  unfoldable pub advance_restore :
      RestoreLifecycle → RestorePhase → Result RestoreError RestoreLifecycle
  advance_restore lifecycle phase =
      if is_gated phase then err restore_manifest_anchor_mismatch else advance_phase lifecycle phase

  module _ (resolver : RestoreGovernanceResolver) where
    -- The checks of `validate_restore_authority` on the manifest and the backup.
    unfoldable pub validate_authority_of :
        RestoreGovernanceManifest → Sha256 → ℕ → Result RestoreError (Unit {0})
    validate_authority_of manifest backup epoch = do
      raise_if (resolver.resolve_manifest_anchor backup epoch != some (manifest_digest manifest))
          restore_manifest_anchor_mismatch
      raise_if
          (resolver.resolve_source_governance_root backup epoch
            != some manifest.source_governance_root_sha256)
          restore_manifest_mismatch
      raise_if
          (resolver.resolve_tombstone_stream_root backup epoch
            != some manifest.tombstone_stream_sha256)
          tombstone_snapshot_mismatch
      raise_if (resolver.resolve_hold_stream_root backup epoch != some manifest.hold_stream_sha256)
          hold_snapshot_mismatch
      raise_if
          (any is_absent
              (resolved_receipts resolver manifest.required_deletion_systems backup epoch)
            || (resolved_receipts resolver manifest.required_deletion_systems backup epoch
                  != all_some manifest.deletion_receipt_roots
                || has_duplicates manifest.deletion_receipt_roots))
          deletion_receipt_mismatch

    abbrev pub authority_check :
        ℕ → Option RestoreGovernanceManifest → Option Sha256 → Result RestoreError (Unit {0})
    authority_check epoch none backup = err restore_manifest_mismatch
    authority_check epoch (some manifest) none = err restore_manifest_mismatch
    authority_check epoch (some manifest) (some backup) =
        validate_authority_of manifest backup epoch

    unfoldable pub validate_restore_authority : RestoreLifecycle → Result RestoreError (Unit {0})
    validate_restore_authority lifecycle =
        authority_check lifecycle.restore_epoch lifecycle.governance_manifest
          lifecycle.backup_sha256

    unfoldable pub advance_restore_authoritatively :
        RestoreLifecycle → RestorePhase → Result RestoreError RestoreLifecycle
    advance_restore_authoritatively lifecycle phase =
        if is_gated phase
        then (do
          validate_restore_authority lifecycle
          activated_one ← with_receipt resolver lifecycle phase lifecycle.backup_sha256
          advance_phase activated_one phase)
        else advance_phase lifecycle phase

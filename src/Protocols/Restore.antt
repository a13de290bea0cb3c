-- ===== src/Protocols/Restore.antt =====
-- protocols/recovery.py, fourth part: the restore of a backup, which stays inert until its
-- governance is anchored: its data and its checks. The digest of a manifest is a parameter. An
-- error keeps its code; the two texts beside it are left out.
pub mod Advance
pub mod Phases
pub mod Sealed
use nipo_science.Prelude.{
  Bool, Eq, List, Option, Result, Sha256, Text, [], all, err, false, if◌then◌else◌, is_absent,
  length, ltb, mem, nat_eq, none, not, ok, optional_text_eq, raise_if, some, text_eq, uuid_pair_eq,
  uuid_triple_eq, ℕ, ℕ_discrete, ◌!=◌, ◌==◌, ◌>>=◌, ◌>>◌, ◌||◌, ◌∷◌,
}

pub data RestorePhase : Type 0 where
  restoring replaying_governance validating ready activated failed : RestorePhase

unfoldable pub RestorePhase-discrete : Discrete RestorePhase
RestorePhase-discrete = hlevel ℕ_discrete

instance abbrev pub restore_phase_eq : Eq RestorePhase
restore_phase_eq = record { decide = RestorePhase-discrete }

unfoldable pub Texts-discrete : Discrete (List Text)
Texts-discrete = hlevel ℕ_discrete

instance abbrev pub texts_eq : Eq (List Text)
texts_eq = record { decide = Texts-discrete }

unfoldable pub Roots-discrete : Discrete (List (Option Sha256))
Roots-discrete = hlevel ℕ_discrete

instance abbrev pub roots_eq : Eq (List (Option Sha256))
roots_eq = record { decide = Roots-discrete }

-- The codes of `RecoveryProtocolError` that a restore raises, and the error of a model validator.
pub data RestoreError : Type 0 where
  invalid_restore_transition restore_not_inert backup_digest_unverified : RestoreError
  backup_digest_mismatch deletion_receipt_mismatch transient_restore_state : RestoreError
  invariant_report_missing tombstone_snapshot_mismatch hold_snapshot_mismatch : RestoreError
  restore_manifest_mismatch restore_manifest_anchor_mismatch : RestoreError
  break_glass_unauthorized restore_occurred_at restore_validation : RestoreError

pub record RestoreGovernanceManifest : Type 0 where
  pub backup_sha256 : Sha256
  pub source_governance_root_sha256 : Sha256
  pub tombstone_high_watermark : ℕ
  pub hold_high_watermark : ℕ
  pub tombstone_stream_sha256 : Sha256
  pub hold_stream_sha256 : Sha256
  pub required_deletion_systems : List Text
  pub deletion_receipt_roots : List Sha256
  pub restore_epoch : ℕ
  pub quarantined_transient_records : Bool
  pub invariant_report_sha256 : Sha256

pub record RestoreLifecycle : Type 0 where
  pub restore_epoch : ℕ
  pub phase : RestorePhase
  pub workers_enabled : Bool
  pub egress_enabled : Bool
  pub backup_digest_verified : Bool
  pub backup_sha256 : Option Sha256
  pub verified_backup_sha256 : Option Sha256
  pub tombstone_high_watermark : ℕ
  pub replayed_tombstone_high_watermark : ℕ
  pub hold_high_watermark : ℕ
  pub replayed_hold_high_watermark : ℕ
  pub tombstone_stream_sha256 : Option Sha256
  pub hold_stream_sha256 : Option Sha256
  pub required_deletion_systems : List Text
  pub deletion_receipt_systems : List Text
  pub quarantined_transient_records : Bool
  pub invariant_report_sha256 : Option Sha256
  pub governance_manifest : Option RestoreGovernanceManifest
  pub governance_manifest_anchor_sha256 : Option Sha256
  pub activation_receipt_sha256 : Option Sha256

-- `RestoreGovernanceResolver`, with what each root is bound to: the backup and the epoch.
pub record RestoreGovernanceResolver : Type 0 where
  pub resolve_manifest_anchor : Sha256 → ℕ → Option Sha256
  pub resolve_source_governance_root : Sha256 → ℕ → Option Sha256
  pub resolve_tombstone_stream_root : Sha256 → ℕ → Option Sha256
  pub resolve_hold_stream_root : Sha256 → ℕ → Option Sha256
  pub resolve_deletion_receipt_root : Text → Sha256 → ℕ → Option Sha256
  pub resolve_activation_receipt : Sha256 → ℕ → RestorePhase → Option Sha256

-- `len(set(texts)) != len(texts)`
unfoldable pub has_duplicates : List Text → Bool
has_duplicates [] = false
has_duplicates (text ∷ texts) = let rest = has_duplicates texts in mem text texts || rest

unfoldable pub are_texts : List Text → Bool
are_texts texts = all (λ text. text != []) texts

-- `RestoreGovernanceManifest(...)`: the field constraints and the receipts' validator.
unfoldable pub new_manifest :
    RestoreGovernanceManifest → Result RestoreError RestoreGovernanceManifest
unfolding are_texts has_duplicates
new_manifest manifest = do
  raise_if
      (ltb manifest.tombstone_high_watermark 1
        || (ltb manifest.hold_high_watermark 1
            || (ltb manifest.restore_epoch 1
                || (not manifest.quarantined_transient_records
                    || not (are_texts manifest.required_deletion_systems)))))
      restore_validation
  raise_if
      (manifest.required_deletion_systems == []
        || (has_duplicates manifest.required_deletion_systems
            || length manifest.deletion_receipt_roots != length manifest.required_deletion_systems))
      restore_validation
  ok manifest

unfoldable pub is_gated : RestorePhase → Bool
is_gated phase = phase == ready || phase == activated

-- `transitions` of `_advance_restore`
abbrev pub phases_after : RestorePhase → List RestorePhase
phases_after restoring = replaying_governance ∷ failed ∷ []
phases_after replaying_governance = validating ∷ failed ∷ []
phases_after validating = ready ∷ failed ∷ []
phases_after ready = activated ∷ failed ∷ []
phases_after activated = []
phases_after failed = []

unfoldable pub validate_restore_inert_backup : RestoreLifecycle → Result RestoreError (Unit {0})
validate_restore_inert_backup lifecycle = do
  raise_if (lifecycle.workers_enabled || lifecycle.egress_enabled) restore_not_inert
  raise_if (not lifecycle.backup_digest_verified) backup_digest_unverified
  raise_if
      (is_absent lifecycle.backup_sha256
        || lifecycle.verified_backup_sha256 != lifecycle.backup_sha256)
      backup_digest_mismatch

-- The checks of `_validate_restore_receipts` on the manifest.
unfoldable pub validate_receipts_of :
    RestoreLifecycle → RestoreGovernanceManifest → Result RestoreError (Unit {0})
validate_receipts_of lifecycle manifest = do
  raise_if (lifecycle.required_deletion_systems != manifest.required_deletion_systems)
      deletion_receipt_mismatch
  raise_if (lifecycle.deletion_receipt_systems != manifest.required_deletion_systems)
      deletion_receipt_mismatch
  raise_if
      (not lifecycle.quarantined_transient_records || not manifest.quarantined_transient_records)
      transient_restore_state
  raise_if (lifecycle.invariant_report_sha256 != some manifest.invariant_report_sha256)
      invariant_report_missing

abbrev pub receipts_check :
    RestoreLifecycle → Option RestoreGovernanceManifest → Result RestoreError (Unit {0})
receipts_check lifecycle none = err restore_manifest_mismatch
receipts_check lifecycle (some manifest) = validate_receipts_of lifecycle manifest

unfoldable pub validate_restore_receipts : RestoreLifecycle → Result RestoreError (Unit {0})
validate_restore_receipts lifecycle = receipts_check lifecycle lifecycle.governance_manifest

module _ (manifest_digest : RestoreGovernanceManifest → Sha256) where
  -- The checks of `_validate_restore_governance` on the manifest and its anchor.
  unfoldable pub validate_governance_of :
      RestoreLifecycle → RestoreGovernanceManifest → Sha256 → Result RestoreError (Unit {0})
  validate_governance_of lifecycle manifest anchor = do
    raise_if (manifest_digest manifest != anchor) restore_manifest_anchor_mismatch
    raise_if (lifecycle.backup_sha256 != some manifest.backup_sha256) backup_digest_mismatch
    raise_if (lifecycle.restore_epoch != manifest.restore_epoch) restore_manifest_mismatch
    raise_if
        (lifecycle.tombstone_high_watermark != manifest.tombstone_high_watermark
          || (lifecycle.replayed_tombstone_high_watermark != manifest.tombstone_high_watermark
              || lifecycle.tombstone_stream_sha256 != some manifest.tombstone_stream_sha256))
        tombstone_snapshot_mismatch
    raise_if
        (lifecycle.hold_high_watermark != manifest.hold_high_watermark
          || (lifecycle.replayed_hold_high_watermark != manifest.hold_high_watermark
              || lifecycle.hold_stream_sha256 != some manifest.hold_stream_sha256))
        hold_snapshot_mismatch

  abbrev pub governance_check :
      RestoreLifecycle
      → Option RestoreGovernanceManifest
      → Option Sha256
      → Result RestoreError (Unit {0})
  governance_check lifecycle none anchor = err restore_manifest_anchor_mismatch
  governance_check lifecycle (some manifest) none = err restore_manifest_anchor_mismatch
  governance_check lifecycle (some manifest) (some anchor) =
      validate_governance_of lifecycle manifest anchor

  unfoldable pub validate_restore_governance : RestoreLifecycle → Result RestoreError (Unit {0})
  validate_restore_governance lifecycle =
      governance_check lifecycle lifecycle.governance_manifest
        lifecycle.governance_manifest_anchor_sha256

  unfoldable pub validate_restore : RestoreLifecycle → Result RestoreError (Unit {0})
  validate_restore lifecycle = do
    validate_restore_inert_backup lifecycle
    validate_restore_governance lifecycle
    validate_restore_receipts lifecycle

  -- `RestoreLifecycle(...)`: the field constraints and `activated_state_is_valid`.
  unfoldable pub new_lifecycle : RestoreLifecycle → Result RestoreError RestoreLifecycle
  new_lifecycle lifecycle = do
    raise_if
        (ltb lifecycle.restore_epoch 1
          || (not (are_texts lifecycle.required_deletion_systems)
              || not (are_texts lifecycle.deletion_receipt_systems)))
        restore_validation
    if is_gated lifecycle.phase
        then (do
          raise_if (is_absent lifecycle.activation_receipt_sha256) restore_manifest_anchor_mismatch
          validate_restore lifecycle
          ok lifecycle)
        else ok lifecycle

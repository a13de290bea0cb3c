-- ===== src/Protocols/RestoreTests.antt =====
-- A concrete restore that is advanced to its end, and a purge under it, to which the theorems apply.
use nipo_science.Prelude.{
  Bool, List, OptionalText-discrete, Sha256, Text-discrete, Uuid, [], codes, false, length, mem,
  nat_eq, none, ok, optional_text_eq, refl, some, text_eq, true, uuid_pair_eq, uuid_triple_eq, ℕ,
  ℕ_discrete, ◌+◌, ◌∷◌, ◌≡◌, ◌≤◌,
}
use nipo_science.Protocols.Governance.{
  ActionStore, GovernanceSnapshot, HoldRecord, PhysicalPurgePermit, StreamDigests, numbers_from,
  perform_physical_purge_from_store, physical_purge_allowed, snapshot_matches,
  stream_matches_snapshot,
}
use nipo_science.Protocols.Governance.Purges.{
  IsPurgeable, perform_physical_purge-IsPurgeable, permit_for,
}
use nipo_science.Protocols.Restore.{
  RestoreGovernanceManifest, RestoreGovernanceResolver, RestoreLifecycle, RestorePhase-discrete,
  Roots-discrete, Texts-discrete, activated, are_texts, has_duplicates, is_gated, new_lifecycle,
  ready, replaying_governance, restore_phase_eq, restoring, roots_eq, texts_eq,
  validate_governance_of, validate_receipts_of, validate_restore, validate_restore_governance,
  validate_restore_inert_backup, validate_restore_receipts, validating,
}
use nipo_science.Protocols.Restore.Advance.{
  advance_phase, advance_restore, advance_restore_authoritatively, validate_activation_receipt,
  validate_authority_of, validate_restore_authority,
}
use nipo_science.Protocols.Restore.Phases.{
  RestoreCall, advance_call, advance_calls, advance_calls-ends, authoritative, phase_rank, plain,
}
use nipo_science.Protocols.Restore.Sealed.{
  IsGoverned, advance_calls-IsGoverned, advance_calls-valid,
}

abbrev backup : Sha256
backup = codes "backup"

abbrev root : Sha256
root = codes "root"

abbrev stones_root : Sha256
stones_root = codes "stones"

abbrev holds_root : Sha256
holds_root = codes "holds"

abbrev report : Sha256
report = codes "report"

abbrev receipt_root : Sha256
receipt_root = codes "deleted"

abbrev receipt : Sha256
receipt = codes "receipt"

abbrev digest_of : RestoreGovernanceManifest → Sha256
digest_of m = codes "manifest"

abbrev manifest : RestoreGovernanceManifest
manifest = record {
  backup_sha256 = backup;
  source_governance_root_sha256 = root;
  tombstone_high_watermark = 1;
  hold_high_watermark = 2;
  tombstone_stream_sha256 = stones_root;
  hold_stream_sha256 = holds_root;
  required_deletion_systems = codes "search" ∷ [];
  deletion_receipt_roots = receipt_root ∷ [];
  restore_epoch = 2;
  quarantined_transient_records = true;
  invariant_report_sha256 = report;
}

abbrev restored : RestoreLifecycle
restored = record {
  restore_epoch = 2;
  phase = restoring;
  workers_enabled = false;
  egress_enabled = false;
  backup_digest_verified = true;
  backup_sha256 = some backup;
  verified_backup_sha256 = some backup;
  tombstone_high_watermark = 1;
  replayed_tombstone_high_watermark = 1;
  hold_high_watermark = 2;
  replayed_hold_high_watermark = 2;
  tombstone_stream_sha256 = some stones_root;
  hold_stream_sha256 = some holds_root;
  required_deletion_systems = codes "search" ∷ [];
  deletion_receipt_systems = codes "search" ∷ [];
  quarantined_transient_records = true;
  invariant_report_sha256 = some report;
  governance_manifest = some manifest;
  governance_manifest_anchor_sha256 = some (codes "manifest");
  activation_receipt_sha256 = none;
}

abbrev resolver : RestoreGovernanceResolver
resolver = record {
  resolve_manifest_anchor = λ b e. some (codes "manifest");
  resolve_source_governance_root = λ b e. some root;
  resolve_tombstone_stream_root = λ b e. some stones_root;
  resolve_hold_stream_root = λ b e. some holds_root;
  resolve_deletion_receipt_root = λ s b e. some receipt_root;
  resolve_activation_receipt = λ b e p. some receipt;
}

abbrev restore_calls : List RestoreCall
restore_calls =
    plain replaying_governance
    ∷ plain validating
    ∷ authoritative ready resolver
    ∷ authoritative activated resolver
    ∷ []

abbrev restored_fully : RestoreLifecycle
restored_fully = record restored { phase = activated; activation_receipt_sha256 = some receipt }

restored-valid : new_lifecycle digest_of restored ≡ ok restored
unfolding new_lifecycle are_texts is_gated RestorePhase-discrete ℕ_discrete Text-discrete
restored-valid = refl

advances : advance_calls digest_of restore_calls restored ≡ ok restored_fully
unfolding advance_calls advance_call advance_restore advance_restore_authoritatively advance_phase
    validate_restore validate_restore_inert_backup validate_restore_governance
    validate_governance_of validate_restore_receipts validate_receipts_of validate_restore_authority
    validate_authority_of has_duplicates is_gated RestorePhase-discrete ℕ_discrete Text-discrete
    Texts-discrete Roots-discrete OptionalText-discrete mem
advances = refl

gate : is_gated restored_fully.phase ≡ true
unfolding is_gated RestorePhase-discrete ℕ_discrete
gate = refl

advance_calls-IsGoverned_example : IsGoverned digest_of restored_fully × (false ≡ false)
advance_calls-IsGoverned_example =
    advance_calls-IsGoverned digest_of restore_calls restored restored_fully restored-valid advances
      gate

advance_calls-ends_example : length restore_calls + phase_rank restored.phase ≤ 4
advance_calls-ends_example =
    advance_calls-ends digest_of restore_calls restored restored_fully advances

abbrev subject : Uuid
subject = 7

abbrev digests : StreamDigests
digests = record { tombstone_digest = λ r. stones_root; hold_digest = λ r. holds_root }

abbrev hold_at : ℕ → Bool → HoldRecord
hold_at n active = record {
  subject_id = subject;
  sequence = n;
  active = active;
  recorded_at = 6;
  digest = codes "h";
}

-- A subject that was deleted, and held for a while.
abbrev snapshot : GovernanceSnapshot
snapshot = record {
  revision = 1;
  tombstones =
      record { subject_id = subject; sequence = 1; recorded_at = 5; digest = codes "t" } ∷ [];
  holds = hold_at 1 true ∷ hold_at 2 false ∷ [];
}

-- The same subject, held again after a release.
abbrev held_snapshot : GovernanceSnapshot
held_snapshot = record snapshot { holds = hold_at 1 false ∷ hold_at 2 true ∷ [] }

-- A store that consumes every permit, and counts them.
abbrev counting : ActionStore PhysicalPurgePermit ℕ
counting = record {
  read_snapshot = λ n. (snapshot, n);
  consume_and_perform = λ permit n. (true, n + 1);
}

activated-valid : new_lifecycle digest_of restored_fully ≡ ok restored_fully
activated-valid =
    advance_calls-valid digest_of restore_calls restored restored_fully restored-valid advances

purges :
    (perform_physical_purge_from_store digests digest_of counting subject restored_fully resolver
      0).0
    ≡ true
unfolding perform_physical_purge_from_store physical_purge_allowed snapshot_matches
    stream_matches_snapshot numbers_from validate_restore_authority validate_authority_of
    validate_activation_receipt has_duplicates is_gated RestorePhase-discrete ℕ_discrete
    Text-discrete Texts-discrete Roots-discrete OptionalText-discrete mem
purges = refl

-- A store with the held subject.
abbrev holding : ActionStore PhysicalPurgePermit ℕ
holding = record counting { read_snapshot = λ n. (held_snapshot, n) }

-- An active hold refuses the purge, and no permit is consumed.
held_back :
    perform_physical_purge_from_store digests digest_of holding subject restored_fully resolver 0
    ≡ (false, 0)
unfolding perform_physical_purge_from_store physical_purge_allowed snapshot_matches
    stream_matches_snapshot numbers_from validate_restore_authority validate_authority_of
    validate_activation_receipt has_duplicates is_gated RestorePhase-discrete ℕ_discrete
    Text-discrete Texts-discrete Roots-discrete OptionalText-discrete mem
held_back = refl

perform_physical_purge-IsPurgeable_example :
    IsPurgeable digests digest_of snapshot.tombstones snapshot.holds subject restored_fully resolver
    × ((b : Sha256) × (r : Sha256) × (restored_fully.backup_sha256 ≡ some b)
        × (restored_fully.activation_receipt_sha256 ≡ some r)
        × (perform_physical_purge_from_store digests digest_of counting subject restored_fully
              resolver 0
            ≡ counting.consume_and_perform
                (permit_for digests digest_of counting snapshot subject restored_fully b r)
                0))
perform_physical_purge-IsPurgeable_example =
    perform_physical_purge-IsPurgeable digests digest_of counting subject restored_fully resolver 0
      activated-valid purges

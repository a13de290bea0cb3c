-- ===== src/Protocols/Governance.antt =====
-- protocols/recovery.py, fifth part: tombstones and holds, and what they permit. The stores that
-- consume a permit and perform its action are interfaces of the source, so they are parameters on a
-- state of their own, as is the digest of a stream.
pub mod Streams
pub mod Purges
pub mod Exceptions
use nipo_science.Prelude.{
  Bool, List, Option, Result, Sha256, Text, Timestamp, Uuid, [], any, err, false, if◌then◌else◌,
  is_absent, length, ltb, nat_eq, none, not, ok, optional_text_eq, some, suc, text_eq, true,
  uuid_pair_eq, uuid_triple_eq, zero, ℕ, ◌!=◌, ◌&&◌, ◌==◌, ◌||◌, ◌∷◌,
}
use nipo_science.Protocols.Attempts.{Moment, attempt_status_eq, effect_state_eq}
use nipo_science.Protocols.Restore.{
  RestoreError, RestoreGovernanceManifest, RestoreGovernanceResolver, RestoreLifecycle, activated,
  break_glass_unauthorized, restore_occurred_at, restore_phase_eq, roots_eq, texts_eq,
}
use nipo_science.Protocols.Restore.Advance.{validate_activation_receipt, validate_restore_authority}

pub record TombstoneRecord : Type 0 where
  pub subject_id : Uuid
  pub sequence : ℕ
  pub recorded_at : Timestamp
  pub digest : Sha256

pub record HoldRecord : Type 0 where
  pub subject_id : Uuid
  pub sequence : ℕ
  pub active : Bool
  pub recorded_at : Timestamp
  pub digest : Sha256

pub record GovernanceSnapshot : Type 0 where
  pub revision : ℕ
  pub tombstones : List TombstoneRecord
  pub holds : List HoldRecord

pub data GovernedAction : Type 0 where
  visibility purge : GovernedAction

pub record GovernancePermit : Type 0 where
  pub subject_id : Uuid
  pub revision : ℕ
  pub tombstone_root_sha256 : Sha256
  pub hold_root_sha256 : Sha256
  pub action : GovernedAction

pub record PhysicalPurgePermit : Type 0 where
  pub governance : GovernancePermit
  pub backup_sha256 : Sha256
  pub restore_epoch : ℕ
  pub activation_receipt_sha256 : Sha256

-- `GovernanceActionStore` and `PhysicalPurgeAuthority`: a read, and the call that consumes a permit
-- and performs the action.
pub record ActionStore (P S : Type 0) : Type 0 where
  pub read_snapshot : S → GovernanceSnapshot × S
  pub consume_and_perform : P → S → Bool × S

-- `_stream_digest` on each of the two streams.
pub record StreamDigests : Type 0 where
  pub tombstone_digest : List TombstoneRecord → Sha256
  pub hold_digest : List HoldRecord → Sha256

unfoldable pub normal_access_allowed : List TombstoneRecord → Uuid → Bool
normal_access_allowed tombstones subject_id =
    not (any (λ deletion. deletion.subject_id == subject_id) tombstones)

-- `range(first, first + count)`
unfoldable pub numbers_from : ℕ → ℕ → List ℕ
numbers_from first zero = []
numbers_from first (suc count) = first ∷ numbers_from (suc first) count

abbrev pub sequence_numbers {ℓ} : {A : Type ℓ} → (A → ℕ) → List A → List ℕ
sequence_numbers sequence_of [] = []
sequence_numbers sequence_of (entry ∷ entries) =
    sequence_of entry ∷ sequence_numbers sequence_of entries

-- `_stream_matches_snapshot`
unfoldable pub stream_matches_snapshot {ℓ} :
    {A : Type ℓ} → (A → ℕ) → (List A → Sha256) → List A → ℕ → Option Sha256 → Bool
unfolding numbers_from
stream_matches_snapshot sequence_of stream_digest entries high_watermark expected_digest =
    if is_absent expected_digest || length entries != high_watermark
    then false
    else if sequence_numbers sequence_of entries == numbers_from 1 high_watermark
    then some (stream_digest entries) == expected_digest
    else false

-- The holds of a subject, and whether the last one is active.
abbrev pub holds_of : Uuid → List HoldRecord → List HoldRecord
holds_of subject_id [] = []
holds_of subject_id (hold ∷ rest) =
    if hold.subject_id == subject_id
    then hold ∷ holds_of subject_id rest
    else holds_of subject_id rest

abbrev pub is_held : List HoldRecord → Bool
is_held [] = false
is_held (hold ∷ []) = hold.active
is_held (hold ∷ next ∷ rest) = is_held (next ∷ rest)

abbrev pub passed : Result RestoreError (Unit {0}) → Bool
passed (ok _) = true
passed (err _) = false

module _ (digests : StreamDigests) where
  unfoldable pub governance_permit : GovernanceSnapshot → Uuid → GovernedAction → GovernancePermit
  governance_permit snapshot subject_id action = record {
    subject_id = subject_id;
    revision = snapshot.revision;
    tombstone_root_sha256 = digests.tombstone_digest snapshot.tombstones;
    hold_root_sha256 = digests.hold_digest snapshot.holds;
    action = action;
  }

  -- `_governance_snapshot_matches`
  unfoldable pub snapshot_matches : List TombstoneRecord → List HoldRecord → RestoreLifecycle → Bool
  snapshot_matches tombstones hold_stream governance =
      stream_matches_snapshot (λ deletion. deletion.sequence) digests.tombstone_digest tombstones
        governance.replayed_tombstone_high_watermark governance.tombstone_stream_sha256
      && stream_matches_snapshot (λ hold. hold.sequence) digests.hold_digest hold_stream
          governance.replayed_hold_high_watermark governance.hold_stream_sha256

  unfoldable pub perform_normal_access_from_store :
      {S : Type 0} → ActionStore GovernancePermit S → Uuid → S → Bool × S
  perform_normal_access_from_store store subject_id s =
      let (snapshot, read) = store.read_snapshot s in
      if ltb snapshot.revision 1 || not (normal_access_allowed snapshot.tombstones subject_id)
      then (false, read)
      else store.consume_and_perform (governance_permit snapshot subject_id visibility) read

  module _ (manifest_digest : RestoreGovernanceManifest → Sha256) where
    unfoldable pub physical_purge_allowed :
        List TombstoneRecord
        → List HoldRecord
        → Uuid
        → RestoreLifecycle
        → RestoreGovernanceResolver
        → Bool
    physical_purge_allowed tombstones hold_stream subject_id governance resolver =
        if governance.phase != activated
        then false
        else if not (
            passed (validate_restore_authority manifest_digest resolver governance)
            && passed (validate_activation_receipt resolver governance))
        then false
        else if not (snapshot_matches tombstones hold_stream governance)
        then false
        else (any (λ deletion. deletion.subject_id == subject_id) tombstones
            && not (is_held (holds_of subject_id hold_stream)))

    -- The permit of a purge, when the backup and the receipt are known.
    abbrev pub purge_permit :
        GovernanceSnapshot
        → Uuid
        → RestoreLifecycle
        → Option Sha256
        → Option Sha256
        → Option PhysicalPurgePermit
    purge_permit snapshot subject_id governance (some backup) (some receipt) = some (record {
      governance = governance_permit snapshot subject_id purge;
      backup_sha256 = backup;
      restore_epoch = governance.restore_epoch;
      activation_receipt_sha256 = receipt;
    })
    purge_permit snapshot subject_id governance none receipt = none
    purge_permit snapshot subject_id governance (some backup) none = none

    abbrev pub send_purge :
        {S : Type 0} → ActionStore PhysicalPurgePermit S → Option PhysicalPurgePermit → S → Bool × S
    send_purge store none s = (false, s)
    send_purge store (some permit) s = store.consume_and_perform permit s

    unfoldable pub perform_physical_purge_from_store :
        {S : Type 0}
        → ActionStore PhysicalPurgePermit S
        → Uuid
        → RestoreLifecycle
        → RestoreGovernanceResolver
        → S
        → Bool × S
    perform_physical_purge_from_store store subject_id governance resolver s =
        let (snapshot, read) = store.read_snapshot s in
        if ltb snapshot.revision 1
          || not (
              physical_purge_allowed snapshot.tombstones snapshot.holds subject_id governance
                resolver)
        then (false, read)
        else send_purge store
            (purge_permit snapshot subject_id governance governance.backup_sha256
              governance.activation_receipt_sha256)
            read

pub record BreakGlassGrant : Type 0 where
  pub grant_id : Uuid
  pub subject_id : Uuid
  pub restore_epoch : ℕ
  pub expires_at : Timestamp
  pub authorized_by : Uuid
  pub audit_id : Text

pub record BreakGlassActionRequest : Type 0 where
  pub grant : BreakGlassGrant
  pub subject_id : Uuid
  pub restore_epoch : ℕ
  pub occurred_at : Moment
  pub action : Text

-- The authority's transaction, and the refusal of a request that it does not perform.
unfoldable pub perform_break_glass_action :
    {S : Type 0}
    → (BreakGlassActionRequest → S → Bool × S)
    → BreakGlassActionRequest
    → S
    → Result RestoreError (Unit {0}) × S
perform_break_glass_action resolve_consume_and_perform request s =
    if not request.occurred_at.is_utc
    then (err restore_occurred_at, s)
    else if request.subject_id != request.grant.subject_id
    then (err break_glass_unauthorized, s)
    else let (performed, after) = resolve_consume_and_perform request s in
      if not performed then (err break_glass_unauthorized, after) else (ok tt, after)

-- ===== src/Protocols/Governance/Purges.antt =====
-- When a subject may be purged, and what a purge asks of its authority.
use nipo_science.Prelude.{
  Bool, List, Option, Result, Sha256, Uuid, ap, arith, err, false, if◌then◌else◌, nat_eq, none, not,
  ok, optional_text_eq, refl, some, sym, text_eq, true, uuid_pair_eq, uuid_triple_eq, ℕ, ◌&&◌, ◌||◌,
  ◌∙◌, ◌≡◌,
}
use nipo_science.Protocols.Governance.{
  ActionStore, GovernanceSnapshot, HoldRecord, PhysicalPurgePermit, StreamDigests, TombstoneRecord,
  governance_permit, holds_of, is_held, normal_access_allowed, numbers_from, passed,
  perform_physical_purge_from_store, physical_purge_allowed, purge, purge_permit, send_purge,
  sequence_numbers, snapshot_matches, stream_matches_snapshot,
}
use nipo_science.Protocols.Governance.Streams.{
  IsDeleted, IsReleased, hidden-IsDeleted, is_held-IsReleased,
}
use nipo_science.Protocols.Restore.{
  RestoreError, RestoreGovernanceManifest, RestoreGovernanceResolver, RestoreLifecycle,
  RestorePhase, activated, is_gated, new_lifecycle, restore_phase_eq, roots_eq, texts_eq,
}
use nipo_science.Protocols.Restore.Advance.{
  authority_check, validate_authority_of, validate_restore_authority,
}
use nipo_science.Protocols.Restore.Sealed.{gated-IsGoverned}

-- A stream that matches a snapshot is complete and in order, and has its digest.
stream_parts :
    {A : Type 0} (sequence_of : A → ℕ) (digest : List A → Sha256) (entries : List A) (high : ℕ)
    (expected : Option Sha256)
    → stream_matches_snapshot sequence_of digest entries high expected ≡ true
    → (sequence_numbers sequence_of entries ≡ numbers_from 1 high)
      × (expected ≡ some (digest entries))
unfolding stream_matches_snapshot
stream_parts sequence_of digest entries high expected h = ground arith

both_parts : (a b : Bool) → (a && b) ≡ true → (a ≡ true) × (b ≡ true)
both_parts a b h = ground arith

gated_active : (x : RestorePhase) → x ≡ activated → is_gated x ≡ true
unfolding is_gated
gated_active x h = ground arith

module _ (digests : StreamDigests) (manifest_digest : RestoreGovernanceManifest → Sha256) where
  -- The tests of a purge, one after another.
  allowed_parts :
      (tombstones : List TombstoneRecord) (hold_stream : List HoldRecord) (subject : Uuid)
      (l : RestoreLifecycle) (resolver : RestoreGovernanceResolver)
      → physical_purge_allowed digests manifest_digest tombstones hold_stream subject l resolver
        ≡ true
      → (l.phase ≡ activated)
        × (passed (validate_restore_authority manifest_digest resolver l) ≡ true)
        × (snapshot_matches digests tombstones hold_stream l ≡ true)
        × (normal_access_allowed tombstones subject ≡ false)
        × (is_held (holds_of subject hold_stream) ≡ false)
  unfolding physical_purge_allowed normal_access_allowed
  allowed_parts tombstones hold_stream subject l resolver h = ground arith

  authority_parts :
      (resolver : RestoreGovernanceResolver) (m : RestoreGovernanceManifest) (backup : Sha256)
      (epoch : ℕ)
      → validate_authority_of manifest_digest resolver m backup epoch ≡ ok tt
      → (resolver.resolve_manifest_anchor backup epoch ≡ some (manifest_digest m))
        × (resolver.resolve_tombstone_stream_root backup epoch ≡ some m.tombstone_stream_sha256)
        × (resolver.resolve_hold_stream_root backup epoch ≡ some m.hold_stream_sha256)
  unfolding validate_authority_of
  authority_parts resolver m backup epoch h = ground arith

  checked_authority :
      (resolver : RestoreGovernanceResolver) (m : RestoreGovernanceManifest) (backup : Sha256)
      (epoch e : ℕ) (o : Option RestoreGovernanceManifest) (b : Option Sha256)
      → e ≡ epoch
      → o ≡ some m
      → b ≡ some backup
      → authority_check manifest_digest resolver e o b ≡ ok tt
      → validate_authority_of manifest_digest resolver m backup epoch ≡ ok tt
  checked_authority resolver m backup epoch e o b p q r h = rw (p, q, r) at h

  passed_parts : (r : Result RestoreError (Unit {0})) → passed r ≡ true → r ≡ ok tt
  passed_parts (ok x) h = refl
  passed_parts (err e) h = absurd (cc h)

  -- What a purge rests on: the streams are those of the anchored manifest, complete, in order, and
  -- with the roots that the resolver gives; a tombstone of the subject is among
  -- them, and its last hold, if it has one, is not active.
  pub record IsPurgeable (tombstones : List TombstoneRecord) (hold_stream : List HoldRecord)
      (subject : Uuid) (l : RestoreLifecycle) (resolver : RestoreGovernanceResolver) : Type 0 where
    pub active_restore : l.phase ≡ activated
    pub manifest : RestoreGovernanceManifest
    pub has_manifest : l.governance_manifest ≡ some manifest
    pub anchor :
        resolver.resolve_manifest_anchor manifest.backup_sha256 manifest.restore_epoch
        ≡ some (manifest_digest manifest)
    pub tombstone_root :
        resolver.resolve_tombstone_stream_root manifest.backup_sha256 manifest.restore_epoch
        ≡ some (digests.tombstone_digest tombstones)
    pub hold_root :
        resolver.resolve_hold_stream_root manifest.backup_sha256 manifest.restore_epoch
        ≡ some (digests.hold_digest hold_stream)
    pub all_tombstones :
        sequence_numbers (λ deletion. deletion.sequence) tombstones
        ≡ numbers_from 1 manifest.tombstone_high_watermark
    pub all_holds :
        sequence_numbers (λ hold. hold.sequence) hold_stream
        ≡ numbers_from 1 manifest.hold_high_watermark
    pub hidden : IsDeleted subject tombstones
    pub released : IsReleased subject hold_stream

  -- A purge that is allowed by a valid lifecycle is purgeable in that sense.
  pub physical_purge_allowed-IsPurgeable :
      (tombstones : List TombstoneRecord) (hold_stream : List HoldRecord) (subject : Uuid)
      (l : RestoreLifecycle) (resolver : RestoreGovernanceResolver)
      → new_lifecycle manifest_digest l ≡ ok l
      → physical_purge_allowed digests manifest_digest tombstones hold_stream subject l resolver
        ≡ true
      → IsPurgeable tombstones hold_stream subject l resolver
  unfolding snapshot_matches validate_restore_authority
  physical_purge_allowed-IsPurgeable tombstones hold_stream subject l resolver valid h =
      let (active, trusted, matched, hidden, released) =
        allowed_parts tombstones hold_stream subject l resolver h in
      let sealed = gated-IsGoverned manifest_digest l valid (gated_active l.phase active) in
      let m = sealed.manifest in
      let (stones, holds_match) = both_parts _ _ matched in
      let (all_stones, stone_digest) =
        stream_parts (λ deletion. deletion.sequence) digests.tombstone_digest tombstones
          l.replayed_tombstone_high_watermark l.tombstone_stream_sha256 stones in
      let (all_holds, hold_digest) =
        stream_parts (λ hold. hold.sequence) digests.hold_digest hold_stream
          l.replayed_hold_high_watermark l.hold_stream_sha256 holds_match in
      let (anchor, stone_root, hold_root) =
        authority_parts resolver m m.backup_sha256 m.restore_epoch (
          checked_authority resolver m m.backup_sha256 m.restore_epoch l.restore_epoch
            l.governance_manifest l.backup_sha256 sealed.epoch sealed.has_manifest sealed.verified.1
            (passed_parts (validate_restore_authority manifest_digest resolver l) trusted)) in
      record {
        active_restore = active;
        manifest = m;
        has_manifest = sealed.has_manifest;
        anchor = anchor;
        tombstone_root = stone_root ∙ sym sealed.tombstones.1 ∙ stone_digest;
        hold_root = hold_root ∙ sym sealed.held_back.1 ∙ hold_digest;
        all_tombstones = all_stones ∙ ap (numbers_from 1) sealed.tombstones.0;
        all_holds = all_holds ∙ ap (numbers_from 1) sealed.held_back.0;
        hidden = hidden-IsDeleted subject tombstones hidden;
        released = is_held-IsReleased subject hold_stream released;
      }

  module _ {S : Type 0} (store : ActionStore PhysicalPurgePermit S) where
    -- The permit of a purge in a restore.
    abbrev pub permit_for :
        GovernanceSnapshot → Uuid → RestoreLifecycle → Sha256 → Sha256 → PhysicalPurgePermit
    permit_for snapshot subject l backup receipt = record {
      governance = record {
        subject_id = subject;
        revision = snapshot.revision;
        tombstone_root_sha256 = digests.tombstone_digest snapshot.tombstones;
        hold_root_sha256 = digests.hold_digest snapshot.holds;
        action = purge;
      };
      backup_sha256 = backup;
      restore_epoch = l.restore_epoch;
      activation_receipt_sha256 = receipt;
    }

    sent_parts :
        (snapshot : GovernanceSnapshot) (subject : Uuid) (l : RestoreLifecycle)
        (b r : Option Sha256) (s : S)
        → (send_purge digests manifest_digest store
            (purge_permit digests manifest_digest snapshot subject l b r)
            s).0
          ≡ true
        → (backup : Sha256) × (receipt : Sha256) × (b ≡ some backup)
          × (r ≡ some receipt)
          × (send_purge digests manifest_digest store
                (purge_permit digests manifest_digest snapshot subject l b r)
                s
              ≡ store.consume_and_perform (permit_for snapshot subject l backup receipt) s)
    unfolding governance_permit
    sent_parts snapshot subject l none r s h = absurd (cc h)
    sent_parts snapshot subject l (some backup) none s h = absurd (cc h)
    sent_parts snapshot subject l (some backup) (some receipt) s h =
        (backup, receipt, refl, refl, refl)

    allowed_sent :
        (b : Bool) (s : S) (rest : Bool × S)
        → (if b then (false, s) else rest).0 ≡ true
        → (b ≡ false) × ((if b then (false, s) else rest) ≡ rest)
    allowed_sent true s rest h = absurd (cc h)
    allowed_sent false s rest h = (refl, refl)

    no_refusal : (a b : Bool) → (a || not b) ≡ false → b ≡ true
    no_refusal a b h = ground arith

    -- A purge that a valid lifecycle performs is purgeable by the snapshot that it read: the
    -- restore is activated, the two streams are complete, in order and with the roots that the
    -- resolver gives for the anchored manifest, a tombstone of the subject is among them, and its
    -- last hold, if it has one, is not active. The answer and the state are those of the
    -- authority's consumption of the permit to purge the subject, with the snapshot's revision and
    -- roots, the backup, the epoch and the receipt.
    pub perform_physical_purge-IsPurgeable :
        (subject : Uuid) (l : RestoreLifecycle) (resolver : RestoreGovernanceResolver) (s : S)
        → new_lifecycle manifest_digest l ≡ ok l
        → (perform_physical_purge_from_store digests manifest_digest store subject l resolver s).0
          ≡ true
        → IsPurgeable
            (store.read_snapshot s).0.tombstones
            (store.read_snapshot s).0.holds
            subject
            l
            resolver
          × ((backup : Sha256) × (receipt : Sha256) × (l.backup_sha256 ≡ some backup)
              × (l.activation_receipt_sha256 ≡ some receipt)
              × (perform_physical_purge_from_store digests manifest_digest store subject l resolver
                    s
                  ≡ store.consume_and_perform
                      (permit_for (store.read_snapshot s).0 subject l backup receipt)
                      (store.read_snapshot s).1))
    unfolding perform_physical_purge_from_store
    perform_physical_purge-IsPurgeable subject l resolver s valid h =
        let snapshot = (store.read_snapshot s).0 in
        let (open_gate, same) = allowed_sent _ (store.read_snapshot s).1 _ h in
        let may = no_refusal _ _ open_gate in
        let (backup, receipt, known, kept_receipt, sent) =
          sent_parts snapshot subject l l.backup_sha256 l.activation_receipt_sha256
            (store.read_snapshot s).1 (ap (λ o. o.0) (sym same) ∙ h) in
        (
          physical_purge_allowed-IsPurgeable snapshot.tombstones snapshot.holds subject l resolver
              valid may,
          (backup, receipt, known, kept_receipt, same ∙ sent),
        )

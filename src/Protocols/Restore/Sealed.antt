-- ===== src/Protocols/Restore/Sealed.antt =====
-- What is known of a restore that is ready or activated.
use nipo_science.Prelude.{
  >>=-eq-ok, Bool, Bool-cases, List, Option, Sha256, [], ap, arith, false, inl, inr, is_absent, ltb,
  none, not, ok, ok-injective, raise_if, raise_if-eq-ok, refl, some, subst, sym, true, ◌||◌, ◌∙◌,
  ◌∷◌, ◌≡◌,
}
use nipo_science.Protocols.Restore.{
  RestoreError, RestoreGovernanceManifest, RestoreLifecycle, are_texts, governance_check, is_gated,
  new_lifecycle, receipts_check, restore_manifest_anchor_mismatch, restore_validation,
  validate_governance_of, validate_receipts_of, validate_restore, validate_restore_governance,
  validate_restore_inert_backup, validate_restore_receipts,
}
use nipo_science.Protocols.Restore.Phases.{
  Advanced, RestoreCall, advance_call, advance_call-Advanced, advance_calls,
}

raise_if-passed : (b : Bool) (e : RestoreError) → raise_if b e ≡ ok tt → b ≡ false
raise_if-passed true e h = cc
raise_if-passed false e h = refl

-- What a ready or activated restore has: it is inert, its backup is verified, and its governance is
-- that of the manifest whose digest it is anchored by.
pub record IsGoverned (manifest_digest : RestoreGovernanceManifest → Sha256) (l : RestoreLifecycle)
    : Type 0 where
  pub manifest : RestoreGovernanceManifest
  pub has_manifest : l.governance_manifest ≡ some manifest
  pub anchored : l.governance_manifest_anchor_sha256 ≡ some (manifest_digest manifest)
  pub inert : (l.workers_enabled ≡ false) × (l.egress_enabled ≡ false)
  pub verified :
      (l.backup_digest_verified ≡ true)
      × (l.backup_sha256 ≡ some manifest.backup_sha256)
      × (l.verified_backup_sha256 ≡ some manifest.backup_sha256)
  pub epoch : l.restore_epoch ≡ manifest.restore_epoch
  pub tombstones :
      (l.replayed_tombstone_high_watermark ≡ manifest.tombstone_high_watermark)
      × (l.tombstone_stream_sha256 ≡ some manifest.tombstone_stream_sha256)
  pub held_back :
      (l.replayed_hold_high_watermark ≡ manifest.hold_high_watermark)
      × (l.hold_stream_sha256 ≡ some manifest.hold_stream_sha256)
  pub receipts : l.deletion_receipt_systems ≡ manifest.required_deletion_systems
  pub quarantined : l.quarantined_transient_records ≡ true

inert_parts :
    (l : RestoreLifecycle)
    → validate_restore_inert_backup l ≡ ok tt
    → (l.workers_enabled ≡ false)
      × (l.egress_enabled ≡ false)
      × (l.backup_digest_verified ≡ true)
      × (l.verified_backup_sha256 ≡ l.backup_sha256)
unfolding validate_restore_inert_backup
inert_parts l h = ground arith

receipts_parts :
    (l : RestoreLifecycle) (m : RestoreGovernanceManifest)
    → validate_receipts_of l m ≡ ok tt
    → (l.deletion_receipt_systems ≡ m.required_deletion_systems)
      × (l.quarantined_transient_records ≡ true)
unfolding validate_receipts_of
receipts_parts l m h = ground arith

module _ (manifest_digest : RestoreGovernanceManifest → Sha256) where
  governance_parts :
      (l : RestoreLifecycle) (m : RestoreGovernanceManifest) (anchor : Sha256)
      → validate_governance_of manifest_digest l m anchor ≡ ok tt
      → (manifest_digest m ≡ anchor)
        × (l.backup_sha256 ≡ some m.backup_sha256)
        × (l.restore_epoch ≡ m.restore_epoch)
        × ((l.replayed_tombstone_high_watermark ≡ m.tombstone_high_watermark)
            × (l.tombstone_stream_sha256 ≡ some m.tombstone_stream_sha256))
        × ((l.replayed_hold_high_watermark ≡ m.hold_high_watermark)
            × (l.hold_stream_sha256 ≡ some m.hold_stream_sha256))
  unfolding validate_governance_of
  governance_parts l m anchor h = ground arith

  -- The checks of an anchored manifest, when there is one.
  anchored_parts :
      (l : RestoreLifecycle) (manifest : Option RestoreGovernanceManifest) (root : Option Sha256)
      → governance_check manifest_digest l manifest root ≡ ok tt
      → (m : RestoreGovernanceManifest) × (manifest ≡ some m)
        × ((anchor : Sha256) × (root ≡ some anchor)
            × (validate_governance_of manifest_digest l m anchor ≡ ok tt))
  anchored_parts l none root h = absurd (cc h)
  anchored_parts l (some m) none h = absurd (cc h)
  anchored_parts l (some m) (some anchor) h = (m, refl, (anchor, refl, h))

  pub validate-IsGoverned :
      (l : RestoreLifecycle)
      → validate_restore manifest_digest l ≡ ok tt
      → IsGoverned manifest_digest l
  unfolding validate_restore validate_restore_governance validate_restore_receipts
  validate-IsGoverned l h =
      let (i, inert_so, rest) = >>=-eq-ok (validate_restore_inert_backup l) _ h in
      let (g, governed, received) =
        >>=-eq-ok (validate_restore_governance manifest_digest l) _ rest in
      let (m, known, (anchor, at_anchor, checked)) =
        anchored_parts l l.governance_manifest l.governance_manifest_anchor_sha256 governed in
      let (digest, backup, epoch, stones, held) = governance_parts l m anchor checked in
      let (workers, egress, verified, same) = inert_parts l inert_so in
      let (systems, quarantine) =
        receipts_parts l m (subst (λ o. receipts_check l o ≡ ok tt) known received) in
      record {
        manifest = m;
        has_manifest = known;
        anchored = at_anchor ∙ ap some (sym digest);
        inert = (workers, egress);
        verified = (verified, backup, same ∙ backup);
        epoch = epoch;
        tombstones = stones;
        held_back = held;
        receipts = systems;
        quarantined = quarantine;
      }

  -- The field constraints of a lifecycle.
  abbrev out_of_bounds : RestoreLifecycle → Bool
  out_of_bounds l =
      ltb l.restore_epoch 1
      || (not (are_texts l.required_deletion_systems) || not (are_texts l.deletion_receipt_systems))

  builds :
      (l : RestoreLifecycle)
      → out_of_bounds l ≡ false
      → (is_gated l.phase ≡ true
          → (validate_restore manifest_digest l ≡ ok tt)
            × (is_absent l.activation_receipt_sha256 ≡ false))
      → new_lifecycle manifest_digest l ≡ ok l
  unfolding new_lifecycle
  builds l bounds gate = elim (Bool-cases (is_gated l.phase)) [
    | inl gated ↦ rw (bounds, gated, (gate gated).1, (gate gated).0) refl
    | inr free_phase ↦ rw (bounds, free_phase) refl
  ]

  -- A valid lifecycle in a gated phase has passed the restore's checks and has a receipt.
  gated_parts :
      (l : RestoreLifecycle)
      → new_lifecycle manifest_digest l ≡ ok l
      → is_gated l.phase ≡ true
      → (validate_restore manifest_digest l ≡ ok tt)
        × (is_absent l.activation_receipt_sha256 ≡ false)
  unfolding new_lifecycle
  gated_parts l h gated =
      let (bounds, rest) = raise_if-eq-ok (out_of_bounds l) restore_validation _ h in
      let (present, checks) =
        raise_if-eq-ok (is_absent l.activation_receipt_sha256) restore_manifest_anchor_mismatch _
          (rw gated at rest) in
      let (got, checked, done) = >>=-eq-ok (validate_restore manifest_digest l) _ checks in
      (checked, present)

  pub gated-IsGoverned :
      (l : RestoreLifecycle)
      → new_lifecycle manifest_digest l ≡ ok l
      → is_gated l.phase ≡ true
      → IsGoverned manifest_digest l
  gated-IsGoverned l h gated = validate-IsGoverned l (gated_parts l h gated).0

  -- An advance keeps a lifecycle valid, though it does not validate it again.
  Advanced-valid :
      (l l' : RestoreLifecycle)
      → new_lifecycle manifest_digest l ≡ ok l
      → Advanced manifest_digest l l'
      → new_lifecycle manifest_digest l' ≡ ok l'
  unfolding new_lifecycle validate_restore validate_restore_inert_backup validate_restore_governance
      validate_governance_of validate_restore_receipts validate_receipts_of
  Advanced-valid l l' h step =
      let (bounds, rest) = raise_if-eq-ok (out_of_bounds l) restore_validation _ h in
      let after : RestoreLifecycle = record l {
        phase = step.next;
        activation_receipt_sha256 = step.receipt;
      } in
      subst (λ o. new_lifecycle manifest_digest o ≡ ok o) (sym step.result)
        (builds after bounds step.gate)

  pub advance_calls-valid :
      (cs : List RestoreCall) (l l' : RestoreLifecycle)
      → new_lifecycle manifest_digest l ≡ ok l
      → advance_calls manifest_digest cs l ≡ ok l'
      → new_lifecycle manifest_digest l' ≡ ok l'
  unfolding advance_calls
  advance_calls-valid [] l l' valid h =
      subst (λ o. new_lifecycle manifest_digest o ≡ ok o) (ok-injective h) valid
  advance_calls-valid (c ∷ cs) l l' valid h =
      let (one, first, rest) =
        >>=-eq-ok (advance_call manifest_digest c l) (advance_calls manifest_digest cs) h in
      advance_calls-valid cs one l'
        (Advanced-valid l one valid (advance_call-Advanced manifest_digest c l one first)) rest

  -- Whatever calls take a valid restore to the ready or the activated phase, it is inert there, its
  -- backup is verified, it has a receipt, and its governance is that of an anchored manifest.
  pub advance_calls-IsGoverned :
      (cs : List RestoreCall) (l l' : RestoreLifecycle)
      → new_lifecycle manifest_digest l ≡ ok l
      → advance_calls manifest_digest cs l ≡ ok l'
      → is_gated l'.phase ≡ true
      → IsGoverned manifest_digest l' × (is_absent l'.activation_receipt_sha256 ≡ false)
  advance_calls-IsGoverned cs l l' valid h gated =
      let now = advance_calls-valid cs l l' valid h in
      (gated-IsGoverned l' now gated, (gated_parts l' now gated).1)

-- ===== src/Protocols/Governance/Exceptions.antt =====
-- Access to a deleted subject, and the exception to it.
use nipo_science.Prelude.{
  Bool, Bool-cases, Result, Uuid, ap, arith, err, false, if◌then◌else◌, inl, inr, ltb, nat_eq, not,
  ok, optional_text_eq, refl, text_eq, true, uuid_pair_eq, uuid_triple_eq, ◌!=◌, ◌↔◌, ◌≡◌,
}
use nipo_science.Protocols.Governance.{
  ActionStore, BreakGlassActionRequest, GovernancePermit, StreamDigests, normal_access_allowed,
  perform_break_glass_action, perform_normal_access_from_store,
}
use nipo_science.Protocols.Restore.{
  RestoreError, break_glass_unauthorized, restore_phase_eq, roots_eq, texts_eq,
}

-- A subject that a snapshot's tombstones deny is not accessed, whatever the store would answer, and
-- the store is not asked; so a subject that a purge found deleted is not accessed on its snapshot.
pub perform_normal_access_denied :
    (digests : StreamDigests) {S : Type 0} (store : ActionStore GovernancePermit S) (subject : Uuid)
    (s : S)
    → normal_access_allowed (store.read_snapshot s).0.tombstones subject ≡ false
    → perform_normal_access_from_store digests store subject s ≡ (false, (store.read_snapshot s).1)
unfolding perform_normal_access_from_store
perform_normal_access_denied digests store subject s denied =
    elim (Bool-cases (ltb (store.read_snapshot s).0.revision 1)) [
      | inl early ↦ rw (early) refl
      | inr read ↦ rw (read, denied) refl
    ]

-- What the code makes of the authority's answer.
abbrev reported : {S : Type 0} → Bool × S → Result RestoreError (Unit {0}) × S
reported (performed, after) =
    if not performed then (err break_glass_unauthorized, after) else (ok tt, after)

reported-eq-ok :
    {S : Type 0} (out : Bool × S) {after : S} → reported out ≡ (ok tt, after) → out ≡ (true, after)
reported-eq-ok (true, s) h = ap (λ x. (true, x.1)) h
reported-eq-ok (false, s) h = absurd (cc (ap (λ x. x.0) h))

-- An exceptional action is performed exactly for a request of the grant's subject, dated in UTC,
-- that the authority consumes; the authority is asked once, and for no other request.
pub perform_break_glass_action_iff :
    {S : Type 0} (authority : BreakGlassActionRequest → S → Bool × S)
    (request : BreakGlassActionRequest) (s after : S)
    → (perform_break_glass_action authority request s ≡ (ok tt, after)) ↔ (
        (request.occurred_at.is_utc ≡ true)
        × (request.subject_id ≡ request.grant.subject_id)
        × (authority request s ≡ (true, after)))
unfolding perform_break_glass_action
perform_break_glass_action_iff authority request s after = (
  λ h. elim (Bool-cases (not request.occurred_at.is_utc)) [
    | inl local ↦ absurd (cc (ap (λ x. x.0) (rw local at h)))
    | inr utc ↦ elim (Bool-cases (request.subject_id != request.grant.subject_id)) [
      | inl other ↦ absurd (cc (ap (λ x. x.0) (rw (utc, other) at h)))
      | inr own ↦ (
        ground (arith, utc),
        ground (arith, own),
        reported-eq-ok (authority request s) (rw (utc, own) at h),
      )
    ]
  ],
  λ h.
      let utc : not request.occurred_at.is_utc ≡ false = ground (arith, h.0) in
      let own : (request.subject_id != request.grant.subject_id) ≡ false = ground (arith, h.1) in
      rw (utc, own) (ap reported h.2),
)

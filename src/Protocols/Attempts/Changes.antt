-- ===== src/Protocols/Attempts/Changes.antt =====
-- What one transition of an attempt changes, and under which conditions.
use nipo_science.Prelude.{
  >>=-eq-ok, Result, Text, Timestamp, arith, if◌then◌else◌, inl, inr, leb, mem, nat_eq, none, not,
  ok, optional_text_eq, raise_if, refl, some, sym, text_eq, true, uuid_pair_eq, uuid_triple_eq, ℕ,
  ◌!=◌, ◌&&◌, ◌+◌, ◌<◌, ◌==◌, ◌>>◌, ◌↔◌, ◌≡◌, ◌≢◌, ◌≤◌, ◌⊎◌,
}
use nipo_science.Protocols.Attempts.{
  AttemptOutcome, AttemptStatus, EffectState, ExecutionAttempt, Moment, RecoveryError, ambiguous,
  as_completed, as_failed, attempt_outcome, attempt_status_eq, claim_attempt, claim_queued,
  claim_taken, committed, complete_attempt, effect_state_eq, effects_after, fenced_off,
  heartbeat_attempt, invalid_effect_transition, invalid_lease_deadline, is_success, new_attempt,
  not_started, record_effect, require_lease, unproven_effect, valid_effects, validation_error,
}
use nipo_science.Protocols.Attempts.Validity.{IsAttempt, new_attempt_iff}

-- The record that each branch leaves.
abbrev pub claimed_as : ExecutionAttempt → Text → Timestamp → ExecutionAttempt
claimed_as a lease_owner deadline = record a {
  lease_owner = some lease_owner;
  deadline = deadline;
  status = AttemptStatus.claimed;
}

abbrev pub reclaimed_as : ExecutionAttempt → Text → Timestamp → ExecutionAttempt
reclaimed_as a lease_owner deadline = record a {
  lease_owner = some lease_owner;
  attempt_token = a.attempt_token + 1;
  deadline = deadline;
  status = AttemptStatus.claimed;
}

abbrev pub ended_as : ExecutionAttempt → AttemptOutcome → ExecutionAttempt
ended_as a outcome = record a {
  attempt_token = a.attempt_token + 1;
  lease_owner = none;
  status = attempt_outcome outcome;
}

-- One transition.
pub data Change (a : ExecutionAttempt) : ExecutionAttempt → Type 0 where
  taken :
      (lease_owner : Text) (deadline : Timestamp)
      → a.status ≡ AttemptStatus.queued
      → a.effect_state ≡ not_started
      → Change a (claimed_as a lease_owner deadline)
  retaken :
      (lease_owner : Text) (deadline : Timestamp)
      → a.status ≡ AttemptStatus.claimed
      → a.effect_state ≡ not_started
      → Change a (reclaimed_as a lease_owner deadline)
  fenced :
      (a.status ≡ AttemptStatus.claimed) ⊎ (a.status ≡ AttemptStatus.queued)
      → a.effect_state ≢ not_started
      → Change a (fenced_off a)
  renewed :
      (deadline : Timestamp)
      → a.status ≡ AttemptStatus.claimed
      → Change a (record a { deadline = deadline })
  recorded :
      (effect : EffectState)
      → a.status ≡ AttemptStatus.claimed
      → mem effect (effects_after a.effect_state) ≡ true
      → effect ≢ ambiguous
      → Change a (record a { effect_state = effect })
  lost :
      a.status ≡ AttemptStatus.claimed
      → Change a (record (fenced_off a) { effect_state = ambiguous })
  ended :
      (outcome : AttemptOutcome)
      → a.status ≡ AttemptStatus.claimed
      → mem a.effect_state (valid_effects (attempt_outcome outcome)) ≡ true
      → Change a (ended_as a outcome)

claim_queued_parts :
    (a : ExecutionAttempt) (lease_owner : Text) (deadline : Moment) {b : ExecutionAttempt}
    → claim_queued a lease_owner deadline ≡ ok b
    → ((a.effect_state ≡ not_started)
        × (new_attempt (claimed_as a lease_owner deadline.instant) ≡ ok b))
      ⊎ ((a.effect_state ≢ not_started) × (new_attempt (fenced_off a) ≡ ok b))
unfolding claim_queued
claim_queued_parts a lease_owner deadline h = ground arith

claim_taken_parts :
    (a : ExecutionAttempt) (lease_owner : Text) (now : Timestamp) (deadline : Moment)
    {b : ExecutionAttempt}
    → claim_taken a lease_owner now deadline ≡ ok b
    → (a.status ≡ AttemptStatus.claimed)
      × (a.deadline ≤ now)
      × (((a.effect_state ≡ not_started)
            × (new_attempt (reclaimed_as a lease_owner deadline.instant) ≡ ok b))
          ⊎ ((a.effect_state ≢ not_started) × (new_attempt (fenced_off a) ≡ ok b)))
unfolding claim_taken
claim_taken_parts a lease_owner now deadline h = ground arith

claim_parts :
    (a : ExecutionAttempt) (lease_owner : Text) (token : ℕ) (now deadline : Moment)
    {b : ExecutionAttempt}
    → claim_attempt a lease_owner token now deadline ≡ ok b
    → (now.is_utc ≡ true)
      × (token ≡ a.attempt_token)
      × (now.instant < deadline.instant)
      × (((a.status ≡ AttemptStatus.queued) × (claim_queued a lease_owner deadline ≡ ok b))
          ⊎ (claim_taken a lease_owner now.instant deadline ≡ ok b))
unfolding claim_attempt
claim_parts a lease_owner token now deadline h = ground arith

-- A worker's call that passes holds the lease.
pub record HoldsLease (a : ExecutionAttempt) (lease_owner : Text) (token : ℕ) (now : Moment)
    : Type 0 where
  pub utc : now.is_utc ≡ true
  pub fence : token ≡ a.attempt_token
  pub status : a.status ≡ AttemptStatus.claimed
  pub owner : a.lease_owner ≡ some lease_owner
  pub live : now.instant < a.deadline

pub require_lease_iff :
    (a : ExecutionAttempt) (lease_owner : Text) (token : ℕ) (now : Moment)
    → (require_lease a lease_owner token now ≡ ok tt) ↔ HoldsLease a lease_owner token now
unfolding require_lease
require_lease_iff a lease_owner token now = (
  λ h. record {
    utc = ground arith;
    fence = ground arith;
    status = ground arith;
    owner = ground arith;
    live = ground arith;
  },
  λ h. ground (arith, h.utc, h.fence, h.status, h.owner, h.live),
)

leased_parts :
    (a : ExecutionAttempt) (lease_owner : Text) (token : ℕ) (now : Moment)
    (rest : Result RecoveryError ExecutionAttempt) {b : ExecutionAttempt}
    → (require_lease a lease_owner token now >> rest) ≡ ok b
    → HoldsLease a lease_owner token now × (rest ≡ ok b)
leased_parts a lease_owner token now rest h =
    let (u, lease, left) = >>=-eq-ok (require_lease a lease_owner token now) (λ _. rest) h in
    ((require_lease_iff a lease_owner token now).0 lease, left)

-- What each call changes.
pub claim-Change :
    (a : ExecutionAttempt) (lease_owner : Text) (token : ℕ) (now deadline : Moment)
    {b : ExecutionAttempt}
    → claim_attempt a lease_owner token now deadline ≡ ok b
    → Change a b × IsAttempt b
claim-Change a lease_owner token now deadline {b} h =
    let (utc, same, later, cases) = claim_parts a lease_owner token now deadline h in
    elim cases [
      | inl (status, done) ↦ elim (claim_queued_parts a lease_owner deadline done) [
        | inl (effect, made) ↦
            rw ((new_attempt_iff _ b).0 made).0
              (taken lease_owner deadline.instant status effect, ((new_attempt_iff _ b).0 made).1)
        | inr (effect, made) ↦
            rw ((new_attempt_iff _ b).0 made).0
              (fenced (inr status) effect, ((new_attempt_iff _ b).0 made).1)
      ]
      | inr done ↦
          let (status, over, rest) = claim_taken_parts a lease_owner now.instant deadline done in
          elim rest [
            | inl (effect, made) ↦ rw ((new_attempt_iff _ b).0 made).0 (
              retaken lease_owner deadline.instant status effect,
              ((new_attempt_iff _ b).0 made).1,
            )
            | inr (effect, made) ↦
                rw ((new_attempt_iff _ b).0 made).0
                  (fenced (inl status) effect, ((new_attempt_iff _ b).0 made).1)
          ]
    ]

heartbeat_parts :
    (a : ExecutionAttempt) (now : Timestamp) (deadline : Moment)
    (made : Result RecoveryError ExecutionAttempt) {b : ExecutionAttempt}
    → (raise_if (leb deadline.instant now) invalid_lease_deadline
        >> (raise_if (not deadline.is_utc) validation_error >> made))
      ≡ ok b
    → (now < deadline.instant) × (made ≡ ok b)
heartbeat_parts a now deadline made h = ground arith

pub heartbeat-Change :
    (a : ExecutionAttempt) (lease_owner : Text) (token : ℕ) (now deadline : Moment)
    {b : ExecutionAttempt}
    → heartbeat_attempt a lease_owner token now deadline ≡ ok b
    → HoldsLease a lease_owner token now
      × (b ≡ record a { deadline = deadline.instant })
      × IsAttempt b
unfolding heartbeat_attempt
heartbeat-Change a lease_owner token now deadline {b} h =
    let (held, rest) = leased_parts a lease_owner token now _ h in
    let (later, made) = heartbeat_parts a now.instant deadline _ rest in
    (
      held,
      ((new_attempt_iff _ b).0 made).0,
      rw ((new_attempt_iff _ b).0 made).0 ((new_attempt_iff _ b).0 made).1,
    )

record_parts :
    (a : ExecutionAttempt) (effect : EffectState) {b : ExecutionAttempt}
    → (raise_if (not (mem effect (effects_after a.effect_state))) invalid_effect_transition
        >> (if effect == ambiguous
            then new_attempt (record (fenced_off a) { effect_state = effect })
            else new_attempt (record a { effect_state = effect })))
      ≡ ok b
    → (mem effect (effects_after a.effect_state) ≡ true)
      × (((effect ≡ ambiguous)
            × (new_attempt (record (fenced_off a) { effect_state = ambiguous }) ≡ ok b))
          ⊎ ((effect ≢ ambiguous) × (new_attempt (record a { effect_state = effect }) ≡ ok b)))
record_parts a effect h = ground arith

-- A recorded effect follows the one on record.
pub record_effect_lem :
    (a : ExecutionAttempt) (lease_owner : Text) (token : ℕ) (now : Moment) (effect : EffectState)
    {b : ExecutionAttempt}
    → record_effect a lease_owner token now effect ≡ ok b
    → HoldsLease a lease_owner token now
      × (mem effect (effects_after a.effect_state) ≡ true)
      × (b.effect_state ≡ effect)
      × Change a b
      × IsAttempt b
unfolding record_effect
record_effect_lem a lease_owner token now effect {b} h =
    let (held, rest) = leased_parts a lease_owner token now _ h in
    let (next, cases) = record_parts a effect rest in
    elim cases [
      | inl (same, made) ↦
          rw ((new_attempt_iff _ b).0 made).0
            (held, next, sym same, lost held.status, ((new_attempt_iff _ b).0 made).1)
      | inr (other, made) ↦ rw ((new_attempt_iff _ b).0 made).0 (
        held,
        next,
        refl,
        recorded effect held.status next other,
        ((new_attempt_iff _ b).0 made).1,
      )
    ]

complete_parts :
    (a : ExecutionAttempt) (outcome : AttemptOutcome) {b : ExecutionAttempt}
    → (raise_if (is_success outcome && a.effect_state != committed) unproven_effect
        >> (if not (is_success outcome) && a.effect_state != not_started
            then new_attempt (fenced_off a)
            else new_attempt (ended_as a outcome)))
      ≡ ok b
    → ((a.effect_state ≢ not_started) × (new_attempt (fenced_off a) ≡ ok b))
      ⊎ ((mem a.effect_state (valid_effects (attempt_outcome outcome)) ≡ true)
          × (new_attempt (ended_as a outcome) ≡ ok b))
unfolding mem
complete_parts a as_completed h = inr (ground arith, ground arith)
complete_parts a as_failed h = ground arith

pub complete-Change :
    (a : ExecutionAttempt) (lease_owner : Text) (token : ℕ) (now : Moment)
    (outcome : AttemptOutcome) {b : ExecutionAttempt}
    → complete_attempt a lease_owner token now outcome ≡ ok b
    → HoldsLease a lease_owner token now × Change a b × IsAttempt b
unfolding complete_attempt
complete-Change a lease_owner token now outcome {b} h =
    let (held, rest) = leased_parts a lease_owner token now _ h in
    elim (complete_parts a outcome rest) [
      | inl (effect, made) ↦
          rw ((new_attempt_iff _ b).0 made).0
            (held, fenced (inl held.status) effect, ((new_attempt_iff _ b).0 made).1)
      | inr (effect, made) ↦
          rw ((new_attempt_iff _ b).0 made).0
            (held, ended outcome held.status effect, ((new_attempt_iff _ b).0 made).1)
    ]

-- ===== src/Protocols/Attempts/Totality.antt =====
-- Calls on a valid attempt and the validator.
use nipo_science.Prelude.{
  Bool-cases, Text, Timestamp, arith, err, false, inl, inr, mem, nat_eq, ok, optional_text_eq, refl,
  some, text_eq, true, uuid_pair_eq, uuid_triple_eq, ℕ, ◌==◌, ◌≡◌, ◌≢◌,
}
use nipo_science.Protocols.Attempts.{
  AttemptOutcome, AttemptStatus, EffectState, ExecutionAttempt, Moment, ambiguous, as_completed,
  as_failed, attempt_outcome, attempt_status_eq, claim_attempt, claim_queued, claim_taken,
  committed, complete_attempt, effect_state_eq, effects_after, fenced_off, has_lineage,
  heartbeat_attempt, new_attempt, not_started, record_effect, require_lease, started, valid_effects,
  validation_error,
}
use nipo_science.Protocols.Attempts.Changes.{claimed_as, ended_as, reclaimed_as}
use nipo_science.Protocols.Attempts.Validity.{IsAttempt, new_attempt_iff}
use nipo_science.Protocols.Attempts.Walks.{
  Call, call-IsAttempt, call_attempt, claim, complete, effect, heartbeat,
}
use nipo_science.Protocols.Models.{
  approval_binding_eq, approval_status_eq, execution_status_eq, is_optional_text, run_status_eq,
}

abbrev NonEmpty : Text → Type 0
NonEmpty t = is_optional_text (some t) ≡ true

claimed-IsAttempt :
    (a : ExecutionAttempt) (o : Text) (d : Timestamp)
    → IsAttempt a
    → NonEmpty o
    → a.effect_state ≡ not_started
    → IsAttempt (claimed_as a o d)
unfolding mem has_lineage
claimed-IsAttempt a o d v named e = record {
  token = v.token;
  epoch = v.epoch;
  owner_text = named;
  key_text = v.key_text;
  lineage = v.lineage;
  effect = rw e (ground arith);
  leased = ground arith;
  own = v.own;
}

reclaimed-IsAttempt :
    (a : ExecutionAttempt) (o : Text) (d : Timestamp)
    → IsAttempt a
    → NonEmpty o
    → a.effect_state ≡ not_started
    → IsAttempt (reclaimed_as a o d)
unfolding mem has_lineage
reclaimed-IsAttempt a o d v named e = record {
  token = omega arith;
  epoch = v.epoch;
  owner_text = named;
  key_text = v.key_text;
  lineage = v.lineage;
  effect = rw e (ground arith);
  leased = ground arith;
  own = v.own;
}

any_effect : (x : EffectState) → mem x (valid_effects AttemptStatus.reconciliation_required) ≡ true
unfolding mem
any_effect not_started = ground arith
any_effect started = ground arith
any_effect ambiguous = ground arith
any_effect committed = ground arith

fenced-IsAttempt : (a : ExecutionAttempt) → IsAttempt a → IsAttempt (fenced_off a)
unfolding has_lineage
fenced-IsAttempt a v = record {
  token = omega arith;
  epoch = v.epoch;
  owner_text = refl;
  key_text = v.key_text;
  lineage = v.lineage;
  effect = any_effect a.effect_state;
  leased = ground arith;
  own = v.own;
}

lost-IsAttempt :
    (a : ExecutionAttempt) (x : EffectState)
    → IsAttempt a
    → IsAttempt (record (fenced_off a) { effect_state = x })
unfolding has_lineage
lost-IsAttempt a x v = record {
  token = omega arith;
  epoch = v.epoch;
  owner_text = refl;
  key_text = v.key_text;
  lineage = v.lineage;
  effect = any_effect x;
  leased = ground arith;
  own = v.own;
}

renewed-IsAttempt :
    (a : ExecutionAttempt) (d : Timestamp) → IsAttempt a → IsAttempt (record a { deadline = d })
unfolding has_lineage
renewed-IsAttempt a d v = record {
  token = v.token;
  epoch = v.epoch;
  owner_text = v.owner_text;
  key_text = v.key_text;
  lineage = v.lineage;
  effect = v.effect;
  leased = v.leased;
  own = v.own;
}

next_valid :
    (x y : EffectState)
    → mem y (effects_after x) ≡ true
    → y ≢ ambiguous
    → mem y (valid_effects AttemptStatus.claimed) ≡ true
unfolding mem
next_valid x not_started h o = ground arith
next_valid x started h o = ground arith
next_valid x ambiguous h o = absurd (o refl)
next_valid x committed h o = ground arith

recorded-IsAttempt :
    (a : ExecutionAttempt) (x : EffectState)
    → IsAttempt a
    → a.status ≡ AttemptStatus.claimed
    → mem x (effects_after a.effect_state) ≡ true
    → x ≢ ambiguous
    → IsAttempt (record a { effect_state = x })
unfolding has_lineage
recorded-IsAttempt a x v s n o = record {
  token = v.token;
  epoch = v.epoch;
  owner_text = v.owner_text;
  key_text = v.key_text;
  lineage = v.lineage;
  effect = rw s (next_valid a.effect_state x n o);
  leased = v.leased;
  own = v.own;
}

unclaimed : (x : AttemptOutcome) → false ≡ (attempt_outcome x == AttemptStatus.claimed)
unclaimed as_completed = ground arith
unclaimed as_failed = ground arith

ended-IsAttempt :
    (a : ExecutionAttempt) (x : AttemptOutcome)
    → IsAttempt a
    → mem a.effect_state (valid_effects (attempt_outcome x)) ≡ true
    → IsAttempt (ended_as a x)
unfolding has_lineage
ended-IsAttempt a x v e = record {
  token = omega arith;
  epoch = v.epoch;
  owner_text = refl;
  key_text = v.key_text;
  lineage = v.lineage;
  effect = e;
  leased = unclaimed x;
  own = v.own;
}

-- The validator accepts a valid attempt.
accepts : (a : ExecutionAttempt) → IsAttempt a → new_attempt a ≡ ok a
accepts a v = (new_attempt_iff a a).1 (refl, v)

claim_total :
    (a : ExecutionAttempt) (o : Text) (t : ℕ) (now d : Moment)
    → IsAttempt a
    → NonEmpty o
    → d.is_utc ≡ true
    → claim_attempt a o t now d ≢ err validation_error
unfolding claim_attempt claim_queued claim_taken
claim_total a o t now d v named utc h = elim (effect_state_eq.decide a.effect_state not_started) [
  | yes e ↦ ground (
    arith,
    accepts _ (claimed-IsAttempt a o d.instant v named e),
    accepts _ (reclaimed-IsAttempt a o d.instant v named e),
  )
  | no e ↦ ground (arith, accepts _ (fenced-IsAttempt a v))
]

heartbeat_total :
    (a : ExecutionAttempt) (o : Text) (t : ℕ) (now d : Moment)
    → IsAttempt a
    → d.is_utc ≡ true
    → heartbeat_attempt a o t now d ≢ err validation_error
unfolding heartbeat_attempt require_lease
heartbeat_total a o t now d v utc h =
    ground (arith, utc, accepts _ (renewed-IsAttempt a d.instant v))

record_total :
    (a : ExecutionAttempt) (o : Text) (t : ℕ) (now : Moment) (x : EffectState)
    → IsAttempt a
    → record_effect a o t now x ≢ err validation_error
unfolding record_effect require_lease
record_total a o t now x v h = elim (effect_state_eq.decide x ambiguous) [
  | yes same ↦ ground (arith, accepts _ (lost-IsAttempt a x v))
  | no other ↦ elim (Bool-cases (mem x (effects_after a.effect_state))) [
    | inl next ↦ elim (attempt_status_eq.decide a.status AttemptStatus.claimed) [
      | yes s ↦ ground (arith, accepts _ (recorded-IsAttempt a x v s next other))
      | no s ↦ ground arith
    ]
    | inr wrong ↦ ground arith
  ]
]

unfit :
    (a : ExecutionAttempt)
    → IsAttempt a
    → (o : Text) (t : ℕ) (now : Moment) (x : AttemptOutcome)
    → mem a.effect_state (valid_effects (attempt_outcome x)) ≡ false
    → complete_attempt a o t now x ≢ err validation_error
unfolding complete_attempt require_lease mem
unfit a v o t now as_completed other h = ground (arith, accepts _ (fenced-IsAttempt a v))
unfit a v o t now as_failed other h = ground (arith, accepts _ (fenced-IsAttempt a v))

complete_total :
    (a : ExecutionAttempt) (o : Text) (t : ℕ) (now : Moment) (x : AttemptOutcome)
    → IsAttempt a
    → complete_attempt a o t now x ≢ err validation_error
unfolding complete_attempt require_lease
complete_total a o t now x v h =
    elim (Bool-cases (mem a.effect_state (valid_effects (attempt_outcome x)))) [
      | inl fits ↦
          ground (arith, accepts _ (ended-IsAttempt a x v fits), accepts _ (fenced-IsAttempt a v))
      | inr other ↦ unfit a v o t now x other h
    ]

-- What a call presents is of the type that the source declares for it: the owner that a claim names
-- is no empty text, and a deadline has the offset of UTC.
abbrev pub IsTyped : Call → Type 0
IsTyped (claim lease_owner token now deadline) = NonEmpty lease_owner × (deadline.is_utc ≡ true)
IsTyped (heartbeat lease_owner token now deadline) = deadline.is_utc ≡ true
IsTyped (effect lease_owner token now state) = Unit
IsTyped (complete lease_owner token now outcome) = Unit

-- On a valid attempt a call, claims being made under a name and the deadlines of claims and
-- heartbeats being in UTC, either returns a valid attempt or rejects with a code of the protocol:
-- the validator does not fail.
pub call_total :
    (c : Call) (a : ExecutionAttempt)
    → IsAttempt a
    → IsTyped c
    → (call_attempt c a ≢ err validation_error)
      × ((b : ExecutionAttempt) → call_attempt c a ≡ ok b → IsAttempt b)
unfolding call_attempt
call_total (claim o t now d) a v (named, utc) =
    (claim_total a o t now d v named utc, λ b. call-IsAttempt (claim o t now d) a)
call_total (heartbeat o t now d) a v utc =
    (heartbeat_total a o t now d v utc, λ b. call-IsAttempt (heartbeat o t now d) a)
call_total (effect o t now x) a v n =
    (record_total a o t now x v, λ b. call-IsAttempt (effect o t now x) a)
call_total (complete o t now x) a v n =
    (complete_total a o t now x v, λ b. call-IsAttempt (complete o t now x) a)

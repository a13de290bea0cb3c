-- ===== src/Protocols/Attempts.antt =====
-- protocols/recovery.py, first part: execution attempts, their leases, effects, reconciliation and
-- retry. An error keeps its code; the two texts that it shows beside it are left out. A clock
-- reading or a presented deadline says whether its offset is UTC; an attempt that has been
-- validated keeps the instant.
pub mod Validity
pub mod Changes
pub mod Walks
pub mod Effects
pub mod Totality
use nipo_science.Prelude.{
  Bool, Eq, List, Option, Result, Sha256, Text, Timestamp, Uuid, [], false, if◌then◌else◌, leb, ltb,
  mem, nat_eq, none, not, ok, optional_text_eq, raise_if, some, text_eq, true, uuid_pair_eq,
  uuid_triple_eq, ℕ, ℕ_discrete, ◌!=◌, ◌&&◌, ◌+◌, ◌==◌, ◌>>=◌, ◌>>◌, ◌||◌, ◌∷◌,
}
use nipo_science.Protocols.Models.{
  approval_binding_eq, approval_status_eq, execution_status_eq, is_optional_text, run_status_eq,
}

pub data EffectState : Type 0 where
  not_started started ambiguous committed : EffectState

pub data AttemptStatus : Type 0 where
  queued claimed completed failed reconciled_no_effect reconciliation_required : AttemptStatus

unfoldable pub EffectState-discrete : Discrete EffectState
EffectState-discrete = hlevel ℕ_discrete

instance abbrev pub effect_state_eq : Eq EffectState
effect_state_eq = record { decide = EffectState-discrete }

unfoldable pub AttemptStatus-discrete : Discrete AttemptStatus
AttemptStatus-discrete = hlevel ℕ_discrete

instance abbrev pub attempt_status_eq : Eq AttemptStatus
attempt_status_eq = record { decide = AttemptStatus-discrete }

-- The codes of `RecoveryProtocolError`, the error of a model validator, and whatever a downstream
-- action raises.
pub data RecoveryError : Type 0 where
  stale_attempt_token invalid_lease_deadline attempt_not_claimable : RecoveryError
  attempt_lease_active lease_owner_mismatch lease_expired : RecoveryError
  invalid_effect_transition unproven_effect retry_id_reuse retry_not_sealed : RecoveryError
  invalid_occurred_at reconciliation_proof_mismatch : RecoveryError
  reconciliation_proof_consumed : RecoveryError
  validation_error action_failed : RecoveryError

-- A timestamp, and whether its offset from UTC is zero.
pub record Moment : Type 0 where
  pub instant : Timestamp
  pub is_utc : Bool

pub record ExecutionAttempt : Type 0 where
  pub execution_id : Uuid
  pub run_id : Uuid
  pub lease_owner : Option Text
  pub attempt_token : ℕ
  pub restore_epoch : ℕ
  pub deadline : Timestamp
  pub effect_state : EffectState
  pub status : AttemptStatus
  pub predecessor_execution_id : Option Uuid
  pub idempotency_key : Option Text
  pub reconciliation_proof_sha256 : Option Sha256

-- `ATTEMPT_VALID_STATES[status].get(effect_state, frozenset())`, by effect state.
abbrev pub valid_effects : AttemptStatus → List EffectState
valid_effects AttemptStatus.queued = not_started ∷ []
valid_effects AttemptStatus.claimed = not_started ∷ started ∷ committed ∷ []
valid_effects AttemptStatus.completed = committed ∷ []
valid_effects AttemptStatus.failed = not_started ∷ []
valid_effects AttemptStatus.reconciled_no_effect = not_started ∷ []
valid_effects AttemptStatus.reconciliation_required =
    not_started ∷ started ∷ ambiguous ∷ committed ∷ []

-- Every entry of the table allows an attempt with a lineage and one without.
unfoldable pub lineage_allowed : AttemptStatus → EffectState → Bool → Bool
lineage_allowed status effect has_lineage = mem effect (valid_effects status)

abbrev pub is_some {ℓ} : {A : Type ℓ} → Option A → Bool
is_some none = false
is_some (some _) = true

abbrev pub is_key : Option Uuid → Uuid → Bool
is_key none id = false
is_key (some key) id = key == id

-- `a != b` of two tests
abbrev pub differs : Bool → Bool → Bool
differs true b = not b
differs false b = b

unfoldable pub has_lineage : ExecutionAttempt → Bool
has_lineage attempt =
    is_some attempt.predecessor_execution_id
    && (is_some attempt.idempotency_key && is_some attempt.reconciliation_proof_sha256)

-- `ExecutionAttempt(...)`: the field constraints and `authority_matches_status`. This is also
-- `_attempt_transition`, which validates the changed attempt.
unfoldable pub new_attempt : ExecutionAttempt → Result RecoveryError ExecutionAttempt
unfolding has_lineage lineage_allowed mem
new_attempt attempt = do
  raise_if
      (ltb attempt.attempt_token 1
        || (ltb attempt.restore_epoch 1
            || (not (is_optional_text attempt.lease_owner)
                || not (is_optional_text attempt.idempotency_key))))
      validation_error
  raise_if
      ((is_some attempt.predecessor_execution_id
          || (is_some attempt.idempotency_key || is_some attempt.reconciliation_proof_sha256))
        && not (has_lineage attempt))
      validation_error
  raise_if (not (lineage_allowed attempt.status attempt.effect_state (has_lineage attempt)))
      validation_error
  raise_if (differs (attempt.status == AttemptStatus.claimed) (is_some attempt.lease_owner))
      validation_error
  raise_if (is_key attempt.predecessor_execution_id attempt.execution_id) validation_error
  ok attempt

-- The fields that put an attempt out of reach of its worker until it is reconciled.
abbrev pub fenced_off : ExecutionAttempt → ExecutionAttempt
fenced_off attempt = record attempt {
  lease_owner = none;
  attempt_token = attempt.attempt_token + 1;
  status = AttemptStatus.reconciliation_required;
}

-- The branches of `claim_attempt` on a queued and on another attempt. The validation of the changed
-- attempt refuses a deadline whose offset is not UTC.
unfoldable pub claim_queued :
    ExecutionAttempt → Text → Moment → Result RecoveryError ExecutionAttempt
claim_queued attempt lease_owner deadline =
    if attempt.effect_state != not_started
    then new_attempt (fenced_off attempt)
    else (raise_if (not deadline.is_utc) validation_error
        >> new_attempt (record attempt {
          lease_owner = some lease_owner;
          deadline = deadline.instant;
          status = AttemptStatus.claimed;
        }))

unfoldable pub claim_taken :
    ExecutionAttempt → Text → Timestamp → Moment → Result RecoveryError ExecutionAttempt
claim_taken attempt lease_owner now deadline = do
  raise_if (attempt.status != AttemptStatus.claimed) attempt_not_claimable
  raise_if (ltb now attempt.deadline) attempt_lease_active
  if attempt.effect_state != not_started
      then new_attempt (fenced_off attempt)
      else (raise_if (not deadline.is_utc) validation_error
          >> new_attempt (record attempt {
            lease_owner = some lease_owner;
            attempt_token = attempt.attempt_token + 1;
            deadline = deadline.instant;
            status = AttemptStatus.claimed;
          }))

unfoldable pub claim_attempt :
    ExecutionAttempt → Text → ℕ → Moment → Moment → Result RecoveryError ExecutionAttempt
claim_attempt attempt lease_owner expected_token now deadline = do
  raise_if (not now.is_utc) invalid_occurred_at
  raise_if (expected_token != attempt.attempt_token) stale_attempt_token
  raise_if (leb deadline.instant now.instant) invalid_lease_deadline
  if attempt.status == AttemptStatus.queued
      then claim_queued attempt lease_owner deadline
      else claim_taken attempt lease_owner now.instant deadline

-- The checks that a worker's call shares: the clock, the token, the owner and the lease.
unfoldable pub require_lease :
    ExecutionAttempt → Text → ℕ → Moment → Result RecoveryError (Unit {0})
require_lease attempt lease_owner expected_token now = do
  raise_if (not now.is_utc) invalid_occurred_at
  raise_if (expected_token != attempt.attempt_token) stale_attempt_token
  raise_if (attempt.status != AttemptStatus.claimed || attempt.lease_owner != some lease_owner)
      lease_owner_mismatch
  raise_if (leb attempt.deadline now.instant) lease_expired

unfoldable pub heartbeat_attempt :
    ExecutionAttempt → Text → ℕ → Moment → Moment → Result RecoveryError ExecutionAttempt
heartbeat_attempt attempt lease_owner expected_token now deadline = do
  require_lease attempt lease_owner expected_token now
  raise_if (leb deadline.instant now.instant) invalid_lease_deadline
  raise_if (not deadline.is_utc) validation_error
  new_attempt (record attempt { deadline = deadline.instant })

-- The effect states that may follow one.
abbrev pub effects_after : EffectState → List EffectState
effects_after not_started = started ∷ ambiguous ∷ []
effects_after started = ambiguous ∷ committed ∷ []
effects_after ambiguous = []
effects_after committed = []

unfoldable pub record_effect :
    ExecutionAttempt → Text → ℕ → Moment → EffectState → Result RecoveryError ExecutionAttempt
record_effect attempt lease_owner expected_token now effect = do
  require_lease attempt lease_owner expected_token now
  raise_if (not (mem effect (effects_after attempt.effect_state))) invalid_effect_transition
  if effect == ambiguous
      then new_attempt (record (fenced_off attempt) { effect_state = effect })
      else new_attempt (record attempt { effect_state = effect })

-- The outcomes of a completion.
pub data AttemptOutcome : Type 0 where
  as_completed as_failed : AttemptOutcome

abbrev pub attempt_outcome : AttemptOutcome → AttemptStatus
attempt_outcome as_completed = AttemptStatus.completed
attempt_outcome as_failed = AttemptStatus.failed

abbrev pub is_success : AttemptOutcome → Bool
is_success as_completed = true
is_success as_failed = false

unfoldable pub complete_attempt :
    ExecutionAttempt → Text → ℕ → Moment → AttemptOutcome → Result RecoveryError ExecutionAttempt
complete_attempt attempt lease_owner expected_token now outcome = do
  require_lease attempt lease_owner expected_token now
  raise_if (is_success outcome && attempt.effect_state != committed) unproven_effect
  if not (is_success outcome) && attempt.effect_state != not_started
      then new_attempt (fenced_off attempt)
      else new_attempt (record attempt {
        attempt_token = attempt.attempt_token + 1;
        lease_owner = none;
        status = attempt_outcome outcome;
      })

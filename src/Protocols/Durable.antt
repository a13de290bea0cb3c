-- ===== src/Protocols/Durable.antt =====
-- protocols/recovery.py, third part: transitions that a durable store computes and persists at its
-- own time. The store is an interface of the source, so its operations are parameters, on a state of
-- its own.
pub mod Refinement
use nipo_science.Prelude.{
  Option, Result, Text, err, if◌then◌else◌, nat_eq, none, not, ok, optional_text_eq, some, text_eq,
  uuid_pair_eq, uuid_triple_eq, ℕ, ◌!=◌,
}
use nipo_science.Protocols.Attempts.{
  AttemptOutcome, EffectState, ExecutionAttempt, Moment, RecoveryError, attempt_status_eq,
  claim_attempt, complete_attempt, effect_state_eq, heartbeat_attempt, invalid_effect_transition,
  invalid_occurred_at, record_effect, stale_attempt_token, started,
}

-- A transition that the store applies to the attempt it holds, at the time it reads.
abbrev pub Transition : Type 0
Transition = ExecutionAttempt → Moment → Result RecoveryError ExecutionAttempt

-- How a downstream action ends once it is called: it returns, or raises.
abbrev pub Action : Type 0
Action = Result RecoveryError (Unit {0})

-- `compare_and_set_at_authoritative_time` and `compare_and_set_perform_at_authoritative_time`, which
-- also calls the action.
pub record AttemptStore (S : Type 0) : Type 0 where
  pub compare_and_set :
      ExecutionAttempt → Transition → S → Result RecoveryError (Option ExecutionAttempt) × S
  pub compare_and_set_perform :
      ExecutionAttempt
      → Transition
      → Action
      → S
      → Result RecoveryError (Option ExecutionAttempt) × S

-- `if replacement is None: reject`, or what the transition or the action raised.
abbrev pub persisted :
    {S : Type 0}
    → Result RecoveryError (Option ExecutionAttempt) × S
    → Result RecoveryError ExecutionAttempt × S
persisted (ok (some replacement), s) = (ok replacement, s)
persisted (ok none, s) = (err stale_attempt_token, s)
persisted (err e, s) = (err e, s)

module _ {S : Type 0} (store : AttemptStore S) where
  unfoldable pub persist_attempt_transition :
      ExecutionAttempt → Transition → S → Result RecoveryError ExecutionAttempt × S
  persist_attempt_transition attempt move s = persisted (store.compare_and_set attempt move s)

  unfoldable pub claim_attempt_durable :
      ExecutionAttempt → Text → ℕ → Moment → Moment → S → Result RecoveryError ExecutionAttempt × S
  claim_attempt_durable attempt lease_owner expected_token occurred_at deadline s =
      if not occurred_at.is_utc
      then (err invalid_occurred_at, s)
      else persist_attempt_transition attempt
          (λ current now. claim_attempt current lease_owner expected_token now deadline) s

  unfoldable pub heartbeat_attempt_durable :
      ExecutionAttempt → Text → ℕ → Moment → Moment → S → Result RecoveryError ExecutionAttempt × S
  heartbeat_attempt_durable attempt lease_owner expected_token occurred_at deadline s =
      if not occurred_at.is_utc
      then (err invalid_occurred_at, s)
      else persist_attempt_transition attempt
          (λ current now. heartbeat_attempt current lease_owner expected_token now deadline) s

  unfoldable pub record_effect_durable :
      ExecutionAttempt
      → Text
      → ℕ
      → Moment
      → EffectState
      → S
      → Result RecoveryError ExecutionAttempt × S
  record_effect_durable attempt lease_owner expected_token occurred_at state s =
      if not occurred_at.is_utc
      then (err invalid_occurred_at, s)
      else persist_attempt_transition attempt
          (λ current now. record_effect current lease_owner expected_token now state) s

  unfoldable pub perform_downstream_effect :
      ExecutionAttempt
      → Text
      → ℕ
      → Moment
      → EffectState
      → Action
      → S
      → Result RecoveryError ExecutionAttempt × S
  perform_downstream_effect attempt lease_owner expected_token occurred_at state action s =
      if not occurred_at.is_utc
      then (err invalid_occurred_at, s)
      else if state != started
      then (err invalid_effect_transition, s)
      else persisted (
          store.compare_and_set_perform attempt
            (λ current now. record_effect current lease_owner expected_token now state) action s)

  unfoldable pub complete_attempt_durable :
      ExecutionAttempt
      → Text
      → ℕ
      → Moment
      → AttemptOutcome
      → S
      → Result RecoveryError ExecutionAttempt × S
  complete_attempt_durable attempt lease_owner expected_token occurred_at outcome s =
      if not occurred_at.is_utc
      then (err invalid_occurred_at, s)
      else persist_attempt_transition attempt
          (λ current now. complete_attempt current lease_owner expected_token now outcome) s

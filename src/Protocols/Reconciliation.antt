-- ===== src/Protocols/Reconciliation.antt =====
-- protocols/recovery.py, second part: sealing an attempt that made no effect, and its retry. The
-- anchors of proofs and the authority that creates retries are interfaces of the source, so they are
-- parameters, as are SHA-256 and the texts of proofs, identifiers and numbers.
pub mod Sealing
use nipo_science.Prelude.{
  Bool, Option, Result, Sha256, Text, Uuid, codes, err, nat_eq, none, not, ok, optional_text_eq,
  raise_if, some, text_eq, uuid_pair_eq, uuid_triple_eq, ℕ, ◌!=◌, ◌++◌, ◌==◌, ◌>>=◌, ◌>>◌, ◌||◌,
}
use nipo_science.Protocols.Attempts.{
  AttemptStatus, EffectState, ExecutionAttempt, Moment, RecoveryError, attempt_status_eq,
  effect_state_eq, is_key, new_attempt, not_started, reconciled_no_effect,
  reconciliation_proof_consumed, reconciliation_proof_mismatch, reconciliation_required,
  retry_id_reuse, retry_not_sealed, validation_error,
}

pub record ReconciliationProof : Type 0 where
  pub predecessor_run_id : Uuid
  pub predecessor_execution_id : Uuid
  pub predecessor_attempt_token : ℕ
  pub predecessor_effect_state : EffectState
  pub reconciliation_root_sha256 : Sha256

-- `json.dumps` of a proof's dump, SHA-256 in hexadecimal, and `str` of a UUID and of an `int`.
pub record ProofServices : Type 0 where
  pub proof_json : ReconciliationProof → Text
  pub sha256 : Text → Sha256
  pub uuid_text : Uuid → Text
  pub decimal : ℕ → Text

pub record RetryCommand : Type 0 where
  pub run_id : Uuid
  pub execution_id : Uuid
  pub deadline : Moment
  pub reconciliation_proof_sha256 : Sha256
  pub idempotency_key : Text

pub data RetryAttemptCreationOutcome : Type 0 where
  created proof_consumed binding_mismatch child_conflict : RetryAttemptCreationOutcome

pub record RetryAttemptCreationRequest : Type 0 where
  pub predecessor : ExecutionAttempt
  pub command : RetryCommand
  pub proof : ReconciliationProof
  pub child : ExecutionAttempt

-- The ids, the token and the effect of the proof are not the attempt's.
unfoldable pub is_foreign : ExecutionAttempt → ReconciliationProof → EffectState → Bool
is_foreign attempt proof state =
    proof.predecessor_run_id != attempt.run_id
    || (proof.predecessor_execution_id != attempt.execution_id
        || (proof.predecessor_attempt_token != attempt.attempt_token
            || proof.predecessor_effect_state != state))

module _ (services : ProofServices) where
  unfoldable pub reconciliation_proof_digest : ReconciliationProof → Sha256
  reconciliation_proof_digest proof = services.sha256 (services.proof_json proof)

  -- The two ids and the token, joined by colons.
  unfoldable pub reconciliation_proof_id : ReconciliationProof → Text
  reconciliation_proof_id proof =
      services.uuid_text proof.predecessor_run_id
      ++ (codes ":"
          ++ (services.uuid_text proof.predecessor_execution_id
              ++ (codes ":" ++ services.decimal proof.predecessor_attempt_token)))

  module _ (resolve_anchor : Text → Option Sha256) where
    unfoldable pub trusted_digest : ReconciliationProof → Result RecoveryError Sha256
    trusted_digest proof = do
      raise_if
          (resolve_anchor (reconciliation_proof_id proof)
            != some (reconciliation_proof_digest proof))
          reconciliation_proof_mismatch
      ok (reconciliation_proof_digest proof)

    unfoldable pub reconcile_no_effect :
        ExecutionAttempt → ReconciliationProof → Result RecoveryError ExecutionAttempt
    reconcile_no_effect attempt proof = do
      raise_if (attempt.status != AttemptStatus.reconciliation_required) retry_not_sealed
      raise_if (attempt.effect_state != not_started || is_foreign attempt proof not_started)
          reconciliation_proof_mismatch
      trusted ← trusted_digest proof
      new_attempt (record attempt { status = AttemptStatus.reconciled_no_effect })

-- The attempt that a retry creates, queued with the first token; its validation refuses a deadline
-- whose offset is not UTC.
abbrev pub child_of : ExecutionAttempt → RetryCommand → ExecutionAttempt
child_of attempt command = record {
  execution_id = command.execution_id;
  run_id = command.run_id;
  lease_owner = none;
  attempt_token = 1;
  restore_epoch = attempt.restore_epoch;
  deadline = command.deadline.instant;
  effect_state = not_started;
  status = AttemptStatus.queued;
  predecessor_execution_id = some attempt.execution_id;
  idempotency_key = some command.idempotency_key;
  reconciliation_proof_sha256 = some command.reconciliation_proof_sha256;
}

-- The checks of `retry_attempt` and the request that it sends.
unfoldable pub retry_request :
    ExecutionAttempt
    → RetryCommand
    → ReconciliationProof
    → Result RecoveryError RetryAttemptCreationRequest
retry_request attempt command proof = do
  raise_if
      (attempt.status != AttemptStatus.reconciled_no_effect || attempt.effect_state != not_started)
      retry_not_sealed
  raise_if (is_key attempt.predecessor_execution_id attempt.execution_id) retry_id_reuse
  raise_if (is_foreign attempt proof attempt.effect_state) reconciliation_proof_mismatch
  raise_if (command.run_id == attempt.run_id || command.execution_id == attempt.execution_id)
      retry_id_reuse
  raise_if (not command.deadline.is_utc) validation_error
  child ← new_attempt (child_of attempt command)
  ok (record { predecessor = attempt; command = command; proof = proof; child = child })

abbrev pub retry_answer :
    ExecutionAttempt → RetryAttemptCreationOutcome → Result RecoveryError ExecutionAttempt
retry_answer child RetryAttemptCreationOutcome.created = ok child
retry_answer child proof_consumed = err reconciliation_proof_consumed
retry_answer child binding_mismatch = err reconciliation_proof_mismatch
retry_answer child child_conflict = err retry_id_reuse

-- `authority.resolve_reserve_and_create`, on the authority's own state.
abbrev pub RetryAuthority : Type 0 → Type 0
RetryAuthority S = RetryAttemptCreationRequest → S → RetryAttemptCreationOutcome × S

abbrev pub send_retry :
    {S : Type 0}
    → RetryAuthority S
    → S
    → Result RecoveryError RetryAttemptCreationRequest
    → Result RecoveryError ExecutionAttempt × S
send_retry authority s (err e) = (err e, s)
send_retry authority s (ok request) =
    let (outcome, s') = authority request s in (retry_answer request.child outcome, s')

unfoldable pub retry_attempt :
    {S : Type 0}
    → RetryAuthority S
    → ExecutionAttempt
    → RetryCommand
    → ReconciliationProof
    → S
    → Result RecoveryError ExecutionAttempt × S
retry_attempt authority attempt command proof s =
    send_retry authority s (retry_request attempt command proof)

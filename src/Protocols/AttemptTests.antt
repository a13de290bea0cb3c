-- ===== src/Protocols/AttemptTests.antt =====
-- Concrete attempts and a sealed retry, to which the theorems apply.
use nipo_science.Prelude.{
  OptionalText-discrete, Text, Text-discrete, Timestamp, arith, codes, err, false, mem, nat_eq,
  none, ok, optional_text_eq, refl, some, text_eq, true, uuid_pair_eq, uuid_triple_eq, ℕ,
  ℕ_discrete, ◌+◌, ◌≡◌, ◌≢◌,
}
use nipo_science.Protocols.Attempts.{
  AttemptStatus, AttemptStatus-discrete, EffectState-discrete, ExecutionAttempt, Moment,
  attempt_status_eq, claim_attempt, claim_queued, effect_state_eq, has_lineage, lineage_allowed,
  new_attempt, not_started, record_effect, require_lease, started, validation_error,
}
use nipo_science.Protocols.Attempts.Totality.{IsTyped, call_total}
use nipo_science.Protocols.Attempts.Validity.{IsAttempt}
use nipo_science.Protocols.Attempts.Walks.{
  Follows, Walk, call_attempt, claim, effect, further, stay, walk-Follows,
}
use nipo_science.Protocols.Reconciliation.{
  ReconciliationProof, RetryAttemptCreationOutcome, RetryAuthority, RetryCommand, is_foreign,
  retry_attempt, retry_request,
}
use nipo_science.Protocols.Reconciliation.Sealing.{IsProofOf, retry_attempt-eq-ok}

abbrev pub worker : Text
worker = codes "worker"

abbrev queued_attempt : ExecutionAttempt
queued_attempt = record {
  execution_id = 5;
  run_id = 3;
  lease_owner = none;
  attempt_token = 1;
  restore_epoch = 1;
  deadline = 0;
  effect_state = not_started;
  status = AttemptStatus.queued;
  predecessor_execution_id = none;
  idempotency_key = none;
  reconciliation_proof_sha256 = none;
}

abbrev pub at_time : Timestamp → Moment
at_time t = record { instant = t; is_utc = true }

abbrev pub held_attempt : ExecutionAttempt
held_attempt = record queued_attempt {
  lease_owner = some worker;
  deadline = 90;
  status = AttemptStatus.claimed;
}

abbrev pub started_attempt : ExecutionAttempt
started_attempt = record held_attempt { effect_state = started }

claims : call_attempt (claim worker 1 (at_time 10) (at_time 90)) queued_attempt ≡ ok held_attempt
unfolding call_attempt claim_attempt claim_queued new_attempt lineage_allowed has_lineage ℕ_discrete
    Text-discrete EffectState-discrete AttemptStatus-discrete OptionalText-discrete mem
claims = refl

starts_effect :
    call_attempt (effect worker 1 (at_time 20) started) held_attempt ≡ ok started_attempt
unfolding call_attempt record_effect require_lease new_attempt lineage_allowed has_lineage
    ℕ_discrete Text-discrete EffectState-discrete AttemptStatus-discrete OptionalText-discrete mem
starts_effect = refl

abbrev two_calls : Walk queued_attempt started_attempt
two_calls =
    further held_attempt (effect worker 1 (at_time 20) started)
      (further queued_attempt (claim worker 1 (at_time 10) (at_time 90)) stay claims) starts_effect

walk-Follows_example : Follows queued_attempt started_attempt
walk-Follows_example = walk-Follows two_calls

queued-IsAttempt : IsAttempt queued_attempt
unfolding has_lineage ℕ_discrete Text-discrete EffectState-discrete AttemptStatus-discrete mem
queued-IsAttempt = record {
  token = omega arith;
  epoch = omega arith;
  owner_text = refl;
  key_text = refl;
  lineage = refl;
  effect = refl;
  leased = refl;
  own = refl;
}

typed : IsTyped (claim worker 1 (at_time 10) (at_time 90))
unfolding Text-discrete ℕ_discrete
typed = (refl, refl)

call_total_example :
    (call_attempt (claim worker 1 (at_time 10) (at_time 90)) queued_attempt ≢ err validation_error)
    × ((b : ExecutionAttempt)
        → call_attempt (claim worker 1 (at_time 10) (at_time 90)) queued_attempt ≡ ok b
        → IsAttempt b)
call_total_example =
    call_total (claim worker 1 (at_time 10) (at_time 90)) queued_attempt queued-IsAttempt typed

-- The validator refuses a deadline whose offset is not UTC.
offset_deadline :
    call_attempt
      (claim worker 1 (at_time 10) (record { instant = 90; is_utc = false }))
      queued_attempt
    ≡ err validation_error
unfolding call_attempt claim_attempt claim_queued ℕ_discrete EffectState-discrete
    AttemptStatus-discrete
offset_deadline = refl

abbrev sealed_attempt : ExecutionAttempt
sealed_attempt = record queued_attempt {
  attempt_token = 3;
  status = AttemptStatus.reconciled_no_effect;
}

abbrev proof : ReconciliationProof
proof = record {
  predecessor_run_id = 3;
  predecessor_execution_id = 5;
  predecessor_attempt_token = 3;
  predecessor_effect_state = not_started;
  reconciliation_root_sha256 = codes "root";
}

abbrev command : RetryCommand
command = record {
  run_id = 4;
  execution_id = 6;
  deadline = at_time 0;
  reconciliation_proof_sha256 = codes "proof";
  idempotency_key = codes "key";
}

abbrev child : ExecutionAttempt
child = record {
  execution_id = 6;
  run_id = 4;
  lease_owner = none;
  attempt_token = 1;
  restore_epoch = 1;
  deadline = 0;
  effect_state = not_started;
  status = AttemptStatus.queued;
  predecessor_execution_id = some 5;
  idempotency_key = some (codes "key");
  reconciliation_proof_sha256 = some (codes "proof");
}

-- An authority that creates every child it is asked for, and counts them.
abbrev lenient : RetryAuthority ℕ
lenient request n = (RetryAttemptCreationOutcome.created, n + 1)

retries : retry_attempt lenient sealed_attempt command proof 0 ≡ (ok child, 1)
unfolding retry_attempt retry_request is_foreign new_attempt lineage_allowed has_lineage ℕ_discrete
    Text-discrete EffectState-discrete AttemptStatus-discrete OptionalText-discrete mem
retries = refl

retry_attempt-eq-ok_example :
    (sealed_attempt.status ≡ AttemptStatus.reconciled_no_effect)
    × (sealed_attempt.effect_state ≡ not_started)
    × IsProofOf proof sealed_attempt
    × (command.run_id ≢ sealed_attempt.run_id)
    × (command.execution_id ≢ sealed_attempt.execution_id)
    × (command.deadline.is_utc ≡ true)
    × (child ≡ child)
    × IsAttempt child
    × (lenient
          (record { predecessor = sealed_attempt; command = command; proof = proof; child = child })
          0
        ≡ (RetryAttemptCreationOutcome.created, 1))
retry_attempt-eq-ok_example = retry_attempt-eq-ok lenient sealed_attempt command proof 0 retries

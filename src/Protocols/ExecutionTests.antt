-- ===== src/Protocols/ExecutionTests.antt =====
-- Concrete executions, to which the theorems on leases and completions apply.
use nipo_science.Prelude.{
  Option, Text, [], arith, mem, nat_eq, none, ok, refl, text_eq, true, uuid_pair_eq, uuid_triple_eq,
  ℕ, ◌∷◌, ◌≡◌, ◌≢◌,
}
use nipo_science.Protocols.Execution.{
  ExecutionCompletionCommand, Outcome, complete_execution, execution_transitions,
}
use nipo_science.Protocols.Execution.Completion.{
  IsExecution, complete_execution_iff, complete_execution_once, completed_record,
}
use nipo_science.Protocols.Execution.Leases.{
  InTime, heartbeats, heartbeats-InTime, heartbeats_renewed, renewed_through,
}
use nipo_science.Protocols.Models.{
  ExecutionLease, ExecutionRecord, ExecutionStatus, ExecutionStatus-discrete, approval_binding_eq,
  approval_status_eq, execution_status_eq, run_status_eq,
}
use nipo_science.Protocols.Runtime.{RuntimeContinue, context_eq}

abbrev execution_in : ExecutionStatus → Option Text → ExecutionRecord
execution_in status result = record {
  id = 1;
  org_id = 2;
  run_id = 3;
  action_plan_id = 4;
  status = status;
  attempt_token = 1;
  result_ref = result;
  created_at = 5;
  updated_at = 5;
}

abbrev lease : ExecutionLease
lease = record { execution_id = 1; attempt_token = 1; heartbeat_at = 10; expires_at = 45000010 }

beaten : heartbeats lease 1 (20 ∷ 30 ∷ []) ≡ ok (renewed_through lease (20 ∷ 30 ∷ []))
beaten = heartbeats_renewed lease (20 ∷ 30 ∷ []) (omega arith) (omega arith, (omega arith, tt))

heartbeats-InTime_example : ◌≡◌ {A = ℕ} 1 1 × InTime 45000010 (20 ∷ 30 ∷ [])
heartbeats-InTime_example = heartbeats-InTime lease 1 20 (30 ∷ []) (omega arith) beaten

abbrev completion : ExecutionCompletionCommand
completion = record {
  execution = execution_in ExecutionStatus.running none;
  lease = lease;
  attempt_token = 1;
  target = Outcome.failed;
  result_ref = none;
  occurred_at = 20;
}

may_fail : mem ExecutionStatus.failed (execution_transitions ExecutionStatus.running) ≡ true
unfolding mem ExecutionStatus-discrete
may_fail = refl

failed_valid : IsExecution (completed_record completion)
failed_valid = record { token = omega arith; text = refl; result = λ h. absurd (cc) }

completion_done : complete_execution completion ≡ ok (completed_record completion)
completion_done =
    (complete_execution_iff completion (completed_record completion)).1
      (refl, (refl, refl), omega arith, may_fail, (refl, failed_valid))

complete_execution_iff_example : complete_execution completion ≡ ok (completed_record completion)
complete_execution_iff_example =
    (complete_execution_iff completion (completed_record completion)).1
      (refl, (refl, refl), omega arith, may_fail, (refl, failed_valid))

abbrev repeated : ExecutionCompletionCommand
repeated = record completion { execution = completed_record completion }

complete_execution_once_example : complete_execution repeated ≢ ok (completed_record repeated)
complete_execution_once_example = complete_execution_once completion repeated completion_done refl

abbrev continuation : RuntimeContinue
continuation = record {
  org_id = 1;
  run_id = 2;
  message_id = 3;
  action_id = 4;
  execution_id = 5;
  continuation_token = 6 ∷ [];
  result = record {
    org_id = 1;
    run_id = 2;
    message_id = 3;
    action_id = 4;
    execution_id = 5;
    result_ref = 7 ∷ [];
    redacted_output = [];
  };
}

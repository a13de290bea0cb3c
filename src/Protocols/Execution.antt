-- ===== src/Protocols/Execution.antt =====
-- protocols/execution_state.py: the execution state machine, its leases and fenced completion.
pub mod Leases
pub mod Completion
use nipo_science.Prelude.{
  Bool, List, Option, Result, Text, Timestamp, [], codes, false, is_absent, leb, ltb, mem, nat_eq,
  not, ok, raise_if, text_eq, true, uuid_pair_eq, uuid_triple_eq, ℕ, ◌!=◌, ◌&&◌, ◌*◌, ◌+◌, ◌>>=◌,
  ◌>>◌, ◌||◌, ◌∷◌,
}
use nipo_science.Protocols.Models.{
  ExecutionLease, ExecutionRecord, ExecutionStatus, ModelError, approval_binding_eq,
  approval_status_eq, cancelled, completed_execution_result, execution_status_eq, field_constraint,
  is_optional_text, queued, run_status_eq, running, validate_execution,
}
use nipo_science.Protocols.Run.{
  ProtocolError, invalid_execution_transition, label, lease_execution_mismatch, lease_expired,
  model, of_execution, of_id, of_time, of_token, stale_attempt_token, transition,
}

-- `LEASE_SECONDS`, in microseconds.
abbrev pub lease_length : ℕ
lease_length = 45 * 1000000

abbrev pub execution_transitions : ExecutionStatus → List ExecutionStatus
execution_transitions ExecutionStatus.queued =
    ExecutionStatus.running ∷ ExecutionStatus.failed ∷ ExecutionStatus.cancelled ∷ []
execution_transitions ExecutionStatus.running =
    ExecutionStatus.completed ∷ ExecutionStatus.failed ∷ ExecutionStatus.cancelled ∷ []
execution_transitions ExecutionStatus.completed = []
execution_transitions ExecutionStatus.failed = []
execution_transitions ExecutionStatus.cancelled = []

unfoldable pub transition_execution :
    ExecutionRecord → ExecutionStatus → Timestamp → Result ProtocolError ExecutionRecord
transition_execution execution target occurred_at = do
  raise_if (not (mem target (execution_transitions execution.status))) (
      transition invalid_execution_transition (of_execution execution.status) (of_execution target))
  model (validate_execution (record execution { status = target; updated_at = occurred_at }))

-- `ExecutionLease(...)`: the token is at least 1.
unfoldable pub new_lease : ExecutionLease → Result ModelError ExecutionLease
new_lease lease = do raise_if (ltb lease.attempt_token 1) field_constraint; ok lease

unfoldable pub lease_execution : ExecutionRecord → Timestamp → Result ProtocolError ExecutionLease
unfolding new_lease
lease_execution execution occurred_at = do
  raise_if (execution.status != ExecutionStatus.running) (
      transition invalid_execution_transition (of_execution execution.status)
        (label (codes "lease")))
  model (
      new_lease (record {
        execution_id = execution.id;
        attempt_token = execution.attempt_token;
        heartbeat_at = occurred_at;
        expires_at = occurred_at + lease_length;
      }))

unfoldable pub heartbeat_execution :
    ExecutionLease → ℕ → Timestamp → Result ProtocolError ExecutionLease
unfolding new_lease
heartbeat_execution lease attempt_token occurred_at = do
  raise_if (attempt_token != lease.attempt_token)
      (transition stale_attempt_token (of_token lease.attempt_token) (of_token attempt_token))
  raise_if (leb lease.expires_at occurred_at)
      (transition lease_expired (of_time lease.expires_at) (of_time occurred_at))
  model (
      new_lease (record {
        execution_id = lease.execution_id;
        attempt_token = attempt_token;
        heartbeat_at = occurred_at;
        expires_at = occurred_at + lease_length;
      }))

-- The targets of a completion command.
pub data Outcome : Type 0 where
  completed failed : Outcome

abbrev pub outcome_status : Outcome → ExecutionStatus
outcome_status Outcome.completed = ExecutionStatus.completed
outcome_status Outcome.failed = ExecutionStatus.failed

pub record ExecutionCompletionCommand : Type 0 where
  pub execution : ExecutionRecord
  pub lease : ExecutionLease
  pub attempt_token : ℕ
  pub target : Outcome
  pub result_ref : Option Text
  pub occurred_at : Timestamp

abbrev pub is_completed : Outcome → Bool
is_completed Outcome.completed = true
is_completed Outcome.failed = false

-- `ExecutionCompletionCommand(...)` with its validator `completed_has_result`.
unfoldable pub new_completion :
    ExecutionCompletionCommand → Result ModelError ExecutionCompletionCommand
new_completion command = do
  raise_if (not (is_optional_text command.result_ref)) field_constraint
  raise_if (is_completed command.target && is_absent command.result_ref) completed_execution_result
  ok command

unfoldable pub complete_execution :
    ExecutionCompletionCommand → Result ProtocolError ExecutionRecord
complete_execution command = do
  raise_if (command.lease.execution_id != command.execution.id) (
      transition lease_execution_mismatch (of_id command.execution.id)
        (of_id command.lease.execution_id))
  raise_if
      (command.attempt_token != command.execution.attempt_token
        || command.attempt_token != command.lease.attempt_token)
      (transition stale_attempt_token (of_token command.execution.attempt_token)
        (of_token command.attempt_token))
  raise_if (leb command.lease.expires_at command.occurred_at)
      (transition lease_expired (of_time command.lease.expires_at) (of_time command.occurred_at))
  transition_execution (record command.execution { result_ref = command.result_ref })
      (outcome_status command.target) command.occurred_at

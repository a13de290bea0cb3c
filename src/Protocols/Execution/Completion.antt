-- ===== src/Protocols/Execution/Completion.antt =====
-- Fenced completion: only the lease holder, in time, completes an execution, and only once.
use nipo_science.Prelude.{
  arith, false, is_absent, leb, mem, nat_eq, ne→path, not, not-eq-false, ok, raise_if-eq-ok, refl,
  text_eq, true, uuid_pair_eq, uuid_triple_eq, ◌!=◌, ◌<◌, ◌||◌, ◌↔◌, ◌≡◌, ◌≢◌, ◌≤◌,
}
use nipo_science.Protocols.Execution.{
  ExecutionCompletionCommand, Outcome, complete_execution, execution_transitions, outcome_status,
  transition_execution,
}
use nipo_science.Protocols.Models.{
  ExecutionRecord, ExecutionStatus, approval_binding_eq, approval_status_eq, execution_status_eq,
  is_optional_text, run_status_eq, validate_execution,
}
use nipo_science.Protocols.Run.Commits.{model-eq-ok}

-- A validated execution keeps its token at 1 or more, and has a result if it is completed.
pub record IsExecution (e : ExecutionRecord) : Type 0 where
  pub token : 1 ≤ e.attempt_token
  pub text : is_optional_text e.result_ref ≡ true
  pub result : e.status ≡ ExecutionStatus.completed → is_absent e.result_ref ≡ false

validate_execution_iff :
    (e f : ExecutionRecord) → (validate_execution e ≡ ok f) ↔ ((f ≡ e) × IsExecution e)
unfolding validate_execution
validate_execution_iff e f = (
  λ h. (
    ground arith,
    record { token = ground arith; text = ground arith; result = λ c. ground arith },
  ),
  λ h. ground (arith, h.1.result),
)

-- The record that a completion asks for.
abbrev pub completed_record : ExecutionCompletionCommand → ExecutionRecord
completed_record c = record c.execution {
  result_ref = c.result_ref;
  status = outcome_status c.target;
  updated_at = c.occurred_at;
}

finished :
    (c : ExecutionCompletionCommand) (done : ExecutionRecord)
    → validate_execution (completed_record c) ≡ ok done
    → (done ≡ completed_record c) × IsExecution done
finished c done h =
    let (shape, valid) = (validate_execution_iff (completed_record c) done).0 h in
    (shape, rw shape valid)

-- Completing an execution returns exactly when the lease is for it, the token is the execution's
-- and the lease's, the lease has not ended, the table allows the outcome, and the result passes
-- validation; then the record has the outcome, the result and the time, and nothing else changes.
pub complete_execution_iff :
    (c : ExecutionCompletionCommand) (done : ExecutionRecord)
    → (complete_execution c ≡ ok done) ↔ (
        (c.lease.execution_id ≡ c.execution.id)
        × ((c.attempt_token ≡ c.execution.attempt_token)
            × (c.attempt_token ≡ c.lease.attempt_token))
        × (c.occurred_at < c.lease.expires_at)
        × (mem (outcome_status c.target) (execution_transitions c.execution.status) ≡ true)
        × ((done ≡ completed_record c) × IsExecution done))
unfolding complete_execution transition_execution
complete_execution_iff c done = (
  λ h.
      let (owned, h1) = raise_if-eq-ok (c.lease.execution_id != c.execution.id) _ _ h in
      let (fenced, h2) =
        raise_if-eq-ok
          (c.attempt_token != c.execution.attempt_token || c.attempt_token != c.lease.attempt_token)
          _ _ h1 in
      let (early, h3) = raise_if-eq-ok (leb c.lease.expires_at c.occurred_at) _ _ h2 in
      let (allowed, h4) =
        raise_if-eq-ok
          (not (mem (outcome_status c.target) (execution_transitions c.execution.status))) _ _ h3 in
      (
        ne→path _ _ owned,
        (ground (arith, fenced), ground (arith, fenced)),
        ground (arith, early),
        not-eq-false _ allowed,
        finished c done (model-eq-ok _ h4),
      ),
  λ (owned, fenced, early, allowed, good). ground (
    arith,
    good,
    (validate_execution_iff (completed_record c) done).1 (good.0, rw (good.0) at good.1),
  ),
)

ended :
    (o : Outcome)
    → (target : ExecutionStatus) → mem target (execution_transitions (outcome_status o)) ≡ false
unfolding mem
ended Outcome.completed target = refl
ended Outcome.failed target = refl

-- A completed or failed execution is not completed again: whatever lease, token, time and outcome a
-- later command carries, it is refused.
pub complete_execution_once :
    (c d : ExecutionCompletionCommand) {done again : ExecutionRecord}
    → complete_execution c ≡ ok done
    → d.execution ≡ done
    → complete_execution d ≢ ok again
complete_execution_once c d {done} {again} h same h' =
    let (_, _, _, _, first) = (complete_execution_iff c done).0 h in
    let (_, _, _, allowed, _) = (complete_execution_iff d again).0 h' in
    cc (first.0, same, allowed, ended c.target (outcome_status d.target))

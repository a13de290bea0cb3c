-- ===== src/Protocols/Run.antt =====
-- protocols/state.py: the run state machine. The `current` and `requested` texts of an error are
-- the values that the source renders by `str`.
pub mod Laws
pub mod Commits
pub mod Histories
pub mod Endings
use nipo_science.Prelude.{
  List, Option, Result, Text, Timestamp, Uuid, [], codes, err, if◌then◌else◌, last, mem, nat_eq,
  none, not, ok, raise_if, some, text_eq, uuid_pair_eq, uuid_triple_eq, ℕ, ◌++◌, ◌+◌, ◌==◌, ◌>>=◌,
  ◌>>◌, ◌∷◌,
}
use nipo_science.Protocols.EventGuard.{TextServices, end, field, object, string}
use nipo_science.Protocols.Models.{
  ExecutionStatus, ModelError, RunAggregate, RunEvent, RunEventKind, RunRecord, RunStatus,
  approval_binding_eq, approval_status_eq, awaiting_approval, awaiting_user, cancelled, completed,
  execution_status_eq, failed, new_run_aggregate, new_run_event, queued, run_completed, run_failed,
  run_status, run_status_eq, running,
}

abbrev pub run_transitions : RunStatus → List RunStatus
run_transitions RunStatus.queued = RunStatus.running ∷ RunStatus.failed ∷ RunStatus.cancelled ∷ []
run_transitions RunStatus.running =
    RunStatus.awaiting_user ∷ RunStatus.awaiting_approval ∷ RunStatus.completed ∷ RunStatus.failed
    ∷ RunStatus.cancelled ∷ []
run_transitions RunStatus.awaiting_user =
    RunStatus.running ∷ RunStatus.failed ∷ RunStatus.cancelled ∷ []
run_transitions RunStatus.awaiting_approval =
    RunStatus.running ∷ RunStatus.failed ∷ RunStatus.cancelled ∷ []
run_transitions RunStatus.completed = []
run_transitions RunStatus.failed = []
run_transitions RunStatus.cancelled = []

abbrev pub terminal_run_statuses : List RunStatus
terminal_run_statuses = RunStatus.completed ∷ RunStatus.failed ∷ RunStatus.cancelled ∷ []

pub data TransitionCode : Type 0 where
  invalid_run_transition invalid_execution_transition stale_attempt_token : TransitionCode
  lease_expired lease_execution_mismatch run_id_reused : TransitionCode

-- What an error names as `current` or `requested`.
pub data Subject : Type 0 where
  of_run : RunStatus → Subject
  of_execution : ExecutionStatus → Subject
  of_token : ℕ → Subject
  of_time : Timestamp → Subject
  of_id : Uuid → Subject
  label : Text → Subject

-- `ProtocolTransitionError`, or a validation error of a model.
pub data ProtocolError : Type 0 where
  transition : TransitionCode → Subject → Subject → ProtocolError
  invalid_model : ModelError → ProtocolError

-- A model's constructor, called in a transition.
abbrev pub model {ℓ} : {A : Type ℓ} → Result ModelError A → Result ProtocolError A
model (ok a) = ok a
model (err e) = err (invalid_model e)

pub record RunCommit : Type 0 where
  pub aggregate : RunAggregate
  pub event : Option RunEvent

-- The text of a status.
abbrev pub status_text : RunStatus → Text
status_text RunStatus.queued = codes "queued"
status_text RunStatus.running = codes "running"
status_text RunStatus.awaiting_user = codes "awaiting_user"
status_text RunStatus.awaiting_approval = codes "awaiting_approval"
status_text RunStatus.completed = codes "completed"
status_text RunStatus.failed = codes "failed"
status_text RunStatus.cancelled = codes "cancelled"

abbrev pub event_kind : RunStatus → RunEventKind
event_kind RunStatus.completed = run_completed
event_kind RunStatus.failed = run_failed
event_kind _ = run_status

-- `aggregate.events[-1].sequence + 1 if aggregate.events else 1`
abbrev pub next_sequence : List RunEvent → ℕ
next_sequence events = elim (last events) [ none ↦ 1 | some event ↦ event.sequence + 1 ]

abbrev pub status_event : RunRecord → ℕ → RunStatus → Timestamp → RunEvent
status_event run sequence target occurred_at = record {
  run_id = run.id;
  sequence = sequence;
  kind = event_kind target;
  payload = object (field (codes "status") (string (status_text target)) end);
  created_at = occurred_at;
}

module _ (services : TextServices) where
  -- The events of a dump, each validated by its model; an error is that of the first that fails.
  unfoldable pub validate_events : List RunEvent → Result ModelError (List RunEvent)
  validate_events [] = ok []
  validate_events (event ∷ events) = do
    first ← new_run_event services event
    rest ← validate_events events
    ok (first ∷ rest)

  -- `RunAggregate.model_validate(aggregate.model_dump())`
  unfoldable pub revalidate : RunAggregate → Result ModelError RunAggregate
  revalidate given = do events ← validate_events given.events; new_run_aggregate given.run events

  -- The second half of `transition_run`: the new run, its event, and the aggregate of both.
  unfoldable pub append_status :
      RunAggregate → RunStatus → Timestamp → Result ProtocolError RunCommit
  append_status aggregate target occurred_at = do
    let run = record aggregate.run { status = target; updated_at = occurred_at }
    let sequence = next_sequence aggregate.events
    event ← model (new_run_event services (status_event run sequence target occurred_at))
    after ← model (new_run_aggregate run (aggregate.events ++ event ∷ []))
    ok (record { aggregate = after; event = some event })

  unfoldable pub transition_run :
      RunAggregate → RunStatus → Timestamp → Result ProtocolError RunCommit
  transition_run given target occurred_at = do
    aggregate ← model (revalidate given)
    raise_if (not (mem target (run_transitions aggregate.run.status)))
        (transition invalid_run_transition (of_run aggregate.run.status) (of_run target))
    append_status aggregate target occurred_at

  unfoldable pub cancel_run : RunAggregate → Timestamp → Result ProtocolError RunCommit
  cancel_run aggregate occurred_at =
      if mem aggregate.run.status terminal_run_statuses
      then ok (record { aggregate = aggregate; event = none })
      else transition_run aggregate RunStatus.cancelled occurred_at

-- `retry_run`: the new run; `replayed_execution_ids` is always empty.
unfoldable pub retry_run :
    RunRecord → Uuid → Timestamp → Result ProtocolError (RunRecord × List Uuid)
retry_run original new_run_id occurred_at = do
  raise_if (not (mem original.status terminal_run_statuses))
      (transition invalid_run_transition (of_run original.status) (label (codes "retry")))
  raise_if (new_run_id == original.id)
      (transition run_id_reused (of_id original.id) (label (codes "new Run ID")))
  ok (
    record original {
      id = new_run_id;
      retry_of_run_id = some original.id;
      status = RunStatus.queued;
      created_at = occurred_at;
      updated_at = occurred_at;
    },
    [],
  )

-- ===== src/Protocols/Models.antt =====
-- protocols/models.py: the records of the run protocol and their validators. A UUID is its 128-bit
-- number, a timestamp its microseconds since 1970, and a text its code points. A validator returns
-- the error that it raises. A `ResearchIntent` is its JSON dump.
use nipo_science.Prelude.{
  Bool, Eq, List, Option, Result, Sha256, Text, Timestamp, Uuid, [], any, is_absent, length, ltb,
  nat_eq, none, not, ok, raise_if, some, sorted, suc, text_eq, true, uuid_pair_eq, uuid_triple_eq,
  zero, ℕ, ℕ_discrete, ◌!=◌, ◌&&◌, ◌==◌, ◌>>◌, ◌||◌, ◌∷◌,
}
use nipo_science.Protocols.EventGuard.{Json, TextServices, contains_forbidden_event_data}

pub data RunStatus : Type 0 where
  queued running awaiting_user awaiting_approval completed failed cancelled : RunStatus

pub data ExecutionStatus : Type 0 where
  queued running completed failed cancelled : ExecutionStatus

pub data ApprovalStatus : Type 0 where
  pending approved rejected expired consumed : ApprovalStatus

pub data ToolGrantEffect : Type 0 where
  allow ask deny : ToolGrantEffect

pub data RunEventKind : Type 0 where
  run_status message_delta tool_started tool_output tool_completed : RunEventKind
  approval_required artifact_saved review_finding run_completed run_failed : RunEventKind

unfoldable pub RunStatus-discrete : Discrete RunStatus
RunStatus-discrete = hlevel

instance abbrev pub run_status_eq : Eq RunStatus
run_status_eq = record { decide = RunStatus-discrete }

unfoldable pub ExecutionStatus-discrete : Discrete ExecutionStatus
ExecutionStatus-discrete = hlevel

instance abbrev pub execution_status_eq : Eq ExecutionStatus
execution_status_eq = record { decide = ExecutionStatus-discrete }

unfoldable pub ApprovalStatus-discrete : Discrete ApprovalStatus
ApprovalStatus-discrete = hlevel

instance abbrev pub approval_status_eq : Eq ApprovalStatus
approval_status_eq = record { decide = ApprovalStatus-discrete }

-- The validation errors that the models raise.
pub data ModelError : Type 0 where
  run_aggregate_tenant run_aggregate_order run_aggregate_time : ModelError
  forbidden_run_event_semantics completed_execution_result field_constraint : ModelError
  run_event_tenant run_event_order run_event_retention runtime_correlation : ModelError

pub record RunRecord : Type 0 where
  pub id : Uuid
  pub org_id : Uuid
  pub session_id : Uuid
  pub requester_id : Uuid
  pub provider_connection_id : Uuid
  pub retry_of_run_id : Option Uuid
  pub status : RunStatus
  pub created_at : Timestamp
  pub updated_at : Timestamp

pub record RunEvent : Type 0 where
  pub run_id : Uuid
  pub sequence : ℕ
  pub kind : RunEventKind
  pub payload : Json
  pub created_at : Timestamp

pub record RunAggregate : Type 0 where
  pub run : RunRecord
  pub events : List RunEvent

-- `RunEvent(...)`: the sequence is at least 1, and the data passes the guard.
unfoldable pub new_run_event : TextServices → RunEvent → Result ModelError RunEvent
new_run_event services event = do
  raise_if (ltb event.sequence 1) field_constraint
  raise_if (contains_forbidden_event_data services event.payload) forbidden_run_event_semantics
  ok event

unfoldable pub sequences : List RunEvent → List ℕ
sequences [] = []
sequences (event ∷ events) = event.sequence ∷ sequences events

unfoldable pub timestamps : List RunEvent → List Timestamp
timestamps [] = []
timestamps (event ∷ events) = event.created_at ∷ timestamps events

-- `tuple(range(first, first + n))`
unfoldable pub range_from : ℕ → ℕ → List ℕ
range_from first zero = []
range_from first (suc n) = first ∷ range_from (suc first) n

-- `RunAggregate(run=..., events=...)` with its validator `valid_event_history`.
unfoldable pub new_run_aggregate : RunRecord → List RunEvent → Result ModelError RunAggregate
unfolding sequences timestamps range_from sorted
new_run_aggregate run events = do
  raise_if (any (λ event. event.run_id != run.id) events) run_aggregate_tenant
  raise_if (sequences events != range_from 1 (length events)) run_aggregate_order
  raise_if (timestamps events != sorted (timestamps events)) run_aggregate_time
  ok (record { run = run; events = events })

pub record ExecutionRecord : Type 0 where
  pub id : Uuid
  pub org_id : Uuid
  pub run_id : Uuid
  pub action_plan_id : Uuid
  pub status : ExecutionStatus
  pub attempt_token : ℕ
  pub result_ref : Option Text
  pub created_at : Timestamp
  pub updated_at : Timestamp

-- `NonEmptyText | None`
abbrev pub is_optional_text : Option Text → Bool
is_optional_text none = true
is_optional_text (some text) = text != []

-- `ExecutionRecord.model_validate(...)`: the field constraints and `completed_has_result`.
unfoldable pub validate_execution : ExecutionRecord → Result ModelError ExecutionRecord
validate_execution execution = do
  raise_if (ltb execution.attempt_token 1 || not (is_optional_text execution.result_ref))
      field_constraint
  raise_if (execution.status == ExecutionStatus.completed && is_absent execution.result_ref)
      completed_execution_result
  ok execution

pub record ExecutionLease : Type 0 where
  pub execution_id : Uuid
  pub attempt_token : ℕ
  pub heartbeat_at : Timestamp
  pub expires_at : Timestamp

pub record ActionPlan : Type 0 where
  pub id : Uuid
  pub org_id : Uuid
  pub project_id : Uuid
  pub run_id : Uuid
  pub requester_id : Uuid
  pub research_intent : Json
  pub research_intent_sha256 : Sha256
  pub version : ℕ
  pub tool : Text
  pub arguments : Json
  pub arguments_hash : Sha256
  pub network_scope : List Text
  pub secret_scope : List Text
  pub reason : Text
  pub plan_digest : Sha256
  pub created_at : Timestamp

pub record ToolGrant : Type 0 where
  pub org_id : Uuid
  pub project_id : Uuid
  pub tool : Text
  pub effect : ToolGrantEffect

pub record ApprovalBinding : Type 0 where
  pub org_id : Uuid
  pub project_id : Uuid
  pub run_id : Uuid
  pub requester_id : Uuid
  pub action_plan_id : Uuid
  pub research_intent_sha256 : Sha256
  pub plan_digest : Sha256
  pub tool : Text
  pub arguments_hash : Sha256
  pub network_scope : List Text
  pub secret_scope : List Text
  pub expires_at : Timestamp

unfoldable pub ApprovalBinding-discrete : Discrete ApprovalBinding
ApprovalBinding-discrete = hlevel ℕ_discrete

instance abbrev pub approval_binding_eq : Eq ApprovalBinding
approval_binding_eq = record { decide = ApprovalBinding-discrete }

pub record ApprovalRecord : Type 0 where
  pub id : Uuid
  pub binding : ApprovalBinding
  pub digest : Sha256
  pub revision : ℕ
  pub status : ApprovalStatus
  pub decided_by : Option Uuid
  pub created_at : Timestamp

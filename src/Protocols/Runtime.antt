-- ===== src/Protocols/Runtime.antt =====
-- protocols/runtime.py: the commands and events of an agent runtime and their correlation checks.
-- The stream of an adapter is not modelled.
pub mod Correlation
use nipo_science.Prelude.{
  Eq, Option, Result, Sha256, Text, Timestamp, Uuid, nat_eq, ok, raise_if, some, text_eq,
  uuid_pair_eq, uuid_triple_eq, ℕ_discrete, ◌!=◌, ◌>>=◌, ◌>>◌,
}
use nipo_science.Protocols.Approval.{Digests, canonical_arguments_hash}
use nipo_science.Protocols.EventGuard.{Json}

pub data RuntimeErrorCategory : Type 0 where
  quota_error reauth_error cancelled_error unavailable_error failed_error : RuntimeErrorCategory

pub data RuntimeTerminalOutcome : Type 0 where
  ended_completed ended_failed ended_cancelled ended_unavailable : RuntimeTerminalOutcome

pub data MessageRole : Type 0 where
  user assistant tool : MessageRole

-- models.py
pub record Message : Type 0 where
  pub id : Uuid
  pub org_id : Uuid
  pub run_id : Uuid
  pub role : MessageRole
  pub content : Text
  pub created_at : Timestamp

pub record ToolResult : Type 0 where
  pub org_id : Uuid
  pub run_id : Uuid
  pub message_id : Uuid
  pub action_id : Uuid
  pub execution_id : Uuid
  pub result_ref : Text
  pub redacted_output : Text

pub record RuntimeTextDelta : Type 0 where
  pub run_id : Uuid
  pub message_id : Uuid
  pub delta : Text
  pub created_at : Timestamp

pub record RuntimeActionProposal : Type 0 where
  pub run_id : Uuid
  pub message_id : Uuid
  pub action_id : Uuid
  pub tool_name : Text
  pub arguments : Json
  pub arguments_hash : Sha256
  pub continuation_token : Text
  pub created_at : Timestamp

pub record RuntimeTerminal : Type 0 where
  pub run_id : Uuid
  pub outcome : RuntimeTerminalOutcome
  pub detail : Option Text
  pub created_at : Timestamp

pub record RuntimeQuota : Type 0 where
  pub run_id : Uuid
  pub detail : Text
  pub created_at : Timestamp

pub record RuntimeReauthentication : Type 0 where
  pub run_id : Uuid
  pub detail : Text
  pub created_at : Timestamp

pub data RuntimeEvent : Type 0 where
  text_delta : RuntimeTextDelta → RuntimeEvent
  action_proposal : RuntimeActionProposal → RuntimeEvent
  terminal : RuntimeTerminal → RuntimeEvent
  quota : RuntimeQuota → RuntimeEvent
  reauth_required : RuntimeReauthentication → RuntimeEvent

pub record RuntimeStart : Type 0 where
  pub run_id : Uuid
  pub provider_connection_id : Uuid
  pub message : Message

pub record RuntimeContinue : Type 0 where
  pub org_id : Uuid
  pub run_id : Uuid
  pub message_id : Uuid
  pub action_id : Uuid
  pub execution_id : Uuid
  pub continuation_token : Text
  pub result : ToolResult

pub record RuntimeErrorSignal : Type 0 where
  pub run_id : Uuid
  pub category : RuntimeErrorCategory
  pub detail : Text
  pub created_at : Timestamp

pub data RuntimeError : Type 0 where
  runtime_correlation action_arguments_hash_mismatch : RuntimeError

unfoldable pub new_runtime_start : RuntimeStart → Result RuntimeError RuntimeStart
new_runtime_start command = do
  raise_if (command.message.run_id != command.run_id) runtime_correlation
  ok command

abbrev pub Context : Type 0
Context = Uuid × Uuid × Uuid × Uuid × Uuid

unfoldable pub Context-discrete : Discrete Context
Context-discrete = hlevel ℕ_discrete

instance abbrev pub context_eq : Eq Context
context_eq = record { decide = Context-discrete }

abbrev pub command_context : RuntimeContinue → Context
command_context c = (c.org_id, c.run_id, c.message_id, c.action_id, c.execution_id)

abbrev pub result_context : ToolResult → Context
result_context r = (r.org_id, r.run_id, r.message_id, r.action_id, r.execution_id)

unfoldable pub new_runtime_continue : RuntimeContinue → Result RuntimeError RuntimeContinue
new_runtime_continue command = do
  raise_if (command_context command != result_context command.result) runtime_correlation
  ok command

unfoldable pub validate_action_proposal :
    Digests → RuntimeActionProposal → Result RuntimeError (Unit {0})
validate_action_proposal digests proposal =
    raise_if (canonical_arguments_hash digests proposal.arguments != proposal.arguments_hash)
      action_arguments_hash_mismatch

abbrev pub terminal_event : RuntimeErrorSignal → RuntimeTerminalOutcome → RuntimeEvent
terminal_event signal outcome = terminal (record {
  run_id = signal.run_id;
  outcome = outcome;
  detail = some signal.detail;
  created_at = signal.created_at;
})

-- The entry of the source's dict for one category.
abbrev pub event_of : RuntimeErrorSignal → RuntimeErrorCategory → RuntimeEvent
event_of signal quota_error =
    quota
      (record { run_id = signal.run_id; detail = signal.detail; created_at = signal.created_at })
event_of signal reauth_error =
    reauth_required
      (record { run_id = signal.run_id; detail = signal.detail; created_at = signal.created_at })
event_of signal cancelled_error = terminal_event signal ended_cancelled
event_of signal unavailable_error = terminal_event signal ended_unavailable
event_of signal failed_error = terminal_event signal ended_failed

unfoldable pub normalize_runtime_error : RuntimeErrorSignal → RuntimeEvent
normalize_runtime_error signal = event_of signal signal.category

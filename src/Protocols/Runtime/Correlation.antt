-- ===== src/Protocols/Runtime/Correlation.antt =====
-- Which runtime commands are accepted, and what an error signal turns into.
use nipo_science.Prelude.{Option, arith, none, ok, refl, some, ◌↔◌, ◌≡◌}
use nipo_science.Protocols.Runtime.{
  RuntimeContinue, RuntimeErrorCategory, RuntimeErrorSignal, RuntimeEvent, RuntimeTerminalOutcome,
  action_proposal, cancelled_error, command_context, ended_cancelled, ended_completed, ended_failed,
  ended_unavailable, event_of, failed_error, new_runtime_continue, normalize_runtime_error, quota,
  quota_error, reauth_error, reauth_required, result_context, terminal, text_delta,
  unavailable_error,
}

-- A continuation is accepted exactly when its tool result is of the same organisation, run,
-- message, action and execution.
pub new_runtime_continue_iff :
    (c : RuntimeContinue)
    → (new_runtime_continue c ≡ ok c) ↔ (command_context c ≡ result_context c.result)
unfolding new_runtime_continue
new_runtime_continue_iff c = ground arith

-- The category of an error that ends a run.
abbrev ending_category : RuntimeTerminalOutcome → Option RuntimeErrorCategory
ending_category ended_completed = none
ending_category ended_failed = some failed_error
ending_category ended_cancelled = some cancelled_error
ending_category ended_unavailable = some unavailable_error

-- The category of error that an event reports.
abbrev error_category : RuntimeEvent → Option RuntimeErrorCategory
error_category (text_delta e) = none
error_category (action_proposal e) = none
error_category (terminal e) = ending_category e.outcome
error_category (quota e) = some quota_error
error_category (reauth_required e) = some reauth_error

event_of-category :
    (s : RuntimeErrorSignal) (c : RuntimeErrorCategory) → error_category (event_of s c) ≡ some c
event_of-category s quota_error = refl
event_of-category s reauth_error = refl
event_of-category s cancelled_error = refl
event_of-category s unavailable_error = refl
event_of-category s failed_error = refl

-- The event that an error signal is normalised to reports the category of the signal, so that no
-- two categories are confused.
pub normalize_runtime_error_lem :
    (s : RuntimeErrorSignal) → error_category (normalize_runtime_error s) ≡ some s.category
unfolding normalize_runtime_error
normalize_runtime_error_lem s = event_of-category s s.category

-- ===== src/Protocols/RunTests.antt =====
-- Concrete runs, executions and windows, to which the theorems apply.
use nipo_science.Prelude.{
  All, List, [], arith, codes, err, false, mem, nat_eq, none, ok, optional_text_eq, refl, text_eq,
  true, uuid_pair_eq, uuid_triple_eq, ℕ, ◌<◌, ◌↔◌, ◌∷◌, ◌≡◌, ◌≢◌, ◌≤◌, ◌⊎◌,
}
use nipo_science.Protocols.EventGuard.{
  TextServices, array, cons, contains_forbidden_event_data, nil, null, string,
}
use nipo_science.Protocols.EventGuard.Laws.{HasForbidden, contains_forbidden_iff}
use nipo_science.Protocols.Models.{
  RunAggregate, RunEvent, RunEventKind, RunRecord, RunStatus, RunStatus-discrete,
  approval_binding_eq, approval_status_eq, execution_status_eq, forbidden_run_event_semantics,
  new_run_event, range_from, run_status_eq, sequences, timestamps,
}
use nipo_science.Protocols.Replay.{
  expired, RunEventWindow, batch, cursor_error, events_after, replay_events,
}
use nipo_science.Protocols.Replay.Batches.{IsRest, IsLatest, replay_continues}
use nipo_science.Protocols.Replay.Windows.{IsWindow}
use nipo_science.Protocols.Run.{
  cancel_run, invalid_model, revalidate, run_transitions, terminal_run_statuses, transition_run,
  validate_events,
}
use nipo_science.Protocols.Run.Commits.{IsCommitOf, commit_of, transition_run-IsCommitOf}
use nipo_science.Protocols.Run.Endings.{cancel_run_live}
use nipo_science.Protocols.Run.Histories.{
  IsValid, Logs, apply_commands, apply_commands-IsValid, apply_commands-Logs,
  apply_commands_terminal, cancel,
}
use nipo_science.Protocols.Run.Laws.{IsAdmitted, IsHistory, IsPlain, transition_run_succeeds}

abbrev plain : TextServices
plain = record { fold = λ t. t; secret_value = λ t. false }

abbrev run_in : RunStatus → RunRecord
run_in status = record {
  id = 1;
  org_id = 2;
  session_id = 3;
  requester_id = 4;
  provider_connection_id = 5;
  retry_of_run_id = none;
  status = status;
  created_at = 6;
  updated_at = 6;
}

abbrev started : RunAggregate
started = record { run = run_in RunStatus.queued; events = [] }

abbrev over : RunAggregate
over = record { run = run_in RunStatus.completed; events = [] }

plain-IsPlain : IsPlain plain
plain-IsPlain = record { folds = refl; plain = λ s. refl }

started-IsHistory : IsHistory (run_in RunStatus.queued) []
unfolding sequences range_from timestamps
started-IsHistory = record { tenant = tt; order = refl; time = tt }

-- One event on record, at the first sequence.
abbrev event_at : ℕ → RunEvent
event_at n = record {
  run_id = 1;
  sequence = n;
  kind = RunEventKind.run_status;
  payload = null;
  created_at = n;
}

-- A run on its way, with one event on record.
abbrev begun : RunAggregate
begun = record { run = run_in RunStatus.running; events = event_at 1 ∷ [] }

begun-IsHistory : IsHistory (run_in RunStatus.running) (event_at 1 ∷ [])
unfolding sequences range_from timestamps
begun-IsHistory = record { tenant = (refl, tt); order = refl; time = (omega arith, tt) }

begun-IsAdmitted : All (IsAdmitted plain) (event_at 1 ∷ [])
unfolding contains_forbidden_event_data
begun-IsAdmitted = ((omega arith, refl), tt)

may_end : mem RunStatus.cancelled (run_transitions RunStatus.running) ≡ true
unfolding mem RunStatus-discrete
may_end = refl

going : mem RunStatus.running terminal_run_statuses ≡ false
unfolding mem RunStatus-discrete
going = refl

may_cancel : mem RunStatus.cancelled (run_transitions RunStatus.queued) ≡ true
unfolding mem RunStatus-discrete
may_cancel = refl

is_live : mem RunStatus.queued terminal_run_statuses ≡ false
unfolding mem RunStatus-discrete
is_live = refl

is_over : mem RunStatus.completed terminal_run_statuses ≡ true
unfolding mem RunStatus-discrete
is_over = refl

cancelled_once :
    transition_run plain started RunStatus.cancelled 7
    ≡ ok (commit_of started RunStatus.cancelled 7)
cancelled_once =
    transition_run_succeeds plain started RunStatus.cancelled 7 plain-IsPlain tt started-IsHistory
      may_cancel tt

transition_run_succeeds_example :
    transition_run plain begun RunStatus.cancelled 7 ≡ ok (commit_of begun RunStatus.cancelled 7)
transition_run_succeeds_example =
    transition_run_succeeds plain begun RunStatus.cancelled 7 plain-IsPlain begun-IsAdmitted
      begun-IsHistory may_end (omega arith)

-- Text services that find a secret in every text.
abbrev wary : TextServices
wary = record { fold = λ t. t; secret_value = λ t. true }

abbrev tainted : RunAggregate
tainted = record begun { events = record (event_at 1) { payload = string (codes "sk-live") } ∷ [] }

-- An aggregate that holds an event with a secret is refused when it is read again.
tainted_refused :
    transition_run wary tainted RunStatus.cancelled 7
    ≡ err (invalid_model forbidden_run_event_semantics)
unfolding transition_run revalidate validate_events new_run_event contains_forbidden_event_data
tainted_refused = refl

transition_run-IsCommitOf_example :
    IsCommitOf started RunStatus.cancelled 7 (commit_of started RunStatus.cancelled 7)
transition_run-IsCommitOf_example =
    transition_run-IsCommitOf plain started RunStatus.cancelled 7 cancelled_once

apply_commands-IsValid_example : IsValid (apply_commands plain started (cancel 7 ∷ cancel 8 ∷ []))
apply_commands-IsValid_example =
    apply_commands-IsValid plain started (cancel 7 ∷ cancel 8 ∷ []) started-IsHistory

apply_commands-Logs_example : Logs started (apply_commands plain started (cancel 7 ∷ cancel 8 ∷ []))
apply_commands-Logs_example = apply_commands-Logs plain started (cancel 7 ∷ cancel 8 ∷ [])

apply_commands_terminal_example : apply_commands plain over (cancel 7 ∷ []) ≡ over
apply_commands_terminal_example = apply_commands_terminal plain over (cancel 7 ∷ []) is_over

cancel_run_live_example : cancel_run plain begun 7 ≡ ok (commit_of begun RunStatus.cancelled 7)
cancel_run_live_example =
    cancel_run_live plain begun 7 plain-IsPlain begun-IsAdmitted begun-IsHistory going (omega arith)

is_new : ◌≢◌ {A = ℕ} 9 1
is_new = λ h. omega (arith, h)

contains_forbidden_iff_example :
    (contains_forbidden_event_data plain (array (cons null nil)) ≡ true)
    ↔ HasForbidden plain (array (cons null nil))
contains_forbidden_iff_example = contains_forbidden_iff plain (array (cons null nil))

abbrev window : RunEventWindow
window = record {
  run_id = 1;
  oldest_available_sequence = 2;
  retention_expires_at = 100;
  events = event_at 2 ∷ event_at 3 ∷ [];
}

window-IsWindow : IsWindow window
unfolding sequences
window-IsWindow = record {
  first = omega arith;
  tenant = (refl, (refl, tt));
  order = (omega arith, (omega arith, tt));
}

replay_continues_example :
    (latest : ℕ) × IsLatest latest window.events
    × (((100 ≤ 50) × (replay_events window 2 50 ≡ expired 1))
        ⊎ ((50 < 100) × (3 < 2) × (replay_events window 2 50 ≡ expired 1))
        ⊎ ((50 < 100) × (2 ≤ 3) × (latest < 2) × (replay_events window 2 50 ≡ cursor_error))
        ⊎ ((50 < 100)
            × (2 ≤ 3)
            × (2 ≤ latest)
            × ((received : List RunEvent) × (replay_events window 2 50 ≡ batch received)
                × IsRest window 2 received)))
replay_continues_example = replay_continues window 2 50 window-IsWindow

-- The cursor decides: a batch of what follows it, an expiry before the window, an error beyond it.
replayed : replay_events window 2 50 ≡ batch (event_at 3 ∷ [])
unfolding replay_events events_after
replayed = refl

replayed_early : replay_events window 0 50 ≡ expired 1
unfolding replay_events events_after
replayed_early = refl

replayed_beyond : replay_events window 4 50 ≡ cursor_error
unfolding replay_events events_after
replayed_beyond = refl

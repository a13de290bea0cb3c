-- ===== src/Protocols/Replay.antt =====
-- protocols/sse.py: the window of retained run events and its replay from a cursor.
pub mod Windows
pub mod Batches
use nipo_science.Prelude.{
  Bool, List, Result, Timestamp, Uuid, [], any, distinct, false, if◌then◌else◌, last, leb, ltb,
  nat_eq, none, ok, raise_if, some, sorted, text_eq, uuid_pair_eq, uuid_triple_eq, ℕ, ◌!=◌, ◌-◌,
  ◌>>=◌, ◌>>◌, ◌∷◌,
}
use nipo_science.Protocols.Models.{
  ModelError, RunEvent, approval_binding_eq, approval_status_eq, execution_status_eq,
  field_constraint, run_event_order, run_event_retention, run_event_tenant, run_status_eq,
  sequences,
}

pub record RunEventWindow : Type 0 where
  pub run_id : Uuid
  pub oldest_available_sequence : ℕ
  pub retention_expires_at : Timestamp
  pub events : List RunEvent

-- `sequences and sequences[0] < oldest`
abbrev pub starts_before : ℕ → List ℕ → Bool
starts_before oldest [] = false
starts_before oldest (first ∷ _) = ltb first oldest

-- `RunEventWindow(...)` with its validator `ordered_for_one_run`.
unfoldable pub new_window : RunEventWindow → Result ModelError RunEventWindow
new_window window = do
  raise_if (ltb window.oldest_available_sequence 1) field_constraint
  raise_if (any (λ event. event.run_id != window.run_id) window.events) run_event_tenant
  raise_if (sequences window.events != sorted (distinct (sequences window.events))) run_event_order
  raise_if (starts_before window.oldest_available_sequence (sequences window.events))
      run_event_retention
  ok window

pub data ReplayResult : Type 0 where
  batch : List RunEvent → ReplayResult
  expired : Uuid → ReplayResult
  cursor_error : ReplayResult

-- `window.events[-1].sequence if window.events else 0`
abbrev pub latest_sequence : List RunEvent → ℕ
latest_sequence events = elim (last events) [ none ↦ 0 | some event ↦ event.sequence ]

-- The events that follow the cursor.
unfoldable pub events_after : ℕ → List RunEvent → List RunEvent
events_after cursor [] = []
events_after cursor (event ∷ events) =
    let rest = events_after cursor events in
    if ltb cursor event.sequence then event ∷ rest else rest

unfoldable pub replay_events : RunEventWindow → ℕ → Timestamp → ReplayResult
unfolding events_after
replay_events window last_event_id occurred_at =
    if leb window.retention_expires_at occurred_at
    then expired window.run_id
    else if ltb last_event_id (window.oldest_available_sequence - 1)
    then expired window.run_id
    else if ltb (latest_sequence window.events) last_event_id
    then cursor_error
    else batch (events_after last_event_id window.events)

-- ===== src/Protocols/Run/Endings.antt =====
-- Cancelling and retrying runs.
use nipo_science.Prelude.{
  All, Bool-cases, List, Timestamp, Uuid, [], arith, false, inl, inr, mem, nat_eq, none, ok,
  ok-injective, refl, some, text_eq, true, uuid_pair_eq, uuid_triple_eq, ◌↔◌, ◌≡◌, ◌≢◌,
}
use nipo_science.Protocols.EventGuard.{TextServices}
use nipo_science.Protocols.Models.{
  RunAggregate, RunRecord, RunStatus, RunStatus-discrete, approval_binding_eq, approval_status_eq,
  execution_status_eq, run_status_eq,
}
use nipo_science.Protocols.Run.{
  RunCommit, cancel_run, retry_run, run_transitions, terminal_run_statuses,
}
use nipo_science.Protocols.Run.Commits.{commit_of, transition_run-IsCommitOf}
use nipo_science.Protocols.Run.Laws.{
  IsAdmitted, IsAfter, IsHistory, IsPlain, transition_run_succeeds,
}

live_cancels :
    (s : RunStatus)
    → mem s terminal_run_statuses ≡ false
    → mem RunStatus.cancelled (run_transitions s) ≡ true
unfolding mem RunStatus-discrete
live_cancels RunStatus.completed h = cc
live_cancels RunStatus.failed h = cc
live_cancels RunStatus.cancelled h = cc
live_cancels RunStatus.queued h = refl
live_cancels RunStatus.running h = refl
live_cancels RunStatus.awaiting_user h = refl
live_cancels RunStatus.awaiting_approval h = refl

cancelled_terminal : mem RunStatus.cancelled terminal_run_statuses ≡ true
unfolding mem RunStatus-discrete
cancelled_terminal = refl

-- A run that has not ended, with a valid history whose events have positive numbers and data that
-- the guard passes, can be cancelled from every status, at any time that is not before its last
-- event, for text services that leave the words of the statuses alone.
pub cancel_run_live :
    (services : TextServices) (a : RunAggregate) (t : Timestamp)
    → IsPlain services
    → All (IsAdmitted services) a.events
    → IsHistory a.run a.events
    → mem a.run.status terminal_run_statuses ≡ false
    → IsAfter a.events t
    → cancel_run services a t ≡ ok (commit_of a RunStatus.cancelled t)
unfolding cancel_run
cancel_run_live services a t plain admitted h live late = rw live (
    transition_run_succeeds services a RunStatus.cancelled t plain admitted h
      (live_cancels a.run.status live) late)

cancelled_status :
    (services : TextServices) (a : RunAggregate) (t : Timestamp) {c : RunCommit}
    → cancel_run services a t ≡ ok c
    → mem c.aggregate.run.status terminal_run_statuses ≡ true
unfolding cancel_run
cancelled_status services a t h = elim (Bool-cases (mem a.run.status terminal_run_statuses)) [
  | inl over ↦ rw (← ok-injective (rw over at h)) over
  | inr live ↦
      rw (transition_run-IsCommitOf services a RunStatus.cancelled t (rw live at h)).commit
        cancelled_terminal
]

-- Once a cancellation has returned, cancelling again returns the same aggregate and no event.
pub cancel_run_again :
    (services : TextServices) (a : RunAggregate) (t later : Timestamp) {c : RunCommit}
    → cancel_run services a t ≡ ok c
    → cancel_run services c.aggregate later ≡ ok (record { aggregate = c.aggregate; event = none })
cancel_run_again services a t later h = unfold cancel_run in rw (cancelled_status services a t h)

-- A retry returns exactly for an ended run and a fresh id: a queued run that names the original,
-- with everything else of it kept, and no execution to replay.
pub retry_run_iff :
    (original : RunRecord) (new_id : Uuid) (t : Timestamp) (run : RunRecord) (replayed : List Uuid)
    → (retry_run original new_id t ≡ ok (run, replayed)) ↔ (
        (mem original.status terminal_run_statuses ≡ true)
        × (new_id ≢ original.id)
        × (run ≡ record original {
          id = new_id;
          retry_of_run_id = some original.id;
          status = RunStatus.queued;
          created_at = t;
          updated_at = t;
        })
        × (replayed ≡ []))
unfolding retry_run
retry_run_iff original new_id t run replayed = (λ h. ground arith, λ h. ground arith)

-- ===== src/Protocols/Run/Commits.antt =====
-- What a successful transition, cancellation or retry implies, and what any sequence of commands
-- keeps.
use native.Mathlib.Nat.{add_comm}
use nipo_science.Prelude.{
  All, List, Result, Timestamp, [], arith, err, length, mem, nat_eq, not, not-eq-false, ok,
  raise_if-eq-ok, refl, some, text_eq, true, uuid_pair_eq, uuid_triple_eq, ◌++◌, ◌+◌, ◌>>=◌, ◌∙◌,
  ◌∷◌, ◌≡◌,
}
use nipo_science.Protocols.EventGuard.{TextServices}
use nipo_science.Protocols.Models.{
  ModelError, RunAggregate, RunEvent, RunRecord, RunStatus, approval_binding_eq, approval_status_eq,
  execution_status_eq, new_run_aggregate, new_run_event, run_status_eq,
}
use nipo_science.Protocols.Run.{
  revalidate, ProtocolError, RunCommit, append_status, model, run_transitions, status_event,
  transition_run,
}
use nipo_science.Protocols.Run.Laws.{
  IsAdmitted, revalidate_ok, revalidate-eq-ok, IsHistory, moved, new_run_aggregate-IsHistory,
  next_sequence_lem,
}

-- The commit of a transition: the run with the target status, and one event of it appended,
-- numbered next.
abbrev pub commit_of : RunAggregate → RunStatus → Timestamp → RunCommit
commit_of a target t =
    let run = moved a.run target t in
    let event = status_event run (length a.events + 1) target t in
    record { aggregate = record { run = run; events = a.events ++ event ∷ [] }; event = some event }

-- The history was valid and the table allows the target; the result is the commit, and its history
-- is valid.
pub record IsCommitOf (a : RunAggregate) (target : RunStatus) (t : Timestamp) (c : RunCommit)
    : Type 0 where
  pub before : IsHistory a.run a.events
  pub allowed : mem target (run_transitions a.run.status) ≡ true
  pub commit : c ≡ commit_of a target t
  pub after : IsHistory (commit_of a target t).aggregate.run (commit_of a target t).aggregate.events

new_run_event-eq-ok :
    (services : TextServices) (event : RunEvent) {e : RunEvent}
    → new_run_event services event ≡ ok e
    → e ≡ event
unfolding new_run_event
new_run_event-eq-ok services event h = ground arith

pub model-eq-ok {ℓ} : {A : Type ℓ} (r : Result ModelError A) {a : A} → model r ≡ ok a → r ≡ ok a
model-eq-ok (ok b) h = cc
model-eq-ok (err e) h = cc

-- The last step of an append: the aggregate that was built is the one asked for.
built_commit :
    (run : RunRecord) (events : List RunEvent) (event : RunEvent)
    (r : Result ModelError RunAggregate) {c : RunCommit}
    → new_run_aggregate run (events ++ event ∷ []) ≡ r
    → (model r >>= λ after. ok (record { aggregate = after; event = some event })) ≡ ok c
    → (c ≡ record {
      aggregate = record { run = run; events = events ++ event ∷ [] };
      event = some event;
    })
      × IsHistory run (events ++ event ∷ [])
built_commit run events event (ok b) e h =
    let (shape, history) = new_run_aggregate-IsHistory run (events ++ event ∷ []) e in
    (cc (shape), history)
built_commit run events event (err x) e h = cc

append_status-eq-ok :
    (services : TextServices) (a : RunAggregate) (target : RunStatus) (t : Timestamp)
    (r : Result ModelError RunEvent) {c : RunCommit}
    → new_run_event services (status_event (moved a.run target t) (length a.events + 1) target t)
      ≡ r
    → (model r >>= λ event.
        model (new_run_aggregate (moved a.run target t) (a.events ++ event ∷ [])) >>= λ after.
        ok (record { aggregate = after; event = some event }))
      ≡ ok c
    → (c ≡ commit_of a target t)
      × IsHistory (commit_of a target t).aggregate.run (commit_of a target t).aggregate.events
append_status-eq-ok services a target t (ok e) made h =
    rw (← new_run_event-eq-ok services _ made)
      (built_commit (moved a.run target t) a.events e _ refl h)
append_status-eq-ok services a target t (err x) made h = cc

-- A transition on a valid history that returns was allowed, and did just that.
transition_on_history :
    (services : TextServices) (a : RunAggregate) (target : RunStatus) (t : Timestamp)
    {c : RunCommit}
    → All (IsAdmitted services) a.events × IsHistory a.run a.events
    → transition_run services a target t ≡ ok c
    → IsCommitOf a target t c
unfolding transition_run append_status
transition_on_history services a target t (admitted, history) h =
    let number = next_sequence_lem 1 a.events history.order ∙ add_comm 1 (length a.events) in
    let (passed, rest) =
      raise_if-eq-ok (not (mem target (run_transitions a.run.status))) _ _
        (rw (revalidate_ok services a admitted history) at h) in
    let (commit, after) = append_status-eq-ok services a target t _ refl (rw number at rest) in
    record { before = history; allowed = not-eq-false _ passed; commit = commit; after = after }

validated_history :
    (services : TextServices) (a : RunAggregate) {A : Type 0}
    (f : RunAggregate → Result ProtocolError A) (r : Result ModelError RunAggregate) {x : A}
    → revalidate services a ≡ r
    → (model r >>= f) ≡ ok x
    → All (IsAdmitted services) a.events × IsHistory a.run a.events
validated_history services a f (ok b) e h = revalidate-eq-ok services a e
validated_history services a f (err b) e h = absurd (cc)

-- A transition that returns was allowed on a valid history, and did just that.
pub transition_run-IsCommitOf :
    (services : TextServices) (a : RunAggregate) (target : RunStatus) (t : Timestamp)
    {c : RunCommit}
    → transition_run services a target t ≡ ok c
    → IsCommitOf a target t c
unfolding transition_run
transition_run-IsCommitOf services a target t h =
    transition_on_history services a target t (validated_history services a _ _ refl h) h

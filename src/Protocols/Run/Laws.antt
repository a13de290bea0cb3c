-- ===== src/Protocols/Run/Laws.antt =====
-- What a run transition does: the event history stays valid, and a transition succeeds exactly when
-- the table allows it and time does not run backwards.
use native.Mathlib.Nat.{add_comm}
use nipo_science.Prelude.{
  >>=-eq-ok, All, All-last, IsSortedFrom, List, Timestamp, Uuid, [], any, ap, arith, codes, false,
  last, length, length-append, mem, nat_eq, ne→path, none, ok, ok-injective, optional_text_eq,
  raise_if-eq-ok, refl, some, sorted_iff, sorted_of_IsSortedFrom, suc, sym, text_eq, true,
  uuid_pair_eq, uuid_triple_eq, zero, ℕ, ◌!=◌, ◌++◌, ◌+◌, ◌↔◌, ◌∙◌, ◌∷◌, ◌≡◌, ◌≤◌,
}
use nipo_science.Protocols.EventGuard.{
  TextServices, contains_forbidden_event_data, forbidden_event_key,
}
use nipo_science.Protocols.Models.{
  RunAggregate, RunEvent, RunRecord, RunStatus, approval_binding_eq, approval_status_eq,
  execution_status_eq, new_run_aggregate, new_run_event, range_from, run_status_eq, sequences,
  timestamps,
}
use nipo_science.Protocols.Run.{
  append_status, next_sequence, revalidate, run_transitions, status_event, status_text,
  transition_run, validate_events,
}

-- The validator's three conditions on a run's events.
pub record IsHistory (run : RunRecord) (events : List RunEvent) : Type 0 where
  pub tenant : All (λ event. event.run_id ≡ run.id) events
  pub order : sequences events ≡ range_from 1 (length events)
  pub time : IsSortedFrom 0 (timestamps events)

pub tenant_iff :
    (id : Uuid) (events : List RunEvent)
    → (any (λ event. event.run_id != id) events ≡ false) ↔ All (λ event. event.run_id ≡ id) events
tenant_iff id [] = (λ h. tt, λ h. refl)
tenant_iff id (event ∷ events) = (
  λ h. (ground arith, (tenant_iff id events).0 (ground arith)),
  λ h. ground (arith, (tenant_iff id events).1 h.1),
)

-- Constructing an aggregate succeeds exactly on a valid history, and keeps what it is given.
pub new_run_aggregate_ok :
    (run : RunRecord) (events : List RunEvent)
    → IsHistory run events
    → new_run_aggregate run events ≡ ok (record { run = run; events = events })
unfolding new_run_aggregate
new_run_aggregate_ok run events h =
    rw ((tenant_iff run.id events).1 h.tenant)
      (ground (arith, h.order, sorted_of_IsSortedFrom 0 (timestamps events) h.time))

pub new_run_aggregate-IsHistory :
    (run : RunRecord) (events : List RunEvent) {a : RunAggregate}
    → new_run_aggregate run events ≡ ok a
    → (a ≡ record { run = run; events = events }) × IsHistory run events
unfolding new_run_aggregate
new_run_aggregate-IsHistory run events h =
    let (t, h1) = raise_if-eq-ok _ _ _ h in
    let (o, h2) = raise_if-eq-ok _ _ _ h1 in
    let (s, h3) = raise_if-eq-ok _ _ _ h2 in
    (
      sym (ok-injective h3),
      record {
        tenant = (tenant_iff run.id events).0 t;
        order = ne→path _ _ o;
        time = (sorted_iff (timestamps events)).0 (sym (ne→path _ _ s));
      },
    )

-- An event that its model accepts.
abbrev pub IsAdmitted : TextServices → RunEvent → Type 0
IsAdmitted services event =
    (1 ≤ event.sequence) × (contains_forbidden_event_data services event.payload ≡ false)

pub new_run_event_iff :
    (services : TextServices) (event e : RunEvent)
    → (new_run_event services event ≡ ok e) ↔ ((e ≡ event) × IsAdmitted services event)
unfolding new_run_event
new_run_event_iff services event e = (λ h. ground (arith, h), λ h. ground (arith, h))

validate_events_ok :
    (services : TextServices) (events : List RunEvent)
    → All (IsAdmitted services) events
    → validate_events services events ≡ ok events
unfolding validate_events
validate_events_ok services [] h = refl
validate_events_ok services (event ∷ events) (first, rest) =
    rw ((new_run_event_iff services event event).1 (refl, first))
      (rw (validate_events_ok services events rest) refl)

validate_events-eq-ok :
    (services : TextServices) (events : List RunEvent) {valid : List RunEvent}
    → validate_events services events ≡ ok valid
    → (valid ≡ events) × All (IsAdmitted services) events
unfolding validate_events
validate_events-eq-ok services [] h = (sym (ok-injective h), tt)
validate_events-eq-ok services (event ∷ events) h =
    let (e, first, h1) = >>=-eq-ok (new_run_event services event) _ h in
    let (es, later, h2) = >>=-eq-ok (validate_events services events) _ h1 in
    let (same, admitted) = (new_run_event_iff services event e).0 first in
    let (rest, all_admitted) = validate_events-eq-ok services events later in
    (sym (ok-injective h2) ∙ rw (same, rest) refl, (admitted, all_admitted))

-- A dump is accepted exactly when every event is and the history is valid, and keeps the aggregate.
pub revalidate_ok :
    (services : TextServices) (a : RunAggregate)
    → All (IsAdmitted services) a.events
    → IsHistory a.run a.events
    → revalidate services a ≡ ok a
unfolding revalidate
revalidate_ok services a admitted h =
    rw (validate_events_ok services a.events admitted) (new_run_aggregate_ok a.run a.events h)

pub revalidate-eq-ok :
    (services : TextServices) (a : RunAggregate) {b : RunAggregate}
    → revalidate services a ≡ ok b
    → All (IsAdmitted services) a.events × IsHistory a.run a.events
unfolding revalidate
revalidate-eq-ok services a h =
    let (events, valid, built) = >>=-eq-ok (validate_events services a.events) _ h in
    let (same, admitted) = validate_events-eq-ok services a.events valid in
    let history = (new_run_aggregate-IsHistory a.run events built).1 in
    (admitted, rw same at history)

sequences-append : (xs ys : List RunEvent) → sequences (xs ++ ys) ≡ sequences xs ++ sequences ys
unfolding sequences
sequences-append [] ys = refl
sequences-append (x ∷ xs) ys = ap (◌∷◌ x.sequence) (sequences-append xs ys)

timestamps-append : (xs ys : List RunEvent) → timestamps (xs ++ ys) ≡ timestamps xs ++ timestamps ys
unfolding timestamps
timestamps-append [] ys = refl
timestamps-append (x ∷ xs) ys = ap (◌∷◌ x.created_at) (timestamps-append xs ys)

range_from-suc : (first n : ℕ) → range_from first (suc n) ≡ range_from first n ++ (first + n) ∷ []
unfolding range_from
range_from-suc first zero = ap (λ n. n ∷ []) (omega arith)
range_from-suc first (suc n) =
    ap (◌∷◌ first)
      (range_from-suc (suc first) n ∙ ap (λ m. range_from (suc first) n ++ m ∷ []) (omega arith))

-- In a valid history the next sequence number counts the events from 1.
pub next_sequence_lem :
    (first : ℕ) (events : List RunEvent)
    → sequences events ≡ range_from first (length events)
    → elim (last events) [ none ↦ first | some event ↦ event.sequence + 1 ] ≡ first + length events
unfolding sequences range_from
next_sequence_lem first [] h = omega arith
next_sequence_lem first (x ∷ []) h = ground arith
next_sequence_lem first (x ∷ y ∷ xs) h =
    ground (arith, next_sequence_lem (suc first) (y ∷ xs) (ground arith))

-- No event is later than the time.
abbrev pub IsAfter : List RunEvent → Timestamp → Type 0
IsAfter events t = elim (last events) [ none ↦ Unit {0} | some event ↦ event.created_at ≤ t ]

bound-le :
    (lo t : Timestamp) (x : RunEvent) (events : List RunEvent)
    → IsSortedFrom lo (timestamps (x ∷ events))
    → IsAfter (x ∷ events) t
    → lo ≤ t
unfolding timestamps
bound-le lo t x [] s h = omega arith
bound-le lo t x (y ∷ xs) s h = omega (arith, bound-le x.created_at t y xs s.1 h)

time-append :
    (lo t : Timestamp) (events : List RunEvent)
    → IsSortedFrom lo (timestamps events)
    → lo ≤ t
    → IsAfter events t
    → IsSortedFrom lo (timestamps events ++ t ∷ [])
unfolding timestamps
time-append lo t [] s l h = (l, tt)
time-append lo t (x ∷ []) s l h = (s.0, (h, tt))
time-append lo t (x ∷ y ∷ xs) s l h =
    (s.0, time-append x.created_at t (y ∷ xs) s.1 (bound-le x.created_at t y xs s.1 h) h)

order-append :
    (events : List RunEvent) (event : RunEvent)
    → sequences events ≡ range_from 1 (length events)
    → event.sequence ≡ next_sequence events
    → sequences (events ++ event ∷ []) ≡ range_from 1 (length (events ++ event ∷ []))
unfolding sequences
order-append events event h seq =
    let n : length (events ++ event ∷ []) ≡ suc (length events) =
      omega (arith, length-append events (event ∷ [])) in
    rw (sequences-append events (event ∷ []), n, range_from-suc, h)
      (ap (λ m. range_from 1 (length events) ++ m ∷ []) (seq ∙ next_sequence_lem 1 events h))

-- One more event of the run, numbered next and not earlier than the last, keeps the history valid.
IsHistory-append :
    (run run' : RunRecord) (events : List RunEvent) (event : RunEvent)
    → IsHistory run events
    → run'.id ≡ run.id
    → event.run_id ≡ run.id
    → event.sequence ≡ next_sequence events
    → IsAfter events event.created_at
    → IsHistory run' (events ++ event ∷ [])
unfolding timestamps
IsHistory-append run run' events event h same owner seq late = record {
  tenant = rw same (All-last (λ e. e.run_id ≡ run.id) events event h.tenant owner);
  order = order-append events event h.order seq;
  time =
      rw (timestamps-append events (event ∷ []))
        (time-append 0 event.created_at events h.time (omega arith) late);
}

-- The event guard passes the status events, as Unicode folding and the secret patterns leave
-- lower-case ASCII words alone.
pub record IsPlain (services : TextServices) : Type 0 where
  pub folds : services.fold (codes "status") ≡ codes "status"
  pub plain : (s : RunStatus) → services.secret_value (status_text s) ≡ false

status_event-passes :
    (services : TextServices) (run : RunRecord) (sequence : ℕ) (target : RunStatus) (t : Timestamp)
    → IsPlain services
    → 1 ≤ sequence
    → new_run_event services (status_event run sequence target t)
      ≡ ok (status_event run sequence target t)
unfolding new_run_event contains_forbidden_event_data forbidden_event_key
status_event-passes services run sequence target t p h = rw (p.folds, p.plain target) (ground arith)

-- The run after a transition.
abbrev pub moved : RunRecord → RunStatus → Timestamp → RunRecord
moved run target t = record run { status = target; updated_at = t }

-- A transition that the table allows, at a time not before the last event, succeeds on a valid
-- history whose events have positive numbers and data that the guard passes, for text services that
-- leave the words of the statuses alone: the run takes the target status and one event, numbered
-- next, is appended.
pub transition_run_succeeds :
    (services : TextServices) (a : RunAggregate) (target : RunStatus) (t : Timestamp)
    → IsPlain services
    → All (IsAdmitted services) a.events
    → IsHistory a.run a.events
    → mem target (run_transitions a.run.status) ≡ true
    → IsAfter a.events t
    → transition_run services a target t ≡ (
        let event = status_event (moved a.run target t) (length a.events + 1) target t in
        ok (record {
          aggregate = record { run = moved a.run target t; events = a.events ++ event ∷ [] };
          event = some event;
        }))
unfolding transition_run append_status
transition_run_succeeds services a target t plain admitted h allowed late =
    let number = next_sequence_lem 1 a.events h.order ∙ add_comm 1 (length a.events) in
    let event = status_event (moved a.run target t) (length a.events + 1) target t in
    rw (revalidate_ok services a admitted h, allowed, number)
      (rw
        (status_event-passes services (moved a.run target t) (length a.events + 1) target t plain
          (omega arith))
        (rw
          (new_run_aggregate_ok (moved a.run target t) (a.events ++ event ∷ []) (
            IsHistory-append a.run (moved a.run target t) a.events event h refl refl (sym number)
              late))
          refl))

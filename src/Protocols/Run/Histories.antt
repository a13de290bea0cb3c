-- ===== src/Protocols/Run/Histories.antt =====
-- Sequences of run commands: validity is kept, a terminal run never changes again, and the event log
-- records a walk through the transition table.
use mathlib.Core.List.{map, map-append, append-nil, append_assoc}
use nipo_science.Prelude.{
  Bool-cases, List, Result, Timestamp, [], ap, codes, err, false, inl, inr, mem, nat_eq, ok, refl,
  sym, text_eq, true, uuid_pair_eq, uuid_triple_eq, ◌++◌, ◌∙◌, ◌∷◌, ◌≡◌,
}
use nipo_science.Protocols.EventGuard.{Json, TextServices, end, field, object, string}
use nipo_science.Protocols.Models.{
  RunAggregate, RunEvent, RunStatus, RunStatus-discrete, approval_binding_eq, approval_status_eq,
  execution_status_eq, run_status_eq,
}
use nipo_science.Protocols.Run.{
  ProtocolError, RunCommit, cancel_run, run_transitions, status_text, terminal_run_statuses,
  transition_run,
}
use nipo_science.Protocols.Run.Commits.{IsCommitOf, commit_of, transition_run-IsCommitOf}
use nipo_science.Protocols.Run.Laws.{IsHistory}

-- A request to move a run, or to cancel it, at a time.
pub data Command : Type 0 where
  advance : RunStatus → Timestamp → Command
  cancel : Timestamp → Command

-- A refused command leaves the stored aggregate alone.
abbrev pub stored : RunAggregate → Result ProtocolError RunCommit → RunAggregate
stored a (ok c) = c.aggregate
stored a (err e) = a

unfoldable pub apply_command : TextServices → RunAggregate → Command → RunAggregate
apply_command services a (advance target t) = stored a (transition_run services a target t)
apply_command services a (cancel t) = stored a (cancel_run services a t)

unfoldable pub apply_commands : TextServices → RunAggregate → List Command → RunAggregate
apply_commands services a [] = a
apply_commands services a (c ∷ cs) = apply_commands services (apply_command services a c) cs

-- What one command did: nothing, or a commit that the table allows.
data Effect (a : RunAggregate) (b : RunAggregate) : Type 0 where
  kept : b ≡ a → Effect a b
  committed :
      (target : RunStatus) (t : Timestamp) (c : RunCommit)
      → IsCommitOf a target t c
      → b ≡ c.aggregate
      → Effect a b

transition_run-Effect :
    (services : TextServices) (a : RunAggregate) (target : RunStatus) (t : Timestamp)
    (r : Result ProtocolError RunCommit)
    → transition_run services a target t ≡ r
    → Effect a (stored a r)
transition_run-Effect services a target t (ok c) e =
    committed target t c (transition_run-IsCommitOf services a target t e) refl
transition_run-Effect services a target t (err x) e = kept refl

cancel_run-Effect :
    (services : TextServices) (a : RunAggregate) (t : Timestamp)
    → Effect a (stored a (cancel_run services a t))
unfolding cancel_run
cancel_run-Effect services a t = elim (Bool-cases (mem a.run.status terminal_run_statuses)) [
  | inl over ↦ rw over (kept refl)
  | inr live ↦ rw live (transition_run-Effect services a RunStatus.cancelled t _ refl)
]

apply_command-Effect :
    (services : TextServices) (a : RunAggregate) (c : Command)
    → Effect a (apply_command services a c)
unfolding apply_command
apply_command-Effect services a (advance target t) =
    transition_run-Effect services a target t _ refl
apply_command-Effect services a (cancel t) = cancel_run-Effect services a t

abbrev pub IsValid : RunAggregate → Type 0
IsValid a = IsHistory a.run a.events

Effect-IsValid : {a b : RunAggregate} → Effect a b → IsValid a → IsValid b
Effect-IsValid (kept e) h = rw e h
Effect-IsValid (committed target t c commit e) h = rw (e, commit.commit) commit.after

-- Whatever the commands, a valid history stays valid.
pub apply_commands-IsValid :
    (services : TextServices) (a : RunAggregate) (cs : List Command)
    → IsValid a
    → IsValid (apply_commands services a cs)
unfolding apply_commands
apply_commands-IsValid services a [] h = h
apply_commands-IsValid services a (c ∷ cs) h =
    apply_commands-IsValid services (apply_command services a c) cs
      (Effect-IsValid (apply_command-Effect services a c) h)

terminal_stuck :
    (s target : RunStatus)
    → mem s terminal_run_statuses ≡ true
    → mem target (run_transitions s) ≡ false
unfolding mem RunStatus-discrete
terminal_stuck RunStatus.completed target h = refl
terminal_stuck RunStatus.failed target h = refl
terminal_stuck RunStatus.cancelled target h = refl
terminal_stuck RunStatus.queued target h = cc
terminal_stuck RunStatus.running target h = cc
terminal_stuck RunStatus.awaiting_user target h = cc
terminal_stuck RunStatus.awaiting_approval target h = cc

Effect-terminal :
    {a b : RunAggregate} → Effect a b → mem a.run.status terminal_run_statuses ≡ true → b ≡ a
Effect-terminal (kept e) h = e
Effect-terminal {a} (committed target t c commit e) h =
    absurd (cc (commit.allowed, terminal_stuck a.run.status target h))

-- A run that has completed, failed or been cancelled never changes again.
pub apply_commands_terminal :
    (services : TextServices) (a : RunAggregate) (cs : List Command)
    → mem a.run.status terminal_run_statuses ≡ true
    → apply_commands services a cs ≡ a
unfolding apply_commands
apply_commands_terminal services a [] h = refl
apply_commands_terminal services a (c ∷ cs) h =
    rw (Effect-terminal (apply_command-Effect services a c) h)
      (apply_commands_terminal services a cs h)

-- A walk through the transition table.
pub data Walk : RunStatus → List RunStatus → RunStatus → Type 0 where
  here : (s : RunStatus) → Walk s [] s
  step :
      (s target : RunStatus) (path : List RunStatus) (final : RunStatus)
      → mem target (run_transitions s) ≡ true
      → Walk target path final
      → Walk s (target ∷ path) final

abbrev pub payloads : List RunEvent → List Json
payloads = map (λ event. event.payload)

abbrev pub status_payload : RunStatus → Json
status_payload s = object (field (codes "status") (string (status_text s)) end)

-- From `a` to `b` the status walked along a path, and the log grew by the statuses of that path.
abbrev pub Logs : RunAggregate → RunAggregate → Type 0
Logs a b =
    (path : List RunStatus) × Walk a.run.status path b.run.status
    × (payloads b.events ≡ payloads a.events ++ map status_payload path)

commit_of-Logs :
    (a c : RunAggregate) (target : RunStatus) (t : Timestamp)
    → mem target (run_transitions a.run.status) ≡ true
    → Logs (commit_of a target t).aggregate c
    → Logs a c
commit_of-Logs a c target t allowed (path, walk, log) = (
  target ∷ path,
  step a.run.status target path c.run.status allowed walk,
  log
      ∙ rw map-append
          (append_assoc (payloads a.events) (status_payload target ∷ []) (map status_payload path)),
)

Logs-prepend : {a b : RunAggregate} (c : RunAggregate) → Effect a b → Logs b c → Logs a c
Logs-prepend c (kept e) l = rw (← e) l
Logs-prepend {a} c (committed target t d commit e) l =
    commit_of-Logs a c target t commit.allowed (rw (e ∙ ap (λ d. d.aggregate) commit.commit) at l)

-- Whatever the commands, the log grows by the statuses of one walk through the transition table,
-- from the status at the start to the status at the end.
pub apply_commands-Logs :
    (services : TextServices) (a : RunAggregate) (cs : List Command)
    → Logs a (apply_commands services a cs)
unfolding apply_commands
apply_commands-Logs services a [] = ([], here a.run.status, sym (append-nil (payloads a.events)))
apply_commands-Logs services a (c ∷ cs) =
    Logs-prepend (apply_commands services (apply_command services a c) cs)
      (apply_command-Effect services a c)
      (apply_commands-Logs services (apply_command services a c) cs)

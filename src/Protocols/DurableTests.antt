-- ===== src/Protocols/DurableTests.antt =====
-- A durable store of one attempt, to which the theorems apply.
use nipo_science.Prelude.{
  Bool, List, Option, OptionalText-discrete, Result, Text-discrete, [], err, false, holds, inl, inr,
  mem, nat_eq, none, ok, optional_text_eq, refl, some, text_eq, true, uuid_pair_eq, uuid_triple_eq,
  ℕ, ℕ_discrete, ◌+◌, ◌∷◌, ◌≡◌, ◌≤◌,
}
use nipo_science.Protocols.AttemptTests.{at_time, held_attempt, started_attempt, worker}
use nipo_science.Protocols.Attempts.Walks.{Walk}
use nipo_science.Protocols.Attempts.{
  stale_attempt_token, AttemptStatus-discrete, EffectState-discrete, ExecutionAttempt,
  RecoveryError, action_failed, as_completed, attempt_status_eq, complete_attempt, effect_state_eq,
  has_lineage, lineage_allowed, new_attempt, record_effect, require_lease, started,
}
use nipo_science.Protocols.Attempts.Effects.{starts}
use nipo_science.Protocols.Durable.{
  Action, AttemptStore, Transition, complete_attempt_durable, perform_downstream_effect,
  persist_attempt_transition,
}
use nipo_science.Protocols.Durable.Refinement.{
  DurableCall, IsAuthority, IsPerformed, IsServed, completing, performed-le, performing, serve_call,
  serve_calls, serve_calls-Walk,
}

-- A store in memory: the attempt, and how many times the action was called. Its clock is fixed.
unfoldable ExecutionAttempt-discrete : Discrete ExecutionAttempt
ExecutionAttempt-discrete = hlevel ℕ_discrete

abbrev Memory : Type 0
Memory = ExecutionAttempt × ℕ

abbrev replaced :
    Memory
    → Result RecoveryError ExecutionAttempt
    → Result RecoveryError (Option ExecutionAttempt) × Memory
replaced s (ok r) = (ok (some r), (r, s.1))
replaced s (err e) = (err e, s)

-- The replacement is stored before the action is called.
abbrev ended_by :
    Action → ExecutionAttempt → Memory → Result RecoveryError (Option ExecutionAttempt) × Memory
ended_by (ok _) r s = (ok (some r), (r, s.1 + 1))
ended_by (err e) r s = (err e, (r, s.1 + 1))

abbrev performed_by :
    Action
    → Memory
    → Result RecoveryError ExecutionAttempt
    → Result RecoveryError (Option ExecutionAttempt) × Memory
performed_by action s (ok r) = ended_by action r s
performed_by action s (err e) = (err e, s)

-- The attempt is replaced when it is the expected one.
abbrev chosen :
    Memory
    → Bool
    → Result RecoveryError (Option ExecutionAttempt) × Memory
    → Result RecoveryError (Option ExecutionAttempt) × Memory
chosen s true made = made
chosen s false made = (ok none, s)

unfoldable swap :
    ExecutionAttempt → Transition → Memory → Result RecoveryError (Option ExecutionAttempt) × Memory
swap expected move s =
    chosen s (holds (ExecutionAttempt-discrete expected s.0))
      (replaced s (move expected (at_time 30)))

unfoldable swap_perform :
    ExecutionAttempt
    → Transition
    → Action
    → Memory
    → Result RecoveryError (Option ExecutionAttempt) × Memory
swap_perform expected move action s =
    chosen s (holds (ExecutionAttempt-discrete expected s.0))
      (performed_by action s (move expected (at_time 30)))

abbrev memory_store : AttemptStore Memory
memory_store = record { compare_and_set = swap; compare_and_set_perform = swap_perform }

swap-IsServed :
    (expected : ExecutionAttempt) (move : Transition) (s : Memory) (held : Dec (expected ≡ s.0))
    (r : Result RecoveryError ExecutionAttempt)
    → move expected (at_time 30) ≡ r
    → IsServed
        (λ m. m.0)
        (λ m. at_time 30)
        (λ m. m.1)
        expected
        move
        s
        (chosen s (holds held) (replaced s r))
swap-IsServed expected move s (yes same) (ok r) made = ((same, made, refl), refl)
swap-IsServed expected move s (yes same) (err e) made = (refl, refl)
swap-IsServed expected move s (no other) r made = (refl, refl)

swap-IsPerformed :
    (expected : ExecutionAttempt) (move : Transition) (action : Action) (s : Memory)
    (held : Dec (expected ≡ s.0)) (r : Result RecoveryError ExecutionAttempt)
    → move expected (at_time 30) ≡ r
    → IsPerformed
        (λ m. m.0)
        (λ m. at_time 30)
        (λ m. m.1)
        expected
        move
        action
        s
        (chosen s (holds held) (performed_by action s r))
swap-IsPerformed expected move (ok u) s (yes same) (ok r) made = ((same, made, refl), refl, refl)
swap-IsPerformed expected move (err e) s (yes same) (ok r) made =
    inr (r, (same, made, refl), refl, refl)
swap-IsPerformed expected move action s (yes same) (err e) made = inl (refl, refl)
swap-IsPerformed expected move action s (no other) r made = (refl, refl)

swap_lem :
    (expected : ExecutionAttempt) (move : Transition) (s : Memory)
    → IsServed (λ m. m.0) (λ m. at_time 30) (λ m. m.1) expected move s (swap expected move s)
unfolding swap
swap_lem expected move s =
    swap-IsServed expected move s (ExecutionAttempt-discrete expected s.0)
      (move expected (at_time 30)) refl

swap_perform_lem :
    (expected : ExecutionAttempt) (move : Transition) (action : Action) (s : Memory)
    → IsPerformed
        (λ m. m.0)
        (λ m. at_time 30)
        (λ m. m.1)
        expected
        move
        action
        s
        (swap_perform expected move action s)
unfolding swap_perform
swap_perform_lem expected move action s =
    swap-IsPerformed expected move action s (ExecutionAttempt-discrete expected s.0)
      (move expected (at_time 30)) refl

abbrev memory_authority : IsAuthority memory_store
memory_authority = record {
  stored = λ m. m.0;
  clock = λ m. at_time 30;
  performed = λ m. m.1;
  sets = swap_lem;
  performs = swap_perform_lem;
}

abbrev durable_calls : List DurableCall
durable_calls =
    performing held_attempt worker 1 (at_time 30) started (err action_failed)
    ∷ performing held_attempt worker 1 (at_time 31) started (ok tt)
    ∷ completing started_attempt worker 1 (at_time 32) as_completed
    ∷ []

serve_calls-Walk_example :
    (w : Walk held_attempt (serve_calls memory_store durable_calls (held_attempt, 0)).0)
    × ((serve_calls memory_store durable_calls (held_attempt, 0)).1 ≤ 0 + starts w)
serve_calls-Walk_example =
    serve_calls-Walk memory_store memory_authority durable_calls (held_attempt, 0)

performed-le_example : (serve_calls memory_store durable_calls (held_attempt, 0)).1 ≤ 0 + 1
performed-le_example = performed-le memory_store memory_authority durable_calls (held_attempt, 0)

-- The first performance raises after the attempt is replaced; the second finds another attempt than
-- the one it expects, and does not call the action.
failed_test :
    perform_downstream_effect memory_store held_attempt worker 1
      (at_time 30)
      started
      (err action_failed)
      (held_attempt, 0)
    ≡ (err action_failed, (started_attempt, 1))
unfolding perform_downstream_effect swap_perform record_effect require_lease new_attempt
    lineage_allowed has_lineage ExecutionAttempt-discrete ℕ_discrete Text-discrete
    EffectState-discrete AttemptStatus-discrete OptionalText-discrete mem
failed_test = refl

refused_test :
    perform_downstream_effect memory_store held_attempt worker 1
      (at_time 31)
      started
      (ok tt)
      (started_attempt, 1)
    ≡ (err stale_attempt_token, (started_attempt, 1))
unfolding perform_downstream_effect swap_perform record_effect require_lease new_attempt
    lineage_allowed has_lineage ExecutionAttempt-discrete ℕ_discrete Text-discrete
    EffectState-discrete AttemptStatus-discrete OptionalText-discrete mem
refused_test = refl

performed_test : (serve_calls memory_store durable_calls (held_attempt, 0)).1 ≡ 1
unfolding serve_calls serve_call perform_downstream_effect complete_attempt_durable
    persist_attempt_transition swap swap_perform record_effect complete_attempt require_lease
    new_attempt lineage_allowed has_lineage ExecutionAttempt-discrete ℕ_discrete Text-discrete
    EffectState-discrete AttemptStatus-discrete OptionalText-discrete mem
performed_test = refl

-- ===== src/Protocols/Durable/Refinement.antt =====
-- A durable store refines the fenced attempt: whatever calls it serves, what it holds walks through
-- the transitions of one attempt, and the downstream action is called at most once.
use nipo_science.Prelude.{
  Bool, List, Option, Result, Text, [], arith, err, false, if◌then◌else◌, inl, inr, nat_eq, none,
  not, ok, optional_text_eq, refl, some, sym, text_eq, true, uuid_pair_eq, uuid_triple_eq, ℕ,
  ℕ_discrete, ◌!=◌, ◌+◌, ◌∷◌, ◌≡◌, ◌≤◌, ◌⊎◌,
}
use nipo_science.Protocols.Attempts.{
  AttemptOutcome, EffectState, EffectState-discrete, ExecutionAttempt, Moment, RecoveryError,
  ambiguous, attempt_status_eq, claim_attempt, committed, complete_attempt, effect_state_eq,
  heartbeat_attempt, invalid_effect_transition, invalid_occurred_at, not_started, record_effect,
  started,
}
use nipo_science.Protocols.Attempts.Effects.{is_start, starts, starts-le}
use nipo_science.Protocols.Attempts.Walks.{
  Call, Walk, call_attempt, claim, complete, effect, further, heartbeat, stay,
}
use nipo_science.Protocols.Durable.{
  Action, AttemptStore, Transition, claim_attempt_durable, complete_attempt_durable,
  heartbeat_attempt_durable, perform_downstream_effect, persist_attempt_transition, persisted,
  record_effect_durable,
}

-- The replacement is the transition of the expected attempt, which was the one held.
abbrev pub IsReplaced :
    {S : Type 0}
    → (S → ExecutionAttempt)
    → (S → Moment)
    → ExecutionAttempt
    → Transition
    → S
    → ExecutionAttempt
    → S
    → Type 0
IsReplaced stored clock expected f s r s' =
    (expected ≡ stored s) × (f expected (clock s) ≡ ok r) × (stored s' ≡ r)

-- Neither the attempt nor the number of times that the action was called has changed.
abbrev pub IsKept : {S : Type 0} → (S → ExecutionAttempt) → (S → ℕ) → S → S → Type 0
IsKept stored performed s s' = (stored s' ≡ stored s) × (performed s' ≡ performed s)

-- A set replaces the attempt and does not call the action, or leaves both.
abbrev pub IsServed :
    {S : Type 0}
    → (S → ExecutionAttempt)
    → (S → Moment)
    → (S → ℕ)
    → ExecutionAttempt
    → Transition
    → S
    → Result RecoveryError (Option ExecutionAttempt) × S
    → Type 0
IsServed stored clock performed expected f s (ok (some r), s') =
    IsReplaced stored clock expected f s r s' × (performed s' ≡ performed s)
IsServed stored clock performed expected f s (ok none, s') = IsKept stored performed s s'
IsServed stored clock performed expected f s (err e, s') = IsKept stored performed s s'

-- A performance replaces the attempt before it calls the action once, so the attempt stays replaced
-- when the action raises; otherwise it leaves both.
abbrev pub IsPerformed :
    {S : Type 0}
    → (S → ExecutionAttempt)
    → (S → Moment)
    → (S → ℕ)
    → ExecutionAttempt
    → Transition
    → Action
    → S
    → Result RecoveryError (Option ExecutionAttempt) × S
    → Type 0
IsPerformed stored clock performed expected f action s (ok (some r), s') =
    IsReplaced stored clock expected f s r s' × (action ≡ ok tt) × (performed s' ≡ performed s + 1)
IsPerformed stored clock performed expected f action s (ok none, s') = IsKept stored performed s s'
IsPerformed stored clock performed expected f action s (err e, s') =
    IsKept stored performed s s'
    ⊎ ((r : ExecutionAttempt) × IsReplaced stored clock expected f s r s'
        × (action ≡ err e)
        × (performed s' ≡ performed s + 1))

-- What the source documents of a store, in its interface and in the tests of a failing action
-- (tests/platform/test_g005_recovery_contract.py): it holds one attempt, a call that replaces it
-- found the expected one and applied the transition to it at the store's time, a call that does not
-- replace it leaves it, and only the second call calls the action, once it has replaced the attempt.
pub record IsAuthority {S : Type 0} (store : AttemptStore S) : Type 0 where
  pub stored : S → ExecutionAttempt
  pub clock : S → Moment
  pub performed : S → ℕ
  pub sets :
      (expected : ExecutionAttempt) (f : Transition) (s : S)
      → IsServed stored clock performed expected f s (store.compare_and_set expected f s)
  pub performs :
      (expected : ExecutionAttempt) (f : Transition) (action : Action) (s : S)
      → IsPerformed stored clock performed expected f action s
          (store.compare_and_set_perform expected f action s)

starts_stay : (a : ExecutionAttempt) → starts {a = a} stay ≡ 0
unfolding starts
starts_stay a = refl

starts_further :
    {a b d : ExecutionAttempt} (w : Walk a b) (c : Call) (h : call_attempt c b ≡ ok d)
    → starts (further b c w h) ≡ is_start c + starts w
unfolding starts
starts_further w c h = refl

moved_walk :
    {a b d : ExecutionAttempt} (e : b ≡ d) (w : Walk a b)
    → (moved : Walk a d) × (starts moved ≡ starts w)
moved_walk e w = rw (sym e) (w, refl)

-- A call on the store.
pub data DurableCall : Type 0 where
  claiming beating : ExecutionAttempt → Text → ℕ → Moment → Moment → DurableCall
  recording : ExecutionAttempt → Text → ℕ → Moment → EffectState → DurableCall
  performing : ExecutionAttempt → Text → ℕ → Moment → EffectState → Action → DurableCall
  completing : ExecutionAttempt → Text → ℕ → Moment → AttemptOutcome → DurableCall

module _ {S : Type 0} (store : AttemptStore S) where
  unfoldable pub serve_call : DurableCall → S → S
  serve_call (claiming a o t at d) s = (claim_attempt_durable store a o t at d s).1
  serve_call (beating a o t at d) s = (heartbeat_attempt_durable store a o t at d s).1
  serve_call (recording a o t at x) s = (record_effect_durable store a o t at x s).1
  serve_call (performing a o t at x action) s =
      (perform_downstream_effect store a o t at x action s).1
  serve_call (completing a o t at x) s = (complete_attempt_durable store a o t at x s).1

  unfoldable pub serve_calls : List DurableCall → S → S
  serve_calls [] s = s
  serve_calls (c ∷ cs) s = serve_calls cs (serve_call c s)

  module _ (authority : IsAuthority store) where
    -- One call: the attempt is as it was, or made one transition; the action is called at most with
    -- the start of the effect.
    abbrev Moves : S → S → Type 0
    Moves s s' =
        ((authority.stored s' ≡ authority.stored s)
          × (authority.performed s' ≡ authority.performed s))
        ⊎ ((c : Call) × (call_attempt c (authority.stored s) ≡ ok (authority.stored s'))
            × (authority.performed s' ≤ authority.performed s + is_start c))

    -- The effect of an answer of the store to a set, when the transition is that of a call.
    set-Moves :
        (expected : ExecutionAttempt) (f : Transition) (s : S) (c : Call)
        → ((r : ExecutionAttempt)
            → f expected (authority.clock s) ≡ ok r
            → call_attempt c expected ≡ ok r)
        → (out : Result RecoveryError (Option ExecutionAttempt) × S)
        → IsServed authority.stored authority.clock authority.performed expected f s out
        → Moves s (persisted out).1
    set-Moves expected f s c same (ok (some r), s') ((held, applied, replaced), count) =
        inr (c, rw (sym held, replaced) (same r applied), omega (arith, count))
    set-Moves expected f s c same (ok none, s') kept = inl kept
    set-Moves expected f s c same (err e, s') kept = inl kept

    -- The effect of its answer to a performance that starts the effect.
    performed-Moves :
        (expected : ExecutionAttempt) (o : Text) (t : ℕ) (action : Action) (s : S)
        → (out : Result RecoveryError (Option ExecutionAttempt) × S)
        → IsPerformed authority.stored authority.clock authority.performed expected
            (λ y now. record_effect y o t now started)
            action
            s
            out
        → Moves s (persisted out).1
    unfolding call_attempt
    performed-Moves expected o t action s (ok (some r), s') ((held, applied, replaced), _, count) =
        inr (
          effect o t (authority.clock s) started,
          rw (sym held, replaced) applied,
          omega (arith, count),
        )
    performed-Moves expected o t action s (ok none, s') kept = inl kept
    performed-Moves expected o t action s (err e, s') (inl kept) = inl kept
    performed-Moves expected o t action s (err e, s')
          (inr (r, (held, applied, replaced), _, count)) =
        inr (
          effect o t (authority.clock s) started,
          rw (sym held, replaced) applied,
          omega (arith, count),
        )

    -- A call that the code refuses before it asks the store leaves the store.
    guarded-Moves :
        (b : Bool) (e : RecoveryError) (s : S) (rest : Result RecoveryError ExecutionAttempt × S)
        → (b ≡ false → Moves s rest.1)
        → Moves s (if b then (err e, s) else rest).1
    guarded-Moves true e s rest h = inl (refl, refl)
    guarded-Moves false e s rest h = h refl

    setting-Moves :
        (a : ExecutionAttempt) (move : Transition) (at : Moment) (s : S) (c : Call)
        → ((r : ExecutionAttempt) → move a (authority.clock s) ≡ ok r → call_attempt c a ≡ ok r)
        → Moves s
            (if not at.is_utc
              then (err invalid_occurred_at, s)
              else persisted (store.compare_and_set a move s)).1
    setting-Moves a move at s c same =
        guarded-Moves (not at.is_utc) invalid_occurred_at s
          (persisted (store.compare_and_set a move s))
          (λ utc.
            set-Moves a move s c same (store.compare_and_set a move s) (authority.sets a move s))

    performing-Moves :
        (a : ExecutionAttempt) (o : Text) (t : ℕ) (at : Moment) (x : EffectState) (action : Action)
        (s : S)
        → Moves s
            (if x != started
              then (err invalid_effect_transition, s)
              else persisted
                  (store.compare_and_set_perform a (λ y now. record_effect y o t now x) action s)).1
    unfolding EffectState-discrete ℕ_discrete
    performing-Moves a o t at started action s =
        let move : Transition = λ y now. record_effect y o t now started in
        performed-Moves a o t action s (store.compare_and_set_perform a move action s)
          (authority.performs a move action s)
    performing-Moves a o t at not_started action s = inl (refl, refl)
    performing-Moves a o t at ambiguous action s = inl (refl, refl)
    performing-Moves a o t at committed action s = inl (refl, refl)

    pub serve_call-Moves : (c : DurableCall) (s : S) → Moves s (serve_call c s)
    unfolding serve_call claim_attempt_durable heartbeat_attempt_durable record_effect_durable
        perform_downstream_effect complete_attempt_durable persist_attempt_transition call_attempt
    serve_call-Moves (claiming a o t at d) s =
        setting-Moves a (λ x now. claim_attempt x o t now d) at s (claim o t (authority.clock s) d)
          (λ r h. h)
    serve_call-Moves (beating a o t at d) s =
        setting-Moves a (λ x now. heartbeat_attempt x o t now d) at s
          (heartbeat o t (authority.clock s) d) (λ r h. h)
    serve_call-Moves (recording a o t at x) s =
        setting-Moves a (λ y now. record_effect y o t now x) at s (effect o t (authority.clock s) x)
          (λ r h. h)
    serve_call-Moves (performing a o t at x action) s =
        guarded-Moves (not at.is_utc) invalid_occurred_at s
          (if x != started
            then (err invalid_effect_transition, s)
            else persisted
                (store.compare_and_set_perform a (λ y now. record_effect y o t now x) action s))
          (λ utc. performing-Moves a o t at x action s)
    serve_call-Moves (completing a o t at x) s =
        setting-Moves a (λ y now. complete_attempt y o t now x) at s
          (complete o t (authority.clock s) x) (λ r h. h)

    -- Calls one after another extend the walk so far, by at least as many starts as actions.
    served-extends :
        (cs : List DurableCall) (s : S) {a : ExecutionAttempt} (w : Walk a (authority.stored s))
        → (after : Walk a (authority.stored (serve_calls cs s))) × (authority.performed
                (serve_calls cs s)
              + starts w
            ≤ authority.performed s + starts after)
    unfolding serve_calls
    served-extends [] s w = (w, omega arith)
    served-extends (c ∷ cs) s w = elim (serve_call-Moves c s) [
      | inl (kept, count) ↦
          let (moved, same) = moved_walk (sym kept) w in
          let (after, bound) = served-extends cs (serve_call c s) moved in
          (after, omega (arith, bound, count, same))
      | inr (call, done, count) ↦
          let (after, bound) =
            served-extends cs (serve_call c s) (further (authority.stored s) call w done) in
          (after, omega (arith, count, bound, starts_further w call done))
    ]

    -- Whatever calls the store serves, with whatever attempts, workers, tokens, times and actions
    -- that return or raise, what it holds has walked through successful calls on the attempt it
    -- held, and the downstream action was called at most as often as one of them started the
    -- effect.
    pub serve_calls-Walk :
        (cs : List DurableCall) (s : S)
        → (w : Walk (authority.stored s) (authority.stored (serve_calls cs s)))
          × (authority.performed (serve_calls cs s) ≤ authority.performed s + starts w)
    serve_calls-Walk cs s =
        let (after, bound) = served-extends cs s stay in
        (after, omega (arith, bound, starts_stay (authority.stored s)))

    -- Whatever calls the store serves, the downstream action is called at most once, also when it
    -- raises.
    pub performed-le :
        (cs : List DurableCall) (s : S)
        → authority.performed (serve_calls cs s) ≤ authority.performed s + 1
    performed-le cs s = let (w, bound) = serve_calls-Walk cs s in omega (arith, bound, starts-le w)

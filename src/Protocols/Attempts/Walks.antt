-- ===== src/Protocols/Attempts/Walks.antt =====
-- Any sequence of calls on an attempt: what never changes, what only grows, and who may act.
use nipo_science.Prelude.{
  optional_text_eq, Result, Text, arith, inl, inr, mem, nat_eq, ok, refl, text_eq, true,
  uuid_pair_eq, uuid_triple_eq, ℕ, ◌<◌, ◌∙◌, ◌≡◌, ◌≤◌, ◌⊎◌,
}
use nipo_science.Protocols.Attempts.{
  AttemptOutcome, AttemptStatus, EffectState, ExecutionAttempt, Moment, RecoveryError, ambiguous,
  attempt_status_eq, claim_attempt, committed, complete_attempt, effect_state_eq, effects_after,
  fenced_off, heartbeat_attempt, not_started, record_effect, started,
}
use nipo_science.Protocols.Attempts.Changes.{
  Change, claim-Change, claimed_as, complete-Change, ended, ended_as, fenced, heartbeat-Change,
  lost, reclaimed_as, record_effect_lem, recorded, renewed, retaken, taken,
}
use nipo_science.Protocols.Attempts.Validity.{IsAttempt}

-- A worker's call, with what it presents.
pub data Call : Type 0 where
  claim heartbeat : Text → ℕ → Moment → Moment → Call
  effect : Text → ℕ → Moment → EffectState → Call
  complete : Text → ℕ → Moment → AttemptOutcome → Call

unfoldable pub call_attempt : Call → ExecutionAttempt → Result RecoveryError ExecutionAttempt
call_attempt (claim lease_owner token now deadline) a =
    claim_attempt a lease_owner token now deadline
call_attempt (heartbeat lease_owner token now deadline) a =
    heartbeat_attempt a lease_owner token now deadline
call_attempt (effect lease_owner token now state) a = record_effect a lease_owner token now state
call_attempt (complete lease_owner token now outcome) a =
    complete_attempt a lease_owner token now outcome

pub call-Change :
    (c : Call) (a : ExecutionAttempt) {b : ExecutionAttempt} → call_attempt c a ≡ ok b → Change a b
unfolding call_attempt
call-Change (claim lease_owner token now deadline) a h =
    (claim-Change a lease_owner token now deadline h).0
call-Change (heartbeat lease_owner token now deadline) a h =
    let (held, same, valid) = heartbeat-Change a lease_owner token now deadline h in
    rw same (renewed deadline.instant held.status)
call-Change (effect lease_owner token now state) a h =
    (record_effect_lem a lease_owner token now state h).3
call-Change (complete lease_owner token now outcome) a h =
    (complete-Change a lease_owner token now outcome h).1

-- A call that returns has validated what it returns.
pub call-IsAttempt :
    (c : Call) (a : ExecutionAttempt) {b : ExecutionAttempt} → call_attempt c a ≡ ok b → IsAttempt b
unfolding call_attempt
call-IsAttempt (claim lease_owner token now deadline) a h =
    (claim-Change a lease_owner token now deadline h).1
call-IsAttempt (heartbeat lease_owner token now deadline) a h =
    (heartbeat-Change a lease_owner token now deadline h).2
call-IsAttempt (effect lease_owner token now state) a h =
    (record_effect_lem a lease_owner token now state h).4
call-IsAttempt (complete lease_owner token now outcome) a h =
    (complete-Change a lease_owner token now outcome h).2

-- The calls that succeed, one after another.
pub data Walk (a : ExecutionAttempt) : ExecutionAttempt → Type 0 where
  stay : Walk a a
  further :
      (b : ExecutionAttempt) (c : Call) {d : ExecutionAttempt}
      → Walk a b
      → call_attempt c b ≡ ok d
      → Walk a d

-- How far an effect has come; an ambiguous one is beyond all.
abbrev pub rank : EffectState → ℕ
rank not_started = 0
rank started = 1
rank committed = 2
rank ambiguous = 3

-- A worker that held the lease still does, under the same token, or the token has moved on.
pub record Follows (a b : ExecutionAttempt) : Type 0 where
  pub execution : b.execution_id ≡ a.execution_id
  pub run : b.run_id ≡ a.run_id
  pub epoch : b.restore_epoch ≡ a.restore_epoch
  pub predecessor : b.predecessor_execution_id ≡ a.predecessor_execution_id
  pub key : b.idempotency_key ≡ a.idempotency_key
  pub proof : b.reconciliation_proof_sha256 ≡ a.reconciliation_proof_sha256
  pub token : a.attempt_token ≤ b.attempt_token
  pub effect : rank a.effect_state ≤ rank b.effect_state
  pub fence :
      a.status ≡ AttemptStatus.claimed
      → (a.attempt_token < b.attempt_token)
        ⊎ ((b.status ≡ AttemptStatus.claimed)
            × (b.lease_owner ≡ a.lease_owner)
            × (b.attempt_token ≡ a.attempt_token))

next_rank : (x y : EffectState) → mem y (effects_after x) ≡ true → rank x < rank y
unfolding mem
next_rank not_started started h = omega arith
next_rank not_started ambiguous h = omega arith
next_rank started committed h = omega arith
next_rank started ambiguous h = omega arith
next_rank not_started not_started h = absurd (ground arith)
next_rank not_started committed h = absurd (ground arith)
next_rank started not_started h = absurd (ground arith)
next_rank started started h = absurd (ground arith)
next_rank ambiguous y h = absurd (ground arith)
next_rank committed y h = absurd (ground arith)

rank_top : (x : EffectState) → rank x ≤ 3
rank_top not_started = omega arith
rank_top started = omega arith
rank_top committed = omega arith
rank_top ambiguous = omega arith

Follows-refl : (a : ExecutionAttempt) → Follows a a
Follows-refl a = record {
  execution = refl;
  run = refl;
  epoch = refl;
  predecessor = refl;
  key = refl;
  proof = refl;
  token = omega arith;
  effect = omega arith;
  fence = λ h. inr (h, refl, refl);
}

-- A transition that leaves the effect and moves the token on, or was not from a claimed attempt.
moved-Follows :
    (a b : ExecutionAttempt)
    → (b.execution_id ≡ a.execution_id) × (b.run_id ≡ a.run_id)
    → (b.restore_epoch ≡ a.restore_epoch)
      × (b.predecessor_execution_id ≡ a.predecessor_execution_id)
    → (b.idempotency_key ≡ a.idempotency_key)
      × (b.reconciliation_proof_sha256 ≡ a.reconciliation_proof_sha256)
    → a.attempt_token ≤ b.attempt_token
    → rank a.effect_state ≤ rank b.effect_state
    → (a.status ≡ AttemptStatus.claimed
        → (a.attempt_token < b.attempt_token)
          ⊎ ((b.status ≡ AttemptStatus.claimed)
              × (b.lease_owner ≡ a.lease_owner)
              × (b.attempt_token ≡ a.attempt_token)))
    → Follows a b
moved-Follows a b ids place line token grown fence = record {
  execution = ids.0;
  run = ids.1;
  epoch = place.0;
  predecessor = place.1;
  key = line.0;
  proof = line.1;
  token = token;
  effect = grown;
  fence = fence;
}

pub Change-Follows : {a b : ExecutionAttempt} → Change a b → Follows a b
Change-Follows {a} (taken o d s e) =
    moved-Follows a (claimed_as a o d) (refl, refl) (refl, refl) (refl, refl) (omega arith)
      (omega arith) (λ h. absurd (cc (s, h)))
Change-Follows {a} (retaken o d s e) =
    moved-Follows a (reclaimed_as a o d) (refl, refl) (refl, refl) (refl, refl) (omega arith)
      (omega arith) (λ h. inl (omega arith))
Change-Follows {a} (fenced s e) =
    moved-Follows a (fenced_off a) (refl, refl) (refl, refl) (refl, refl) (omega arith)
      (omega arith) (λ h. inl (omega arith))
Change-Follows {a} (renewed d s) =
    moved-Follows a (record a { deadline = d }) (refl, refl) (refl, refl) (refl, refl) (omega arith)
      (omega arith) (λ h. inr (h, refl, refl))
Change-Follows {a} (recorded x s n o) =
    moved-Follows a (record a { effect_state = x }) (refl, refl) (refl, refl) (refl, refl)
      (omega arith) (omega (arith, next_rank a.effect_state x n)) (λ h. inr (h, refl, refl))
Change-Follows {a} (lost s) =
    moved-Follows a (record (fenced_off a) { effect_state = ambiguous }) (refl, refl) (refl, refl)
      (refl, refl) (omega arith) (rank_top a.effect_state) (λ h. inl (omega arith))
Change-Follows {a} (ended x s e) =
    moved-Follows a (ended_as a x) (refl, refl) (refl, refl) (refl, refl) (omega arith)
      (omega arith) (λ h. inl (omega arith))

Follows-trans : {a b c : ExecutionAttempt} → Follows a b → Follows b c → Follows a c
Follows-trans {a} {b} {c} f g =
    moved-Follows a c (g.execution ∙ f.execution, g.run ∙ f.run)
      (g.epoch ∙ f.epoch, g.predecessor ∙ f.predecessor) (g.key ∙ f.key, g.proof ∙ f.proof)
      (omega (arith, f.token, g.token)) (omega (arith, f.effect, g.effect))
      (λ h. elim (f.fence h) [
        | inl moved ↦ inl (omega (arith, moved, g.token))
        | inr (s, o, t) ↦ elim (g.fence s) [
          | inl moved ↦ inl (omega (arith, moved, t))
          | inr (s', o', t') ↦ inr (s', o' ∙ o, t' ∙ t)
        ]
      ])

-- Over any calls an attempt keeps its identity, its epoch and its lineage, its token and its effect
-- only grow, and a worker that held the lease either holds it still under the same token or the
-- token has moved on, so that its own token is stale.
pub walk-Follows : {a b : ExecutionAttempt} → Walk a b → Follows a b
walk-Follows {a} stay = Follows-refl a
walk-Follows {a} (further b c w h) =
    Follows-trans (walk-Follows w) (Change-Follows (call-Change c b h))

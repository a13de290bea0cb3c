-- ===== src/Protocols/Attempts/Effects.antt =====
-- External effects over any sequence of calls: at most one starts, and an attempt that needs
-- reconciliation has made or may have made one.
use nipo_science.Prelude.{
  optional_text_eq, arith, inl, inr, mem, nat_eq, ok, refl, text_eq, true, uuid_pair_eq,
  uuid_triple_eq, ℕ, ◌+◌, ◌≡◌, ◌≢◌, ◌≤◌, ◌⊎◌,
}
use nipo_science.Protocols.Attempts.{
  AttemptOutcome, AttemptStatus, EffectState, ExecutionAttempt, ambiguous, as_completed, as_failed,
  attempt_status_eq, committed, effect_state_eq, effects_after, not_started, started,
}
use nipo_science.Protocols.Attempts.Changes.{
  Change, ended, ended_as, fenced, lost, record_effect_lem, recorded, renewed, retaken, taken,
}
use nipo_science.Protocols.Attempts.Walks.{
  Call, Change-Follows, Walk, call-Change, call_attempt, claim, complete, effect, further,
  heartbeat, rank, stay,
}

abbrev pub is_started : EffectState → ℕ
is_started not_started = 0
is_started started = 1
is_started ambiguous = 0
is_started committed = 0

-- 1 for a call that records the start of the effect.
abbrev pub is_start : Call → ℕ
is_start (claim lease_owner token now deadline) = 0
is_start (heartbeat lease_owner token now deadline) = 0
is_start (effect lease_owner token now state) = is_started state
is_start (complete lease_owner token now outcome) = 0

-- How many calls of a walk record that the effect started.
unfoldable pub starts : {a b : ExecutionAttempt} → Walk a b → ℕ
starts stay = 0
starts (further b c w h) = is_start c + starts w

abbrev pub has_begun : EffectState → ℕ
has_begun not_started = 0
has_begun started = 1
has_begun ambiguous = 1
has_begun committed = 1

pub begun_grows : (x y : EffectState) → rank x ≤ rank y → has_begun x ≤ has_begun y
begun_grows not_started y h = omega arith
begun_grows started not_started h = absurd (omega (arith, h))
begun_grows ambiguous not_started h = absurd (omega (arith, h))
begun_grows committed not_started h = absurd (omega (arith, h))
begun_grows started started h = omega arith
begun_grows started ambiguous h = omega arith
begun_grows started committed h = omega arith
begun_grows ambiguous started h = omega arith
begun_grows ambiguous ambiguous h = omega arith
begun_grows ambiguous committed h = omega arith
begun_grows committed started h = omega arith
begun_grows committed ambiguous h = omega arith
begun_grows committed committed h = omega arith

from_nothing : (x : EffectState) → mem started (effects_after x) ≡ true → x ≡ not_started
unfolding mem
from_nothing not_started h = refl
from_nothing started h = absurd (ground arith)
from_nothing ambiguous h = absurd (ground arith)
from_nothing committed h = absurd (ground arith)

-- A call that starts the effect finds none, and leaves it started.
pub start_parts :
    (c : Call) (b : ExecutionAttempt) {d : ExecutionAttempt}
    → call_attempt c b ≡ ok d
    → (is_start c ≡ 0)
      ⊎ ((is_start c ≡ 1) × (b.effect_state ≡ not_started) × (d.effect_state ≡ started))
unfolding call_attempt
start_parts (claim lease_owner token now deadline) b h = inl refl
start_parts (heartbeat lease_owner token now deadline) b h = inl refl
start_parts (complete lease_owner token now outcome) b h = inl refl
start_parts (effect lease_owner token now not_started) b h = inl refl
start_parts (effect lease_owner token now ambiguous) b h = inl refl
start_parts (effect lease_owner token now committed) b h = inl refl
start_parts (effect lease_owner token now started) b h =
    let (held, next, state, change, valid) = record_effect_lem b lease_owner token now started h in
    inr (refl, from_nothing b.effect_state next, state)

starts-has_begun : {a b : ExecutionAttempt} (w : Walk a b) → starts w ≤ has_begun b.effect_state
unfolding starts
starts-has_begun stay = omega arith
starts-has_begun {b = d} (further b c w h) = elim (start_parts c b h) [
  | inl other ↦
      let grown =
        begun_grows b.effect_state d.effect_state (Change-Follows (call-Change c b h)).effect in
      omega (arith, other, grown, starts-has_begun w)
  | inr (one, fresh, now) ↦
      let none_yet : starts w ≤ 0 = rw fresh at (starts-has_begun w) in
      rw now (omega (arith, one, none_yet))
]

pub begun-le : (x : EffectState) → has_begun x ≤ 1
begun-le not_started = omega arith
begun-le started = omega arith
begun-le ambiguous = omega arith
begun-le committed = omega arith

-- Whatever workers, tokens and times its calls carry, an attempt starts its external effect at most
-- once.
pub starts-le : {a b : ExecutionAttempt} (w : Walk a b) → starts w ≤ 1
starts-le {b = b} w = omega (arith, starts-has_begun w, begun-le b.effect_state)

-- An attempt that needs reconciliation is not known to have had no effect.
abbrev pub IsUnsealed : ExecutionAttempt → Type 0
IsUnsealed a = a.status ≡ AttemptStatus.reconciliation_required → a.effect_state ≢ not_started

ended-IsUnsealed : (a : ExecutionAttempt) (x : AttemptOutcome) → IsUnsealed (ended_as a x)
ended-IsUnsealed a as_completed h = absurd (cc h)
ended-IsUnsealed a as_failed h = absurd (cc h)

Change-IsUnsealed : {a b : ExecutionAttempt} → Change a b → IsUnsealed b
Change-IsUnsealed (taken o d s e) h = absurd (cc h)
Change-IsUnsealed (retaken o d s e) h = absurd (cc h)
Change-IsUnsealed (fenced s e) h = e
Change-IsUnsealed (renewed d s) h = absurd (cc (s, h))
Change-IsUnsealed (recorded x s n o) h = absurd (cc (s, h))
Change-IsUnsealed (lost s) h = λ e. cc e
Change-IsUnsealed {a} (ended x s e) h = ended-IsUnsealed a x h

pub walk-IsUnsealed : {a b : ExecutionAttempt} → Walk a b → IsUnsealed a → IsUnsealed b
walk-IsUnsealed stay u = u
walk-IsUnsealed (further b c w h) u = Change-IsUnsealed (call-Change c b h)

-- ===== src/Protocols/Restore/Phases.antt =====
-- The phases of a restore only go forward, so that a restore ends.
use nipo_science.Prelude.{
  >>=-eq-ok, Bool-cases, List, Option, Result, Sha256, [], ap, arith, false, if◌then◌else◌, inl,
  inr, is_absent, length, mem, nat_eq, none, not, ok, ok-injective, optional_text_eq,
  raise_if-eq-ok, refl, some, subst, sym, text_eq, true, uuid_pair_eq, uuid_triple_eq, ℕ, ◌+◌, ◌<◌,
  ◌>>=◌, ◌∷◌, ◌≡◌, ◌≤◌, ◌⊎◌,
}
use nipo_science.Protocols.Restore.{
  RestoreError, RestoreGovernanceManifest, RestoreGovernanceResolver, RestoreLifecycle,
  RestorePhase, activated, failed, invalid_restore_transition, is_gated, phases_after, ready,
  replaying_governance, restore_phase_eq, restoring, roots_eq, texts_eq, validate_governance_of,
  validate_receipts_of, validate_restore, validate_restore_governance,
  validate_restore_inert_backup, validate_restore_receipts, validating,
}
use nipo_science.Protocols.Restore.Advance.{
  advance_phase, advance_restore, advance_restore_authoritatively, receipted,
  validate_restore_authority, with_receipt,
}

-- A call that advances a restore, with the answers of the resolver that it has.
pub data RestoreCall : Type 0 where
  plain : RestorePhase → RestoreCall
  authoritative : RestorePhase → RestoreGovernanceResolver → RestoreCall

abbrev pub phase_rank : RestorePhase → ℕ
phase_rank restoring = 0
phase_rank replaying_governance = 1
phase_rank validating = 2
phase_rank ready = 3
phase_rank activated = 4
phase_rank failed = 4

pub rank_top : (x : RestorePhase) → phase_rank x ≤ 4
rank_top restoring = omega arith
rank_top replaying_governance = omega arith
rank_top validating = omega arith
rank_top ready = omega arith
rank_top activated = omega arith
rank_top failed = omega arith

either_of : (y a b : RestorePhase) → mem y (a ∷ b ∷ []) ≡ true → (y ≡ a) ⊎ (y ≡ b)
unfolding mem
either_of y a b h = ground arith

-- The phase that follows is further.
further_of :
    (n : ℕ) (y a b : RestorePhase)
    → n < phase_rank a
    → n < phase_rank b
    → mem y (a ∷ b ∷ []) ≡ true
    → n < phase_rank y
further_of n y a b below_a below_b h = elim (either_of y a b h) [
  | inl same ↦ rw same below_a
  | inr same ↦ rw same below_b
]

none_after : (y : RestorePhase) → ¬ (mem y [] ≡ true)
unfolding mem
none_after y h = cc h

pub after_rank : (x y : RestorePhase) → mem y (phases_after x) ≡ true → phase_rank x < phase_rank y
after_rank restoring y h = further_of 0 y replaying_governance failed (omega arith) (omega arith) h
after_rank replaying_governance y h = further_of 1 y validating failed (omega arith) (omega arith) h
after_rank validating y h = further_of 2 y ready failed (omega arith) (omega arith) h
after_rank ready y h = further_of 3 y activated failed (omega arith) (omega arith) h
after_rank activated y h = absurd (none_after y h)
after_rank failed y h = absurd (none_after y h)

module _ (manifest_digest : RestoreGovernanceManifest → Sha256) where
  unfoldable pub advance_call :
      RestoreCall → RestoreLifecycle → Result RestoreError RestoreLifecycle
  advance_call (plain phase) l = advance_restore manifest_digest l phase
  advance_call (authoritative phase resolver) l =
      advance_restore_authoritatively manifest_digest resolver l phase

  unfoldable pub advance_calls :
      List RestoreCall → RestoreLifecycle → Result RestoreError RestoreLifecycle
  advance_calls [] l = ok l
  advance_calls (c ∷ cs) l = advance_call c l >>= advance_calls cs

  -- An advance changes the phase, to one that may follow, and at most the receipt; a gated phase has
  -- its checks and a receipt.
  pub record Advanced (l l' : RestoreLifecycle) : Type 0 where
    pub next : RestorePhase
    pub receipt : Option Sha256
    pub result : l' ≡ record l { phase = next; activation_receipt_sha256 = receipt }
    pub follows : mem next (phases_after l.phase) ≡ true
    pub gate :
        is_gated next ≡ true
        → (validate_restore manifest_digest l ≡ ok tt) × (is_absent receipt ≡ false)

  phase_lem :
      (l l' : RestoreLifecycle) (x : RestorePhase)
      → advance_phase manifest_digest l x ≡ ok l'
      → (mem x (phases_after l.phase) ≡ true)
        × (l' ≡ record l { phase = x })
        × (is_gated x ≡ true → validate_restore manifest_digest l ≡ ok tt)
  unfolding advance_phase
  phase_lem l l' x h =
      let (listed, rest) =
        raise_if-eq-ok (not (mem x (phases_after l.phase))) invalid_restore_transition _ h in
      let (got, checked, result) =
        >>=-eq-ok (if is_gated x then validate_restore manifest_digest l else ok tt) _ rest in
      (ground (arith, listed), sym (ok-injective result), λ gated. rw gated at checked)

  -- A resolved receipt is the one taken over.
  resolved_receipt :
      (l l' : RestoreLifecycle) (answer : Option Sha256)
      → receipted l answer ≡ ok l'
      → (r : Sha256) × (l' ≡ record l { activation_receipt_sha256 = some r })
  resolved_receipt l l' none h = absurd (cc h)
  resolved_receipt l l' (some r) h = (r, sym (ok-injective h))

  receipt_lem :
      (resolver : RestoreGovernanceResolver) (l l' : RestoreLifecycle) (x : RestorePhase)
      (backup : Option Sha256)
      → with_receipt resolver l x backup ≡ ok l'
      → (r : Sha256) × (l' ≡ record l { activation_receipt_sha256 = some r })
  receipt_lem resolver l l' x none h = absurd (cc h)
  receipt_lem resolver l l' x (some backup) h =
      resolved_receipt l l' (resolver.resolve_activation_receipt backup l.restore_epoch x) h

  ungated-Advanced :
      (l l' : RestoreLifecycle) (x : RestorePhase)
      → is_gated x ≡ false
      → advance_phase manifest_digest l x ≡ ok l'
      → Advanced l l'
  ungated-Advanced l l' x free_phase h =
      let (listed, result, checked) = phase_lem l l' x h in
      record {
        next = x;
        receipt = l.activation_receipt_sha256;
        result = result;
        follows = listed;
        gate = λ gated. absurd (cc (free_phase, gated));
      }

  gated-Advanced :
      (l l' : RestoreLifecycle) (x : RestorePhase) (r : Sha256)
      → advance_phase manifest_digest (record l { activation_receipt_sha256 = some r }) x ≡ ok l'
      → Advanced l l'
  unfolding validate_restore validate_restore_inert_backup validate_restore_governance
      validate_governance_of validate_restore_receipts validate_receipts_of
  gated-Advanced l l' x r h =
      let (listed, result, checked) =
        phase_lem (record l { activation_receipt_sha256 = some r }) l' x h in
      record {
        next = x;
        receipt = some r;
        result = result;
        follows = listed;
        gate = λ gated. (checked gated, refl);
      }

  pub advance_call-Advanced :
      (c : RestoreCall) (l l' : RestoreLifecycle) → advance_call c l ≡ ok l' → Advanced l l'
  unfolding advance_call advance_restore advance_restore_authoritatively
  advance_call-Advanced (plain x) l l' h = elim (Bool-cases (is_gated x)) [
    | inl gated ↦ absurd (cc (rw gated at h))
    | inr free_phase ↦ ungated-Advanced l l' x free_phase (rw free_phase at h)
  ]
  advance_call-Advanced (authoritative x resolver) l l' h = elim (Bool-cases (is_gated x)) [
    | inl gated ↦
        let (got, trusted, rest) =
          >>=-eq-ok (validate_restore_authority manifest_digest resolver l) _ (rw gated at h) in
        let (one, taken_over, advanced) =
          >>=-eq-ok (with_receipt resolver l x l.backup_sha256) _ rest in
        let (r, same) = receipt_lem resolver l one x l.backup_sha256 taken_over in
        gated-Advanced l l' x r
          (subst (λ o. advance_phase manifest_digest o x ≡ ok l') same advanced)
    | inr free_phase ↦ ungated-Advanced l l' x free_phase (rw free_phase at h)
  ]

  -- Every call that succeeds takes the restore further.
  pub advance_calls-le :
      (cs : List RestoreCall) (l l' : RestoreLifecycle)
      → advance_calls cs l ≡ ok l'
      → length cs + phase_rank l.phase ≤ phase_rank l'.phase
  unfolding advance_calls
  advance_calls-le [] l l' h = omega (arith, ap (λ o. phase_rank o.phase) (ok-injective h))
  advance_calls-le (c ∷ cs) l l' h =
      let (one, first, rest) = >>=-eq-ok (advance_call c l) (advance_calls cs) h in
      let step = advance_call-Advanced c l one first in
      let moved = ap (λ o. phase_rank o.phase) step.result in
      omega
        (arith, advance_calls-le cs one l' rest, moved, after_rank l.phase step.next step.follows)

  -- Whatever the resolver answers, a restore ends: from the first phase at most four calls that
  -- advance it succeed, and from a later one fewer.
  pub advance_calls-ends :
      (cs : List RestoreCall) (l l' : RestoreLifecycle)
      → advance_calls cs l ≡ ok l'
      → length cs + phase_rank l.phase ≤ 4
  advance_calls-ends cs l l' h = omega (arith, advance_calls-le cs l l' h, rank_top l'.phase)

-- ===== src/Protocols/Governance/Streams.antt =====
-- What the streams of tombstones and holds say of one subject.
use nipo_science.Prelude.{
  All, Bool-cases, List, Uuid, [], ap, arith, false, inl, inr, nat_eq, optional_text_eq, refl,
  text_eq, uuid_pair_eq, uuid_triple_eq, ◌++◌, ◌==◌, ◌∷◌, ◌≡◌, ◌≢◌, ◌⊎◌,
}
use nipo_science.Protocols.Governance.{
  HoldRecord, TombstoneRecord, holds_of, is_held, normal_access_allowed,
}

-- A tombstone of the subject stands in the stream.
abbrev pub IsDeleted : Uuid → List TombstoneRecord → Type 0
IsDeleted subject tombstones =
    (before : List TombstoneRecord) × (deletion : TombstoneRecord) × (after : List TombstoneRecord)
    × (tombstones ≡ before ++ (deletion ∷ after))
    × (deletion.subject_id ≡ subject)

-- No hold is of the subject, or the last one that is has been released.
abbrev pub IsReleased : Uuid → List HoldRecord → Type 0
IsReleased subject holds =
    All (λ hold. hold.subject_id ≢ subject) holds
    ⊎ ((before : List HoldRecord) × (final : HoldRecord) × (after : List HoldRecord) × (holds
          ≡ before ++ (final ∷ after))
        × (final.subject_id ≡ subject)
        × (final.active ≡ false)
        × All (λ hold. hold.subject_id ≢ subject) after)

pub hidden-IsDeleted :
    (subject : Uuid) (tombstones : List TombstoneRecord)
    → normal_access_allowed tombstones subject ≡ false
    → IsDeleted subject tombstones
unfolding normal_access_allowed
hidden-IsDeleted subject [] h = absurd (cc h)
hidden-IsDeleted subject (deletion ∷ rest) h = elim (Bool-cases (deletion.subject_id == subject)) [
  | inl same ↦ ([], deletion, rest, refl, ground (arith, same))
  | inr other ↦
      let (before, d, after, split, of_subject) = hidden-IsDeleted subject rest (rw other at h) in
      (deletion ∷ before, d, after, ap (◌∷◌ deletion) split, of_subject)
]

holds_of-none :
    (subject : Uuid) (holds : List HoldRecord)
    → All (λ hold. hold.subject_id ≢ subject) holds
    → holds_of subject holds ≡ []
holds_of-none subject [] h = refl
holds_of-none subject (hold ∷ holds) (other, rest) =
    ground (arith, other, holds_of-none subject holds rest)

is_held_rest :
    (hold : HoldRecord) (holds : List HoldRecord)
    → is_held (hold ∷ holds) ≡ false
    → is_held holds ≡ false
is_held_rest hold [] h = refl
is_held_rest hold (next ∷ rest) h = h

joined_hold :
    (subject : Uuid) (hold : HoldRecord) (holds : List HoldRecord)
    → hold.subject_id ≡ subject
    → is_held (hold ∷ holds_of subject holds) ≡ false
    → IsReleased subject holds
    → IsReleased subject (hold ∷ holds)
joined_hold subject hold holds same h (inl others) =
    let alone : is_held (hold ∷ []) ≡ false = rw (holds_of-none subject holds others) at h in
    inr ([], hold, holds, refl, same, alone, others)
joined_hold subject hold holds same h (inr (before, final, after, split, own, free, later)) =
    inr (hold ∷ before, final, after, ap (◌∷◌ hold) split, own, free, later)

passed_hold :
    (subject : Uuid) (hold : HoldRecord) (holds : List HoldRecord)
    → hold.subject_id ≢ subject
    → IsReleased subject holds
    → IsReleased subject (hold ∷ holds)
passed_hold subject hold holds other (inl others) = inl (other, others)
passed_hold subject hold holds other (inr (before, final, after, split, own, free, later)) =
    inr (hold ∷ before, final, after, ap (◌∷◌ hold) split, own, free, later)

pub is_held-IsReleased :
    (subject : Uuid) (holds : List HoldRecord)
    → is_held (holds_of subject holds) ≡ false
    → IsReleased subject holds
is_held-IsReleased subject [] h = inl tt
is_held-IsReleased subject (hold ∷ holds) h = elim (Bool-cases (hold.subject_id == subject)) [
  | inl same ↦
      let kept = rw same at h in
      joined_hold subject hold holds (ground (arith, same)) kept
        (is_held-IsReleased subject holds (is_held_rest hold (holds_of subject holds) kept))
  | inr other ↦
      passed_hold subject hold holds (ground (arith, other))
        (is_held-IsReleased subject holds (rw other at h))
]

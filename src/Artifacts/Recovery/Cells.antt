-- ===== src/Artifacts/Recovery/Cells.antt =====
-- The claim state machine of one reference: an output is free, claimed or consumed; a commit in
-- doubt holds the claim, and a completed one the consumed token, for good.
use nipo_science.Artifacts.Models.{
  ArtifactReconciliation, completed, draft_eq, optional_uuid_eq, optional_version_eq, output_eq,
  pending, reconciliation_eq, scope_eq, version_eq,
}
use nipo_science.Artifacts.Recovery.{
  OutputState, Recovery, fresh, write_and_drop, write_both, write_output,
}
use nipo_science.Prelude.{
  Option, Text, Uuid, get, get-del_ne, get-del_self, get-put_ne, get-put_self, nat_eq, none, some,
  text_eq, uuid_pair_eq, uuid_triple_eq, ◌≡◌, ◌⊎◌,
}

-- What the maps may hold for one reference.
abbrev pub IsCell : Option OutputState → Option ArtifactReconciliation → Type 0
IsCell none none = Unit
IsCell none (some r) = ⊥
IsCell (some s) none = (s.claim_token ≡ none) ⊎ (s.consumed_token ≡ none)
IsCell (some s) (some (pending p)) =
    (s.claim_token ≡ some p.claim.token) × (s.consumed_token ≡ none) × (s.output ≡ p.claim.output)
IsCell (some s) (some (completed c)) =
    (s.claim_token ≡ none) × ((token : Uuid) × (s.consumed_token ≡ some token))

abbrev pub IsRecovery : Recovery → Type 0
IsRecovery r = (k : Text) → IsCell (get k r.outputs) (get k r.reconciliations)

pub fresh-IsRecovery : IsRecovery fresh
unfolding get
fresh-IsRecovery k = tt

-- A write of one reference keeps the rest, and the new cell is to be checked.
pub write_output-IsRecovery :
    (k : Text) (s : OutputState) (r : Recovery)
    → IsCell (some s) (get k r.reconciliations)
    → IsRecovery r
    → IsRecovery (write_output k s r)
write_output-IsRecovery k s r cell good j = elim (text_eq.decide k j) [
  | yes same ↦ rw (← same, get-put_self k s r.outputs) cell
  | no other ↦ rw (get-put_ne k j s r.outputs other) (good j)
]

pub write_both-IsRecovery :
    (k : Text) (s : OutputState) (c : ArtifactReconciliation) (r : Recovery)
    → IsCell (some s) (some c)
    → IsRecovery r
    → IsRecovery (write_both k s c r)
write_both-IsRecovery k s c r cell good j = elim (text_eq.decide k j) [
  | yes same ↦ rw (← same, get-put_self k s r.outputs, get-put_self k c r.reconciliations) cell
  | no other ↦
      rw (get-put_ne k j s r.outputs other, get-put_ne k j c r.reconciliations other) (good j)
]

pub write_and_drop-IsRecovery :
    (k : Text) (s : OutputState) (r : Recovery)
    → IsCell (some s) none
    → IsRecovery r
    → IsRecovery (write_and_drop k s r)
write_and_drop-IsRecovery k s r cell good j = elim (text_eq.decide k j) [
  | yes same ↦ rw (← same, get-put_self k s r.outputs, get-del_self k r.reconciliations) cell
  | no other ↦
      rw (get-put_ne k j s r.outputs other, get-del_ne k j r.reconciliations other) (good j)
]

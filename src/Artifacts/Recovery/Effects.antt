-- ===== src/Artifacts/Recovery/Effects.antt =====
-- What each recovery call writes, and under which conditions.
use nipo_science.Artifacts.Models.{
  ArtifactScope, PendingArtifactCommit, WatcherClaim, WatcherOutput, completed, draft_eq,
  optional_uuid_eq, optional_version_eq, output_eq, pending, reconciliation_eq, scope_eq,
  version_eq,
}
use nipo_science.Artifacts.Recovery.{
  OutputState, Recovery, active_claim, claim_output, claim_pending, claimable, claimed,
  completed_of, discard_pending, finalize_claim, free, register_output, release_claim,
  save_completed, spent, write_and_drop, write_both, write_output,
}
use nipo_science.Prelude.{
  refl, Bool, Bool-cases, Bytes, Option-cases, Sha256, Text, Uuid, arith, false, get, inl, inr,
  is_absent, nat_eq, none, not, some, text_eq, true, uuid_pair_eq, uuid_triple_eq, ◌!=◌, ◌&&◌, ◌==◌,
  ◌||◌, ◌≡◌,
}

-- What one call does to the maps: nothing, or one write for its reference that the cell allows.
pub data Effect (k : Text) (r : Recovery) : Recovery → Type 0 where
  kept : Effect k r r
  registered : (o : WatcherOutput) → get k r.outputs ≡ none → Effect k r (write_output k (free o) r)
  taken :
      (s : OutputState) (t : Uuid)
      → get k r.outputs ≡ some s
      → s.claim_token ≡ none
      → s.consumed_token ≡ none
      → Effect k r (write_output k (claimed s.output t) r)
  prepared :
      (s : OutputState) (p : PendingArtifactCommit)
      → get k r.outputs ≡ some s
      → s.claim_token ≡ none
      → s.consumed_token ≡ none
      → s.output ≡ p.claim.output
      → p.claim.reference ≡ k
      → Effect k r (write_both k (claimed s.output p.claim.token) (pending p) r)
  released :
      (s : OutputState) (t : Uuid)
      → get k r.outputs ≡ some s
      → s.claim_token ≡ some t
      → get k r.reconciliations ≡ none
      → Effect k r (write_output k (free s.output) r)
  finalized :
      (s : OutputState) (t : Uuid)
      → get k r.outputs ≡ some s
      → s.claim_token ≡ some t
      → get k r.reconciliations ≡ none
      → Effect k r (write_output k (spent s.output t) r)
  saved :
      (s : OutputState) (p : PendingArtifactCommit)
      → get k r.outputs ≡ some s
      → get k r.reconciliations ≡ some (pending p)
      → s.claim_token ≡ some p.claim.token
      → Effect k r (write_both k (spent s.output p.claim.token) (completed (completed_of p)) r)
  discarded :
      (s : OutputState) (p : PendingArtifactCommit)
      → get k r.outputs ≡ some s
      → get k r.reconciliations ≡ some (pending p)
      → s.claim_token ≡ some p.claim.token
      → Effect k r (write_and_drop k (free s.output) r)

pub register-Effect :
    (o : WatcherOutput) (r : Recovery) → Effect o.reference r (register_output o r).1
unfolding register_output
register-Effect o r = elim (Option-cases (get o.reference r.outputs)) [
  | inl absent ↦ rw (absent, register_output) (registered o absent)
  | inr (s, found) ↦ rw (found, register_output) kept
]

pub free_of_claimable :
    (sha256 : Bytes → Sha256) (s : OutputState) (scope : ArtifactScope) (execution : Uuid)
    → claimable sha256 s scope execution ≡ true
    → (s.claim_token ≡ none) × (s.consumed_token ≡ none)
unfolding claimable
free_of_claimable sha256 s scope execution h = ground arith

pub active_parts :
    (s : OutputState) (c : WatcherClaim)
    → active_claim s c ≡ true
    → (s.claim_token ≡ some c.token) × (s.output ≡ c.output)
unfolding active_claim
active_parts s c h = ground arith

pub claim-Effect :
    (sha256 : Bytes → Sha256) (scope : ArtifactScope) (execution : Uuid) (k : Text) (t : Uuid)
    (r : Recovery)
    → Effect k r (claim_output sha256 scope execution k t r).1
unfolding claim_output
claim-Effect sha256 scope execution k t r = elim (Option-cases (get k r.outputs)) [
  | inl absent ↦ rw (absent, claim_output) kept
  | inr (s, found) ↦ elim (Bool-cases (claimable sha256 s scope execution)) [
    | inl can ↦
        let (c, u) = free_of_claimable sha256 s scope execution can in
        rw (found, can, claim_output) (taken s t found c u)
    | inr cannot ↦ rw (found, cannot, claim_output) kept
  ]
]

pub prepare-Effect :
    (sha256 : Bytes → Sha256) (scope : ArtifactScope) (execution : Uuid) (p : PendingArtifactCommit)
    (r : Recovery)
    → Effect p.claim.reference r (claim_pending sha256 scope execution p r).1
unfolding claim_pending
prepare-Effect sha256 scope execution p r = elim (Option-cases (get p.claim.reference r.outputs)) [
  | inl absent ↦ rw (absent, claim_pending) kept
  | inr (s, found) ↦ elim (Bool-cases (claimable sha256 s scope execution)) [
    | inl can ↦ elim (output_eq.decide s.output p.claim.output) [
      | yes same ↦
          let (c, u) = free_of_claimable sha256 s scope execution can in
          let equal : (s.output != p.claim.output) ≡ false = ground (arith, same) in
          rw (found, can, claim_pending) (rw equal (prepared s p found c u same refl))
      | no other ↦
          let differ : (s.output != p.claim.output) ≡ true = ground (arith, other) in
          rw (found, can, claim_pending) (rw differ kept)
    ]
    | inr cannot ↦ rw (found, cannot, claim_pending) kept
  ]
]

-- The tests that release and finalise make before they write.
pub settled_claim :
    (s : OutputState) (c : WatcherClaim) (r : Recovery)
    → (active_claim s c && is_absent (get c.reference r.reconciliations)) ≡ true
    → (s.claim_token ≡ some c.token) × (get c.reference r.reconciliations ≡ none)
settled_claim s c r h =
    let active : active_claim s c ≡ true = ground (arith, h) in
    ((active_parts s c active).0, ground (arith, h))

pub release-Effect : (c : WatcherClaim) (r : Recovery) → Effect c.reference r (release_claim c r).1
unfolding release_claim
release-Effect c r = elim (Option-cases (get c.reference r.outputs)) [
  | inl absent ↦ rw (absent, release_claim) kept
  | inr (s, found) ↦ elim (Bool-cases (s.consumed_token == some c.token)) [
    | inl over ↦ rw (found, release_claim) (rw over kept)
    | inr live ↦
        elim (Bool-cases (active_claim s c && is_absent (get c.reference r.reconciliations))) [
          | inl held ↦
              let (t, n) = settled_claim s c r held in
              rw (found, release_claim) (rw (live, held) (released s c.token found t n))
          | inr foreign ↦ rw (found, release_claim) (rw (live, foreign) kept)
        ]
  ]
]

pub finalize-Effect :
    (c : WatcherClaim) (r : Recovery) → Effect c.reference r (finalize_claim c r).1
unfolding finalize_claim
finalize-Effect c r = elim (Option-cases (get c.reference r.outputs)) [
  | inl absent ↦ rw (absent, finalize_claim) kept
  | inr (s, found) ↦ elim (Bool-cases (s.consumed_token == some c.token)) [
    | inl over ↦ rw (found, finalize_claim) (rw over kept)
    | inr live ↦
        elim (Bool-cases (active_claim s c && is_absent (get c.reference r.reconciliations))) [
          | inl held ↦
              let (t, n) = settled_claim s c r held in
              rw (found, finalize_claim) (rw (live, held) (finalized s c.token found t n))
          | inr foreign ↦ rw (found, finalize_claim) (rw (live, foreign) kept)
        ]
  ]
]

-- The test that saving and discarding make before they write.
abbrev pub in_doubt : OutputState → PendingArtifactCommit → Recovery → Bool
in_doubt s p r =
    get p.claim.reference r.reconciliations != some (pending p) || not (active_claim s p.claim)

pub in_doubt_parts :
    (s : OutputState) (p : PendingArtifactCommit) (r : Recovery)
    → in_doubt s p r ≡ false
    → (get p.claim.reference r.reconciliations ≡ some (pending p))
      × (s.claim_token ≡ some p.claim.token)
in_doubt_parts s p r h =
    let active : active_claim s p.claim ≡ true = ground (arith, h) in
    (ground (arith, h), (active_parts s p.claim active).0)

pub save-Effect :
    (p : PendingArtifactCommit) (r : Recovery) → Effect p.claim.reference r (save_completed p r).1
unfolding save_completed
save-Effect p r = elim (Option-cases (get p.claim.reference r.outputs)) [
  | inl absent ↦ rw (absent, save_completed) kept
  | inr (s, found) ↦
      elim (Bool-cases
        (get p.claim.reference r.reconciliations == some (completed (completed_of p)))) [
          | inl done ↦ rw (found, save_completed) (rw done kept)
          | inr open_still ↦ elim (Bool-cases (in_doubt s p r)) [
            | inl refused ↦ rw (found, save_completed) (rw (open_still, refused) kept)
            | inr accepted ↦
                let (c, t) = in_doubt_parts s p r accepted in
                rw (found, save_completed) (rw (open_still, accepted) (saved s p found c t))
          ]
        ]
]

pub discard-Effect :
    (p : PendingArtifactCommit) (r : Recovery) → Effect p.claim.reference r (discard_pending p r).1
unfolding discard_pending
discard-Effect p r = elim (Option-cases (get p.claim.reference r.outputs)) [
  | inl absent ↦ rw (absent, discard_pending) kept
  | inr (s, found) ↦
      elim (Bool-cases
        (is_absent (get p.claim.reference r.reconciliations) && is_absent s.claim_token)) [
          | inl gone ↦ rw (found, discard_pending) (rw gone kept)
          | inr open_still ↦ elim (Bool-cases (in_doubt s p r)) [
            | inl refused ↦ rw (found, discard_pending) (rw (open_still, refused) kept)
            | inr accepted ↦
                let (c, t) = in_doubt_parts s p r accepted in
                rw (found, discard_pending) (rw (open_still, accepted) (discarded s p found c t))
          ]
        ]
]

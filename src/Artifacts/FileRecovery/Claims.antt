-- ===== src/Artifacts/FileRecovery/Claims.antt =====
-- The calls on a claim and on a commit in doubt refine those of the process-local authority.
use nipo_science.Artifacts.FileRecovery.{
  Files, RecordCodec, file_active_claim, file_discard_pending, file_finalize_claim,
  file_reconciliation, file_release_claim, file_save_completed,
}
use nipo_science.Artifacts.FileRecovery.Records.{Agrees, IsCodec, Mirrors, read_absent, read_found}
use nipo_science.Artifacts.FileRecovery.Writes.{
  unknown_cell, unspent_cell, with_consumed, write_drop, write_one, write_two,
}
use nipo_science.Artifacts.Models.{
  PendingArtifactCommit, WatcherClaim, completed, draft_eq, optional_uuid_eq, optional_version_eq,
  output_eq, reconciliation_eq, scope_eq, version_eq,
}
use nipo_science.Artifacts.Recovery.{
  Recovery, active_claim, completed_of, discard_pending, finalize_claim, free, reconciliation,
  release_claim, save_completed, spent,
}
use nipo_science.Artifacts.Recovery.Cells.{IsCell}
use nipo_science.Artifacts.Recovery.Effects.{
  discarded, finalized, in_doubt, in_doubt_parts, released, saved, settled_claim,
}
use nipo_science.Artifacts.Recovery.Fences.{Effect-IsRecovery}
use nipo_science.Prelude.{
  Bool, Bool-cases, Option-cases, Text, false, get, inl, inr, is_absent, nat_eq, none, not, refl,
  some, text_eq, true, uuid_pair_eq, uuid_triple_eq, ◌&&◌, ◌==◌, ◌||◌, ◌≡◌,
}

-- The tests of the two authorities on a claim.
settled_same : (a b : Bool) → (not a || not b) ≡ not (a && b)
settled_same true b = refl
settled_same false b = refl

module _ {J : Type 0} (codec : RecordCodec J) (law : IsCodec codec) where
  pub release-Agrees :
      (c : WatcherClaim) (files : Files J) (r : Recovery)
      → Mirrors codec files r
      → Agrees codec c.reference files (file_release_claim codec c files) (release_claim c r)
  unfolding release_claim file_release_claim file_active_claim active_claim
  release-Agrees c files r mirrors = elim (Option-cases (get c.reference r.outputs)) [
    | inl absent ↦
        rw
          (
            read_absent codec c.reference files r mirrors absent,
            file_release_claim,
            absent,
            release_claim,
          )
          (refl, mirrors)
    | inr (s, found_there) ↦
        let (read, own) = read_found codec law c.reference files r s mirrors found_there in
        let cell : IsCell (some s) (get c.reference r.reconciliations) =
          rw found_there at (mirrors.0 c.reference) in
        elim (Bool-cases (s.consumed_token == some c.token)) [
          | inl over ↦
              rw (read, file_release_claim, found_there, release_claim) (rw over (refl, mirrors))
          | inr live ↦
              let same =
                settled_same (active_claim s c) (is_absent (get c.reference r.reconciliations)) in
              elim (Bool-cases
                (active_claim s c && is_absent (get c.reference r.reconciliations))) [
                  | inl held ↦
                      let (t, n) = settled_claim s c r held in
                      let u = unspent_cell (get c.reference r.reconciliations) s c.token cell t in
                      rw (read, file_release_claim, found_there, release_claim)
                        (rw live (
                          rw same (
                            rw held (
                              write_one codec law c.reference true _ (free s.output) files r mirrors
                                (Effect-IsRecovery (released s c.token found_there t n) mirrors.0)
                                own
                                (with_consumed s.output none s.consumed_token none
                                  (get c.reference r.reconciliations)
                                  (get c.reference r.reconciliations) u refl)))))
                  | inr foreign ↦
                      rw (read, file_release_claim, found_there, release_claim)
                        (rw live (rw same (rw foreign (refl, mirrors))))
                ]
        ]
  ]

  pub finalize-Agrees :
      (c : WatcherClaim) (files : Files J) (r : Recovery)
      → Mirrors codec files r
      → Agrees codec c.reference files (file_finalize_claim codec c files) (finalize_claim c r)
  unfolding finalize_claim file_finalize_claim file_active_claim active_claim
  finalize-Agrees c files r mirrors = elim (Option-cases (get c.reference r.outputs)) [
    | inl absent ↦
        rw
          (
            read_absent codec c.reference files r mirrors absent,
            file_finalize_claim,
            absent,
            finalize_claim,
          )
          (refl, mirrors)
    | inr (s, found_there) ↦
        let (read, own) = read_found codec law c.reference files r s mirrors found_there in
        elim (Bool-cases (s.consumed_token == some c.token)) [
          | inl over ↦
              rw (read, file_finalize_claim, found_there, finalize_claim) (rw over (refl, mirrors))
          | inr live ↦
              let same =
                settled_same (active_claim s c) (is_absent (get c.reference r.reconciliations)) in
              elim (Bool-cases
                (active_claim s c && is_absent (get c.reference r.reconciliations))) [
                  | inl held ↦
                      let (t, n) = settled_claim s c r held in
                      rw (read, file_finalize_claim, found_there, finalize_claim)
                        (rw live (
                          rw same (
                            rw held (
                              write_one codec law c.reference true _ (spent s.output c.token) files
                                r mirrors
                                (Effect-IsRecovery (finalized s c.token found_there t n) mirrors.0)
                                own refl))))
                  | inr foreign ↦
                      rw (read, file_finalize_claim, found_there, finalize_claim)
                        (rw live (rw same (rw foreign (refl, mirrors))))
                ]
        ]
  ]

  pub reconciliation-Agrees :
      (k : Text) (files : Files J) (r : Recovery)
      → Mirrors codec files r
      → Agrees codec k files (file_reconciliation codec k files) (reconciliation k r, r)
  unfolding reconciliation file_reconciliation
  reconciliation-Agrees k files r mirrors = elim (Option-cases (get k r.outputs)) [
    | inl absent ↦
        rw (read_absent codec k files r mirrors absent, file_reconciliation)
          (unknown_cell (get k r.reconciliations) (rw absent at (mirrors.0 k)), mirrors)
    | inr (s, found_there) ↦
        let (read, own) = read_found codec law k files r s mirrors found_there in
        rw (read, file_reconciliation) (refl, mirrors)
  ]

  pub save-Agrees :
      (p : PendingArtifactCommit) (files : Files J) (r : Recovery)
      → Mirrors codec files r
      → Agrees codec p.claim.reference files
          (file_save_completed codec p files)
          (save_completed p r)
  unfolding save_completed file_save_completed file_active_claim active_claim
  save-Agrees p files r mirrors =
      let k = p.claim.reference in
      elim (Option-cases (get p.claim.reference r.outputs)) [
        | inl absent ↦
            rw
              (
                read_absent codec k files r mirrors absent,
                file_save_completed,
                absent,
                save_completed,
              )
              (refl, mirrors)
        | inr (s, found_there) ↦
            let (read, own) = read_found codec law k files r s mirrors found_there in
            elim (Bool-cases (get k r.reconciliations == some (completed (completed_of p)))) [
              | inl done ↦
                  rw (read, file_save_completed, found_there, save_completed)
                    (rw done (refl, mirrors))
              | inr open_still ↦ elim (Bool-cases (in_doubt s p r)) [
                | inl refused ↦
                    rw (read, file_save_completed, found_there, save_completed)
                      (rw (open_still, refused) (refl, mirrors))
                | inr ready ↦
                    let (c, t) = in_doubt_parts s p r ready in
                    rw (read, file_save_completed, found_there, save_completed)
                      (rw (open_still, ready)
                        (write_two codec law k true _ (spent s.output p.claim.token)
                          (completed (completed_of p)) files r mirrors
                          (Effect-IsRecovery (saved s p found_there c t) mirrors.0) own refl))
              ]
            ]
      ]

  pub discard-Agrees :
      (p : PendingArtifactCommit) (files : Files J) (r : Recovery)
      → Mirrors codec files r
      → Agrees codec p.claim.reference files
          (file_discard_pending codec p files)
          (discard_pending p r)
  unfolding discard_pending file_discard_pending file_active_claim active_claim
  discard-Agrees p files r mirrors =
      let k = p.claim.reference in
      elim (Option-cases (get p.claim.reference r.outputs)) [
        | inl absent ↦
            rw
              (
                read_absent codec k files r mirrors absent,
                file_discard_pending,
                absent,
                discard_pending,
              )
              (refl, mirrors)
        | inr (s, found_there) ↦
            let (read, own) = read_found codec law k files r s mirrors found_there in
            let cell : IsCell (some s) (get k r.reconciliations) =
              rw found_there at (mirrors.0 k) in
            elim (Bool-cases (is_absent (get k r.reconciliations) && is_absent s.claim_token)) [
              | inl gone ↦
                  rw (read, file_discard_pending, found_there, discard_pending)
                    (rw gone (refl, mirrors))
              | inr open_still ↦ elim (Bool-cases (in_doubt s p r)) [
                | inl refused ↦
                    rw (read, file_discard_pending, found_there, discard_pending)
                      (rw (open_still, refused) (refl, mirrors))
                | inr ready ↦
                    let (c, t) = in_doubt_parts s p r ready in
                    let u = unspent_cell (get k r.reconciliations) s p.claim.token cell t in
                    rw (read, file_discard_pending, found_there, discard_pending)
                      (rw (open_still, ready)
                        (write_drop codec law k true _ (free s.output) files r mirrors
                          (Effect-IsRecovery (discarded s p found_there c t) mirrors.0) own
                          (with_consumed s.output none s.consumed_token none none none u refl)))
              ]
            ]
      ]

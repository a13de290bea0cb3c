-- ===== src/Artifacts/FileRecovery/Outputs.antt =====
-- The calls on an output refine those of the process-local authority: on files that mirror its maps
-- every one gives the same answer and files that mirror the new maps, but for a record too large.
use nipo_science.Artifacts.FileRecovery.{
  Files, RecordCodec, file_claim_output, file_claim_pending, file_register_output,
  file_resolve_output,
}
use nipo_science.Artifacts.FileRecovery.Records.{Agrees, IsCodec, Mirrors, read_absent, read_found}
use nipo_science.Artifacts.FileRecovery.Writes.{
  claimable_same, unknown_cell, with_consumed, write_one, write_two,
}
use nipo_science.Artifacts.Models.{
  ArtifactScope, PendingArtifactCommit, WatcherOutput, draft_eq, optional_uuid_eq,
  optional_version_eq, output_eq, pending, reconciliation_eq, scope_eq, version_eq,
}
use nipo_science.Artifacts.Recovery.{
  OutputState, Recovery, claim_output, claim_pending, claimable, claimed, free, register_output,
  resolve_output,
}
use nipo_science.Artifacts.Recovery.Cells.{IsCell}
use nipo_science.Artifacts.Recovery.Effects.{free_of_claimable, prepared, registered, taken}
use nipo_science.Artifacts.Recovery.Fences.{Effect-IsRecovery}
use nipo_science.Artifacts.Watcher.{accepted, execution_key_eq}
use nipo_science.Prelude.{
  Bool, Bool-cases, Option-cases, Text, Uuid, arith, false, get, if◌then◌else◌, inl, inr, nat_eq,
  none, not, ok, refl, some, text_eq, true, uuid_pair_eq, uuid_triple_eq, ◌!=◌, ◌||◌, ◌≡◌,
}

module _ {J : Type 0} (codec : RecordCodec J) (law : IsCodec codec) where
  pub register-Agrees :
      (o : WatcherOutput) (files : Files J) (r : Recovery)
      → Mirrors codec files r
      → codec.sha256 o.payload ≡ o.content_sha256
      → Agrees codec o.reference files (file_register_output codec o files) (register_output o r)
  unfolding register_output file_register_output
  register-Agrees o files r mirrors digest = elim (Option-cases (get o.reference r.outputs)) [
    | inl absent ↦
        let none_there = read_absent codec o.reference files r mirrors absent in
        rw (none_there, file_register_output, absent, register_output)
          (write_one codec law o.reference true _ (free o) files r mirrors
            (Effect-IsRecovery (registered o absent) mirrors.0) (refl, digest)
            (with_consumed o none none none none (get o.reference r.reconciliations) refl (
              unknown_cell (get o.reference r.reconciliations)
                (rw absent at (mirrors.0 o.reference)))))
    | inr (s, found_there) ↦
        let (read, own) = read_found codec law o.reference files r s mirrors found_there in
        rw (read, file_register_output, found_there, register_output) (refl, mirrors)
  ]

  resolved :
      (b : Bool) (s : OutputState) (files : Files J) (r : Recovery)
      → Mirrors codec files r
      → (k : Text)
      → Agrees codec k files
          (if not b then (ok none, files) else (ok (some s.output), files))
          (if b then some s.output else none, r)
  resolved true s files r mirrors k = (refl, mirrors)
  resolved false s files r mirrors k = (refl, mirrors)

  pub resolve-Agrees :
      (scope : ArtifactScope) (execution : Uuid) (k : Text) (files : Files J) (r : Recovery)
      → Mirrors codec files r
      → Agrees codec k files
          (file_resolve_output codec scope execution k files)
          (resolve_output codec.sha256 scope execution k r, r)
  unfolding resolve_output file_resolve_output
  resolve-Agrees scope execution k files r mirrors = elim (Option-cases (get k r.outputs)) [
    | inl absent ↦
        rw (read_absent codec k files r mirrors absent, file_resolve_output, absent, resolve_output)
          (refl, mirrors)
    | inr (s, found_there) ↦
        let (read, own) = read_found codec law k files r s mirrors found_there in
        let same =
          claimable_same codec.sha256 s (get k r.reconciliations) scope execution
            (rw found_there at (mirrors.0 k)) own.1 in
        rw (read, file_resolve_output, found_there, resolve_output)
          (rw same (resolved (claimable codec.sha256 s scope execution) s files r mirrors k))
  ]

  pub claim-Agrees :
      (scope : ArtifactScope) (execution : Uuid) (k : Text) (t : Uuid) (files : Files J)
      (r : Recovery)
      → Mirrors codec files r
      → Agrees codec k files
          (file_claim_output codec scope execution k t files)
          (claim_output codec.sha256 scope execution k t r)
  unfolding claim_output file_claim_output
  claim-Agrees scope execution k t files r mirrors = elim (Option-cases (get k r.outputs)) [
    | inl absent ↦
        rw (read_absent codec k files r mirrors absent, file_claim_output, absent, claim_output)
          (refl, mirrors)
    | inr (s, found_there) ↦
        let (read, own) = read_found codec law k files r s mirrors found_there in
        let cell : IsCell (some s) (get k r.reconciliations) = rw found_there at (mirrors.0 k) in
        let same =
          claimable_same codec.sha256 s (get k r.reconciliations) scope execution cell own.1 in
        elim (Bool-cases (claimable codec.sha256 s scope execution)) [
          | inl can ↦
              let (c, u) = free_of_claimable codec.sha256 s scope execution can in
              rw (read, file_claim_output, found_there, claim_output)
                (rw (same, can)
                  (write_one codec law k _ _ (claimed s.output t) files r mirrors
                    (Effect-IsRecovery (taken s t found_there c u) mirrors.0) own
                    (with_consumed s.output (some t) s.consumed_token none (get k r.reconciliations)
                      (get k r.reconciliations) u refl)))
          | inr cannot ↦
              rw (read, file_claim_output, found_there, claim_output)
                (rw (same, cannot) (refl, mirrors))
        ]
  ]

  pub prepare-Agrees :
      (scope : ArtifactScope) (execution : Uuid) (p : PendingArtifactCommit) (files : Files J)
      (r : Recovery)
      → Mirrors codec files r
      → Agrees codec p.claim.reference files
          (file_claim_pending codec scope execution p files)
          (claim_pending codec.sha256 scope execution p r)
  unfolding claim_pending file_claim_pending
  prepare-Agrees scope execution p files r mirrors =
      let k = p.claim.reference in
      elim (Option-cases (get p.claim.reference r.outputs)) [
        | inl absent ↦
            rw
              (
                read_absent codec k files r mirrors absent,
                file_claim_pending,
                absent,
                claim_pending,
              )
              (refl, mirrors)
        | inr (s, found_there) ↦
            let (read, own) = read_found codec law k files r s mirrors found_there in
            let cell : IsCell (some s) (get k r.reconciliations) =
              rw found_there at (mirrors.0 k) in
            let same =
              claimable_same codec.sha256 s (get k r.reconciliations) scope execution cell own.1 in
            elim (Bool-cases
              (not (claimable codec.sha256 s scope execution) || s.output != p.claim.output)) [
                | inl refused ↦
                    rw (read, file_claim_pending, found_there, claim_pending)
                      (rw (same, refused) (refl, mirrors))
                | inr accepted ↦
                    let can : claimable codec.sha256 s scope execution ≡ true =
                      ground (arith, accepted) in
                    let equal : s.output ≡ p.claim.output = ground (arith, accepted) in
                    let (c, u) = free_of_claimable codec.sha256 s scope execution can in
                    rw (read, file_claim_pending, found_there, claim_pending)
                      (rw (same, accepted)
                        (write_two codec law k true _ (claimed s.output p.claim.token) (pending p)
                          files r mirrors
                          (Effect-IsRecovery (prepared s p found_there c u equal refl) mirrors.0)
                          own
                          (with_consumed s.output (some p.claim.token) s.consumed_token none
                            (some (pending p)) (some (pending p)) u refl)))
              ]
      ]

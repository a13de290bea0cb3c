-- ===== src/Artifacts/FileRecovery/Records.antt =====
-- Reading and writing one sealed record, and what it means that the files hold the same state as the
-- two maps of the process-local authority.
use nipo_science.Artifacts.FileRecovery.{
  FileRecoveryState, Files, RecordCodec, RecoveryFailure, decode, is_oversize, read_record, sealed,
  verify_record, write_record,
}
use nipo_science.Artifacts.Models.{
  ArtifactReconciliation, WatcherOutput, draft_eq, optional_uuid_eq, optional_version_eq, output_eq,
  reconciliation_eq, scope_eq, version_eq,
}
use nipo_science.Artifacts.Recovery.{OutputState, Recovery}
use nipo_science.Artifacts.Recovery.Cells.{IsRecovery}
use nipo_science.Artifacts.Watcher.{execution_key_eq, found}
use nipo_science.Prelude.{
  Bool-cases, Option, Result, Text, arith, err, false, get, get-put_ne, get-put_self, inl, inr,
  nat_eq, none, ok, put, refl, some, subst, sym, text_eq, true, uuid_pair_eq, uuid_triple_eq, ◌≡◌,
  ◌≢◌,
}

-- What the code relies on: an envelope reads back as it was dumped, and two references, which the
-- file names digest, do not share a file.
pub record IsCodec {J : Type 0} (codec : RecordCodec J) : Type 0 where
  pub reads_back :
      (body : FileRecoveryState)
      → codec.validate_json (codec.dump_json (sealed codec body)) ≡ some (sealed codec body)
  pub apart : (j k : Text) → codec.path j ≡ codec.path k → j ≡ k

abbrev pub body_of : OutputState → Option ArtifactReconciliation → FileRecoveryState
body_of s c = record {
  output = s.output;
  claim_token = s.claim_token;
  consumed_token = s.consumed_token;
  reconciliation = c;
}

module _ {J : Type 0} (codec : RecordCodec J) where
  -- An output under its reference with the digest of its payload.
  abbrev pub IsOutput : Text → WatcherOutput → Type 0
  IsOutput k output = (output.reference ≡ k) × (codec.sha256 output.payload ≡ output.content_sha256)

  abbrev pub encoded : OutputState → Option ArtifactReconciliation → J
  encoded s c = codec.dump_json (sealed codec (body_of s c))

  -- A file that holds what the maps hold for a reference.
  abbrev pub Stores : Text → Option J → Option OutputState → Option ArtifactReconciliation → Type 0
  Stores k file none c = file ≡ none
  Stores k file (some s) c =
      (file ≡ some (encoded s c))
      × (is_oversize (codec.size (encoded s c)) ≡ false)
      × IsOutput k s.output

  abbrev pub Mirrors : Files J → Recovery → Type 0
  Mirrors files r =
      IsRecovery r
      × ((k : Text)
          → Stores k (get (codec.path k) files) (get k r.outputs) (get k r.reconciliations))

  -- A call for a reference gives the other's answer, on files that mirror the other's maps. It
  -- raises only when the record of the new state is too large, and changes nothing then.
  abbrev pub Agrees :
      {A : Type 0} → Text → Files J → Result RecoveryFailure A × Files J → A × Recovery → Type 0
  Agrees k files (ok a, files') (b, r') = (a ≡ b) × Mirrors files' r'
  Agrees k files (err e, files') (b, r') =
      (files' ≡ files)
      × ((s : OutputState) × (get k r'.outputs ≡ some s)
          × (is_oversize (codec.size (encoded s (get k r'.reconciliations))) ≡ true))

  verify_record_lem :
      (k : Text) (body : FileRecoveryState)
      → IsOutput k body.output
      → verify_record codec k (sealed codec body) ≡ ok (some body)
  unfolding verify_record
  verify_record_lem k body (own, digest) = ground (arith, own, digest)

  pub read_absent :
      (k : Text) (files : Files J) (r : Recovery)
      → Mirrors files r
      → get k r.outputs ≡ none
      → read_record codec k files ≡ ok none
  unfolding read_record
  read_absent k files r (good, held) absent = rw (rw absent at (held k), read_record) refl

  module _ (law : IsCodec codec) where
    pub read_found :
        (k : Text) (files : Files J) (r : Recovery) (s : OutputState)
        → Mirrors files r
        → get k r.outputs ≡ some s
        → (read_record codec k files ≡ ok (some (body_of s (get k r.reconciliations))))
          × IsOutput k s.output
    unfolding read_record decode
    read_found k files r s (good, held) found =
        let (file, small, own) = rw found at (held k) in
        (
          rw (file, read_record)
              (rw (small, decode)
                (rw (law.reads_back (body_of s (get k r.reconciliations)))
                  (verify_record_lem k (body_of s (get k r.reconciliations)) own))),
          own,
        )

    -- A written record keeps the other references, and the new state is the maps' new one.
    stored :
        (k : Text) (s : OutputState) (files : Files J) (r r' : Recovery)
        → Mirrors files r
        → IsRecovery r'
        → IsOutput k s.output
        → get k r'.outputs ≡ some s
        → is_oversize (codec.size (encoded s (get k r'.reconciliations))) ≡ false
        → ((j : Text)
            → k ≢ j
            → (get j r'.outputs ≡ get j r.outputs)
              × (get j r'.reconciliations ≡ get j r.reconciliations))
        → Mirrors (put (codec.path k) (encoded s (get k r'.reconciliations)) files) r'
    stored k s files r r' (good, held) good' own here small others = (
      good',
      λ j. elim (text_eq.decide k j) [
        | yes at_k ↦
            rw
              (
                ← at_k,
                here,
                get-put_self (codec.path k) (encoded s (get k r'.reconciliations)) files,
              )
              (refl, small, own)
        | no other ↦
            rw
              (
                (others j other).0,
                (others j other).1,
                get-put_ne (codec.path k) (codec.path j) (encoded s (get k r'.reconciliations))
                    files (λ h. other (law.apart k j h)),
              )
              (held j)
      ],
    )

    pub write_Agrees :
        {A : Type 0} (k : Text) (answer : A) (body : FileRecoveryState) (s : OutputState)
        (files : Files J) (r r' : Recovery)
        → Mirrors files r
        → IsRecovery r'
        → IsOutput k s.output
        → get k r'.outputs ≡ some s
        → body ≡ body_of s (get k r'.reconciliations)
        → ((j : Text)
            → k ≢ j
            → (get j r'.outputs ≡ get j r.outputs)
              × (get j r'.reconciliations ≡ get j r.reconciliations))
        → Agrees k files (write_record codec body answer files) (answer, r')
    unfolding write_record
    write_Agrees k answer body s files r r' mirrors good' own here same others =
        rw same
          (elim (Bool-cases (is_oversize (codec.size (encoded s (get k r'.reconciliations))))) [
            | inl large ↦ rw (large, write_record) (refl, (s, here, large))
            | inr small ↦
                rw (small, write_record)
                  (
                    refl,
                    subst
                        (λ i.
                          Mirrors (put (codec.path i) (encoded s (get k r'.reconciliations)) files)
                            r')
                        (sym own.0) (stored k s files r r' mirrors good' own here small others),
                  )
          ])

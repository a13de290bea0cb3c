-- ===== src/Artifacts/Signing/Redeemed.antt =====
-- A download from its issue to its redemption.
use nipo_science.Artifacts.Downloads.{
  DownloadClaims, SignedDownload, content, expires_ms, issue_download, max_download_ttl,
  min_download_ttl, read_version, redeem_download, refused,
}
use nipo_science.Artifacts.Models.{
  ArtifactErrorCode, ArtifactScope, download_expired, download_ttl_invalid, draft_eq,
  optional_uuid_eq, optional_version_eq, output_eq, reconciliation_eq, scope_eq, version_eq,
}
use nipo_science.Artifacts.Signing.{SigningCodec, issue, verify}
use nipo_science.Artifacts.Signing.Tokens.{IsSigningCodec, verify-issue}
use nipo_science.Artifacts.Store.{Platform, Store, project_archived}
use nipo_science.Prelude.{
  >>=-eq-ok, Bool-cases, Text, Timestamp, Uuid, ap, arith, err, if◌then◌else◌, inl, inr, leb, ltb,
  nat_eq, ok, ok-injective, optional_text_eq, raise_if, raise_if-eq-ok, refl, sym, text_eq,
  uuid_pair_eq, uuid_triple_eq, ℕ, ◌!=◌, ◌%◌, ◌>>◌, ◌||◌, ◌≡◌,
}

-- The claims of a download of a version for a lifetime.
abbrev pub claims_for : ArtifactScope → Uuid → ℕ → Timestamp → DownloadClaims
claims_for scope version_id ttl now = record {
  org_id = scope.org_id;
  project_id = scope.project_id;
  version_id = version_id;
  expires_unix_ms = expires_ms now ttl;
}

module _ (codec : SigningCodec) (law : IsSigningCodec codec) where
  issued_token :
      (sign : DownloadClaims → Text) (scope : ArtifactScope) (v : Uuid) (ttl : ℕ) (now : Timestamp)
      (store : Store) {d : SignedDownload}
      → issue_download sign scope v ttl now store ≡ ok d
      → d.token ≡ sign (claims_for scope v ttl now)
  unfolding issue_download
  issued_token sign scope v ttl now store h =
      let (lifetime, rest) =
        raise_if-eq-ok (ltb ttl min_download_ttl || ltb max_download_ttl ttl)
          (refused download_ttl_invalid) _ h in
      let (v', readable, checks) = >>=-eq-ok (read_version scope v store) _ rest in
      let (active, more) =
        raise_if-eq-ok (project_archived scope store) (refused ArtifactErrorCode.project_archived) _
          checks in
      let (whole, made) = raise_if-eq-ok (ttl % 1000 != 0) (refused download_ttl_invalid) _ more in
      ap (λ x. x.token) (sym (ok-injective made))

  redeemed_claims :
      (platform : Platform) (scope : ArtifactScope) (v : Uuid) (ttl : ℕ) (now : Timestamp)
      (store : Store)
      → (raise_if
            ((claims_for scope v ttl now).org_id != scope.org_id
              || (claims_for scope v ttl now).project_id != scope.project_id)
            (refused ArtifactErrorCode.not_found)
          >> content platform scope v store)
        ≡ content platform scope v store
  redeemed_claims platform scope v ttl now store = ground arith

  -- A download that was issued redeems in its scope to the content of its version, in the store as
  -- it is then, when the milliseconds that the signer reads of the time are before the deadline
  -- that was issued, and is refused as expired when they are not.
  pub redeem-issue_download :
      (platform : Platform) (scope : ArtifactScope) (v : Uuid) (ttl : ℕ) (now later : Timestamp)
      (store store' : Store) (d : SignedDownload)
      → issue_download (issue codec) scope v ttl now store ≡ ok d
      → redeem_download (verify codec) platform scope d.token later store' ≡ (
          if leb (expires_ms now ttl) (codec.unix_ms later)
          then err (refused download_expired)
          else content platform scope v store')
  unfolding redeem_download
  redeem-issue_download platform scope v ttl now later store store' d h =
      rw (issued_token (issue codec) scope v ttl now store h) (
        rw (verify-issue codec law (claims_for scope v ttl now) later)
          (elim (Bool-cases (leb (expires_ms now ttl) (codec.unix_ms later))) [
            | inl over ↦ rw over refl
            | inr alive ↦ rw alive (redeemed_claims platform scope v ttl now store')
          ]))

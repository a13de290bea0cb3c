-- ===== src/Artifacts/Downloads/Redemptions.antt =====
-- What a redeemed download returns.
use nipo_science.Artifacts.Downloads.{
  DownloadClaims, ServiceError, checksum_guard, content, redeem_download, refused, require_created,
}
use nipo_science.Artifacts.Models.{
  ArtifactErrorCode, ArtifactScope, ArtifactVersion, StoreFailure, StoreOutcome, blob_integrity,
  commit_unknown, draft_eq, missing_key, optional_uuid_eq, optional_version_eq, output_eq,
  reconciliation_eq, scope_eq, unavailable, version_eq,
}
use nipo_science.Artifacts.Store.{
  Platform, Store, own_version, project_of, redeem_content, redeem_of, require_some, verified,
  version,
}
use nipo_science.Prelude.{
  Bool-cases, Bytes, Option, Result, Text, Timestamp, Uuid, arith, err, get, inl, inr, mem, nat_eq,
  none, ok, raise_if, refl, some, text_eq, uuid_pair_eq, uuid_triple_eq, ◌!=◌, ◌>>=◌, ◌>>◌, ◌||◌,
  ◌≡◌,
}

-- A redemption that returns bytes has passed the check of the claims' project.
owned_claims :
    (scope : ArtifactScope) (c : DownloadClaims) (rest : Result ServiceError Bytes) {bytes : Bytes}
    → (raise_if
          (c.org_id != scope.org_id || c.project_id != scope.project_id)
          (refused ArtifactErrorCode.not_found)
        >> rest)
      ≡ ok bytes
    → (c.org_id ≡ scope.org_id) × (c.project_id ≡ scope.project_id) × (rest ≡ ok bytes)
owned_claims scope c rest h = ground arith

-- Bytes that a check returned are the blob, with the digest of the version.
verified-eq-ok :
    (platform : Platform) (v : ArtifactVersion) (o : Option Bytes) {bytes : Bytes}
    → verified platform v o ≡ ok bytes
    → platform.sha256 bytes ≡ v.content_sha256
unfolding verified
verified-eq-ok platform v none h = absurd (cc)
verified-eq-ok platform v (some payload) h = ground arith

-- The service's part of a read.
abbrev delivered :
    Result StoreFailure (StoreOutcome × Option ArtifactVersion × Option Bytes)
    → Result ServiceError Bytes
delivered read = do
  (outcome, _, payload) ← checksum_guard read
  require_created outcome
  require_some payload (refused ArtifactErrorCode.not_found)

abbrev redeemed :
    ArtifactVersion
    → Result StoreFailure Bytes
    → Result StoreFailure (StoreOutcome × Option ArtifactVersion × Option Bytes)
redeemed v read = do payload ← read; ok (StoreOutcome.created, some v, some payload)

redeemed-delivered :
    (v : ArtifactVersion) (read : Result StoreFailure Bytes) {bytes : Bytes}
    → delivered (redeemed v read) ≡ ok bytes
    → read ≡ ok bytes
unfolding require_created
redeemed-delivered v (ok payload) h = ground arith
redeemed-delivered v (err blob_integrity) h = cc
redeemed-delivered v (err commit_unknown) h = cc
redeemed-delivered v (err unavailable) h = cc
redeemed-delivered v (err missing_key) h = cc

delivered_of :
    (platform : Platform) (o : Option ArtifactVersion) (store : Store) {bytes : Bytes}
    → delivered (redeem_of platform o store) ≡ ok bytes
    → (v : ArtifactVersion) × (o ≡ some v) × (platform.sha256 bytes ≡ v.content_sha256)
unfolding require_created
delivered_of platform none store h = cc
delivered_of platform (some v) store h = (
  v,
  refl,
  verified-eq-ok platform v (get v.object_key store.blobs)
      (redeemed-delivered v (verified platform v (get v.object_key store.blobs)) h),
)

-- Content is returned only for a version of an active project of the caller, with its digest.
content-eq-ok :
    (platform : Platform) (scope : ArtifactScope) (id : Uuid) (store : Store) {bytes : Bytes}
    → content platform scope id store ≡ ok bytes
    → (v : ArtifactVersion) × (version scope id store ≡ some v)
      × (platform.sha256 bytes ≡ v.content_sha256)
unfolding content redeem_content version require_created
content-eq-ok platform scope id store h =
    elim (Bool-cases (mem (project_of scope) store.archived_projects)) [
      | inl over ↦ absurd (cc (rw over at h))
      | inr active ↦ rw active (
          delivered_of platform
            (own_version scope.project_id (get (scope.org_id, id) store.versions)) store
            (rw active at h))
    ]

redeem_of_claims :
    (platform : Platform) (scope : ArtifactScope) (store : Store)
    (r : Result ServiceError DownloadClaims) {bytes : Bytes}
    → (r >>= λ c.
        (raise_if
            (c.org_id != scope.org_id || c.project_id != scope.project_id)
            (refused ArtifactErrorCode.not_found)
          >> content platform scope c.version_id store))
      ≡ ok bytes
    → (c : DownloadClaims) × (r ≡ ok c)
      × (c.org_id ≡ scope.org_id)
      × (c.project_id ≡ scope.project_id)
      × (content platform scope c.version_id store ≡ ok bytes)
redeem_of_claims platform scope store (err e) h = cc
redeem_of_claims platform scope store (ok c) h =
    let (org, project, rest) = owned_claims scope c (content platform scope c.version_id store) h in
    (c, refl, org, project, rest)

-- A redemption returns bytes only when the token verifies at the present for claims of the caller's
-- own organisation and project, that project is active and holds the claimed version, and the bytes
-- have the digest that the version records.
pub redeem_download-eq-ok :
    (verify : Text → Timestamp → Result ServiceError DownloadClaims) (platform : Platform)
    (scope : ArtifactScope) (token : Text) (now : Timestamp) (store : Store) {bytes : Bytes}
    → redeem_download verify platform scope token now store ≡ ok bytes
    → (c : DownloadClaims) × (v : ArtifactVersion) × (verify token now ≡ ok c)
      × (c.org_id ≡ scope.org_id)
      × (c.project_id ≡ scope.project_id)
      × (version scope c.version_id store ≡ some v)
      × (platform.sha256 bytes ≡ v.content_sha256)
unfolding redeem_download
redeem_download-eq-ok verify platform scope token now store h =
    let (c, verified, org, project, rest) =
      redeem_of_claims platform scope store (verify token now) h in
    let (v, found, digest) = content-eq-ok platform scope c.version_id store rest in
    (c, v, verified, org, project, found, digest)

-- ===== src/Artifacts/Downloads.antt =====
-- services/api/artifacts/service.py: `read_version`, `issue_download` and the scope check and reads
-- of `redeem_download`. Signing is a parameter here. Times are microseconds since 1970, and
-- lifetimes are nonnegative.
pub mod Deadlines
pub mod Redemptions
use nipo_science.Artifacts.Models.{
  ArtifactErrorCode, ArtifactScope, ArtifactVersion, StoreFailure, StoreOutcome, blob_integrity,
  created, download_ttl_invalid, draft_eq, not_found, optional_uuid_eq, optional_version_eq,
  output_eq, reconciliation_eq, scope_eq, version_eq,
}
use nipo_science.Artifacts.Store.{
  Platform, Store, project_archived, redeem_content, require_some, version,
}
use nipo_science.Artifacts.Watcher.{execution_key_eq, found}
use nipo_science.Prelude.{
  Bytes, Result, Text, Timestamp, Uuid, err, if◌then◌else◌, ltb, nat_eq, ok, raise_if, text_eq,
  uuid_pair_eq, uuid_triple_eq, ℕ, ◌!=◌, ◌%◌, ◌*◌, ◌+◌, ◌/◌, ◌>>=◌, ◌>>◌, ◌||◌,
}

-- models.py
pub record DownloadClaims : Type 0 where
  pub org_id : Uuid
  pub project_id : Uuid
  pub version_id : Uuid
  pub expires_unix_ms : ℕ

pub record SignedDownload : Type 0 where
  pub token : Text
  pub expires_at : Timestamp

abbrev pub max_download_ttl : ℕ
max_download_ttl = 600000000

abbrev pub min_download_ttl : ℕ
min_download_ttl = 1000

-- `min(a, b)`
unfoldable pub min : ℕ → ℕ → ℕ
min a b = if ltb b a then b else a

unfoldable pub expires_ms : Timestamp → ℕ → ℕ
expires_ms now ttl = min ((now + ttl + 999) / 1000) ((now + max_download_ttl) / 1000)

-- What the service raises: an `ArtifactError` with its code, a failure of the store that it lets
-- pass, an `ArtifactRecoveryError` or an `AssertionError`.
pub data ServiceError : Type 0 where
  refused : ArtifactErrorCode → ServiceError
  passed : StoreFailure → ServiceError
  recovery_failed assertion_failed : ServiceError

unfoldable pub require_created : StoreOutcome → Result ServiceError (Unit {0})
require_created StoreOutcome.created = ok tt
require_created StoreOutcome.not_found = err (refused ArtifactErrorCode.not_found)
require_created StoreOutcome.archived = err (refused ArtifactErrorCode.project_archived)
require_created StoreOutcome.stale = err (refused ArtifactErrorCode.stale_base)
require_created StoreOutcome.invalid_lineage = err (refused ArtifactErrorCode.invalid_lineage)
require_created StoreOutcome.association_exists = err (refused ArtifactErrorCode.association_exists)

-- `except BlobIntegrityError`
abbrev pub checksum_guard : {A : Type 0} → Result StoreFailure A → Result ServiceError A
checksum_guard (ok a) = ok a
checksum_guard (err blob_integrity) = err (refused ArtifactErrorCode.checksum_mismatch)
checksum_guard (err failure) = err (passed failure)

unfoldable pub read_version : ArtifactScope → Uuid → Store → Result ServiceError ArtifactVersion
read_version scope version_id store =
    require_some (version scope version_id store) (refused ArtifactErrorCode.not_found)

unfoldable pub issue_download :
    (DownloadClaims → Text)
    → ArtifactScope
    → Uuid
    → ℕ
    → Timestamp
    → Store
    → Result ServiceError SignedDownload
issue_download sign scope version_id ttl now store = do
  raise_if (ltb ttl min_download_ttl || ltb max_download_ttl ttl) (refused download_ttl_invalid)
  found ← read_version scope version_id store
  raise_if (project_archived scope store) (refused ArtifactErrorCode.project_archived)
  raise_if (ttl % 1000 != 0) (refused download_ttl_invalid)
  ok (record {
    token = sign (record {
      org_id = scope.org_id;
      project_id = scope.project_id;
      version_id = version_id;
      expires_unix_ms = expires_ms now ttl;
    });
    expires_at = expires_ms now ttl * 1000;
  })

-- `ArtifactService.read_content`
unfoldable pub content : Platform → ArtifactScope → Uuid → Store → Result ServiceError Bytes
content platform scope version_id store = do
  (outcome, _, payload) ← checksum_guard (redeem_content platform scope version_id store)
  require_created outcome
  require_some payload (refused ArtifactErrorCode.not_found)

unfoldable pub read_active_content :
    Platform → ArtifactScope → Uuid → Store → Result ServiceError (ArtifactVersion × Bytes)
read_active_content platform scope version_id store = do
  (outcome, found, payload) ← checksum_guard (redeem_content platform scope version_id store)
  require_created outcome
  found ← require_some found (refused ArtifactErrorCode.not_found)
  payload ← require_some payload (refused ArtifactErrorCode.not_found)
  ok (found, payload)

unfoldable pub redeem_download :
    (Text → Timestamp → Result ServiceError DownloadClaims)
    → Platform
    → ArtifactScope
    → Text
    → Timestamp
    → Store
    → Result ServiceError Bytes
redeem_download verify platform scope token now store = do
  claims ← verify token now
  raise_if (claims.org_id != scope.org_id || claims.project_id != scope.project_id)
      (refused ArtifactErrorCode.not_found)
  content platform scope claims.version_id store

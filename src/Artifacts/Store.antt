-- ===== src/Artifacts/Store.antt =====
-- services/api/artifacts/store.py: the in-memory store of artifacts, versions and blobs. Its lock
-- makes each call one step. A check that returns or raises early is a `Result` whose error says
-- which of the two it does.
pub mod Commits
pub mod Inputs
pub mod Committed
pub mod Invariant
pub mod Calls
pub mod Reads
use nipo_science.Artifacts.Models.{
  ArtifactRecord, ArtifactScope, ArtifactVersion, SessionArtifactLink, StoreFailure, StoreOutcome,
  archived, association_exists, blob_integrity, created, draft_eq, invalid_lineage, missing_key,
  not_found, optional_uuid_eq, optional_version_eq, output_eq, reconciliation_eq, scope_eq, stale,
  version_eq,
}
use nipo_science.Prelude.{
  Bool, Bytes, Dict, List, Option, Result, Sha256, Text, Uuid, [], add, all, codes, distinct, err,
  false, get, if◌then◌else◌, is_absent, length, mem, nat_eq, none, not, ok, put, raise_if, some,
  text_eq, true, uuid_pair_eq, uuid_triple_eq, ℕ, ◌!=◌, ◌++◌, ◌+◌, ◌==◌, ◌>>=◌, ◌>>◌, ◌||◌,
}

-- What libraries compute: SHA-256 in hexadecimal, and `str` of a UUID.
pub record Platform : Type 0 where
  pub sha256 : Bytes → Sha256
  pub uuid_text : Uuid → Text

abbrev pub ProjectKey : Type 0
ProjectKey = Uuid × Uuid

pub record Store : Type 0 where
  pub projects : List ProjectKey
  pub sessions : List (Uuid × Uuid × Uuid)
  pub archived_projects : List ProjectKey
  pub artifacts : Dict (Uuid × Uuid) ArtifactRecord
  pub versions : Dict (Uuid × Uuid) ArtifactVersion
  pub latest : Dict (Uuid × Uuid) Uuid
  pub blobs : Dict Text Bytes
  pub links : Dict (Uuid × Uuid × Uuid) SessionArtifactLink

-- `InMemoryArtifactStore(projects, sessions)`
abbrev pub empty : List ProjectKey → List (Uuid × Uuid × Uuid) → Store
empty projects sessions = record {
  projects = projects;
  sessions = sessions;
  archived_projects = [];
  artifacts = [];
  versions = [];
  latest = [];
  blobs = [];
  links = [];
}

-- An early `return`, or a `raise`.
pub data Exit : Type 0 where
  returned : StoreOutcome → Exit
  raised : StoreFailure → Exit

abbrev pub project_of : ArtifactScope → ProjectKey
project_of scope = (scope.org_id, scope.project_id)

-- `key in d`
abbrev pub has {ℓ} : {A : Type ℓ} → Option A → Bool
has none = false
has (some _) = true

unfoldable pub object_key : Platform → ArtifactScope → Sha256 → Text
object_key platform scope content_sha256 =
    codes "org/"
    ++ (platform.uuid_text scope.org_id
        ++ (codes "/project/"
            ++ (platform.uuid_text scope.project_id ++ (codes "/sha256/" ++ content_sha256))))

unfoldable pub create_artifact : ArtifactScope → ArtifactRecord → Store → StoreOutcome × Store
unfolding mem get put
create_artifact scope artifact store =
    let key : Uuid × Uuid = (scope.org_id, artifact.id) in
    if not (mem (project_of scope) store.projects)
    then (StoreOutcome.not_found, store)
    else if mem (project_of scope) store.archived_projects
    then (StoreOutcome.archived, store)
    else if has (get key store.artifacts)
    then (StoreOutcome.not_found, store)
    else (StoreOutcome.created, record store { artifacts = put key artifact store.artifacts })

-- `(version := versions.get(...)) is not None and version.project_id == scope.project_id`
abbrev pub is_of_project : Uuid → Option ArtifactVersion → Bool
is_of_project project none = false
is_of_project project (some version) = version.project_id == project

unfoldable pub lineage_valid : ArtifactScope → List Uuid → Store → Bool
unfolding distinct get
lineage_valid scope input_version_ids store =
    if length (distinct input_version_ids) != length input_version_ids
    then false
    else all (λ id. is_of_project scope.project_id (get (scope.org_id, id) store.versions))
        input_version_ids

-- `self._versions[(org, latest_id)].version_no`, or 0 without a latest version.
unfoldable pub number_of : Option Uuid → Uuid → Store → Result Exit ℕ
number_of none org store = ok 0
number_of (some id) org store = elim (get (org, id) store.versions) [
  | none ↦ err (raised missing_key)
  | some version ↦ ok version.version_no
]

-- `existing is not None and existing != payload`
abbrev pub conflicts : Option Bytes → Bytes → Bool
conflicts none payload = false
conflicts (some existing) payload = existing != payload

abbrev pub require_some {ℓ κ} : {E : Type ℓ} {A : Type κ} → Option A → E → Result E A
require_some none e = err e
require_some (some a) e = ok a

-- The checks of `commit_version`, in order.
unfoldable pub commit_checks :
    Platform → ArtifactScope → ℕ → ArtifactVersion → Bytes → Store → Result Exit (Unit {0})
commit_checks platform scope base_version_no version payload store = do
  artifact ←
      require_some (get (scope.org_id, version.artifact_id) store.artifacts)
        (returned StoreOutcome.not_found)
  raise_if (artifact.project_id != scope.project_id) (returned StoreOutcome.not_found)
  raise_if (mem (project_of scope) store.archived_projects) (returned StoreOutcome.archived)
  current_no ← number_of (get (scope.org_id, version.artifact_id) store.latest) scope.org_id store
  raise_if (current_no != base_version_no) (returned StoreOutcome.stale)
  raise_if (not (lineage_valid scope version.input_version_ids store))
      (returned StoreOutcome.invalid_lineage)
  let digest = platform.sha256 payload
  let expected_key = object_key platform scope digest
  raise_if
      (has (get (scope.org_id, version.id) store.versions)
        || (version.version_no != current_no + 1
            || (version.content_sha256 != digest
                || (version.size_bytes != length payload || version.object_key != expected_key))))
      (returned StoreOutcome.invalid_lineage)
  raise_if (conflicts (get expected_key store.blobs) payload) (raised blob_integrity)

-- `self._blobs.setdefault(key, payload)`
unfoldable pub set_default : Text → Bytes → Dict Text Bytes → Dict Text Bytes
set_default key payload blobs = elim (get key blobs) [
  | none ↦ put key payload blobs
  | some _ ↦ blobs
]

abbrev pub commit_writes : Platform → ArtifactScope → ArtifactVersion → Bytes → Store → Store
commit_writes platform scope version payload store = record store {
  blobs = set_default (object_key platform scope (platform.sha256 payload)) payload store.blobs;
  versions = put (scope.org_id, version.id) version store.versions;
  latest = put (scope.org_id, version.artifact_id) version.id store.latest;
}

abbrev pub exit_with : Exit → Store → Result StoreFailure StoreOutcome × Store
exit_with (returned outcome) store = (ok outcome, store)
exit_with (raised failure) store = (err failure, store)

-- What `commit_version` does after its checks: the writes, or the early exit.
abbrev pub settle :
    Platform
    → ArtifactScope
    → ArtifactVersion
    → Bytes
    → Store
    → Result Exit (Unit {0})
    → Result StoreFailure StoreOutcome × Store
settle platform scope version payload store (ok _) =
    (ok StoreOutcome.created, commit_writes platform scope version payload store)
settle platform scope version payload store (err exit) = exit_with exit store

unfoldable pub commit_version :
    Platform
    → ArtifactScope
    → ℕ
    → ArtifactVersion
    → Bytes
    → Store
    → Result StoreFailure StoreOutcome × Store
commit_version platform scope base_version_no version payload store =
    settle platform scope version payload store
      (commit_checks platform scope base_version_no version payload store)

-- A record of the caller's project, or nothing.
abbrev pub own_version : Uuid → Option ArtifactVersion → Option ArtifactVersion
own_version project none = none
own_version project (some version) = if version.project_id != project then none else some version

abbrev pub own_artifact : Uuid → Option ArtifactRecord → Option ArtifactRecord
own_artifact project none = none
own_artifact project (some artifact) =
    if artifact.project_id != project then none else some artifact

unfoldable pub artifact : ArtifactScope → Uuid → Store → Option ArtifactRecord
artifact scope artifact_id store =
    if mem (project_of scope) store.archived_projects
    then none
    else own_artifact scope.project_id (get (scope.org_id, artifact_id) store.artifacts)

unfoldable pub version : ArtifactScope → Uuid → Store → Option ArtifactVersion
version scope version_id store =
    if mem (project_of scope) store.archived_projects
    then none
    else own_version scope.project_id (get (scope.org_id, version_id) store.versions)

-- The blob of a version, if it is there and its digest is the version's.
unfoldable pub verified : Platform → ArtifactVersion → Option Bytes → Result StoreFailure Bytes
verified platform version none = err blob_integrity
verified platform version (some payload) =
    if platform.sha256 payload != version.content_sha256 then err blob_integrity else ok payload

-- `read_content`, once the archive has been checked.
abbrev pub content_of :
    Platform → Option ArtifactVersion → Store → Result StoreFailure (Option Bytes)
content_of platform none store = ok none
content_of platform (some version) store = do
  payload ← verified platform version (get version.object_key store.blobs)
  ok (some payload)

unfoldable pub read_content :
    Platform → ArtifactScope → Uuid → Store → Result StoreFailure (Option Bytes)
read_content platform scope version_id store =
    content_of platform (version scope version_id store) store

abbrev pub redeem_of :
    Platform
    → Option ArtifactVersion
    → Store
    → Result StoreFailure (StoreOutcome × Option ArtifactVersion × Option Bytes)
redeem_of platform none store = ok (StoreOutcome.not_found, none, none)
redeem_of platform (some version) store = do
  payload ← verified platform version (get version.object_key store.blobs)
  ok (StoreOutcome.created, some version, some payload)

unfoldable pub redeem_content :
    Platform
    → ArtifactScope
    → Uuid
    → Store
    → Result StoreFailure (StoreOutcome × Option ArtifactVersion × Option Bytes)
redeem_content platform scope version_id store =
    if mem (project_of scope) store.archived_projects
    then ok (StoreOutcome.archived, none, none)
    else redeem_of platform
        (own_version scope.project_id (get (scope.org_id, version_id) store.versions)) store

unfoldable pub lineage : ArtifactScope → Uuid → Store → Option (List Uuid)
lineage scope version_id store = elim (version scope version_id store) [
  | none ↦ none
  | some v ↦ some v.input_version_ids
]

unfoldable pub attach_session : ArtifactScope → SessionArtifactLink → Store → StoreOutcome × Store
attach_session scope link store =
    let key : Uuid × Uuid × Uuid = (scope.org_id, link.session_id, link.artifact_version_id) in
    let session : Uuid × Uuid × Uuid = (scope.org_id, scope.project_id, link.session_id) in
    if mem (project_of scope) store.archived_projects
    then (StoreOutcome.archived, store)
    else if not (mem session store.sessions)
    then (StoreOutcome.not_found, store)
    else if is_absent
        (own_version scope.project_id (get (scope.org_id, link.artifact_version_id) store.versions))
    then (StoreOutcome.not_found, store)
    else if has (get key store.links)
    then (StoreOutcome.association_exists, store)
    else (StoreOutcome.created, record store { links = put key link store.links })

unfoldable pub project_archived : ArtifactScope → Store → Bool
project_archived scope store = mem (project_of scope) store.archived_projects

unfoldable pub archive_project : ArtifactScope → Store → Store
archive_project scope store =
    if mem (project_of scope) store.projects
    then record store { archived_projects = add (project_of scope) store.archived_projects }
    else store

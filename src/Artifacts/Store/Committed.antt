-- ===== src/Artifacts/Store/Committed.antt =====
-- What a commit needs and what it writes, in terms of the maps.
use nipo_science.Artifacts.Models.{
  ArtifactRecord, ArtifactScope, ArtifactVersion, StoreOutcome, draft_eq, optional_uuid_eq,
  optional_version_eq, output_eq, reconciliation_eq, scope_eq, version_eq,
}
use nipo_science.Artifacts.Store.{
  raised, missing_key, Exit, Platform, Store, commit_version, commit_writes, conflicts, number_of,
  object_key, set_default,
}
use nipo_science.Artifacts.Store.Commits.{commit_version_writes}
use nipo_science.Artifacts.Store.Inputs.{AllApart, IsInput, lineage_iff}
use nipo_science.Prelude.{
  err, All, Bytes, Dict, Option, Result, Text, Uuid, arith, codes, false, get, inl, inr, length,
  mem, nat_eq, none, ok, ok-injective, optional_text_eq, put, refl, some, text_eq, uuid_pair_eq,
  uuid_triple_eq, ℕ, ◌++◌, ◌+◌, ◌↔◌, ◌≡◌, ◌⊎◌,
}

-- The number of the version at the head of the artifact, 0 without one.
abbrev pub IsHead : Store → ArtifactScope → Uuid → ℕ → Type 0
IsHead store scope artifact_id base =
    ((get (scope.org_id, artifact_id) store.latest ≡ none) × (base ≡ 0))
    ⊎ ((id : Uuid) × (head : ArtifactVersion) × (get (scope.org_id, artifact_id) store.latest
          ≡ some id)
        × (get (scope.org_id, id) store.versions ≡ some head)
        × (head.version_no ≡ base))

-- The address of the payload in the caller's project.
abbrev pub address : Platform → ArtifactScope → Bytes → Text
address platform scope payload =
    codes "org/"
    ++ (platform.uuid_text scope.org_id
        ++ (codes "/project/"
            ++ (platform.uuid_text scope.project_id
                ++ (codes "/sha256/" ++ platform.sha256 payload))))

-- The artifact is the caller's and its project is active; the base is the number of its head; the
-- inputs are different versions of the project; the version is new, numbered next, and describes the
-- payload.
pub record IsNext (platform : Platform) (scope : ArtifactScope) (base : ℕ)
    (version : ArtifactVersion) (payload : Bytes) (store : Store) : Type 0 where
  pub artifact : ArtifactRecord
  pub found : get (scope.org_id, version.artifact_id) store.artifacts ≡ some artifact
  pub owned : artifact.project_id ≡ scope.project_id
  pub active : mem (scope.org_id, scope.project_id) store.archived_projects ≡ false
  pub current : IsHead store scope version.artifact_id base
  pub inputs : All (IsInput store scope) version.input_version_ids
  pub apart : AllApart version.input_version_ids
  pub fresh : get (scope.org_id, version.id) store.versions ≡ none
  pub number : version.version_no ≡ base + 1
  pub digest : version.content_sha256 ≡ platform.sha256 payload
  pub size : version.size_bytes ≡ length payload
  pub key : version.object_key ≡ address platform scope payload

-- The store with the version and the head written, and these blobs.
abbrev pub with_version : ArtifactScope → ArtifactVersion → Dict Text Bytes → Store → Store
with_version scope version blobs store = record store {
  blobs = blobs;
  versions = put (scope.org_id, version.id) version store.versions;
  latest = put (scope.org_id, version.artifact_id) version.id store.latest;
}

-- The payload is written under its address, or stands there already.
abbrev pub Writes : Platform → ArtifactScope → ArtifactVersion → Bytes → Store → Store → Type 0
Writes platform scope version payload store after =
    ((get (address platform scope payload) store.blobs ≡ none)
      × (after
          ≡ with_version scope version (put (address platform scope payload) payload store.blobs)
              store))
    ⊎ ((get (address platform scope payload) store.blobs ≡ some payload)
        × (after ≡ with_version scope version store.blobs store))

-- The number of a version that the head names.
abbrev number_in : Option ArtifactVersion → Result Exit ℕ
number_in o = elim o [ none ↦ err (raised missing_key) | some version ↦ ok version.version_no ]

known_number :
    (o : Option ArtifactVersion) (base : ℕ)
    → number_in o ≡ ok base
    → (head : ArtifactVersion) × (o ≡ some head) × (head.version_no ≡ base)
known_number none base h = absurd (cc h)
known_number (some head) base h = (head, refl, ok-injective h)

head_number :
    (store : Store) (org : Uuid) (o : Option Uuid) (base : ℕ)
    → number_of o org store ≡ ok base
    → ((o ≡ none) × (base ≡ 0))
      ⊎ ((id : Uuid) × (head : ArtifactVersion) × (o ≡ some id)
          × (get (org, id) store.versions ≡ some head)
          × (head.version_no ≡ base))
unfolding number_of
head_number store org none base h = inl (refl, ground arith)
head_number store org (some id) base h =
    let (head, known, number) = known_number (get (org, id) store.versions) base h in
    inr (id, head, refl, known, number)

number_of-IsHead :
    (store : Store) (scope : ArtifactScope) (artifact_id : Uuid) (base : ℕ)
    → (number_of (get (scope.org_id, artifact_id) store.latest) scope.org_id store ≡ ok base)
      ↔ IsHead store scope artifact_id base
unfolding number_of
number_of-IsHead store scope artifact_id base = (
  head_number store scope.org_id (get (scope.org_id, artifact_id) store.latest) base,
  λ h. elim h [
    | inl (empty, zero_base) ↦ rw (empty, zero_base) refl
    | inr (id, head, at_head, known, number) ↦ rw (at_head, number_of, known, number) refl
  ],
)

written_blob :
    (platform : Platform) (scope : ArtifactScope) (version : ArtifactVersion) (payload : Bytes)
    (store after : Store)
    → ((conflicts (get (address platform scope payload) store.blobs) payload ≡ false)
        × (after ≡ commit_writes platform scope version payload store))
      ↔ Writes platform scope version payload store after
unfolding object_key set_default
written_blob platform scope version payload store after = (λ h. ground arith, λ h. ground arith)

-- A version is created exactly when the artifact is the caller's in an active project, the base is
-- the number of its head, the inputs are different versions of the project, the version is new,
-- numbered next and describes the payload, and no other bytes stand under the payload's address in
-- the project; the payload, unless it stands there, the version and the artifact's head are then
-- written and nothing else.
pub commit_version_iff :
    (platform : Platform) (scope : ArtifactScope) (base : ℕ) (version : ArtifactVersion)
    (payload : Bytes) (store after : Store)
    → (commit_version platform scope base version payload store ≡ (ok StoreOutcome.created, after))
      ↔ (IsNext platform scope base version payload store
          × Writes platform scope version payload store after)
unfolding object_key
commit_version_iff platform scope base version payload store after =
    let code = commit_version_writes platform scope base version payload store after in
    let head = number_of-IsHead store scope version.artifact_id base in
    let lineage = lineage_iff store scope version.input_version_ids in
    let blob = written_blob platform scope version payload store after in
    (
      λ h.
          let (c, same) = code.0 h in
          let (inputs, apart) = lineage.0 c.lineage in
          (
            record {
              artifact = c.artifact;
              found = c.found;
              owned = c.owned;
              active = c.active;
              current = head.0 c.current;
              inputs = inputs;
              apart = apart;
              fresh = c.fresh;
              number = c.number;
              digest = c.digest;
              size = c.size;
              key = c.key;
            },
            blob.0 (c.blob, same),
          ),
      λ (n, w).
          let (free, same) = blob.1 w in
          code.1 (
            record {
              artifact = n.artifact;
              found = n.found;
              owned = n.owned;
              active = n.active;
              current = head.1 n.current;
              lineage = lineage.1 (n.inputs, n.apart);
              fresh = n.fresh;
              number = n.number;
              digest = n.digest;
              size = n.size;
              key = n.key;
              blob = free;
            },
            same,
          ),
    )

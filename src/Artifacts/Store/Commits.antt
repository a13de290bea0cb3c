-- ===== src/Artifacts/Store/Commits.antt =====
-- When a version is committed.
use nipo_science.Artifacts.Models.{
  ArtifactRecord, ArtifactScope, ArtifactVersion, StoreOutcome, draft_eq, optional_uuid_eq,
  optional_version_eq, output_eq, reconciliation_eq, scope_eq, version_eq,
}
use nipo_science.Artifacts.Store.{
  Exit, Platform, Store, commit_checks, commit_version, commit_writes, conflicts, has,
  lineage_valid, number_of, object_key, project_of, raised, require_some, returned, settle, version,
}
use nipo_science.Prelude.{
  >>=-eq-ok, Bytes, Option, Result, ap, arith, err, false, get, get-put_self, length, mem, nat_eq,
  ne→path, none, not, not-eq-false, ok, optional_text_eq, raise_if-eq-ok, refl, some, text_eq, true,
  uuid_pair_eq, uuid_triple_eq, ℕ, ◌!=◌, ◌+◌, ◌>>=◌, ◌||◌, ◌↔◌, ◌∙◌, ◌≡◌, ◌≢◌,
}

-- The artifact is the caller's and its project is active; the base is the current number; the
-- inputs resolve; the version is new, numbered next, and describes the payload; and no other bytes
-- stand under its address.
pub record Commits (platform : Platform) (scope : ArtifactScope) (base : ℕ)
    (version : ArtifactVersion) (payload : Bytes) (store : Store) : Type 0 where
  pub artifact : ArtifactRecord
  pub found : get (scope.org_id, version.artifact_id) store.artifacts ≡ some artifact
  pub owned : artifact.project_id ≡ scope.project_id
  pub active : mem (project_of scope) store.archived_projects ≡ false
  pub current :
      number_of (get (scope.org_id, version.artifact_id) store.latest) scope.org_id store ≡ ok base
  pub lineage : lineage_valid scope version.input_version_ids store ≡ true
  pub fresh : get (scope.org_id, version.id) store.versions ≡ none
  pub number : version.version_no ≡ base + 1
  pub digest : version.content_sha256 ≡ platform.sha256 payload
  pub size : version.size_bytes ≡ length payload
  pub key : version.object_key ≡ object_key platform scope (platform.sha256 payload)
  pub blob :
      conflicts (get (object_key platform scope (platform.sha256 payload)) store.blobs) payload
      ≡ false

require_some-eq-ok {ℓ κ μ} :
    {E : Type ℓ} {A : Type κ} {B : Type μ} (o : Option A) (e : E) (f : A → Result E B) {b : B}
    → (require_some o e >>= f) ≡ ok b
    → (a : A) × (o ≡ some a) × (f a ≡ ok b)
require_some-eq-ok none e f h = absurd (cc)
require_some-eq-ok (some a) e f h = (a, refl, h)

pub commit_checks-Commits :
    (platform : Platform) (scope : ArtifactScope) (base : ℕ) (version : ArtifactVersion)
    (payload : Bytes) (store : Store)
    → commit_checks platform scope base version payload store ≡ ok tt
    → Commits platform scope base version payload store
unfolding commit_checks
commit_checks-Commits platform scope base version payload store h =
    let (artifact, found, h1) =
      require_some-eq-ok (get (scope.org_id, version.artifact_id) store.artifacts) _ _ h in
    let (owned, h2) = raise_if-eq-ok (artifact.project_id != scope.project_id) _ _ h1 in
    let (active, h3) = raise_if-eq-ok (mem (project_of scope) store.archived_projects) _ _ h2 in
    let (n, current, h4) =
      >>=-eq-ok
        (number_of (get (scope.org_id, version.artifact_id) store.latest) scope.org_id store) _
        h3 in
    let (based, h5) = raise_if-eq-ok (n != base) _ _ h4 in
    let (lineage, h6) =
      raise_if-eq-ok (not (lineage_valid scope version.input_version_ids store)) _ _ h5 in
    let (described, h7) =
      raise_if-eq-ok
        (has (get (scope.org_id, version.id) store.versions)
          || (version.version_no != n + 1
              || (version.content_sha256 != platform.sha256 payload
                  || (version.size_bytes != length payload
                      || version.object_key
                        != object_key platform scope (platform.sha256 payload)))))
        _ _ h6 in
    let same = ne→path n base based in
    record {
      artifact = artifact;
      found = found;
      owned = ne→path artifact.project_id scope.project_id owned;
      active = active;
      current = current ∙ ap ok same;
      lineage = not-eq-false _ lineage;
      fresh = ground (arith, described);
      number = ground (arith, described, same);
      digest = ground (arith, described);
      size = ground (arith, described);
      key = ground (arith, described);
      blob = ground (arith, h7);
    }

commit_checks_pass :
    (platform : Platform) (scope : ArtifactScope) (base : ℕ) (version : ArtifactVersion)
    (payload : Bytes) (store : Store)
    → Commits platform scope base version payload store
    → commit_checks platform scope base version payload store ≡ ok tt
unfolding commit_checks
commit_checks_pass platform scope base version payload store c =
    rw (c.found, c.active, c.current, c.lineage, c.fresh, c.blob)
      (ground (arith, c.owned, c.number, c.digest, c.size, c.key))

-- The checks never leave early with the outcome of a success.
checks-ne-created :
    (platform : Platform) (scope : ArtifactScope) (base : ℕ) (version : ArtifactVersion)
    (payload : Bytes) (store : Store)
    → commit_checks platform scope base version payload store ≢ err (returned StoreOutcome.created)
unfolding commit_checks number_of
checks-ne-created platform scope base version payload store h = ground arith

created_cases :
    (platform : Platform) (scope : ArtifactScope) (base : ℕ) (version : ArtifactVersion)
    (payload : Bytes) (store : Store) (r : Result Exit (Unit {0})) {after : Store}
    → commit_checks platform scope base version payload store ≡ r
    → settle platform scope version payload store r ≡ (ok StoreOutcome.created, after)
    → Commits platform scope base version payload store
      × (after ≡ commit_writes platform scope version payload store)
created_cases platform scope base version payload store (ok u) e h =
    (commit_checks-Commits platform scope base version payload store e, cc)
created_cases platform scope base version payload store (err (returned outcome)) e h =
    let same : outcome ≡ StoreOutcome.created = cc (ap (λ p. p.0) h) in
    absurd (
      checks-ne-created platform scope base version payload store
        (e ∙ ap (λ o. err (returned o)) same))
created_cases platform scope base version payload store (err (raised failure)) e h = absurd (cc)

pub commit_version_writes :
    (platform : Platform) (scope : ArtifactScope) (base : ℕ) (version : ArtifactVersion)
    (payload : Bytes) (store after : Store)
    → (commit_version platform scope base version payload store ≡ (ok StoreOutcome.created, after))
      ↔ (Commits platform scope base version payload store
          × (after ≡ commit_writes platform scope version payload store))
unfolding commit_version
commit_version_writes platform scope base version payload store after = (
  created_cases platform scope base version payload store _ refl,
  λ (commits, same).
      rw (commit_checks_pass platform scope base version payload store commits, same) refl,
)

settle_unchanged :
    (platform : Platform) (scope : ArtifactScope) (version : ArtifactVersion) (payload : Bytes)
    (store : Store) (r : Result Exit (Unit {0}))
    → (settle platform scope version payload store r).0 ≢ ok StoreOutcome.created
    → (settle platform scope version payload store r).1 ≡ store
settle_unchanged platform scope version payload store (ok u) h = absurd (h refl)
settle_unchanged platform scope version payload store (err (returned outcome)) h = refl
settle_unchanged platform scope version payload store (err (raised failure)) h = refl

-- A commit that is refused or raises leaves the store as it was.
pub commit_version_unchanged :
    (platform : Platform) (scope : ArtifactScope) (base : ℕ) (version : ArtifactVersion)
    (payload : Bytes) (store : Store)
    → (commit_version platform scope base version payload store).0 ≢ ok StoreOutcome.created
    → (commit_version platform scope base version payload store).1 ≡ store
unfolding commit_version
commit_version_unchanged platform scope base version payload store h =
    settle_unchanged platform scope version payload store _ h

-- Of two commits of an artifact on the same base the second is refused: no version is lost to a
-- concurrent writer.
pub commit_version_once :
    (platform : Platform) (scope other : ArtifactScope) (base : ℕ) (first second : ArtifactVersion)
    (payload payload' : Bytes) (store after : Store)
    → commit_version platform scope base first payload store ≡ (ok StoreOutcome.created, after)
    → other.org_id ≡ scope.org_id
    → second.artifact_id ≡ first.artifact_id
    → (commit_version platform other base second payload' after).0 ≢ ok StoreOutcome.created
unfolding number_of
commit_version_once platform scope other base first second payload payload' store after h o a
      again =
    let (c, same) = (commit_version_writes platform scope base first payload store after).0 h in
    let second_commits =
      ((commit_version_writes platform other base second payload' after
          (commit_version platform other base second payload' after).1).0
        (λ i. (again i, (commit_version platform other base second payload' after).1))).0 in
    let current = rw (o, a, same) at second_commits.current in
    let n : first.version_no ≡ base = ground (
      arith,
      current,
      get-put_self (scope.org_id, first.artifact_id) first.id store.latest,
      get-put_self (scope.org_id, first.id) first store.versions,
    ) in
    omega (arith, n, c.number)

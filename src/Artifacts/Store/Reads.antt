-- ===== src/Artifacts/Store/Reads.antt =====
-- What reads return: the caller's project only, with the bytes that the version describes.
use nipo_science.Artifacts.Models.{
  ArtifactScope, ArtifactVersion, StoreOutcome, draft_eq, optional_uuid_eq, optional_version_eq,
  output_eq, reconciliation_eq, scope_eq, version_eq,
}
use nipo_science.Artifacts.Store.{
  Platform, Store, own_version, project_of, read_content, redeem_content, verified, version,
}
use nipo_science.Artifacts.Store.Invariant.{IsStore}
use nipo_science.Prelude.{
  Bool-cases, Bytes, Option, Uuid, arith, false, get, inl, inr, length, mem, nat_eq, none, ok, refl,
  some, text_eq, uuid_pair_eq, uuid_triple_eq, ◌≡◌,
}

own_version-eq-some :
    (project : Uuid) (o : Option ArtifactVersion) {v : ArtifactVersion}
    → own_version project o ≡ some v
    → (o ≡ some v) × (v.project_id ≡ project)
own_version-eq-some project none h = absurd (cc)
own_version-eq-some project (some w) h = ground arith

-- A version is read only by its own project, while that project is active.
pub version-eq-some :
    (scope : ArtifactScope) (id : Uuid) (store : Store) {v : ArtifactVersion}
    → version scope id store ≡ some v
    → (mem (project_of scope) store.archived_projects ≡ false)
      × (get (scope.org_id, id) store.versions ≡ some v)
      × (v.project_id ≡ scope.project_id)
unfolding version
version-eq-some scope id store h =
    elim (Bool-cases (mem (project_of scope) store.archived_projects)) [
      | inl over ↦ absurd (cc (over, rw over at h))
      | inr active ↦
          let (found, owned) =
            own_version-eq-some scope.project_id (get (scope.org_id, id) store.versions)
              (rw active at h) in
          (active, found, owned)
    ]

verified-backed :
    (platform : Platform) (v : ArtifactVersion) (payload : Bytes)
    → platform.sha256 payload ≡ v.content_sha256
    → verified platform v (some payload) ≡ ok payload
unfolding verified
verified-backed platform v payload h = ground arith

-- In a well-formed store a version that can be read has its content: the read never raises, and
-- the bytes have the digest and the size that the version records.
pub read_content_sound :
    (platform : Platform) (scope : ArtifactScope) (id : Uuid) (store : Store) {v : ArtifactVersion}
    → IsStore platform store
    → version scope id store ≡ some v
    → (payload : Bytes) × (read_content platform scope id store ≡ ok (some payload))
      × (redeem_content platform scope id store ≡ ok (StoreOutcome.created, some v, some payload))
      × (platform.sha256 payload ≡ v.content_sha256)
      × (length payload ≡ v.size_bytes)
unfolding read_content redeem_content
read_content_sound platform scope id store {v} good h =
    let (active, found, owned) = version-eq-some scope id store h in
    let (payload, blob, digest, size) = good.backed scope.org_id id v found in
    let checked = verified-backed platform v payload digest in
    let own : own_version scope.project_id (get (scope.org_id, id) store.versions) ≡ some v =
      rw found (ground (arith, owned)) in
    (payload, rw (h, blob, checked) refl, rw (active, own, blob, checked) refl, digest, size)

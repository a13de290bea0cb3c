-- ===== src/Artifacts/Store/Invariant.antt =====
-- The invariant of the artifact store, and that every operation keeps it.
use native.Mathlib.Nat.{le_refl}
use nipo_science.Artifacts.Models.{
  ArtifactScope, ArtifactVersion, draft_eq, optional_uuid_eq, optional_version_eq, output_eq,
  reconciliation_eq, scope_eq, version_eq,
}
use nipo_science.Artifacts.Store.{
  Platform, ProjectKey, Store, commit_writes, conflicts, empty, number_of, object_key, set_default,
}
use nipo_science.Artifacts.Store.Commits.{Commits}
use nipo_science.Prelude.{
  Bool-cases, Bytes, Dict, List, Text, Uuid, ap, arith, false, get, get-put, get-put_self, inl, inr,
  length, nat_eq, refl, some, sym, text_eq, uuid_pair_eq, uuid_triple_eq, ℕ, ◌<◌, ◌==◌, ◌∙◌, ◌≡◌,
  ◌≤◌, ◌⊎◌,
}

-- The bytes of a version are stored under its address, and are what it describes.
abbrev pub IsBacked : Platform → Store → ArtifactVersion → Type 0
IsBacked platform store v =
    (payload : Bytes) × (get v.object_key store.blobs ≡ some payload)
    × (platform.sha256 payload ≡ v.content_sha256)
    × (length payload ≡ v.size_bytes)

-- The artifact's head is a version of it, and no version of the artifact has a later number.
abbrev pub HasHead : Store → Uuid → ArtifactVersion → Type 0
HasHead store org v =
    (head : Uuid) × (w : ArtifactVersion) × (get (org, v.artifact_id) store.latest ≡ some head)
    × (get (org, head) store.versions ≡ some w)
    × (v.version_no ≤ w.version_no)

pub record IsStore (platform : Platform) (store : Store) : Type 0 where
  pub keyed :
      (org id : Uuid) (v : ArtifactVersion) → get (org, id) store.versions ≡ some v → v.id ≡ id
  pub backed :
      (org id : Uuid) (v : ArtifactVersion)
      → get (org, id) store.versions ≡ some v
      → IsBacked platform store v
  pub head :
      (org id : Uuid) (v : ArtifactVersion)
      → get (org, id) store.versions ≡ some v
      → HasHead store org v
  pub numbered :
      (org id id' : Uuid) (v w : ArtifactVersion)
      → get (org, id) store.versions ≡ some v
      → get (org, id') store.versions ≡ some w
      → v.artifact_id ≡ w.artifact_id
      → v.version_no ≡ w.version_no
      → id ≡ id'
  pub latest :
      (org artifact id : Uuid)
      → get (org, artifact) store.latest ≡ some id
      → (v : ArtifactVersion) × (get (org, id) store.versions ≡ some v) × (v.artifact_id ≡ artifact)

pub empty-IsStore :
    (platform : Platform) (projects : List ProjectKey) (sessions : List (Uuid × Uuid × Uuid))
    → IsStore platform (empty projects sessions)
unfolding get
empty-IsStore platform projects sessions = record {
  keyed = λ org id v h. absurd (cc);
  backed = λ org id v h. absurd (cc);
  head = λ org id v h. absurd (cc);
  numbered = λ org id id' v w h. absurd (cc);
  latest = λ org a id h. absurd (cc);
}

-- A write to the blobs keeps what is there.
set_default_keeps :
    (k j : Text) (p q : Bytes) (blobs : Dict Text Bytes)
    → get j blobs ≡ some q
    → get j (set_default k p blobs) ≡ some q
unfolding set_default
set_default_keeps k j p q blobs h = ground (arith, get-put k j p blobs)

-- After a write that found no other bytes the address holds the payload.
set_default_holds :
    (k : Text) (p : Bytes) (blobs : Dict Text Bytes)
    → conflicts (get k blobs) p ≡ false
    → get k (set_default k p blobs) ≡ some p
unfolding set_default
set_default_holds k p blobs h = ground (arith, get-put_self k p blobs)

-- The commits of one scope, version and payload on a well-formed store.
module _ (platform : Platform) (scope : ArtifactScope) (base : ℕ) (new : ArtifactVersion)
    (payload : Bytes) (store : Store) (good : IsStore platform store)
    (commits : Commits platform scope base new payload store) where
  abbrev pub committed : Store
  committed = commit_writes platform scope new payload store

  -- Whatever was stored under another key is still there, and the new version is under its own.
  after_versions :
      (org id : Uuid) (v : ArtifactVersion)
      → get (org, id) committed.versions ≡ some v
      → ((org ≡ scope.org_id) × (id ≡ new.id) × (v ≡ new)) ⊎ (get (org, id) store.versions ≡ some v)
  after_versions org id v h =
      ground (arith, get-put (scope.org_id, new.id) (org, id) new store.versions)

  -- A stored version is never overwritten.
  pub versions_stay :
      (org id : Uuid) (v : ArtifactVersion)
      → get (org, id) store.versions ≡ some v
      → get (org, id) committed.versions ≡ some v
  versions_stay org id v h =
      ground (arith, get-put (scope.org_id, new.id) (org, id) new store.versions, commits.fresh)

  pub new_is_stored : get (scope.org_id, new.id) committed.versions ≡ some new
  new_is_stored = get-put_self (scope.org_id, new.id) new store.versions

  pub blobs_stay :
      (k : Text) (p : Bytes) → get k store.blobs ≡ some p → get k committed.blobs ≡ some p
  blobs_stay k p h =
      set_default_keeps (object_key platform scope (platform.sha256 payload)) k payload p
        store.blobs h

  old-IsBacked : (v : ArtifactVersion) → IsBacked platform store v → IsBacked platform committed v
  old-IsBacked v (p, found, digest, size) = (p, blobs_stay v.object_key p found, digest, size)

  new-IsBacked : IsBacked platform committed new
  new-IsBacked = (
    payload,
    rw commits.key (
        set_default_holds (object_key platform scope (platform.sha256 payload)) payload store.blobs
          commits.blob),
    sym commits.digest,
    sym commits.size,
  )

  pub latest_is_new : get (scope.org_id, new.artifact_id) committed.latest ≡ some new.id
  latest_is_new = get-put_self (scope.org_id, new.artifact_id) new.id store.latest

  new_head : HasHead committed scope.org_id new
  new_head = (new.id, new, latest_is_new, new_is_stored, le_refl new.version_no)

  -- The head that the checks read has the base for its number.
  head_number :
      (head : Uuid) (w : ArtifactVersion)
      → get (scope.org_id, new.artifact_id) store.latest ≡ some head
      → get (scope.org_id, head) store.versions ≡ some w
      → w.version_no ≡ base
  unfolding number_of
  head_number head w l g = ground (arith, commits.current, l, g)

  old_head : (org : Uuid) (v : ArtifactVersion) → HasHead store org v → HasHead committed org v
  old_head org v (head, w, l, g, le) =
      elim (Bool-cases
        (◌==◌ {A = Uuid × Uuid} (scope.org_id, new.artifact_id) (org, v.artifact_id))) [
          | inl same ↦
              let o : scope.org_id ≡ org = ground arith in
              let a : new.artifact_id ≡ v.artifact_id = ground arith in
              let n : w.version_no ≡ base =
                head_number head w (ground (arith, l)) (ground (arith, g)) in
              (
                new.id,
                new,
                rw (← o, ← a) latest_is_new,
                rw (← o) new_is_stored,
                omega (arith, commits.number),
              )
          | inr other ↦ (
            head,
            w,
            ground (
              arith,
              get-put (scope.org_id, new.artifact_id) (org, v.artifact_id) new.id store.latest,
            ),
            versions_stay org head w g,
            le,
          )
        ]

  after_latest :
      (org artifact id : Uuid)
      → get (org, artifact) committed.latest ≡ some id
      → (v : ArtifactVersion) × (get (org, id) committed.versions ≡ some v)
        × (v.artifact_id ≡ artifact)
  after_latest org a id h =
      elim (Bool-cases (◌==◌ {A = Uuid × Uuid} (scope.org_id, new.artifact_id) (org, a))) [
        | inl same ↦
            let o : scope.org_id ≡ org = ground arith in
            let b : new.artifact_id ≡ a = ground arith in
            let i : new.id ≡ id = ground (arith, h, latest_is_new) in
            (new, rw (← o, ← i) new_is_stored, b)
        | inr other ↦
            let (v, g, e) = good.latest org a id (
              ground
                (arith, get-put (scope.org_id, new.artifact_id) (org, a) new.id store.latest, h)) in
            (v, versions_stay org id v g, e)
      ]

  -- Every stored version of the artifact has a smaller number than the new one.
  older :
      (org id : Uuid) (v : ArtifactVersion)
      → get (org, id) store.versions ≡ some v
      → org ≡ scope.org_id
      → v.artifact_id ≡ new.artifact_id
      → v.version_no < new.version_no
  older org id v h o a =
      let (head, w, l, g, le) = good.head org id v h in
      let n : w.version_no ≡ base = head_number head w (rw (← o, ← a) l) (rw (← o) g) in
      omega (arith, commits.number)

  after_numbered :
      (org id id' : Uuid) (v w : ArtifactVersion)
      → get (org, id) committed.versions ≡ some v
      → get (org, id') committed.versions ≡ some w
      → v.artifact_id ≡ w.artifact_id
      → v.version_no ≡ w.version_no
      → id ≡ id'
  after_numbered org id id' v w h h' a n = elim (after_versions org id v h) [
    | inl (o, i, e) ↦ elim (after_versions org id' w h') [
      | inl (o', i', e') ↦ i ∙ sym i'
      | inr old ↦ absurd (
          omega (
            arith,
            older org id' w old o (sym a ∙ ap (λ x. x.artifact_id) e),
            ap (λ x. x.version_no) e,
          ))
    ]
    | inr old ↦ elim (after_versions org id' w h') [
      | inl (o', i', e') ↦ absurd (
          omega (
            arith,
            older org id v old o' (a ∙ ap (λ x. x.artifact_id) e'),
            ap (λ x. x.version_no) e',
          ))
      | inr old' ↦ good.numbered org id id' v w old old' a n
    ]
  ]

  pub commit-IsStore : IsStore platform committed
  commit-IsStore = record {
    keyed = λ org id v h. elim (after_versions org id v h) [
      | inl (o, i, e) ↦ rw (e, i) refl
      | inr old ↦ good.keyed org id v old
    ];
    backed = λ org id v h. elim (after_versions org id v h) [
      | inl (o, i, e) ↦ rw e new-IsBacked
      | inr old ↦ old-IsBacked v (good.backed org id v old)
    ];
    head = λ org id v h. elim (after_versions org id v h) [
      | inl (o, i, e) ↦ rw (o, e) new_head
      | inr old ↦ old_head org v (good.head org id v old)
    ];
    numbered = after_numbered;
    latest = after_latest;
  }

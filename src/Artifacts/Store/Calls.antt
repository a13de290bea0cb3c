-- ===== src/Artifacts/Store/Calls.antt =====
-- Any sequence of calls keeps the store well formed and never changes what is stored.
use nipo_science.Artifacts.Models.{
  ArtifactRecord, ArtifactScope, ArtifactVersion, SessionArtifactLink, draft_eq, optional_uuid_eq,
  optional_version_eq, output_eq, reconciliation_eq, scope_eq, version_eq,
}
use nipo_science.Artifacts.Store.{
  Exit, Platform, Store, archive_project, artifact, attach_session, commit_checks, commit_version,
  create_artifact, raised, returned, settle, version,
}
use nipo_science.Artifacts.Store.Commits.{commit_checks-Commits}
use nipo_science.Artifacts.Store.Invariant.{IsStore, blobs_stay, commit-IsStore, versions_stay}
use nipo_science.Prelude.{
  Bytes, List, Result, Text, Uuid, [], arith, err, get, nat_eq, ok, refl, some, text_eq,
  uuid_pair_eq, uuid_triple_eq, ℕ, ◌∷◌, ◌≡◌,
}
use nipo_science.Protocols.ApprovalStore.AtMostOnce.{kept}

-- A call that writes to the store.
pub data Call : Type 0 where
  create : ArtifactScope → ArtifactRecord → Call
  commit : ArtifactScope → ℕ → ArtifactVersion → Bytes → Call
  attach : ArtifactScope → SessionArtifactLink → Call
  archive : ArtifactScope → Call

unfoldable pub perform : Platform → Store → Call → Store
perform platform store (create scope artifact) = (create_artifact scope artifact store).1
perform platform store (commit scope base version payload) =
    (commit_version platform scope base version payload store).1
perform platform store (attach scope link) = (attach_session scope link store).1
perform platform store (archive scope) = archive_project scope store

unfoldable pub perform_all : Platform → Store → List Call → Store
perform_all platform store [] = store
perform_all platform store (c ∷ cs) = perform_all platform (perform platform store c) cs

-- Versions and blobs that are stored stay as they are.
pub record Preserves (store after : Store) : Type 0 where
  pub versions :
      (org id : Uuid) (v : ArtifactVersion)
      → get (org, id) store.versions ≡ some v
      → get (org, id) after.versions ≡ some v
  pub blobs :
      (key : Text) (payload : Bytes)
      → get key store.blobs ≡ some payload
      → get key after.blobs ≡ some payload

-- What a call other than a commit leaves alone.
record Keeps (store after : Store) : Type 0 where
  versions : after.versions ≡ store.versions
  blobs : after.blobs ≡ store.blobs
  latest : after.latest ≡ store.latest

Keeps-IsStore :
    (platform : Platform) (store after : Store)
    → Keeps store after
    → IsStore platform store
    → IsStore platform after
Keeps-IsStore platform store after k good = record {
  keyed = λ org id v h. good.keyed org id v (rw k.versions at h);
  backed = λ org id v h. rw k.blobs (good.backed org id v (rw k.versions at h));
  head = λ org id v h. rw (k.versions, k.latest) (good.head org id v (rw k.versions at h));
  numbered = λ org id id' v w h h'.
      good.numbered org id id' v w (rw k.versions at h) (rw k.versions at h');
  latest = λ org a id h. rw k.versions (good.latest org a id (rw k.latest at h));
}

Keeps-Preserves : (store after : Store) → Keeps store after → Preserves store after
Keeps-Preserves store after k = record {
  versions = λ org id v h. rw k.versions h;
  blobs = λ key payload h. rw k.blobs h;
}

create-Keeps :
    (scope : ArtifactScope) (artifact : ArtifactRecord) (store : Store)
    → Keeps store (create_artifact scope artifact store).1
unfolding create_artifact
create-Keeps scope artifact store = ground arith

attach-Keeps :
    (scope : ArtifactScope) (link : SessionArtifactLink) (store : Store)
    → Keeps store (attach_session scope link store).1
unfolding attach_session
attach-Keeps scope link store = ground arith

archive-Keeps : (scope : ArtifactScope) (store : Store) → Keeps store (archive_project scope store)
unfolding archive_project
archive-Keeps scope store = ground arith

-- Well formed, and nothing that was stored has changed.
abbrev Safe : Platform → Store → Store → Type 0
Safe platform store after = IsStore platform after × Preserves store after

Keeps-Safe :
    (platform : Platform) (store after : Store)
    → IsStore platform store
    → Keeps store after
    → Safe platform store after
Keeps-Safe platform store after good k =
    (Keeps-IsStore platform store after k good, Keeps-Preserves store after k)

settle-Safe :
    (platform : Platform) (scope : ArtifactScope) (base : ℕ) (version : ArtifactVersion)
    (payload : Bytes) (store : Store) (r : Result Exit (Unit {0}))
    → IsStore platform store
    → commit_checks platform scope base version payload store ≡ r
    → Safe platform store (settle platform scope version payload store r).1
settle-Safe platform scope base version payload store (ok u) good e =
    let commits = commit_checks-Commits platform scope base version payload store e in
    (
      commit-IsStore platform scope base version payload store good commits,
      record {
        versions = versions_stay platform scope base version payload store good commits;
        blobs = blobs_stay platform scope base version payload store good commits;
      },
    )
settle-Safe platform scope base version payload store (err (returned o)) good e =
    Keeps-Safe platform store store good (record { versions = refl; blobs = refl; latest = refl })
settle-Safe platform scope base version payload store (err (raised f)) good e =
    Keeps-Safe platform store store good (record { versions = refl; blobs = refl; latest = refl })

perform-Safe :
    (platform : Platform) (store : Store) (c : Call)
    → IsStore platform store
    → Safe platform store (perform platform store c)
unfolding perform commit_version
perform-Safe platform store (create scope artifact) good =
    Keeps-Safe platform store _ good (create-Keeps scope artifact store)
perform-Safe platform store (commit scope base version payload) good =
    settle-Safe platform scope base version payload store _ good refl
perform-Safe platform store (attach scope link) good =
    Keeps-Safe platform store _ good (attach-Keeps scope link store)
perform-Safe platform store (archive scope) good =
    Keeps-Safe platform store _ good (archive-Keeps scope store)

-- Whatever calls a well-formed store receives, it stays well formed, and every version and every
-- blob that it held is still there, unchanged.
pub perform_all-Safe :
    (platform : Platform) (store : Store) (cs : List Call)
    → IsStore platform store
    → IsStore platform (perform_all platform store cs)
      × Preserves store (perform_all platform store cs)
unfolding perform_all
perform_all-Safe platform store [] good =
    (good, record { versions = λ org id v h. h; blobs = λ key payload h. h })
perform_all-Safe platform store (c ∷ cs) good =
    let (well, kept) = perform-Safe platform store c good in
    let (final, rest) = perform_all-Safe platform (perform platform store c) cs well in
    (
      final,
      record {
        versions = λ org id v h. rest.versions org id v (kept.versions org id v h);
        blobs = λ key payload h. rest.blobs key payload (kept.blobs key payload h);
      },
    )

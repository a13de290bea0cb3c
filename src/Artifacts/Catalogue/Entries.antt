-- ===== src/Artifacts/Catalogue/Entries.antt =====
-- What a call that creates or attaches leaves in the store.
use nipo_science.Artifacts.Catalogue.{
  create_named, joined, max_artifact_name, read_artifact, split_words,
}
use nipo_science.Artifacts.Downloads.{ServiceError, refused, require_created}
use nipo_science.Artifacts.Models.{
  ArtifactErrorCode, ArtifactRecord, ArtifactScope, StoreOutcome, draft_eq, optional_uuid_eq,
  optional_version_eq, output_eq, reconciliation_eq, scope_eq, version_eq,
}
use nipo_science.Artifacts.Store.{Store, artifact, create_artifact, has, project_of, require_some}
use nipo_science.Prelude.{
  Bool, Bool-cases, Result, Text, Timestamp, Uuid, [], ap, arith, false, get, get-put_self, inl,
  inr, length, ltb, mem, nat_eq, ok, ok-injective, optional_text_eq, refl, some, subst, sym,
  text_eq, uuid_pair_eq, uuid_triple_eq, ℕ, ◌==◌, ◌>>◌, ◌||◌, ◌∙◌, ◌≡◌, ◌≤◌,
}

require_created-eq-ok :
    {A : Type 0} (outcome : StoreOutcome) (m : Result ServiceError A) {a : A}
    → (require_created outcome >> m) ≡ ok a
    → (outcome ≡ StoreOutcome.created) × (m ≡ ok a)
unfolding require_created
require_created-eq-ok StoreOutcome.created m h = (refl, h)
require_created-eq-ok StoreOutcome.not_found m h = absurd (cc h)
require_created-eq-ok StoreOutcome.archived m h = absurd (cc h)
require_created-eq-ok StoreOutcome.stale m h = absurd (cc h)
require_created-eq-ok StoreOutcome.invalid_lineage m h = absurd (cc h)
require_created-eq-ok StoreOutcome.association_exists m h = absurd (cc h)

-- A created entry is the project's, and can be read.
create_artifact-artifact :
    (scope : ArtifactScope) (entry : ArtifactRecord) (store : Store)
    → entry.project_id ≡ scope.project_id
    → (create_artifact scope entry store).0 ≡ StoreOutcome.created
    → artifact scope entry.id (create_artifact scope entry store).1 ≡ some entry
unfolding create_artifact artifact
create_artifact-artifact scope entry store own h =
    elim (Bool-cases (mem (project_of scope) store.projects)) [
      | inr foreign ↦ absurd (cc (rw foreign at h))
      | inl known ↦ elim (Bool-cases (mem (project_of scope) store.archived_projects)) [
        | inl archived_so ↦ absurd (cc (rw (known, archived_so) at h))
        | inr active ↦ elim (Bool-cases (has (get (scope.org_id, entry.id) store.artifacts))) [
          | inl taken_id ↦ absurd (cc (rw (known, active, taken_id) at h))
          | inr free_id ↦
              rw (known, active, free_id)
                (rw (active, get-put_self (scope.org_id, entry.id) entry store.artifacts)
                  (ground (arith, own)))
        ]
      ]
    ]

name_bounds :
    (name : Text)
    → (name == [] || ltb max_artifact_name (length name)) ≡ false
    → (1 ≤ length name) × (length name ≤ 255)
name_bounds name h = ground arith

-- An artifact that a call created has a name of at least one and at most 255 characters, and is read
-- back from the store that the call left.
pub create_named-eq-ok :
    (is_space : ℕ → Bool) (scope : ArtifactScope) (name : Text) (id : Uuid) (now : Timestamp)
    (store : Store) {entry : ArtifactRecord} {after : Store}
    → create_named is_space scope name id now store ≡ (ok entry, after)
    → (entry.name ≡ joined (split_words is_space name))
      × (1 ≤ length entry.name)
      × (length entry.name ≤ 255)
      × (read_artifact scope id after ≡ ok entry)
unfolding create_named read_artifact
create_named-eq-ok is_space scope name id now store {entry} {after} h =
    let normalized = joined (split_words is_space name) in
    elim (Bool-cases (normalized == [] || ltb max_artifact_name (length normalized))) [
      | inl refused_so ↦ absurd (cc (ap (λ x. x.0) (rw refused_so at h)))
      | inr fine ↦
          let made : ArtifactRecord = record {
            id = id;
            org_id = scope.org_id;
            project_id = scope.project_id;
            name = normalized;
            created_at = now;
          } in
          let done = rw fine at h in
          let (created_so, same) =
            require_created-eq-ok (create_artifact scope made store).0 (ok made)
              (ap (λ x. x.0) done) in
          let own = ok-injective same in
          let there = create_artifact-artifact scope made store refl created_so in
          let named = ap (λ x. x.name) own in
          let (some_name, short) = name_bounds normalized fine in
          (
            sym named,
            subst (λ t. 1 ≤ length t) named some_name,
            subst (λ t. length t ≤ 255) named short,
            subst (λ left. read_artifact scope id left ≡ ok entry) (ap (λ x. x.1) done)
                (ap (λ o. require_some o (refused ArtifactErrorCode.not_found)) there ∙ same),
          )
    ]

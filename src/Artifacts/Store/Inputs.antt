-- ===== src/Artifacts/Store/Inputs.antt =====
-- store.py: which inputs `_lineage_valid` accepts.
use nipo_science.Artifacts.Models.{
  ArtifactScope, ArtifactVersion, draft_eq, optional_uuid_eq, optional_version_eq, output_eq,
  reconciliation_eq, scope_eq, version_eq,
}
use nipo_science.Artifacts.Store.{Store, is_of_project, lineage_valid}
use nipo_science.Prelude.{
  All, List, Option, Uuid, [], all, arith, distinct, false, get, length, mem, nat_eq, none,
  optional_text_eq, refl, some, text_eq, true, uuid_pair_eq, uuid_triple_eq, ◌↔◌, ◌∷◌, ◌≡◌, ◌≢◌,
  ◌≤◌,
}

-- The version that the id names in the organisation is the project's.
abbrev pub IsInput : Store → ArtifactScope → Uuid → Type 0
IsInput store scope id =
    (input : ArtifactVersion) × (get (scope.org_id, id) store.versions ≡ some input)
    × (input.project_id ≡ scope.project_id)

abbrev pub AllApart : List Uuid → Type 0
AllApart [] = Unit
AllApart (id ∷ ids) = All (λ other. other ≢ id) ids × AllApart ids

length-distinct-le : (ids : List Uuid) → length (distinct ids) ≤ length ids
unfolding distinct
length-distinct-le [] = omega arith
length-distinct-le (id ∷ ids) = ground (arith, length-distinct-le ids)

mem-distinct : (x : Uuid) (ids : List Uuid) → mem x (distinct ids) ≡ mem x ids
unfolding distinct mem
mem-distinct x [] = refl
mem-distinct x (id ∷ ids) = ground (arith, mem-distinct x ids, mem-distinct id ids)

not_mem_iff : (x : Uuid) (ids : List Uuid) → (mem x ids ≡ false) ↔ All (λ other. other ≢ x) ids
unfolding mem
not_mem_iff x [] = (λ h. tt, λ h. refl)
not_mem_iff x (id ∷ ids) =
    (λ h. ground (arith, not_mem_iff x ids), λ h. ground (arith, not_mem_iff x ids))

distinct-AllApart : (ids : List Uuid) → (length (distinct ids) ≡ length ids) ↔ AllApart ids
unfolding distinct
distinct-AllApart [] = (λ h. tt, λ h. refl)
distinct-AllApart (id ∷ ids) = (
  λ h. ground (
    arith,
    h,
    length-distinct-le ids,
    mem-distinct id ids,
    not_mem_iff id ids,
    distinct-AllApart ids,
  ),
  λ h. ground (arith, h, mem-distinct id ids, not_mem_iff id ids, distinct-AllApart ids),
)

is_of_project_iff :
    (project : Uuid) (o : Option ArtifactVersion)
    → (is_of_project project o ≡ true)
      ↔ ((input : ArtifactVersion) × (o ≡ some input) × (input.project_id ≡ project))
is_of_project_iff project none = (λ h. absurd (cc h), λ (input, h, _). absurd (cc h))
is_of_project_iff project (some v) =
    (λ h. (v, refl, ground (arith, h)), λ (input, h, own). ground (arith, h, own))

all_inputs_iff :
    (store : Store) (scope : ArtifactScope) (ids : List Uuid)
    → (all (λ id. is_of_project scope.project_id (get (scope.org_id, id) store.versions)) ids
        ≡ true)
      ↔ All (IsInput store scope) ids
all_inputs_iff store scope [] = (λ h. tt, λ h. refl)
all_inputs_iff store scope (id ∷ ids) =
    let first = is_of_project_iff scope.project_id (get (scope.org_id, id) store.versions) in
    let rest = all_inputs_iff store scope ids in
    (
      λ h. (first.0 (ground (arith, h)), rest.0 (ground (arith, h))),
      λ (own, owns). rw (first.1 own) (rest.1 owns),
    )

-- A lineage is valid exactly when its inputs are different versions of the project.
pub lineage_iff :
    (store : Store) (scope : ArtifactScope) (ids : List Uuid)
    → (lineage_valid scope ids store ≡ true) ↔ (All (IsInput store scope) ids × AllApart ids)
unfolding lineage_valid
lineage_iff store scope ids =
    let inputs = all_inputs_iff store scope ids in
    let apart = distinct-AllApart ids in
    (
      λ h. (inputs.0 (ground (arith, h)), apart.0 (ground (arith, h))),
      λ (owns, different). rw (apart.1 different) (ground (arith, inputs.1 owns)),
    )

-- ===== src/Artifacts/StoreTests.antt =====
-- A concrete store with one version, to which the theorems apply.
use nipo_science.Artifacts.Models.{
  ArtifactRecord, ArtifactScope, ArtifactVersion, StoreOutcome, draft_eq, optional_uuid_eq,
  optional_version_eq, output_eq, reconciliation_eq, scope_eq, version_eq,
}
use nipo_science.Artifacts.Store.{
  Platform, Store, commit_checks, commit_version, create_artifact, empty, lineage_valid, number_of,
  object_key, read_content, redeem_content, set_default, version,
}
use nipo_science.Artifacts.Store.Calls.{
  Call, Preserves, archive, commit, create, perform, perform_all, perform_all-Safe,
}
use nipo_science.Artifacts.Store.Commits.{commit_version_once, commit_version_unchanged}
use nipo_science.Artifacts.Store.Committed.{
  IsNext, Writes, address, commit_version_iff, with_version,
}
use nipo_science.Artifacts.Store.Invariant.{IsStore, empty-IsStore}
use nipo_science.Artifacts.Store.Reads.{read_content_sound}
use nipo_science.Artifacts.Watcher.{execution_key_eq}
use nipo_science.Prelude.{
  Bytes, List, Text-discrete, UuidPair-discrete, [], distinct, get, inl, length, mem, nat_eq, ok,
  optional_text_eq, put, refl, some, text_eq, uuid_pair_eq, uuid_triple_eq, ℕ, ℕ_discrete, ◌∷◌, ◌≡◌,
  ◌≢◌,
}

-- Encodings that only have to exist: the digest of bytes is the bytes.
abbrev platform : Platform
platform = record { sha256 = λ b. b; uuid_text = λ u. u ∷ [] }

abbrev scope : ArtifactScope
scope = record { org_id = 1; project_id = 2; requester_id = 3 }

abbrev payload : Bytes
payload = 8 ∷ 9 ∷ []

abbrev artifact_row : ArtifactRecord
artifact_row = record { id = 4; org_id = 1; project_id = 2; name = 5 ∷ []; created_at = 6 }

abbrev version_row : ℕ → ArtifactVersion
version_row id = record {
  id = id;
  org_id = 1;
  project_id = 2;
  artifact_id = 4;
  version_no = 1;
  object_key = object_key platform scope payload;
  content_sha256 = payload;
  size_bytes = 2;
  media_type = 5 ∷ [];
  producing_execution_id = 7;
  environment_sha256 = [];
  code_sha256 = [];
  runtime_adapter_id = 5 ∷ [];
  runtime_connection_id = 8;
  skill_content_hashes = [];
  source_hashes = [];
  input_version_ids = [];
  created_at = 9;
}

abbrev opened : Store
opened = empty ((1, 2) ∷ []) []

abbrev calls : List Call
calls = create scope artifact_row ∷ commit scope 0 (version_row 11) payload ∷ archive scope ∷ []

perform_all-Safe_example :
    IsStore platform (perform_all platform opened calls)
    × Preserves opened (perform_all platform opened calls)
perform_all-Safe_example =
    perform_all-Safe platform opened calls (empty-IsStore platform ((1, 2) ∷ []) [])

abbrev with_artifact : Store
with_artifact = record opened { artifacts = ((1, 4), artifact_row) ∷ [] }

may_commit : IsNext platform scope 0 (version_row 11) payload with_artifact
unfolding get mem ℕ_discrete UuidPair-discrete object_key
may_commit = record {
  artifact = artifact_row;
  found = refl;
  owned = refl;
  active = refl;
  current = inl (refl, refl);
  inputs = tt;
  apart = tt;
  fresh = refl;
  number = refl;
  digest = refl;
  size = refl;
  key = refl;
}

abbrev written : Store
written =
    with_version scope (version_row 11) (put (address platform scope payload) payload [])
      with_artifact

payload-Writes : Writes platform scope (version_row 11) payload with_artifact written
unfolding get
payload-Writes = inl (refl, refl)

committed_once :
    commit_version platform scope 0 (version_row 11) payload with_artifact
    ≡ (ok StoreOutcome.created, written)
committed_once =
    (commit_version_iff platform scope 0 (version_row 11) payload with_artifact written).1
      (may_commit, payload-Writes)

commit_version_iff_example :
    commit_version platform scope 0 (version_row 11) payload with_artifact
    ≡ (ok StoreOutcome.created, written)
commit_version_iff_example =
    (commit_version_iff platform scope 0 (version_row 11) payload with_artifact written).1
      (may_commit, payload-Writes)

commit_version_once_example :
    (commit_version platform scope 0 (version_row 12) payload written).0 ≢ ok StoreOutcome.created
commit_version_once_example =
    commit_version_once platform scope scope 0 (version_row 11) (version_row 12) payload payload
      with_artifact written committed_once refl refl

stale_base :
    (commit_version platform scope 1 (version_row 11) payload with_artifact).0
    ≡ ok StoreOutcome.stale
unfolding commit_version commit_checks get mem number_of ℕ_discrete UuidPair-discrete
stale_base = refl

is_stale :
    (commit_version platform scope 1 (version_row 11) payload with_artifact).0
    ≢ ok StoreOutcome.created
is_stale = λ h. cc (stale_base, h)

commit_version_unchanged_example :
    (commit_version platform scope 1 (version_row 11) payload with_artifact).1 ≡ with_artifact
commit_version_unchanged_example =
    commit_version_unchanged platform scope 1 (version_row 11) payload with_artifact is_stale

abbrev filled : Store
filled =
    perform_all platform opened
      (create scope artifact_row ∷ commit scope 0 (version_row 11) payload ∷ [])

filled-IsStore : IsStore platform filled
filled-IsStore =
    (perform_all-Safe platform opened
      (create scope artifact_row ∷ commit scope 0 (version_row 11) payload ∷ [])
      (empty-IsStore platform ((1, 2) ∷ []) [])).0

is_filled : version scope 11 filled ≡ some (version_row 11)
unfolding version perform_all perform create_artifact commit_version commit_checks number_of
    lineage_valid set_default get put mem distinct ℕ_discrete UuidPair-discrete Text-discrete
    object_key
is_filled = refl

read_content_sound_example :
    (bytes : Bytes) × (read_content platform scope 11 filled ≡ ok (some bytes))
    × (redeem_content platform scope 11 filled
        ≡ ok (StoreOutcome.created, some (version_row 11), some bytes))
    × (bytes ≡ payload)
    × (length bytes ≡ 2)
read_content_sound_example = read_content_sound platform scope 11 filled filled-IsStore is_filled

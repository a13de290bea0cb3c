-- ===== src/Artifacts/ServiceTests.antt =====
-- Concrete outputs, downloads and a version that is created, to which the theorems apply.
use nipo_science.Artifacts.Service.Filing.{IsFiled, create_version-IsFiled}
use nipo_science.Artifacts.Downloads.{
  DownloadClaims, ServiceError, content, expires_ms, issue_download, min, read_version,
  redeem_download, require_created,
}
use nipo_science.Artifacts.Downloads.Deadlines.{issue_download_bounds}
use nipo_science.Artifacts.Downloads.Redemptions.{redeem_download-eq-ok}
use nipo_science.Artifacts.Models.{
  ArtifactScope, ArtifactVersion, OptionalUuid-discrete, Reconciliation-discrete, StoreOutcome,
  VersionDraft, WatcherClaim, WatcherOutput, WatcherOutput-discrete, completed, draft_eq,
  optional_uuid_eq, optional_version_eq, output_eq, reconciliation_eq, scope_eq, version_eq,
}
use nipo_science.Artifacts.Recovery.{
  Recovery, active_claim, claim_output, claim_pending, claimable, free, fresh, reconciliation,
  register_output, resolve_output, save_completed, spent, write_output,
}
use nipo_science.Artifacts.Recovery.Cells.{IsRecovery, fresh-IsRecovery, write_output-IsRecovery}
use nipo_science.Artifacts.Recovery.Fences.{
  Call, perform_all, IsConsumed, perform_all-IsRecovery, perform_all-refuses,
}
use nipo_science.Artifacts.Service.{
  Fresh, ServiceState, StoreOps, complete_reconciliation, create_fresh_version, create_version,
  sorted_draft,
}
use nipo_science.Artifacts.Service.Idempotence.{create_version_again}
use nipo_science.Artifacts.Store.{
  project_archived, Platform, Store, empty, redeem_content, verified, version,
}
use nipo_science.Artifacts.Watcher.{
  register, Binding, ExecutionKey-discrete, Executions, execution_key, execution_key_eq,
  max_artifact_output_bytes, output_of, prepare_commit, reference_text, resolve,
  safe_artifact_media_types,
}
use nipo_science.Artifacts.Watcher.Registration.{register-resolve, resolve_sound}
use nipo_science.Prelude.{
  Bytes, List, Result, Text, Text-discrete, Timestamp, UuidPair-discrete, [], codes, get,
  get-put_self, inl, mem, nat_eq, none, ok, put, refl, some, sorted, text_eq, true, uuid_pair_eq,
  uuid_triple_eq, ℕ, ℕ_discrete, ◌++◌, ◌<◌, ◌∷◌, ◌≡◌, ◌≤◌,
}

abbrev platform : Platform
platform = record { sha256 = λ b. b; uuid_text = λ u. u ∷ [] }

abbrev scope : ArtifactScope
scope = record { org_id = 1; project_id = 2; requester_id = 3 }

abbrev binding : Binding
binding = record { runtime_adapter_id = 5 ∷ []; runtime_connection_id = 8 }

abbrev executions : Executions
executions = ((1, 2, 3, 7), binding) ∷ []

abbrev media : Text
media = codes "text/csv"

abbrev reference : Text
reference = codes "watcher/" ++ 6 ∷ []

abbrev output : WatcherOutput
output = record {
  reference = reference;
  org_id = 1;
  project_id = 2;
  requester_id = 3;
  execution_id = 7;
  runtime_adapter_id = 5 ∷ [];
  runtime_connection_id = 8;
  payload = 8 ∷ 9 ∷ [];
  content_sha256 = 8 ∷ 9 ∷ [];
  media_type = media;
}

abbrev registered_state : Recovery
registered_state = write_output reference (free output) fresh

registers :
    register platform executions scope 7 (8 ∷ 9 ∷ []) media 6 fresh
    ≡ (ok reference, registered_state)
unfolding register register_output reference_text get put mem ℕ_discrete Text-discrete
    ExecutionKey-discrete
registers = refl

register-resolve_example :
    (b : Binding) × (get (execution_key scope 7) executions ≡ some b)
    × (mem media safe_artifact_media_types ≡ true)
    × (2 ≤ max_artifact_output_bytes)
    × (get reference fresh.outputs ≡ none)
    × (resolve platform scope 7 reference registered_state
        ≡ ok (output_of platform scope 7 (8 ∷ 9 ∷ []) media 6 b))
register-resolve_example =
    register-resolve platform executions scope 7 (8 ∷ 9 ∷ []) media 6 fresh registers

resolves : resolve platform scope 7 reference registered_state ≡ ok output
unfolding resolve resolve_output claimable get put ℕ_discrete Text-discrete
resolves = refl

resolve_sound_example :
    ◌≡◌ {A = ℕ} 1 1
    × ◌≡◌ {A = ℕ} 2 2
    × ◌≡◌ {A = ℕ} 3 3
    × ◌≡◌ {A = ℕ} 7 7
    × ◌≡◌ {A = Bytes} (8 ∷ 9 ∷ []) (8 ∷ 9 ∷ [])
resolve_sound_example = resolve_sound platform scope 7 reference registered_state resolves

abbrev held : WatcherClaim
held = record { reference = reference; token = 4; output = output }

abbrev calls : List Call
calls = Call.register output ∷ Call.claim scope 7 reference 4 ∷ Call.finalize held ∷ []

perform_all-IsRecovery_example : IsRecovery (perform_all platform.sha256 calls fresh)
perform_all-IsRecovery_example = perform_all-IsRecovery platform.sha256 calls fresh fresh-IsRecovery

abbrev consumed_state : Recovery
consumed_state = write_output reference (spent output 4) fresh

consumed-IsRecovery : IsRecovery consumed_state
unfolding get
consumed-IsRecovery =
    write_output-IsRecovery reference (spent output 4) fresh (inl refl) fresh-IsRecovery

spent-IsConsumed : IsConsumed reference 4 consumed_state
spent-IsConsumed = (spent output 4, get-put_self reference (spent output 4) [], refl)

perform_all-refuses_example :
    (resolve_output platform.sha256 scope 7 reference
        (perform_all platform.sha256 calls consumed_state)
      ≡ none)
    × (claim_output platform.sha256 scope 7 reference 9
          (perform_all platform.sha256 calls consumed_state)
        ≡ (none, perform_all platform.sha256 calls consumed_state))
perform_all-refuses_example =
    perform_all-refuses platform.sha256 calls consumed_state scope 7 reference 4 9
      consumed-IsRecovery spent-IsConsumed

abbrev row : ArtifactVersion
row = record {
  id = 11;
  org_id = 1;
  project_id = 2;
  artifact_id = 4;
  version_no = 1;
  object_key = 8 ∷ 9 ∷ [];
  content_sha256 = 8 ∷ 9 ∷ [];
  size_bytes = 2;
  media_type = media;
  producing_execution_id = 7;
  environment_sha256 = [];
  code_sha256 = [];
  runtime_adapter_id = 5 ∷ [];
  runtime_connection_id = 8;
  skill_content_hashes = [];
  source_hashes = [];
  input_version_ids = [];
  created_at = 9;
}

abbrev shelf : Store
shelf = record (empty ((1, 2) ∷ []) []) {
  versions = ((1, 11), row) ∷ [];
  blobs = (8 ∷ 9 ∷ [], 8 ∷ 9 ∷ []) ∷ [];
}

abbrev sign : DownloadClaims → Text
sign claims = claims.expires_unix_ms ∷ []

issues :
    issue_download sign scope 11 5000 1234 shelf ≡ ok (record { token = 7 ∷ []; expires_at = 7000 })
unfolding issue_download read_version version expires_ms min project_archived get mem ℕ_discrete
    UuidPair-discrete
issues = refl

issue_download_bounds_example : (7000 ≤ 600001234) × (6234 < 8000) × (7000 < 7234) × (1234 < 7000)
issue_download_bounds_example = issue_download_bounds sign scope 11 5000 1234 shelf issues

abbrev claims : DownloadClaims
claims = record { org_id = 1; project_id = 2; version_id = 11; expires_unix_ms = 7 }

abbrev verify_any : Text → Timestamp → Result ServiceError DownloadClaims
verify_any token now = ok claims

redeems : redeem_download verify_any platform scope (7 ∷ []) 1300 shelf ≡ ok (8 ∷ 9 ∷ [])
unfolding redeem_download content redeem_content verified require_created get mem ℕ_discrete
    Text-discrete UuidPair-discrete
redeems = refl

redeem_download-eq-ok_example :
    (c : DownloadClaims) × (v : ArtifactVersion) × (verify_any (7 ∷ []) 1300 ≡ ok c)
    × (c.org_id ≡ 1)
    × (c.project_id ≡ 2)
    × (version scope c.version_id shelf ≡ some v)
    × (8 ∷ 9 ∷ [] ≡ v.content_sha256)
redeem_download-eq-ok_example =
    redeem_download-eq-ok verify_any platform scope (7 ∷ []) 1300 shelf redeems

-- A store that accepts every commit and has no versions.
abbrev accepting : StoreOps (Unit {0})
accepting = record {
  object_key = λ s digest. digest;
  commit_version = λ s base v bytes st. (ok StoreOutcome.created, st);
  version = λ s id st. ok none;
}

abbrev draft : VersionDraft
draft = record {
  artifact_id = 4;
  base_version_no = 0;
  watcher_reference = reference;
  producing_execution_id = 7;
  environment_sha256 = [];
  code_sha256 = [];
  runtime_adapter_id = 5 ∷ [];
  runtime_connection_id = 8;
  skill_content_hashes = [];
  source_hashes = [];
  input_version_ids = 22 ∷ 21 ∷ [];
}

abbrev ids : Fresh
ids = record { version_id = 11; token = 4; now = 9 }

abbrev before : ServiceState (Unit {0})
before = record { store = tt; recovery = registered_state }

before-IsFiled : IsFiled before.recovery
unfolding get
before-IsFiled = λ k p h. cc

abbrev made : ArtifactVersion
made = record row { input_version_ids = 21 ∷ 22 ∷ [] }

creates :
    create_version accepting platform scope draft ids before
    ≡ (ok made, (create_version accepting platform scope draft ids before).1)
unfolding create_version create_fresh_version complete_reconciliation prepare_commit claim_pending
    save_completed active_claim resolve resolve_output claimable reconciliation sorted get put
    ℕ_discrete Text-discrete OptionalUuid-discrete Reconciliation-discrete WatcherOutput-discrete
creates = refl

create_version_again_example :
    (get reference
        (create_version accepting platform scope draft ids before).1.recovery.reconciliations
      ≡ some (completed (record { scope = scope; draft = sorted_draft draft; version = made })))
    × (create_version accepting platform scope draft
          (record ids { now = 10 })
          (create_version accepting platform scope draft ids before).1
        ≡ (ok made, (create_version accepting platform scope draft ids before).1))
create_version_again_example =
    create_version_again accepting platform scope draft ids (record ids { now = 10 }) before
      before-IsFiled creates

create_version-IsFiled_example :
    IsFiled (create_version accepting platform scope draft ids before).1.recovery
create_version-IsFiled_example =
    create_version-IsFiled accepting platform scope draft ids before before-IsFiled

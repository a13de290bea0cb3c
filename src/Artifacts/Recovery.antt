-- ===== src/Artifacts/Recovery.antt =====
-- services/api/artifacts/memory_recovery.py: the process-local authority over watcher outputs, their
-- claims and the commits in doubt. Its lock makes each call one step.
pub mod Cells
pub mod Effects
pub mod Fences
use nipo_science.Artifacts.Models.{
  ArtifactReconciliation, ArtifactScope, CompletedArtifactCommit, PendingArtifactCommit,
  WatcherClaim, WatcherOutput, completed, draft_eq, optional_uuid_eq, optional_version_eq,
  output_eq, pending, reconciliation_eq, scope_eq, version_eq,
}
use nipo_science.Artifacts.Store.{version}
use nipo_science.Prelude.{
  Bool, Bytes, Dict, Option, Sha256, Text, Uuid, [], del, false, get, if◌then◌else◌, is_absent,
  nat_eq, none, not, put, some, text_eq, true, uuid_pair_eq, uuid_triple_eq, ◌!=◌, ◌&&◌, ◌==◌, ◌||◌,
}

pub record OutputState : Type 0 where
  pub output : WatcherOutput
  pub claim_token : Option Uuid
  pub consumed_token : Option Uuid

pub record Recovery : Type 0 where
  pub outputs : Dict Text OutputState
  pub reconciliations : Dict Text ArtifactReconciliation

-- `InMemoryArtifactRecovery()`
abbrev pub fresh : Recovery
fresh = record { outputs = []; reconciliations = [] }

-- `_OutputState(output)`, also with a claim or a consumed token.
abbrev pub free : WatcherOutput → OutputState
free output = record { output = output; claim_token = none; consumed_token = none }

abbrev pub claimed : WatcherOutput → Uuid → OutputState
claimed output token = record { output = output; claim_token = some token; consumed_token = none }

abbrev pub spent : WatcherOutput → Uuid → OutputState
spent output token = record { output = output; claim_token = none; consumed_token = some token }

unfoldable pub claimable : (Bytes → Sha256) → OutputState → ArtifactScope → Uuid → Bool
claimable sha256 state scope execution_id =
    is_absent state.claim_token
    && (is_absent state.consumed_token
        && (state.output.org_id == scope.org_id
            && (state.output.project_id == scope.project_id
                && (state.output.requester_id == scope.requester_id
                    && (state.output.execution_id == execution_id
                        && sha256 state.output.payload == state.output.content_sha256)))))

unfoldable pub active_claim : OutputState → WatcherClaim → Bool
active_claim state claim = state.claim_token == some claim.token && state.output == claim.output

abbrev pub completed_of : PendingArtifactCommit → CompletedArtifactCommit
completed_of commit = record {
  scope = commit.scope;
  draft = commit.draft;
  version = commit.version;
}

-- Writes of the two maps.
abbrev pub write_output : Text → OutputState → Recovery → Recovery
write_output reference state r = record r { outputs = put reference state r.outputs }

abbrev pub write_both : Text → OutputState → ArtifactReconciliation → Recovery → Recovery
write_both reference state reconciliation r = record {
  outputs = put reference state r.outputs;
  reconciliations = put reference reconciliation r.reconciliations;
}

abbrev pub write_and_drop : Text → OutputState → Recovery → Recovery
write_and_drop reference state r = record {
  outputs = put reference state r.outputs;
  reconciliations = del reference r.reconciliations;
}

unfoldable pub register_output : WatcherOutput → Recovery → Bool × Recovery
register_output output r = elim (get output.reference r.outputs) [
  | some _ ↦ (false, r)
  | none ↦ (true, write_output output.reference (free output) r)
]

unfoldable pub release_claim : WatcherClaim → Recovery → Bool × Recovery
release_claim claim r = elim (get claim.reference r.outputs) [
  | none ↦ (false, r)
  | some state ↦
      if state.consumed_token == some claim.token
      then (state.output == claim.output, r)
      else if not (active_claim state claim && is_absent (get claim.reference r.reconciliations))
      then (false, r)
      else (true, write_output claim.reference (free state.output) r)
]

unfoldable pub finalize_claim : WatcherClaim → Recovery → Bool × Recovery
finalize_claim claim r = elim (get claim.reference r.outputs) [
  | none ↦ (false, r)
  | some state ↦
      if state.consumed_token == some claim.token
      then (state.output == claim.output, r)
      else if not (active_claim state claim && is_absent (get claim.reference r.reconciliations))
      then (false, r)
      else (true, write_output claim.reference (spent state.output claim.token) r)
]

unfoldable pub reconciliation : Text → Recovery → Option ArtifactReconciliation
reconciliation reference r = get reference r.reconciliations

unfoldable pub save_completed : PendingArtifactCommit → Recovery → Bool × Recovery
save_completed commit r = elim (get commit.claim.reference r.outputs) [
  | none ↦ (false, r)
  | some state ↦
      let current = get commit.claim.reference r.reconciliations in
      if current == some (completed (completed_of commit))
      then (state.consumed_token == some commit.claim.token, r)
      else if current != some (pending commit) || not (active_claim state commit.claim)
      then (false, r)
      else (
        true,
        write_both commit.claim.reference (spent state.output commit.claim.token)
            (completed (completed_of commit)) r,
      )
]

unfoldable pub discard_pending : PendingArtifactCommit → Recovery → Bool × Recovery
discard_pending commit r = elim (get commit.claim.reference r.outputs) [
  | none ↦ (false, r)
  | some state ↦
      let current = get commit.claim.reference r.reconciliations in
      if is_absent current && is_absent state.claim_token
      then (true, r)
      else if current != some (pending commit) || not (active_claim state commit.claim)
      then (false, r)
      else (true, write_and_drop commit.claim.reference (free state.output) r)
]

module _ (sha256 : Bytes → Sha256) where
  unfoldable pub resolve_output : ArtifactScope → Uuid → Text → Recovery → Option WatcherOutput
  resolve_output scope execution_id reference r = elim (get reference r.outputs) [
    | none ↦ none
    | some state ↦ if claimable sha256 state scope execution_id then some state.output else none
  ]

  unfoldable pub claim_output :
      ArtifactScope → Uuid → Text → Uuid → Recovery → Option WatcherClaim × Recovery
  claim_output scope execution_id reference token r = elim (get reference r.outputs) [
    | none ↦ (none, r)
    | some state ↦ if not (claimable sha256 state scope execution_id) then (none, r) else (
      some (record { reference = reference; token = token; output = state.output }),
      write_output reference (claimed state.output token) r,
    )
  ]

  unfoldable pub claim_pending :
      ArtifactScope → Uuid → PendingArtifactCommit → Recovery → Bool × Recovery
  claim_pending scope execution_id commit r = elim (get commit.claim.reference r.outputs) [
    | none ↦ (false, r)
    | some state ↦
        if not (claimable sha256 state scope execution_id) || state.output != commit.claim.output
        then (false, r)
        else (
          true,
          write_both commit.claim.reference (claimed state.output commit.claim.token)
              (pending commit) r,
        )
  ]

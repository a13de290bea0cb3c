-- ===== src/Artifacts/Service/Filing.antt =====
-- Commits in doubt stay under the reference that they claim.
use nipo_science.Artifacts.Downloads.{ServiceError, passed}
use nipo_science.Artifacts.Models.{
  ArtifactErrorCode, ArtifactReconciliation, ArtifactScope, ArtifactVersion, PendingArtifactCommit,
  StoreFailure, StoreOutcome, VersionDraft, WatcherOutput, blob_integrity, commit_unknown,
  completed, draft_eq, missing_key, optional_uuid_eq, optional_version_eq, output_eq, pending,
  reconciliation_eq, scope_eq, unavailable, version_eq,
}
use nipo_science.Artifacts.Recovery.{
  OutputState, Recovery, claim_pending, claimed, completed_of, discard_pending, free,
  save_completed, spent, write_and_drop, write_both,
}
use nipo_science.Artifacts.Recovery.Effects.{
  Effect, discard-Effect, discarded, finalized, kept, prepare-Effect, prepared, registered,
  released, save-Effect, saved, taken,
}
use nipo_science.Artifacts.Service.{
  Answer, Fresh, ServiceState, StoreOps, commit_output, commit_prepared, complete_reconciliation,
  completes, create_fresh_version, create_version, create_with, discard_and_raise, is_store_error,
  misbound, new_version, raises, reconcile_initial, reconcile_initial_commit, reconcile_retried,
  reconcile_retried_commit, retry_pending_commit, retry_with, settle_commit, sorted_draft,
}
use nipo_science.Artifacts.Store.{Platform}
use nipo_science.Artifacts.Watcher.{accepted, execution_key_eq, found, intent_of, prepare_commit}
use nipo_science.Prelude.{
  Bool, Option, Result, Text, err, false, get, get-del_ne, get-del_self, get-put_ne, get-put_self,
  if◌then◌else◌, nat_eq, none, ok, some, text_eq, true, uuid_pair_eq, uuid_triple_eq, ◌!=◌, ◌&&◌,
  ◌==◌, ◌||◌, ◌∙◌, ◌≡◌,
}

-- Commits in doubt are kept under the reference that they claim.
abbrev pub IsFiled : Recovery → Type 0
IsFiled r =
    (k : Text) (p : PendingArtifactCommit)
    → get k r.reconciliations ≡ some (pending p)
    → p.claim.reference ≡ k

put-IsFiled :
    (k : Text) (s : OutputState) (c : ArtifactReconciliation) (r : Recovery)
    → ((p : PendingArtifactCommit) → c ≡ pending p → p.claim.reference ≡ k)
    → IsFiled r
    → IsFiled (write_both k s c r)
put-IsFiled k s c r own good j p h = elim (text_eq.decide k j) [
  | yes same ↦ own p (cc (same, get-put_self k c r.reconciliations, h)) ∙ same
  | no other ↦ good j p (cc (get-put_ne k j c r.reconciliations other, h))
]

del-IsFiled :
    (k : Text) (s : OutputState) (r : Recovery) → IsFiled r → IsFiled (write_and_drop k s r)
del-IsFiled k s r good j p h = elim (text_eq.decide k j) [
  | yes same ↦ absurd (cc (same, get-del_self k r.reconciliations, h))
  | no other ↦ good j p (cc (get-del_ne k j r.reconciliations other, h))
]

-- What any recovery call does keeps it.
pub Effect-IsFiled : {k : Text} {r r' : Recovery} → Effect k r r' → IsFiled r → IsFiled r'
Effect-IsFiled kept good = good
Effect-IsFiled (registered o absent) good = good
Effect-IsFiled (taken s t found c u) good = good
Effect-IsFiled {k} {r} (prepared s p found c u same own) good =
    put-IsFiled k (claimed s.output p.claim.token) (pending p) r (λ q e. cc (e, own)) good
Effect-IsFiled (released s t found c n) good = good
Effect-IsFiled (finalized s t found c n) good = good
Effect-IsFiled {k} {r} (saved s p found n c) good =
    put-IsFiled k (spent s.output p.claim.token) (completed (completed_of p)) r
      (λ q e. absurd (cc e)) good
Effect-IsFiled {k} {r} (discarded s p found n c) good = del-IsFiled k (free s.output) r good

module _ {S : Type 0} where
  -- The state that an answer leaves keeps it.
  abbrev LeavesFiled : Answer S → Type 0
  LeavesFiled answer = IsFiled answer.1.recovery

  completes-LeavesFiled :
      (p : PendingArtifactCommit) (state : ServiceState S) (out : Bool × Recovery)
      → IsFiled out.1
      → LeavesFiled (completes p state out)
  completes-LeavesFiled p state (true, r) good = good
  completes-LeavesFiled p state (false, r) good = good

  complete-LeavesFiled :
      (p : PendingArtifactCommit) (state : ServiceState S)
      → IsFiled state.recovery
      → LeavesFiled (complete_reconciliation p state)
  unfolding complete_reconciliation
  complete-LeavesFiled p state good =
      completes-LeavesFiled p state (save_completed p state.recovery)
        (Effect-IsFiled (save-Effect p state.recovery) good)

  raises-LeavesFiled :
      (e : ServiceError) (state : ServiceState S) (out : Bool × Recovery)
      → IsFiled out.1
      → LeavesFiled (raises e state out)
  raises-LeavesFiled e state (true, r) good = good
  raises-LeavesFiled e state (false, r) good = good

  discard-LeavesFiled :
      (p : PendingArtifactCommit) (e : ServiceError) (state : ServiceState S)
      → IsFiled state.recovery
      → LeavesFiled (discard_and_raise p e state)
  unfolding discard_and_raise
  discard-LeavesFiled p e state good =
      raises-LeavesFiled e state (discard_pending p state.recovery)
        (Effect-IsFiled (discard-Effect p state.recovery) good)

  either-LeavesFiled :
      (b : Bool) (x y : Answer S) → LeavesFiled x → LeavesFiled y → LeavesFiled (if b then x else y)
  either-LeavesFiled true x y hx hy = hx
  either-LeavesFiled false x y hx hy = hy

  compared-LeavesFiled :
      (p : PendingArtifactCommit) (state : ServiceState S) (same : Bool)
      → IsFiled state.recovery
      → LeavesFiled (
          if same
          then complete_reconciliation p state
          else discard_and_raise p (passed commit_unknown) state)
  compared-LeavesFiled p state same good =
      either-LeavesFiled same _ _ (complete-LeavesFiled p state good)
        (discard-LeavesFiled p (passed commit_unknown) state good)

  module _ (ops : StoreOps S) where
    initial-LeavesFiled :
        (p : PendingArtifactCommit) (state : ServiceState S)
        (read : Result StoreFailure (Option ArtifactVersion))
        → IsFiled state.recovery
        → LeavesFiled (reconcile_initial ops p state read)
    initial-LeavesFiled p state (err e) good = either-LeavesFiled (is_store_error e) _ _ good good
    initial-LeavesFiled p state (ok o) good =
        compared-LeavesFiled p state (o == some p.version) good

    retried-LeavesFiled :
        (p : PendingArtifactCommit) (state : ServiceState S)
        (read : Result StoreFailure (Option ArtifactVersion))
        → IsFiled state.recovery
        → LeavesFiled (reconcile_retried ops p state read)
    retried-LeavesFiled p state (err e) good = either-LeavesFiled (is_store_error e) _ _ good good
    retried-LeavesFiled p state (ok none) good = good
    retried-LeavesFiled p state (ok (some o)) good =
        compared-LeavesFiled p state (o == p.version) good

    settle-LeavesFiled :
        (in_doubt : PendingArtifactCommit → ServiceState S → Answer S)
        → ((p : PendingArtifactCommit) (state : ServiceState S)
            → IsFiled state.recovery
            → LeavesFiled (in_doubt p state))
        → (p : PendingArtifactCommit) (r : Recovery) (commit : Result StoreFailure StoreOutcome × S)
        → IsFiled r
        → LeavesFiled (settle_commit ops in_doubt p r commit)
    settle-LeavesFiled in_doubt doubt p r (err blob_integrity, store) good =
        discard-LeavesFiled p _ _ good
    settle-LeavesFiled in_doubt doubt p r (err commit_unknown, store) good = doubt p _ good
    settle-LeavesFiled in_doubt doubt p r (err unavailable, store) good = good
    settle-LeavesFiled in_doubt doubt p r (err missing_key, store) good = good
    settle-LeavesFiled in_doubt doubt p r (ok StoreOutcome.created, store) good =
        complete-LeavesFiled p _ good
    settle-LeavesFiled in_doubt doubt p r (ok StoreOutcome.not_found, store) good =
        discard-LeavesFiled p _ _ good
    settle-LeavesFiled in_doubt doubt p r (ok StoreOutcome.archived, store) good =
        discard-LeavesFiled p _ _ good
    settle-LeavesFiled in_doubt doubt p r (ok StoreOutcome.stale, store) good =
        discard-LeavesFiled p _ _ good
    settle-LeavesFiled in_doubt doubt p r (ok StoreOutcome.invalid_lineage, store) good =
        discard-LeavesFiled p _ _ good
    settle-LeavesFiled in_doubt doubt p r (ok StoreOutcome.association_exists, store) good =
        discard-LeavesFiled p _ _ good

    initial_commit-LeavesFiled :
        (p : PendingArtifactCommit) (state : ServiceState S)
        → IsFiled state.recovery
        → LeavesFiled (reconcile_initial_commit ops p state)
    unfolding reconcile_initial_commit
    initial_commit-LeavesFiled p state good =
        initial-LeavesFiled p state (ops.version p.scope p.version.id state.store) good

    retried_commit-LeavesFiled :
        (p : PendingArtifactCommit) (state : ServiceState S)
        → IsFiled state.recovery
        → LeavesFiled (reconcile_retried_commit ops p state)
    unfolding reconcile_retried_commit
    retried_commit-LeavesFiled p state good =
        retried-LeavesFiled p state (ops.version p.scope p.version.id state.store) good

    retry_with-LeavesFiled :
        (p : PendingArtifactCommit) (state : ServiceState S)
        (read : Result StoreFailure (Option ArtifactVersion))
        → IsFiled state.recovery
        → LeavesFiled (retry_with ops p state read)
    retry_with-LeavesFiled p state (err e) good =
        either-LeavesFiled (is_store_error e) _ _ good good
    retry_with-LeavesFiled p state (ok (some o)) good =
        compared-LeavesFiled p state (o == p.version) good
    retry_with-LeavesFiled p state (ok none) good =
        settle-LeavesFiled (reconcile_retried_commit ops) retried_commit-LeavesFiled p
          state.recovery _ good

    prepared-LeavesFiled :
        (scope : ArtifactScope) (draft : VersionDraft) (version : ArtifactVersion)
        (output : WatcherOutput) (store : S) (intent : PendingArtifactCommit)
        (held : Bool × Recovery)
        → IsFiled held.1
        → LeavesFiled (commit_prepared ops scope draft version output store (accepted intent held))
    prepared-LeavesFiled scope draft version output store intent (true, r) good =
        settle-LeavesFiled (reconcile_initial_commit ops) initial_commit-LeavesFiled intent r _ good
    prepared-LeavesFiled scope draft version output store intent (false, r) good = good

    module _ (platform : Platform) where
      output-LeavesFiled :
          (scope : ArtifactScope) (draft : VersionDraft) (new : Fresh) (state : ServiceState S)
          (read : Result ArtifactErrorCode WatcherOutput)
          → IsFiled state.recovery
          → LeavesFiled (commit_output ops platform scope draft new state read)
      unfolding prepare_commit
      output-LeavesFiled scope draft new state (err e) good = good
      output-LeavesFiled scope draft new state (ok output) good =
          let version = new_version ops scope draft output new in
          let intent = intent_of scope draft version output new.token in
          let execution = draft.producing_execution_id in
          either-LeavesFiled (misbound draft output) _ _ good (
            prepared-LeavesFiled scope draft version output state.store intent
              (claim_pending platform.sha256 scope execution intent state.recovery)
              (Effect-IsFiled (prepare-Effect platform.sha256 scope execution intent state.recovery)
                good))

      with-LeavesFiled :
          (scope : ArtifactScope) (draft : VersionDraft) (new : Fresh) (state : ServiceState S)
          (o : Option ArtifactReconciliation)
          → IsFiled state.recovery
          → LeavesFiled (create_with ops platform scope draft new state o)
      unfolding create_fresh_version retry_pending_commit
      with-LeavesFiled scope draft new state none good =
          output-LeavesFiled scope draft new state _ good
      with-LeavesFiled scope draft new state (some (completed c)) good =
          either-LeavesFiled (c.scope == scope && c.draft == draft) _ _ good good
      with-LeavesFiled scope draft new state (some (pending p)) good =
          either-LeavesFiled (p.scope != scope || p.draft != draft) _ _ good
            (retry_with-LeavesFiled p state _ good)

      -- Whatever the store answers, `create_version` keeps commits in doubt under the reference
      -- that they claim.
      pub create_version-IsFiled :
          (scope : ArtifactScope) (draft : VersionDraft) (new : Fresh) (state : ServiceState S)
          → IsFiled state.recovery
          → IsFiled (create_version ops platform scope draft new state).1.recovery
      unfolding create_version
      create_version-IsFiled scope draft new state good =
          with-LeavesFiled scope (sorted_draft draft) new state _ good

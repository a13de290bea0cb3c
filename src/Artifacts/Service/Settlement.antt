-- ===== src/Artifacts/Service/Settlement.antt =====
-- Every way for a commit to end in a version records it as completed.
use nipo_science.Artifacts.Downloads.{ServiceError, passed}
use nipo_science.Artifacts.Models.{
  ArtifactVersion, PendingArtifactCommit, StoreFailure, StoreOutcome, blob_integrity,
  commit_unknown, completed, draft_eq, missing_key, optional_uuid_eq, optional_version_eq,
  output_eq, reconciliation_eq, scope_eq, unavailable, version_eq,
}
use nipo_science.Artifacts.Recovery.{Recovery, completed_of, discard_pending, save_completed}
use nipo_science.Artifacts.Service.{
  Answer, ServiceState, StoreOps, complete_reconciliation, completes, discard_and_raise,
  is_store_error, raises, reconcile_initial, reconcile_initial_commit, reconcile_retried,
  reconcile_retried_commit, retry_pending_commit, retry_with, settle_commit,
}
use nipo_science.Prelude.{
  Bool, Option, Option-cases, Result, ap, arith, err, false, get, get-put_self, if◌then◌else◌, inl,
  inr, nat_eq, none, ok, refl, some, subst, text_eq, true, uuid_pair_eq, uuid_triple_eq, ◌==◌, ◌≡◌,
}

-- The reconciliation on record for an intent that was completed.
abbrev pub IsRecorded : PendingArtifactCommit → Recovery → Type 0
IsRecorded p r = get p.claim.reference r.reconciliations ≡ some (completed (completed_of p))

save_completed-IsRecorded :
    (p : PendingArtifactCommit) (r : Recovery) {r' : Recovery}
    → save_completed p r ≡ (true, r')
    → IsRecorded p r'
unfolding save_completed
save_completed-IsRecorded p r h =
    let written = get-put_self p.claim.reference (completed (completed_of p)) r.reconciliations in
    elim (Option-cases (get p.claim.reference r.outputs)) [
      | inl absent ↦ absurd (ground arith)
      | inr (s, held) ↦ ground (arith, written)
    ]

module _ {S : Type 0} where
  -- An answer with a version is that of the intent, which is then on record as completed.
  abbrev pub IsSettled : PendingArtifactCommit → Answer S → Type 0
  IsSettled p answer =
      (v : ArtifactVersion) (state : ServiceState S)
      → answer ≡ (ok v, state)
      → (v ≡ p.version) × IsRecorded p state.recovery

  completes-IsSettled :
      (p : PendingArtifactCommit) (state : ServiceState S) (saved : Bool) (r : Recovery)
      → save_completed p state.recovery ≡ (saved, r)
      → IsSettled p (completes p state (saved, r))
  completes-IsSettled p state true r h v state' same =
      let recorded = save_completed-IsRecorded p state.recovery h in
      (cc, subst (λ x. IsRecorded p x.recovery) (ap (λ x. x.1) same) recorded)
  completes-IsSettled p state false r h v state' same = cc

  complete-IsSettled :
      (p : PendingArtifactCommit) (state : ServiceState S)
      → IsSettled p (complete_reconciliation p state)
  unfolding complete_reconciliation
  complete-IsSettled p state =
      let (saved, r) = save_completed p state.recovery in completes-IsSettled p state saved r refl

  raises-IsSettled :
      (p : PendingArtifactCommit) (e : ServiceError) (state : ServiceState S)
      (saved : Bool × Recovery)
      → IsSettled p (raises e state saved)
  raises-IsSettled p e state (true, r) v state' same = cc
  raises-IsSettled p e state (false, r) v state' same = cc

  discard-IsSettled :
      (p : PendingArtifactCommit) (e : ServiceError) (state : ServiceState S)
      → IsSettled p (discard_and_raise p e state)
  unfolding discard_and_raise
  discard-IsSettled p e state = raises-IsSettled p e state (discard_pending p state.recovery)

  -- A lookup settles the intent only if it finds the version of the intent.
  compared-IsSettled :
      (p : PendingArtifactCommit) (state : ServiceState S) (same : Bool)
      → IsSettled p (
          if same
          then complete_reconciliation p state
          else discard_and_raise p (passed commit_unknown) state)
  compared-IsSettled p state true = complete-IsSettled p state
  compared-IsSettled p state false = discard-IsSettled p (passed commit_unknown) state

  -- An answer that raises settles nothing.
  raised-IsSettled :
      (p : PendingArtifactCommit) (raised : Bool) (e f : ServiceError) (state : ServiceState S)
      → IsSettled p (if raised then (err e, state) else (err f, state))
  raised-IsSettled p true e f state v state' same = cc
  raised-IsSettled p false e f state v state' same = cc

  module _ (ops : StoreOps S) where
    initial-IsSettled :
        (p : PendingArtifactCommit) (state : ServiceState S)
        (read : Result StoreFailure (Option ArtifactVersion))
        → IsSettled p (reconcile_initial ops p state read)
    initial-IsSettled p state (err e) =
        raised-IsSettled p (is_store_error e) (passed commit_unknown) (passed e) state
    initial-IsSettled p state (ok o) = compared-IsSettled p state (o == some p.version)

    retried-IsSettled :
        (p : PendingArtifactCommit) (state : ServiceState S)
        (read : Result StoreFailure (Option ArtifactVersion))
        → IsSettled p (reconcile_retried ops p state read)
    retried-IsSettled p state (err e) =
        raised-IsSettled p (is_store_error e) (passed commit_unknown) (passed e) state
    retried-IsSettled p state (ok none) = λ v state' same. cc
    retried-IsSettled p state (ok (some o)) = compared-IsSettled p state (o == p.version)

    pub settle-IsSettled :
        (in_doubt : PendingArtifactCommit → ServiceState S → Answer S)
        → ((p : PendingArtifactCommit) (state : ServiceState S) → IsSettled p (in_doubt p state))
        → (p : PendingArtifactCommit) (r : Recovery) (commit : Result StoreFailure StoreOutcome × S)
        → IsSettled p (settle_commit ops in_doubt p r commit)
    settle-IsSettled in_doubt doubt p r (err blob_integrity, store) = discard-IsSettled p _ _
    settle-IsSettled in_doubt doubt p r (err commit_unknown, store) = doubt p _
    settle-IsSettled in_doubt doubt p r (err unavailable, store) = λ v state' same. cc
    settle-IsSettled in_doubt doubt p r (err missing_key, store) = λ v state' same. cc
    settle-IsSettled in_doubt doubt p r (ok StoreOutcome.created, store) = complete-IsSettled p _
    settle-IsSettled in_doubt doubt p r (ok StoreOutcome.not_found, store) = discard-IsSettled p _ _
    settle-IsSettled in_doubt doubt p r (ok StoreOutcome.archived, store) = discard-IsSettled p _ _
    settle-IsSettled in_doubt doubt p r (ok StoreOutcome.stale, store) = discard-IsSettled p _ _
    settle-IsSettled in_doubt doubt p r (ok StoreOutcome.invalid_lineage, store) =
        discard-IsSettled p _ _
    settle-IsSettled in_doubt doubt p r (ok StoreOutcome.association_exists, store) =
        discard-IsSettled p _ _

    pub initial_commit-IsSettled :
        (p : PendingArtifactCommit) (state : ServiceState S)
        → IsSettled p (reconcile_initial_commit ops p state)
    unfolding reconcile_initial_commit
    initial_commit-IsSettled p state =
        initial-IsSettled p state (ops.version p.scope p.version.id state.store)

    retried_commit-IsSettled :
        (p : PendingArtifactCommit) (state : ServiceState S)
        → IsSettled p (reconcile_retried_commit ops p state)
    unfolding reconcile_retried_commit
    retried_commit-IsSettled p state =
        retried-IsSettled p state (ops.version p.scope p.version.id state.store)

    retry_with-IsSettled :
        (p : PendingArtifactCommit) (state : ServiceState S)
        (read : Result StoreFailure (Option ArtifactVersion))
        → IsSettled p (retry_with ops p state read)
    retry_with-IsSettled p state (err e) =
        raised-IsSettled p (is_store_error e) (passed commit_unknown) (passed e) state
    retry_with-IsSettled p state (ok (some o)) = compared-IsSettled p state (o == p.version)
    retry_with-IsSettled p state (ok none) =
        settle-IsSettled (reconcile_retried_commit ops) retried_commit-IsSettled p state.recovery _

    pub retry-IsSettled :
        (p : PendingArtifactCommit) (state : ServiceState S)
        → IsSettled p (retry_pending_commit ops p state)
    unfolding retry_pending_commit
    retry-IsSettled p state =
        retry_with-IsSettled p state (ops.version p.scope p.version.id state.store)

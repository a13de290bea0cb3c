-- ===== src/Artifacts/Service/Idempotence.antt =====
-- A version that was created is on record, and asking for it again yields the same one.
use nipo_science.Artifacts.Service.Filing.{IsFiled}
use nipo_science.Artifacts.Downloads.{ServiceError, refused}
use nipo_science.Artifacts.Models.{
  ArtifactErrorCode, ArtifactReconciliation, ArtifactScope, ArtifactVersion,
  CompletedArtifactCommit, PendingArtifactCommit, VersionDraft, WatcherOutput, completed, draft_eq,
  optional_uuid_eq, optional_version_eq, output_eq, pending, reconciliation_eq, scope_eq,
  version_eq,
}
use nipo_science.Artifacts.Recovery.{Recovery, claim_pending, reconciliation}
use nipo_science.Artifacts.Service.{
  Answer, Fresh, ServiceState, StoreOps, commit_output, commit_prepared, create_fresh_version,
  create_version, create_with, misbound, new_version, reconcile_initial_commit,
  retry_pending_commit, sorted_draft,
}
use nipo_science.Artifacts.Service.Settlement.{
  IsSettled, initial_commit-IsSettled, retry-IsSettled, settle-IsSettled,
}
use nipo_science.Artifacts.Store.{Platform}
use nipo_science.Artifacts.Watcher.{accepted, execution_key_eq, intent_of, prepare_commit}
use nipo_science.Prelude.{
  Bool, Option, Result, arith, eq_self, err, false, get, if◌then◌else◌, nat_eq, none, ok, refl,
  some, subst, text_eq, true, uuid_pair_eq, uuid_triple_eq, ◌!=◌, ◌&&◌, ◌==◌, ◌||◌, ◌∙◌, ◌≡◌,
}

-- The version is on record as completed for the reference, the scope and the draft.
abbrev pub IsOnRecord : ArtifactScope → VersionDraft → ArtifactVersion → Recovery → Type 0
IsOnRecord scope draft v r =
    get draft.watcher_reference r.reconciliations
    ≡ some (completed (record { scope = scope; draft = draft; version = v }))

-- A completed commit is returned only for its scope and draft, and nothing is written.
replayed :
    {S : Type 0} (scope : ArtifactScope) (draft : VersionDraft) (c : CompletedArtifactCommit)
    (state : ServiceState S) (e : ServiceError) {v : ArtifactVersion} {state' : ServiceState S}
    → ◌≡◌ {A = Answer S}
        (if c.scope == scope && c.draft == draft then (ok c.version, state) else (err e, state))
        (ok v, state')
    → (c.scope ≡ scope) × (c.draft ≡ draft) × (c.version ≡ v) × (state ≡ state')
replayed scope draft c state e h = ground arith

-- A commit in doubt is resumed only for its scope and draft.
resumed :
    {S : Type 0} (scope : ArtifactScope) (draft : VersionDraft) (p : PendingArtifactCommit)
    (state : ServiceState S) (answer : Answer S) (e : ServiceError) {v : ArtifactVersion}
    {state' : ServiceState S}
    → (if p.scope != scope || p.draft != draft then (err e, state) else answer) ≡ (ok v, state')
    → (p.scope ≡ scope) × (p.draft ≡ draft) × (answer ≡ (ok v, state'))
resumed scope draft p state answer e h = ground arith

module _ {S : Type 0} (ops : StoreOps S) where
  -- An answer with a version leaves it on record.
  abbrev IsLogged : ArtifactScope → VersionDraft → Answer S → Type 0
  IsLogged scope draft answer =
      (v : ArtifactVersion) (state : ServiceState S)
      → answer ≡ (ok v, state)
      → IsOnRecord scope draft v state.recovery

  settled-IsLogged :
      (scope : ArtifactScope) (draft : VersionDraft) (p : PendingArtifactCommit) (answer : Answer S)
      → p.scope ≡ scope
      → p.draft ≡ draft
      → p.claim.reference ≡ draft.watcher_reference
      → IsSettled p answer
      → IsLogged scope draft answer
  settled-IsLogged scope draft p answer s d k settled v state same =
      let (version, recorded) = settled v state same in (rw k at recorded) ∙ rw (version, s, d) refl

  prepared-IsLogged :
      (scope : ArtifactScope) (draft : VersionDraft) (version : ArtifactVersion)
      (output : WatcherOutput) (store : S) (intent : PendingArtifactCommit)
      (claimed_at : Bool × Recovery)
      → intent.scope ≡ scope
      → intent.draft ≡ draft
      → intent.claim.reference ≡ draft.watcher_reference
      → IsLogged scope draft
          (commit_prepared ops scope draft version output store (accepted intent claimed_at))
  prepared-IsLogged scope draft version output store intent (true, r) s d k =
      settled-IsLogged scope draft intent _ s d k (
        settle-IsSettled ops (reconcile_initial_commit ops) (initial_commit-IsSettled ops) intent r
          _)
  prepared-IsLogged scope draft version output store intent (false, r) s d k = λ v state same. cc

  raised-IsLogged :
      (scope : ArtifactScope) (draft : VersionDraft) (raised : Bool) (e : ServiceError)
      (state : ServiceState S) (answer : Answer S)
      → IsLogged scope draft answer
      → IsLogged scope draft (if raised then (err e, state) else answer)
  raised-IsLogged scope draft true e state answer logged = λ v state' same. cc
  raised-IsLogged scope draft false e state answer logged = logged

  module _ (platform : Platform) where
    output-IsLogged :
        (scope : ArtifactScope) (draft : VersionDraft) (new : Fresh) (state : ServiceState S)
        (read : Result ArtifactErrorCode WatcherOutput)
        → IsLogged scope draft (commit_output ops platform scope draft new state read)
    unfolding prepare_commit
    output-IsLogged scope draft new state (err e) = λ v state' same. cc
    output-IsLogged scope draft new state (ok output) =
        let version = new_version ops scope draft output new in
        let intent = intent_of scope draft version output new.token in
        let held =
          claim_pending platform.sha256 scope draft.producing_execution_id intent state.recovery in
        raised-IsLogged scope draft (misbound draft output)
          (refused ArtifactErrorCode.watcher_reference_invalid) state
          (commit_prepared ops scope draft version output state.store (accepted intent held))
          (prepared-IsLogged scope draft version output state.store intent held refl refl refl)

    with-IsLogged :
        (scope : ArtifactScope) (draft : VersionDraft) (new : Fresh) (state : ServiceState S)
        (o : Option ArtifactReconciliation)
        → get draft.watcher_reference state.recovery.reconciliations ≡ o
        → IsFiled state.recovery
        → IsLogged scope draft (create_with ops platform scope draft new state o)
    unfolding create_fresh_version
    with-IsLogged scope draft new state none held filed = output-IsLogged scope draft new state _
    with-IsLogged scope draft new state (some (completed c)) held filed = λ v state' same.
        let (s, d, version, kept) =
          replayed scope draft c state (refused ArtifactErrorCode.watcher_reference_invalid) same in
        subst (λ x. IsOnRecord scope draft v x.recovery) kept (held ∙ rw (s, d, version) refl)
    with-IsLogged scope draft new state (some (pending p)) held filed = λ v state' same.
        let (s, d, rest) =
          resumed scope draft p state (retry_pending_commit ops p state)
            (refused ArtifactErrorCode.watcher_reference_invalid) same in
        settled-IsLogged scope draft p _ s d (filed draft.watcher_reference p held)
          (retry-IsSettled ops p state) v state' rest

    -- Once a version is on record, asking again for it writes nothing.
    recorded_again :
        (scope : ArtifactScope) (draft : VersionDraft) (new : Fresh) (state : ServiceState S)
        (v : ArtifactVersion)
        → IsOnRecord scope (sorted_draft draft) v state.recovery
        → create_version ops platform scope draft new state ≡ (ok v, state)
    unfolding create_version reconciliation
    recorded_again scope draft new state v h =
        rw h (rw (eq_self scope, eq_self (sorted_draft draft)) refl)

    -- A version that `create_version` returns is on record for its reference, and the same request
    -- made again, at any time and with any new identifiers, returns the same version and writes
    -- nothing, when commits in doubt are kept under the reference that they claim.
    pub create_version_again :
        (scope : ArtifactScope) (draft : VersionDraft) (new again : Fresh) (state : ServiceState S)
        {v : ArtifactVersion} {state' : ServiceState S}
        → IsFiled state.recovery
        → create_version ops platform scope draft new state ≡ (ok v, state')
        → IsOnRecord scope (sorted_draft draft) v state'.recovery
          × (create_version ops platform scope draft again state' ≡ (ok v, state'))
    unfolding create_version reconciliation
    create_version_again scope draft new again state {v} {state'} filed h =
        let logged = with-IsLogged scope (sorted_draft draft) new state _ refl filed v state' h in
        (logged, recorded_again scope draft again state' v logged)

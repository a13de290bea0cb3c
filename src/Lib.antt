-- ===== src/Lib.antt =====
-- A verification library for the run protocol and the artifact service of this repository.
--
-- The run protocol decides how a run of an agent moves through its statuses, how a worker holds and
-- ends an execution, how a tool call is approved once, and which events a client can replay. The
-- artifact service stores immutable versions of outputs: a watcher registers an output of a trusted
-- execution, the recovery authority lets one commit claim it, and the store appends the version.
--
-- Protocols models packages/contracts/python/science_workbench_contracts/protocols:
--   EventGuard     event_guard.py: contains_forbidden_event_data and the forbidden keys
--   Models         models.py: the records of runs, events, executions, plans and approvals
--   Run            state.py: transition_run, cancel_run, retry_run
--   Execution      execution_state.py: lease_execution, heartbeat_execution, complete_execution
--   Approval       approval.py: decide_approval, evaluate_tool_grant, validated_approval_consumption
--   ApprovalStore  approval_store.py: InMemoryApprovalConsumptionStore.compare_and_consume
--   Replay         sse.py: RunEventWindow and replay_events
--   Runtime        runtime.py: the correlation of commands, and normalize_runtime_error
--   Attempts       recovery.py: claim_attempt, heartbeat_attempt, record_effect, complete_attempt
--   Durable        recovery.py: the same through a store, and perform_downstream_effect
--   Reconciliation recovery.py: reconcile_no_effect, retry_attempt and their proofs
--   Restore        recovery.py: RestoreLifecycle, its validators and advance_restore
--   Governance     recovery.py: tombstones, holds, purges and break-glass actions
-- Artifacts models services/api/artifacts:
--   Models         models.py, recovery.py and store_contract.py: records, codes and outcomes
--   Store          store.py: InMemoryArtifactStore
--   Recovery       memory_recovery.py: InMemoryArtifactRecovery
--   FileRecovery   file_recovery_storage.py and file_recovery.py: FileArtifactRecovery
--   Watcher        watcher.py: OutputWatcher
--   Service        service.py: ArtifactService.create_version and its reconciliation
--   Downloads      service.py: issue_download, redeem_download and the reads of content
--   Signing        signing.py: DownloadSigner
--   Catalogue      service.py: create_artifact, read_artifact, lineage and attach_session
-- Prelude holds what both share. RunTests, ExecutionTests, ApprovalTests, AttemptTests,
-- DurableTests, RestoreTests, StoreTests, ServiceTests, FileTests and SigningTests hold concrete inputs.
--
-- A command object of the source is its fields, given as arguments. A call that raises returns the
-- error; a call that changes an object returns the new state beside its answer. A lock held around
-- a call makes it one step, so that interleavings are lists of calls. Dictionaries are association
-- lists whose writes replace; sets are lists without repetition. A UUID is a natural number, a
-- timestamp its microseconds since 1970, a digest and a text their code points, so that a lease of
-- 45 seconds is 45000000; a clock reading or a deadline that a worker presents in recovery.py also
-- says whether its offset is UTC, since the code or the model's validator refuses one that is not.
-- transition_run validates the events of its aggregate again, as model_validate does. Every function
-- is structural: no fuel is needed.
--
-- Parameters stand for what libraries compute: SHA-256, HMAC, JSON encodings, Unicode folding,
-- regular expressions, the text of a UUID, base64, white space, and the milliseconds that the signer
-- reads of a time through floating point. Identifiers and the clock are arguments.
-- create_version is over any store, so that commits of unknown outcome are covered. The interfaces
-- of recovery.py (stores of attempts and permits, authorities, resolvers) are parameters
-- on a state of their own; IsAuthority says what is documented of a store of attempts, and that it
-- stores the start of an effect before it calls the downstream action, which may raise, as
-- tests/platform/test_g005_recovery_contract.py requires. A downstream action is how it ends. IsCodec
-- is what the file-backed recovery relies on: JSON reads back, and references do not share a file;
-- its refinement holds of outputs that are registered with the digest of their payload.
-- IsSigningCodec says what the signer relies on: base64 reads back and writes no dot.
--
-- Not modelled: the bounds that pydantic puts on fields beyond those that the code checks, file
-- system calls and locks, blobs (I/O), and the local application, the science package, the
-- policy tools and the clients, which are other programs.
pub mod Prelude
pub mod Protocols
pub mod Artifacts

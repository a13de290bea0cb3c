-- ===== src/Artifacts/Watcher/Registration.antt =====
-- What a registration yields, and who may take it.
use nipo_science.Artifacts.Models.{
  ArtifactScope, WatcherOutput, draft_eq, optional_uuid_eq, optional_version_eq, output_eq,
  reconciliation_eq, scope_eq, version_eq,
}
use nipo_science.Artifacts.Recovery.{
  OutputState, Recovery, claimable, free, register_output, resolve_output, write_output,
}
use nipo_science.Artifacts.Store.{Platform}
use nipo_science.Artifacts.Watcher.{
  register, Binding, Executions, accepted, execution_key, execution_key_eq, found,
  max_artifact_output_bytes, output_of, reference_text, resolve, safe_artifact_media_types,
}
use nipo_science.Prelude.{
  Bytes, Option-cases, Text, Uuid, arith, get, get-put_self, inl, inr, length, mem, nat_eq, none,
  ok, some, text_eq, true, uuid_pair_eq, uuid_triple_eq, ◌≡◌, ◌≤◌,
}

-- The cell that a registration writes is claimable by the scope and the execution that it names.
output_of-claimable :
    (platform : Platform) (scope : ArtifactScope) (ex : Uuid) (payload : Bytes) (media : Text)
    (id : Uuid) (b : Binding)
    → claimable platform.sha256 (free (output_of platform scope ex payload media id b)) scope ex
      ≡ true
unfolding claimable
output_of-claimable platform scope ex payload media id b = ground arith

-- A claimable output resolves.
resolve_found :
    (platform : Platform) (scope : ArtifactScope) (ex : Uuid) (reference : Text) (r : Recovery)
    (s : OutputState)
    → get reference r.outputs ≡ some s
    → claimable platform.sha256 s scope ex ≡ true
    → resolve platform scope ex reference r ≡ ok s.output
unfolding resolve resolve_output
resolve_found platform scope ex reference r s found able = ground arith

resolve-written :
    (platform : Platform) (scope : ArtifactScope) (ex : Uuid) (payload : Bytes) (media : Text)
    (id : Uuid) (b : Binding) (r : Recovery)
    → resolve platform scope ex (reference_text platform id) (
        write_output
          (reference_text platform id)
          (free (output_of platform scope ex payload media id b))
          r)
      ≡ ok (output_of platform scope ex payload media id b)
resolve-written platform scope ex payload media id b r =
    let s = free (output_of platform scope ex payload media id b) in
    let reference = reference_text platform id in
    resolve_found platform scope ex reference (write_output reference s r) s
      (get-put_self reference s r.outputs)
      (output_of-claimable platform scope ex payload media id b)

-- A registration that returns a reference has written a free output at an unused reference.
accepted-eq-ok :
    {A : Type 0} {a b : A} (o : WatcherOutput) (r : Recovery) {r' : Recovery}
    → accepted a (register_output o r) ≡ (ok b, r')
    → (b ≡ a) × (get o.reference r.outputs ≡ none) × (r' ≡ write_output o.reference (free o) r)
unfolding register_output
accepted-eq-ok o r h = ground arith

registered_parts :
    (platform : Platform) (executions : Executions) (scope : ArtifactScope) (ex : Uuid)
    (payload : Bytes) (media : Text) (id : Uuid) (r : Recovery) {reference : Text} {r' : Recovery}
    → register platform executions scope ex payload media id r ≡ (ok reference, r')
    → (b : Binding) × (get (execution_key scope ex) executions ≡ some b)
      × (mem media safe_artifact_media_types ≡ true)
      × (length payload ≤ max_artifact_output_bytes)
      × (accepted
            (reference_text platform id)
            (register_output (output_of platform scope ex payload media id b) r)
          ≡ (ok reference, r'))
unfolding register
registered_parts platform executions scope ex payload media id r h =
    elim (Option-cases (get (execution_key scope ex) executions)) [
      | inl absent ↦ absurd (ground arith)
      | inr (b, trusted) ↦ (b, trusted, ground arith, ground arith, ground arith)
    ]

-- A registration that returns a reference is by a trusted execution, of a safe media type and at
-- most 50 MiB; the reference was not in use, and it resolves, for the same scope and execution, to
-- the registered bytes with their digest and with the binding of the execution.
pub register-resolve :
    (platform : Platform) (executions : Executions) (scope : ArtifactScope) (ex : Uuid)
    (payload : Bytes) (media : Text) (id : Uuid) (r : Recovery) {reference : Text} {r' : Recovery}
    → register platform executions scope ex payload media id r ≡ (ok reference, r')
    → (b : Binding) × (get (execution_key scope ex) executions ≡ some b)
      × (mem media safe_artifact_media_types ≡ true)
      × (length payload ≤ max_artifact_output_bytes)
      × (get reference r.outputs ≡ none)
      × (resolve platform scope ex reference r'
          ≡ ok (output_of platform scope ex payload media id b))
register-resolve platform executions scope ex payload media id r h =
    let (b, found, safe, small, done) =
      registered_parts platform executions scope ex payload media id r h in
    let (same, absent, written) =
      accepted-eq-ok (output_of platform scope ex payload media id b) r done in
    (
      b,
      found,
      safe,
      small,
      rw same absent,
      rw (same, written) (resolve-written platform scope ex payload media id b r),
    )

-- A reference resolves only for the organisation, project, requester and execution that the output
-- was registered for, while its bytes have the recorded digest.
pub resolve_sound :
    (platform : Platform) (scope : ArtifactScope) (ex : Uuid) (reference : Text) (r : Recovery)
    {o : WatcherOutput}
    → resolve platform scope ex reference r ≡ ok o
    → (o.org_id ≡ scope.org_id)
      × (o.project_id ≡ scope.project_id)
      × (o.requester_id ≡ scope.requester_id)
      × (o.execution_id ≡ ex)
      × (platform.sha256 o.payload ≡ o.content_sha256)
unfolding resolve resolve_output claimable
resolve_sound platform scope ex reference r h = ground arith

-- ===== src/Protocols/Reconciliation/Sealing.antt =====
-- When an attempt is sealed, and what a retry creates.
use nipo_science.Artifacts.FileRecovery.{sealed}
use nipo_science.Artifacts.Recovery.{free}
use nipo_science.Prelude.{
  Option, Result, Sha256, Text, ap, arith, err, false, nat_eq, none, not, ok, ok-injective,
  optional_text_eq, raise_if, refl, some, sym, text_eq, true, uuid_pair_eq, uuid_triple_eq, ◌!=◌,
  ◌==◌, ◌>>=◌, ◌>>◌, ◌||◌, ◌↔◌, ◌∙◌, ◌≡◌, ◌≢◌,
}
use nipo_science.Protocols.Attempts.{
  AttemptStatus, ExecutionAttempt, RecoveryError, attempt_status_eq, effect_state_eq, is_key,
  new_attempt, not_started, reconciliation_proof_mismatch, retry_id_reuse, retry_not_sealed,
  validation_error,
}
use nipo_science.Protocols.Attempts.Effects.{walk-IsUnsealed}
use nipo_science.Protocols.Attempts.Validity.{IsAttempt, new_attempt_iff}
use nipo_science.Protocols.Attempts.Walks.{Walk}
use nipo_science.Protocols.Reconciliation.{
  ProofServices, ReconciliationProof, RetryAttemptCreationOutcome, RetryAttemptCreationRequest,
  RetryAuthority, RetryCommand, binding_mismatch, child_conflict, child_of, is_foreign,
  proof_consumed, reconcile_no_effect, reconciliation_proof_digest, reconciliation_proof_id,
  retry_answer, retry_attempt, retry_request, send_retry, trusted_digest,
}

-- An attempt is sealed exactly when it needs reconciliation, had no effect, and the proof is of its
-- ids and token and is anchored with its digest; only its status changes.
pub reconcile_no_effect_iff :
    (services : ProofServices) (anchors : Text → Option Sha256) (a : ExecutionAttempt)
    (p : ReconciliationProof) (b : ExecutionAttempt)
    → (reconcile_no_effect services anchors a p ≡ ok b) ↔ (
        (a.status ≡ AttemptStatus.reconciliation_required)
        × (a.effect_state ≡ not_started)
        × (is_foreign a p not_started ≡ false)
        × (anchors (reconciliation_proof_id services p)
            ≡ some (reconciliation_proof_digest services p))
        × (new_attempt (record a { status = AttemptStatus.reconciled_no_effect }) ≡ ok b))
unfolding reconcile_no_effect trusted_digest
reconcile_no_effect_iff services anchors a p b = (λ h. ground arith, λ h. ground arith)

-- Nothing that the calls of workers lead to can be sealed, whatever proof is anchored: an attempt
-- that they leave to be reconciled has started an effect.
pub reconcile_never :
    (services : ProofServices) (anchors : Text → Option Sha256) (p : ReconciliationProof)
    {a b : ExecutionAttempt} (c : ExecutionAttempt)
    → Walk a b
    → a.status ≢ AttemptStatus.reconciliation_required
    → reconcile_no_effect services anchors b p ≢ ok c
reconcile_never services anchors p {a} {b} c w free h =
    let parts = (reconcile_no_effect_iff services anchors b p c).0 h in
    walk-IsUnsealed w (λ s. absurd (free s)) parts.0 parts.1

-- The proof is of the attempt's ids, token and effect.
abbrev pub IsProofOf : ReconciliationProof → ExecutionAttempt → Type 0
IsProofOf p a =
    (p.predecessor_run_id ≡ a.run_id)
    × (p.predecessor_execution_id ≡ a.execution_id)
    × (p.predecessor_attempt_token ≡ a.attempt_token)
    × (p.predecessor_effect_state ≡ a.effect_state)

is_foreign-IsProofOf :
    (a : ExecutionAttempt) (p : ReconciliationProof)
    → is_foreign a p a.effect_state ≡ false
    → IsProofOf p a
unfolding is_foreign
is_foreign-IsProofOf a p h = ground (arith, h)

retry_checks :
    (a : ExecutionAttempt) (c : RetryCommand) (p : ReconciliationProof)
    (made : Result RecoveryError ExecutionAttempt) {request : RetryAttemptCreationRequest}
    → (raise_if
          (a.status != AttemptStatus.reconciled_no_effect || a.effect_state != not_started)
          retry_not_sealed
        >> (raise_if (is_key a.predecessor_execution_id a.execution_id) retry_id_reuse
            >> (raise_if (is_foreign a p a.effect_state) reconciliation_proof_mismatch
                >> (raise_if
                      (c.run_id == a.run_id || c.execution_id == a.execution_id)
                      retry_id_reuse
                    >> (raise_if (not c.deadline.is_utc) validation_error
                        >> (made >>= λ child. ok (record {
                          predecessor = a;
                          command = c;
                          proof = p;
                          child = child;
                        })))))))
      ≡ ok request
    → (a.status ≡ AttemptStatus.reconciled_no_effect)
      × (a.effect_state ≡ not_started)
      × (is_foreign a p a.effect_state ≡ false)
      × (c.run_id ≢ a.run_id)
      × (c.execution_id ≢ a.execution_id)
      × (c.deadline.is_utc ≡ true)
      × (made ≡ ok request.child)
      × (request ≡ record { predecessor = a; command = c; proof = p; child = request.child })
retry_checks a c p (ok child) h = ground arith
retry_checks a c p (err e) h = absurd (ground arith)

answered :
    (child b : ExecutionAttempt) (o : RetryAttemptCreationOutcome)
    → retry_answer child o ≡ ok b
    → (child ≡ b) × (o ≡ RetryAttemptCreationOutcome.created)
answered child b RetryAttemptCreationOutcome.created h = (ok-injective h, refl)
answered child b proof_consumed h = absurd (cc h)
answered child b binding_mismatch h = absurd (cc h)
answered child b child_conflict h = absurd (cc h)

sent :
    {S : Type 0} (authority : RetryAuthority S) (s : S)
    (asked : Result RecoveryError RetryAttemptCreationRequest) {b : ExecutionAttempt} {s' : S}
    → send_retry authority s asked ≡ (ok b, s')
    → (request : RetryAttemptCreationRequest) × (asked ≡ ok request)
      × (request.child ≡ b)
      × (authority request s ≡ (RetryAttemptCreationOutcome.created, s'))
sent authority s (err e) h = absurd (cc h)
sent authority s (ok request) {b} h =
    let (child, made) = answered request.child b (authority request s).0 (ap (λ x. x.0) h) in
    (request, refl, child, λ i. (made i, (h i).1))

-- A retry that returns an attempt was asked of a sealed one that has started no effect, with a
-- proof of its ids, token and effect, new ids for the run and the execution and a UTC deadline; the
-- attempt is the valid, queued child with the first token and no lease, under the sealed one's
-- epoch and the command's deadline, key and proof, with the sealed one as predecessor; and the
-- authority, asked with the sealed attempt, the command, the proof and that child, has answered
-- that it created it.
pub retry_attempt-eq-ok :
    {S : Type 0} (authority : RetryAuthority S) (a : ExecutionAttempt) (c : RetryCommand)
    (p : ReconciliationProof) (s : S) {b : ExecutionAttempt} {s' : S}
    → retry_attempt authority a c p s ≡ (ok b, s')
    → (a.status ≡ AttemptStatus.reconciled_no_effect)
      × (a.effect_state ≡ not_started)
      × IsProofOf p a
      × (c.run_id ≢ a.run_id)
      × (c.execution_id ≢ a.execution_id)
      × (c.deadline.is_utc ≡ true)
      × (b ≡ record {
        execution_id = c.execution_id;
        run_id = c.run_id;
        lease_owner = none;
        attempt_token = 1;
        restore_epoch = a.restore_epoch;
        deadline = c.deadline.instant;
        effect_state = not_started;
        status = AttemptStatus.queued;
        predecessor_execution_id = some a.execution_id;
        idempotency_key = some c.idempotency_key;
        reconciliation_proof_sha256 = some c.reconciliation_proof_sha256;
      })
      × IsAttempt b
      × (authority (record { predecessor = a; command = c; proof = p; child = b }) s
          ≡ (RetryAttemptCreationOutcome.created, s'))
unfolding retry_attempt retry_request
retry_attempt-eq-ok authority a c p s h =
    let (request, asked, child, made) = sent authority s (retry_request a c p) h in
    let (sealed, idle, own, run, execution, utc, new, sent_request) =
      retry_checks a c p (new_attempt (child_of a c)) asked in
    let (shape, valid) = (new_attempt_iff (child_of a c) request.child).0 new in
    let same = sym child ∙ shape in
    let passed : IsAttempt _ = rw same valid in
    let asked_of = ap (λ x. authority x s) (rw child at sent_request) in
    (
      sealed,
      idle,
      is_foreign-IsProofOf a p own,
      run,
      execution,
      utc,
      same,
      passed,
      sym asked_of ∙ made,
    )

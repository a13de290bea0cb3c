-- ===== src/Protocols/Attempts/Validity.antt =====
-- What the validator of an attempt accepts, and that no transition of a valid attempt fails it.
use nipo_science.Prelude.{
  optional_text_eq, arith, false, mem, nat_eq, ok, text_eq, true, uuid_pair_eq, uuid_triple_eq,
  ◌==◌, ◌||◌, ◌↔◌, ◌≡◌, ◌≤◌,
}
use nipo_science.Protocols.Attempts.{
  AttemptStatus, ExecutionAttempt, attempt_status_eq, effect_state_eq, has_lineage, is_key, is_some,
  lineage_allowed, new_attempt, valid_effects,
}
use nipo_science.Protocols.Models.{
  approval_binding_eq, approval_status_eq, execution_status_eq, is_optional_text, run_status_eq,
}

-- A persisted attempt.
pub record IsAttempt (a : ExecutionAttempt) : Type 0 where
  pub token : 1 ≤ a.attempt_token
  pub epoch : 1 ≤ a.restore_epoch
  pub owner_text : is_optional_text a.lease_owner ≡ true
  pub key_text : is_optional_text a.idempotency_key ≡ true
  pub lineage :
      (is_some a.predecessor_execution_id
        || (is_some a.idempotency_key || is_some a.reconciliation_proof_sha256))
      ≡ has_lineage a
  pub effect : mem a.effect_state (valid_effects a.status) ≡ true
  pub leased : is_some a.lease_owner ≡ (a.status == AttemptStatus.claimed)
  pub own : is_key a.predecessor_execution_id a.execution_id ≡ false

-- The validator returns its argument exactly when it is valid.
pub new_attempt_iff : (a b : ExecutionAttempt) → (new_attempt a ≡ ok b) ↔ ((b ≡ a) × IsAttempt a)
unfolding new_attempt lineage_allowed has_lineage
new_attempt_iff a b = (
  λ h. (
    ground arith,
    record {
      token = ground arith;
      epoch = ground arith;
      owner_text = ground arith;
      key_text = ground arith;
      lineage = ground arith;
      effect = ground arith;
      leased = ground arith;
      own = ground arith;
    },
  ),
  λ h.
      let v = h.1 in
      ground (
        arith, h.0, v.token, v.epoch, v.owner_text, v.key_text, v.lineage, v.effect, v.leased,
        v.own,
      ),
)

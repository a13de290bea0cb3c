-- ===== src/Protocols/ApprovalTests.antt =====
-- Concrete approvals and grants, to which the theorems apply.
use native.Mathlib.Decide.{ℕ_discrete}
use nipo_science.Prelude.{
  [], arith, get, inl, inr, mem, nat_eq, none, ok, optional_text_eq, refl, some, text_eq,
  uuid_pair_eq, uuid_triple_eq, ◌∷◌, ◌≡◌,
}
use nipo_science.Protocols.Approval.{
  ApprovalActor, ApprovalConsumeCommand, Decision, Digests, Role, ToolEvaluationContext,
  action_plan_digest, approval_digest, binding_for_plan, canonical_arguments_hash, decide_approval,
  evaluate_tool_grant, tool_approval_required, validated_approval_consumption,
}
use nipo_science.Protocols.Approval.Consumption.{Matches, spent, validated_approval_consumption_iff}
use nipo_science.Protocols.Approval.Decisions.{decide_approval_iff, evaluate_tool_grant_iff}
use nipo_science.Protocols.ApprovalStore.{Store, compare_and_consume, record_consumed}
use nipo_science.Protocols.ApprovalStore.AtMostOnce.{AllDistinct, serve, serve-AllDistinct}
use nipo_science.Protocols.ApprovalStore.Consumes.{compare_and_consume_iff}
use nipo_science.Protocols.EventGuard.{null}
use nipo_science.Protocols.Models.{
  ActionPlan, ApprovalRecord, ApprovalStatus, ToolGrant, ToolGrantEffect, approval_binding_eq,
  approval_status_eq, execution_status_eq, run_status_eq,
}
use nipo_science.Protocols.Runtime.{context_eq}

-- Encodings that only have to exist: the digest of a text is the text.
abbrev digests : Digests
digests = record {
  arguments_json = λ v. 1 ∷ [];
  plan_json = λ p. 2 ∷ [];
  binding_json = λ b. 3 ∷ [];
  sha256 = λ t. t;
  hmac = λ k t. t;
}

abbrev plan : ActionPlan
plan = record {
  id = 1;
  org_id = 2;
  project_id = 3;
  run_id = 4;
  requester_id = 5;
  research_intent = null;
  research_intent_sha256 = [];
  version = 1;
  tool = 9 ∷ [];
  arguments = null;
  arguments_hash = 1 ∷ [];
  network_scope = [];
  secret_scope = [];
  reason = 9 ∷ [];
  plan_digest = 2 ∷ [];
  created_at = 6;
}

abbrev approval_in : ApprovalStatus → ApprovalRecord
approval_in status = record {
  id = 7;
  binding = binding_for_plan plan 100;
  digest = 3 ∷ [];
  revision = 1;
  status = status;
  decided_by = none;
  created_at = 8;
}

abbrev requester : ApprovalActor
requester = record { org_id = 2; user_id = 5; role = Role.member }

decide_approval_iff_example :
    decide_approval (approval_in ApprovalStatus.pending) requester Decision.approve 10
    ≡ ok (record (approval_in ApprovalStatus.approved) { decided_by = some 5; revision = 2 })
unfolding binding_for_plan
decide_approval_iff_example =
    (decide_approval_iff (approval_in ApprovalStatus.pending) requester Decision.approve 10
        (record (approval_in ApprovalStatus.approved) { decided_by = some 5; revision = 2 })).1
      (refl, omega arith, refl, inl refl, refl)

abbrev grant : ToolGrant
grant = record { org_id = 2; project_id = 3; tool = 9 ∷ []; effect = ToolGrantEffect.ask }

abbrev context : ToolEvaluationContext
context = record { org_id = 2; project_id = 3; run_id = 4; requester_id = 5 }

evaluate_tool_grant_iff_example :
    evaluate_tool_grant digests grant plan context ≡ ok (tool_approval_required 1)
unfolding canonical_arguments_hash action_plan_digest
evaluate_tool_grant_iff_example =
    (evaluate_tool_grant_iff digests grant plan context (tool_approval_required 1)).1
      ((refl, refl), (refl, refl, refl, refl), refl, refl, refl, inr (inl (refl, refl)))

abbrev command : ApprovalConsumeCommand
command = record {
  approval_id = 7;
  expected_revision = 1;
  expected_status = ApprovalStatus.approved;
  presented_binding = binding_for_plan plan 100;
  presented_plan = plan;
  signing_key = [];
  occurred_at = 10;
}

command-Matches : Matches digests (approval_in ApprovalStatus.approved) command
unfolding canonical_arguments_hash action_plan_digest approval_digest binding_for_plan
command-Matches = record {
  id = refl;
  revision = refl;
  expected = refl;
  status = refl;
  live = omega arith;
  plan = refl;
  arguments = refl;
  presented = refl;
  bound = (refl, refl, refl, refl, refl, refl, refl, refl, refl, refl, refl);
  signed = refl;
}

validated_approval_consumption_iff_example :
    validated_approval_consumption digests (approval_in ApprovalStatus.approved) command
    ≡ ok (spent (approval_in ApprovalStatus.approved))
validated_approval_consumption_iff_example =
    (validated_approval_consumption_iff digests (approval_in ApprovalStatus.approved) command
        (spent (approval_in ApprovalStatus.approved))).1
      (command-Matches, refl)

abbrev store : Store
store = record {
  records = (7, approval_in ApprovalStatus.approved) ∷ [];
  consumed_digests = [];
  consumed_bindings = [];
}

serve-AllDistinct_example : AllDistinct digests (serve digests store (command ∷ command ∷ []))
serve-AllDistinct_example = serve-AllDistinct digests store (command ∷ command ∷ [])

on_record : get 7 store.records ≡ some (approval_in ApprovalStatus.approved)
unfolding get ℕ_discrete
on_record = refl

compare_and_consume_iff_example :
    compare_and_consume digests store command
    ≡ ok (
      spent (approval_in ApprovalStatus.approved),
      record_consumed digests store
          (approval_in ApprovalStatus.approved)
          (spent (approval_in ApprovalStatus.approved)),
    )
unfolding mem
compare_and_consume_iff_example =
    (compare_and_consume_iff digests store command (spent (approval_in ApprovalStatus.approved)) (
        record_consumed digests store (approval_in ApprovalStatus.approved)
          (spent (approval_in ApprovalStatus.approved)))).1
      (approval_in ApprovalStatus.approved, on_record, (command-Matches, refl, refl, refl, refl))

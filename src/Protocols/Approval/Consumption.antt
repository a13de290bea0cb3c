-- ===== src/Protocols/Approval/Consumption.antt =====
-- When an approval may be consumed.
use nipo_science.Prelude.{
  [], arith, mem, nat_eq, ok, optional_text_eq, text_eq, uuid_pair_eq, uuid_triple_eq, ◌+◌, ◌<◌,
  ◌↔◌, ◌≡◌,
}
use nipo_science.Protocols.Approval.{
  ApprovalConsumeCommand, Digests, action_plan_digest, approval_digest, binding_for_plan,
  canonical_arguments_hash, ensure_approval_transition, validated_approval_consumption,
}
use nipo_science.Protocols.Models.{
  ActionPlan, ApprovalBinding, ApprovalRecord, approval_binding_eq, approval_status_eq, approved,
  consumed, execution_status_eq, run_status_eq,
}

-- The binding names the plan, its scope, its hashes, its tool and its reach.
abbrev pub IsBindingOf : ActionPlan → ApprovalBinding → Type 0
IsBindingOf plan b =
    (b.org_id ≡ plan.org_id)
    × (b.project_id ≡ plan.project_id)
    × (b.run_id ≡ plan.run_id)
    × (b.requester_id ≡ plan.requester_id)
    × (b.action_plan_id ≡ plan.id)
    × (b.research_intent_sha256 ≡ plan.research_intent_sha256)
    × (b.plan_digest ≡ plan.plan_digest)
    × (b.tool ≡ plan.tool)
    × (b.arguments_hash ≡ plan.arguments_hash)
    × (b.network_scope ≡ plan.network_scope)
    × (b.secret_scope ≡ plan.secret_scope)

-- Everything that the command presents matches the approval, which is live.
pub record Matches (digests : Digests) (approval : ApprovalRecord) (c : ApprovalConsumeCommand)
    : Type 0 where
  pub id : approval.id ≡ c.approval_id
  pub revision : approval.revision ≡ c.expected_revision
  pub expected : approval.status ≡ c.expected_status
  pub status : approval.status ≡ approved
  pub live : c.occurred_at < approval.binding.expires_at
  pub plan :
      digests.sha256 (digests.plan_json (record c.presented_plan { plan_digest = [] }))
      ≡ c.presented_plan.plan_digest
  pub arguments :
      digests.sha256 (digests.arguments_json c.presented_plan.arguments)
      ≡ c.presented_plan.arguments_hash
  pub presented : approval.binding ≡ c.presented_binding
  pub bound : IsBindingOf c.presented_plan c.presented_binding
  pub signed : approval.digest ≡ digests.hmac c.signing_key (digests.binding_json approval.binding)

-- The approval once consumed.
abbrev pub spent : ApprovalRecord → ApprovalRecord
spent approval = record approval { status = consumed; revision = approval.revision + 1 }

-- The check passes exactly on an approved, unexpired approval whose id, revision and status are the
-- expected ones, whose binding is the presented one and the presented plan's, whose plan and
-- arguments are as hashed, and whose digest is the binding's under the key; it then returns the
-- approval as consumed, at the next revision.
pub validated_approval_consumption_iff :
    (digests : Digests) (approval : ApprovalRecord) (c : ApprovalConsumeCommand)
    (done : ApprovalRecord)
    → (validated_approval_consumption digests approval c ≡ ok done)
      ↔ (Matches digests approval c × (done ≡ spent approval))
unfolding validated_approval_consumption ensure_approval_transition mem binding_for_plan
    canonical_arguments_hash action_plan_digest approval_digest
validated_approval_consumption_iff digests approval c done = (λ h. ground arith, λ h. ground arith)

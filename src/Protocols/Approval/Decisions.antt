-- ===== src/Protocols/Approval/Decisions.antt =====
-- Who may decide an approval, and which calls a tool grant authorises.
use nipo_science.Prelude.{
  Timestamp, [], arith, mem, nat_eq, ok, optional_text_eq, some, text_eq, uuid_pair_eq,
  uuid_triple_eq, ◌+◌, ◌<◌, ◌↔◌, ◌≡◌, ◌⊎◌,
}
use nipo_science.Protocols.Approval.{
  ApprovalActor, Decision, Digests, ToolAuthorization, ToolEvaluationContext, action_plan_digest,
  canonical_arguments_hash, decide_approval, decision_status, ensure_approval_transition,
  evaluate_tool_grant, owner, reject, tool_allowed, tool_approval_required, tool_denied,
}
use nipo_science.Protocols.Models.{
  ActionPlan, ApprovalRecord, ToolGrant, allow, approval_binding_eq, approval_status_eq, ask, deny,
  execution_status_eq, pending, run_status_eq,
}

-- A decision returns exactly on a pending approval that has not expired, for an actor of the
-- approval's organisation who is its requester, or an owner who rejects; then it records the
-- decision, the actor and the next revision, and changes nothing else.
pub decide_approval_iff :
    (approval : ApprovalRecord) (actor : ApprovalActor) (decision : Decision) (t : Timestamp)
    (decided : ApprovalRecord)
    → (decide_approval approval actor decision t ≡ ok decided) ↔ (
        (approval.status ≡ pending)
        × (t < approval.binding.expires_at)
        × (actor.org_id ≡ approval.binding.org_id)
        × ((actor.user_id ≡ approval.binding.requester_id)
            ⊎ ((actor.role ≡ owner) × (decision ≡ reject)))
        × (decided ≡ record approval {
          status = decision_status decision;
          decided_by = some actor.user_id;
          revision = approval.revision + 1;
        }))
unfolding decide_approval ensure_approval_transition mem
decide_approval_iff approval actor decision t decided = (λ h. ground arith, λ h. ground arith)

-- A grant authorises a call exactly when grant and plan are of the caller's context, the grant is
-- for the plan's tool, and neither the arguments nor the plan have changed since they were hashed;
-- the answer is then that the plan's tool is allowed, needs approval or is denied, as the grant
-- allows, asks or denies.
pub evaluate_tool_grant_iff :
    (digests : Digests) (grant : ToolGrant) (plan : ActionPlan) (context : ToolEvaluationContext)
    (answer : ToolAuthorization)
    → (evaluate_tool_grant digests grant plan context ≡ ok answer) ↔ (
        ((grant.org_id ≡ context.org_id) × (grant.project_id ≡ context.project_id))
        × ((plan.org_id ≡ context.org_id)
            × (plan.project_id ≡ context.project_id)
            × (plan.run_id ≡ context.run_id)
            × (plan.requester_id ≡ context.requester_id))
        × (grant.tool ≡ plan.tool)
        × (digests.sha256 (digests.arguments_json plan.arguments) ≡ plan.arguments_hash)
        × (digests.sha256 (digests.plan_json (record plan { plan_digest = [] })) ≡ plan.plan_digest)
        × (((grant.effect ≡ allow) × (answer ≡ tool_allowed plan.id))
            ⊎ ((grant.effect ≡ ask) × (answer ≡ tool_approval_required plan.id))
            ⊎ ((grant.effect ≡ deny) × (answer ≡ tool_denied plan.id))))
unfolding evaluate_tool_grant canonical_arguments_hash action_plan_digest
evaluate_tool_grant_iff digests grant plan context answer = (λ h. ground arith, λ h. ground arith)

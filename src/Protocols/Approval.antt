-- ===== src/Protocols/Approval.antt =====
-- protocols/approval.py: tool grants, approval decisions and the check before an approval is
-- consumed. Serialisation and digests run in libraries, so they are parameters.
pub mod Decisions
pub mod Consumption
use nipo_science.Prelude.{
  Bool, List, Result, Sha256, Text, Timestamp, Uuid, [], false, leb, mem, nat_eq, not, ok, raise_if,
  some, text_eq, true, uuid_pair_eq, uuid_triple_eq, ℕ, ◌!=◌, ◌&&◌, ◌+◌, ◌==◌, ◌>>=◌, ◌>>◌, ◌||◌,
  ◌∷◌,
}
use nipo_science.Protocols.EventGuard.{Json}
use nipo_science.Protocols.Models.{
  ActionPlan, ApprovalBinding, ApprovalRecord, ApprovalStatus, ApprovalStatus-discrete, ToolGrant,
  ToolGrantEffect, allow, approval_binding_eq, approval_status_eq, approved, ask, consumed, deny,
  execution_status_eq, expired, pending, rejected, run_status_eq,
}

-- What the libraries compute: `json.dumps` with sorted keys of arguments and of a plan's dump, the
-- JSON of a binding, SHA-256 and HMAC-SHA256 in hexadecimal.
pub record Digests : Type 0 where
  pub arguments_json : Json → Text
  pub plan_json : ActionPlan → Text
  pub binding_json : ApprovalBinding → Text
  pub sha256 : Text → Sha256
  pub hmac : Text → Text → Sha256

pub data ApprovalError : Type 0 where
  invalid_approval_transition approval_actor_forbidden approval_expired : ApprovalError
  approval_binding_mismatch approval_digest_mismatch approval_id_mismatch : ApprovalError
  approval_duplicate_id approval_revision_conflict approval_already_consumed : ApprovalError
  action_plan_mutated tool_grant_mismatch : ApprovalError

abbrev pub approval_transitions : ApprovalStatus → List ApprovalStatus
approval_transitions pending = approved ∷ rejected ∷ expired ∷ []
approval_transitions approved = consumed ∷ expired ∷ []
approval_transitions rejected = []
approval_transitions expired = []
approval_transitions consumed = []

pub data Role : Type 0 where
  owner member : Role

pub record ApprovalActor : Type 0 where
  pub org_id : Uuid
  pub user_id : Uuid
  pub role : Role

pub data Decision : Type 0 where
  approve reject : Decision

abbrev pub decision_status : Decision → ApprovalStatus
decision_status approve = approved
decision_status reject = rejected

pub record ApprovalConsumeCommand : Type 0 where
  pub approval_id : Uuid
  pub expected_revision : ℕ
  pub expected_status : ApprovalStatus
  pub presented_binding : ApprovalBinding
  pub presented_plan : ActionPlan
  pub signing_key : Text
  pub occurred_at : Timestamp

pub record ToolEvaluationContext : Type 0 where
  pub org_id : Uuid
  pub project_id : Uuid
  pub run_id : Uuid
  pub requester_id : Uuid

pub data ToolAuthorization : Type 0 where
  tool_allowed tool_approval_required tool_denied : Uuid → ToolAuthorization

unfoldable pub ensure_approval_transition :
    ApprovalStatus → ApprovalStatus → Result ApprovalError (Unit {0})
unfolding mem ApprovalStatus-discrete
ensure_approval_transition current target =
    raise_if (not (mem target (approval_transitions current))) invalid_approval_transition

-- `authorization[grant.effect]`
abbrev pub authorization : ToolGrantEffect → Uuid → ToolAuthorization
authorization allow plan_id = tool_allowed plan_id
authorization ask plan_id = tool_approval_required plan_id
authorization deny plan_id = tool_denied plan_id

unfoldable pub binding_for_plan : ActionPlan → Timestamp → ApprovalBinding
binding_for_plan plan expires_at = record {
  org_id = plan.org_id;
  project_id = plan.project_id;
  run_id = plan.run_id;
  requester_id = plan.requester_id;
  action_plan_id = plan.id;
  research_intent_sha256 = plan.research_intent_sha256;
  plan_digest = plan.plan_digest;
  tool = plan.tool;
  arguments_hash = plan.arguments_hash;
  network_scope = plan.network_scope;
  secret_scope = plan.secret_scope;
  expires_at = expires_at;
}

abbrev pub is_owner : Role → Bool
is_owner owner = true
is_owner member = false

abbrev pub is_rejection : Decision → Bool
is_rejection reject = true
is_rejection approve = false

unfoldable pub decide_approval :
    ApprovalRecord → ApprovalActor → Decision → Timestamp → Result ApprovalError ApprovalRecord
unfolding ensure_approval_transition
decide_approval approval actor decision occurred_at = do
  ensure_approval_transition approval.status (decision_status decision)
  raise_if (leb approval.binding.expires_at occurred_at) approval_expired
  raise_if (actor.org_id != approval.binding.org_id) approval_actor_forbidden
  let requester = actor.user_id == approval.binding.requester_id
  let owner_rejection = is_owner actor.role && is_rejection decision
  raise_if (not requester && not owner_rejection) approval_actor_forbidden
  ok (record approval {
    status = decision_status decision;
    decided_by = some actor.user_id;
    revision = approval.revision + 1;
  })

module _ (digests : Digests) where
  unfoldable pub canonical_arguments_hash : Json → Sha256
  canonical_arguments_hash arguments = digests.sha256 (digests.arguments_json arguments)

  unfoldable pub approval_digest : ApprovalBinding → Text → Sha256
  approval_digest binding signing_key = digests.hmac signing_key (digests.binding_json binding)

  -- The dump leaves `plan_digest` out.
  unfoldable pub action_plan_digest : ActionPlan → Sha256
  action_plan_digest plan = digests.sha256 (digests.plan_json (record plan { plan_digest = [] }))

  unfoldable pub evaluate_tool_grant :
      ToolGrant → ActionPlan → ToolEvaluationContext → Result ApprovalError ToolAuthorization
  evaluate_tool_grant grant plan context = do
    raise_if
        (((grant.org_id != context.org_id || grant.project_id != context.project_id)
            || (plan.org_id != context.org_id
                || (plan.project_id != context.project_id
                    || (plan.run_id != context.run_id
                        || plan.requester_id != context.requester_id))))
          || grant.tool != plan.tool)
        tool_grant_mismatch
    raise_if (canonical_arguments_hash plan.arguments != plan.arguments_hash) action_plan_mutated
    raise_if (action_plan_digest plan != plan.plan_digest) action_plan_mutated
    ok (authorization grant.effect plan.id)

  unfoldable pub validated_approval_consumption :
      ApprovalRecord → ApprovalConsumeCommand → Result ApprovalError ApprovalRecord
  unfolding ensure_approval_transition
  validated_approval_consumption approval command = do
    raise_if (approval.id != command.approval_id) approval_id_mismatch
    raise_if (approval.revision != command.expected_revision) approval_revision_conflict
    raise_if (approval.status != command.expected_status) invalid_approval_transition
    ensure_approval_transition approval.status consumed
    raise_if (leb approval.binding.expires_at command.occurred_at) approval_expired
    let plan = command.presented_plan
    let expected_binding = binding_for_plan plan command.presented_binding.expires_at
    raise_if
        ((action_plan_digest plan != plan.plan_digest
            || canonical_arguments_hash plan.arguments != plan.arguments_hash)
          || (approval.binding != command.presented_binding
              || expected_binding != command.presented_binding))
        approval_binding_mismatch
    let expected = approval_digest approval.binding command.signing_key
    raise_if (approval.digest != expected) approval_digest_mismatch
    ok (record approval { status = consumed; revision = approval.revision + 1 })

-- ===== src/Nodes/ApplyPolicy.antt =====
-- nodes/policy.py: the decision of the policy, written into the state.
use execution_accelerator.Prelude.{false, some, [], ◌∷◌, ◌++◌, or_text, if◌then◌else◌}
use execution_accelerator.Schemas.{
  ApprovalStage, AuditEvent, PolicyDecision, WorkflowStatus, flag, string,
}
use execution_accelerator.State.{RemediationState, WorkflowError, audit_event, optional_text}
use execution_accelerator.Policy.{PolicyConfig, evaluate}

abbrev apply_event : PolicyDecision → AuditEvent
apply_event decision =
    audit_event "policy.apply" "Evaluated remediation policy for the selected route." (
      ("allowed", flag decision.allowed)
      ∷ ("requires_human_approval", flag decision.requires_human_approval)
      ∷ ("requires_delivery_approval", flag decision.requires_delivery_approval)
      ∷ ("approval_reason", optional_text decision.approval_reason)
      ∷ ("blocked_reason", optional_text decision.blocked_reason)
      ∷ [])

abbrev required_event : RemediationState → PolicyDecision → AuditEvent
required_event state decision =
    audit_event "approval.required" "Human approval is required before remediation can continue." (
      ("repository", optional_text state.current_working_repo)
      ∷ ("approval_reason", optional_text decision.approval_reason)
      ∷ ("approval_stage", string "remediation")
      ∷ [])

-- The first `if` of the node.
abbrev staged : PolicyDecision → RemediationState → RemediationState
staged decision state =
    if decision.requires_human_approval
    then record state {
      workflow_status = WorkflowStatus.pending;
      pending_approval_stage = some ApprovalStage.remediation;
      pending_approval_reason = decision.approval_reason;
      audit_events =
          state.audit_events ++ (apply_event decision ∷ required_event state decision ∷ []);
    }
    else record state { audit_events = state.audit_events ++ (apply_event decision ∷ []) }

abbrev policy_error : RemediationState → PolicyDecision → WorkflowError
policy_error state decision = record {
  code = "policy_blocked";
  message = or_text decision.blocked_reason "Policy blocked remediation.";
  recoverable = false;
  repository = state.current_working_repo;
}

-- The second one.
abbrev blocked : PolicyDecision → RemediationState → RemediationState
blocked decision state = if decision.allowed then state else record state {
  errors = state.errors ++ (policy_error state decision ∷ []);
  workflow_status = WorkflowStatus.failed;
}

-- `build_apply_policy_node(engine)`, where the engine has read `config`
unfoldable pub apply_policy : PolicyConfig → RemediationState → RemediationState
apply_policy config state =
    let decision = evaluate config state in
    let decided = record state {
      policy_decisions = state.policy_decisions ++ (decision ∷ []);
      requires_human_approval = decision.requires_human_approval;
      requires_delivery_approval = decision.requires_delivery_approval;
    } in
    blocked decision (staged decision decided)

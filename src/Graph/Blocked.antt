-- ===== src/Graph/Blocked.antt =====
-- A remediation that the policy blocks, and what feedback makes of it.
use execution_accelerator.Prelude.{
  ◌≡◌, refl, ◌∙◌, Bool, false, String, List, none, some, [], ◌∷◌, ◌++◌, last?, last?-append,
  or_text, ok, arith,
}
use execution_accelerator.Schemas.{
  ApprovalDecision, ApprovalStage, HumanFeedback, RemediationRouteDecision, WorkflowStatus,
}
use execution_accelerator.State.{RemediationState, WorkflowError}
use execution_accelerator.Policy.{PolicyConfig, evaluate}
use execution_accelerator.Nodes.ApplyPolicy
use execution_accelerator.Nodes.Approval
use execution_accelerator.Nodes.Continuation.{repo_continuation}
use execution_accelerator.Graph.Edges.{
  apply_policy, lane_node, next_node, select_post_approval_node, select_post_policy_node,
  select_remediation_node,
}
use execution_accelerator.Graph.Run.{resume, resumed_state, thread_at}

-- The decision of the policy is the latest one, and what the state says of it.
apply_policy-decision :
    (config : PolicyConfig) (state : RemediationState)
    → last? (ApplyPolicy.apply_policy config state).policy_decisions ≡ some (evaluate config state)
unfolding ApplyPolicy.apply_policy
apply_policy-decision config state =
    ground (arith, last?-append state.policy_decisions (evaluate config state))

-- A remediation that the policy blocks ends there: the edge behind the policy's node leads to
-- `END`, the workflow is failed, and one error is added, `policy_blocked`, which is not recoverable.
pub apply_policy-blocked :
    (config : PolicyConfig) (dry_run : Bool) (state : RemediationState)
    → (evaluate config state).allowed ≡ false
    → let state' = ApplyPolicy.apply_policy config state in
      (next_node dry_run apply_policy state' ≡ ok none)
      × (state'.workflow_status ≡ WorkflowStatus.failed)
      × ((error : WorkflowError) × (state'.errors ≡ state.errors ++ (error ∷ []))
          × (error.code ≡ "policy_blocked")
          × (error.recoverable ≡ false))
unfolding next_node select_post_policy_node ApplyPolicy.apply_policy
apply_policy-blocked config dry_run state h =
    let latest = apply_policy-decision config state in
    let error : WorkflowError = record {
      code = "policy_blocked";
      message = or_text (evaluate config state).blocked_reason "Policy blocked remediation.";
      recoverable = false;
      repository = state.current_working_repo;
    } in
    (ground (arith, latest, h), ground (arith, h), (error, ground (arith, h), refl, refl))

resume-unchecked :
    (feedback : HumanFeedback) (state : RemediationState) (route : RemediationRouteDecision)
    → feedback.decision ≡ ApprovalDecision.approved
    → state.pending_approval_stage ≡ some ApprovalStage.remediation
    → state.route_decision ≡ some route
    → resume feedback state
      ≡ ok (thread_at (lane_node route) (resumed_state ApprovalStage.remediation feedback state))
unfolding resume select_post_approval_node select_remediation_node Approval.review_approval
resume-unchecked feedback state route approved waits routed =
    ground (arith, approved, waits, routed)

blocked-waits :
    (config : PolicyConfig) (state : RemediationState)
    → (evaluate config state).allowed ≡ false
    → ((ApplyPolicy.apply_policy config state).pending_approval_stage
        ≡ some ApprovalStage.remediation)
      × ((ApplyPolicy.apply_policy config state).route_decision ≡ state.route_decision)
unfolding ApplyPolicy.apply_policy evaluate
blocked-waits config state h = ground (arith, h)

-- A remediation that the policy has blocked and that ended as failed goes on in the lane of its
-- route as soon as feedback approves it: the resumption does not look at the policy's decision.
pub resume-overrides_block :
    (config : PolicyConfig) (feedback : HumanFeedback) (state : RemediationState)
    (route : RemediationRouteDecision)
    → (evaluate config state).allowed ≡ false
    → feedback.decision ≡ ApprovalDecision.approved
    → state.route_decision ≡ some route
    → let blocked_state = ApplyPolicy.apply_policy config state in
      resume feedback blocked_state
      ≡ ok (
          thread_at
            (lane_node route)
            (resumed_state ApprovalStage.remediation feedback blocked_state))
resume-overrides_block config feedback state route blocked approved routed =
    let waits = blocked-waits config state blocked in
    resume-unchecked feedback (ApplyPolicy.apply_policy config state) route approved waits.0
      (waits.1 ∙ routed)

-- A workflow that has completed its last repository goes on in the lane of its route again as soon
-- as feedback approves it: the resumption does not look at the status of the workflow.
pub resume-restarts_completed :
    (feedback : HumanFeedback) (state : RemediationState) (completed : List String)
    (route : RemediationRouteDecision)
    → feedback.decision ≡ ApprovalDecision.approved
    → state.route_decision ≡ some route
    → let finished = repo_continuation state [] completed in
      (finished.workflow_status ≡ WorkflowStatus.completed)
      × (resume feedback finished
          ≡ ok (
              thread_at
                (lane_node route)
                (resumed_state ApprovalStage.remediation feedback finished)))
unfolding repo_continuation resume select_post_approval_node select_remediation_node
    Approval.review_approval
resume-restarts_completed feedback state completed route approved routed =
    (refl, ground (arith, approved, routed))

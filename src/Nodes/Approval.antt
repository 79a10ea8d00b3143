-- ===== src/Nodes/Approval.antt =====
-- nodes/approval.py: the record of a human decision, and the pause before delivery.
use execution_accelerator.Prelude.{
  String, false, Option, none, some, List, [], ◌∷◌, ◌++◌, concat, or_text,
}
use execution_accelerator.Schemas.{
  ApprovalDecision, approval_decision_text, ApprovalRecord, ApprovalStage, approval_stage_text,
  AuditEvent, HumanFeedback, WorkflowStatus, string,
}
use execution_accelerator.State.{
  RemediationState, audit_event, human_approval_decision, optional_text,
}

abbrev feedback_reviewer : Option HumanFeedback → Option String
feedback_reviewer none = none
feedback_reviewer (some feedback) = feedback.reviewer

abbrev feedback_comments : Option HumanFeedback → Option String
feedback_comments none = none
feedback_comments (some feedback) = feedback.comments

abbrev action_label : ApprovalStage → String
action_label ApprovalStage.remediation = "remediation execution"
action_label ApprovalStage.delivery = "delivery publication"

-- The event of a decision, with its reviewer and comments.
abbrev decided_event : ApprovalStage → RemediationState → String → String → AuditEvent
decided_event stage state event_type message = audit_event event_type message (
    ("repository", optional_text state.current_working_repo)
    ∷ ("decision", string (approval_decision_text (human_approval_decision state)))
    ∷ ("reviewer", optional_text (feedback_reviewer state.human_feedback))
    ∷ ("comments", optional_text (feedback_comments state.human_feedback))
    ∷ ("approval_stage", string (approval_stage_text stage))
    ∷ [])

abbrev with_record : ApprovalStage → RemediationState → List ApprovalRecord
with_record stage state =
    let entry : ApprovalRecord = record {
      stage = stage;
      decision = human_approval_decision state;
      reviewer = feedback_reviewer state.human_feedback;
      comments = feedback_comments state.human_feedback;
    } in
    state.approval_history ++ (entry ∷ [])

unfoldable pub review_decision :
    ApprovalDecision → ApprovalStage → RemediationState → RemediationState
review_decision ApprovalDecision.pending stage state = record state {
  workflow_status = WorkflowStatus.pending;
  audit_events =
      state.audit_events
      ++ (audit_event "approval.pending"
            (concat ("Waiting for human approval before " ∷ action_label stage ∷ "." ∷ []))
            (("repository", optional_text state.current_working_repo)
              ∷ ("decision", string (approval_decision_text (human_approval_decision state)))
              ∷ ("approval_stage", string (approval_stage_text stage))
              ∷ [])
          ∷ []);
}
review_decision ApprovalDecision.approved stage state = record state {
  workflow_status = WorkflowStatus.in_progress;
  approval_history = with_record stage state;
  pending_approval_stage = none;
  pending_approval_reason = none;
  audit_events =
      state.audit_events
      ++ (decided_event stage state "approval.approved"
            (concat ("Human approval granted; " ∷ action_label stage ∷ " may continue." ∷ []))
          ∷ []);
}
review_decision ApprovalDecision.rejected stage state = record state {
  errors =
      state.errors
      ++ (record {
        code = "approval_rejected";
        message =
            or_text (feedback_comments state.human_feedback) "Human approval rejected remediation.";
        recoverable = false;
        repository = state.current_working_repo;
      }
          ∷ []);
  workflow_status = WorkflowStatus.failed;
  approval_history = with_record stage state;
  pending_approval_stage = none;
  pending_approval_reason = none;
  audit_events =
      state.audit_events
      ++ (decided_event stage state "approval.rejected"
            (concat ("Human approval rejected " ∷ action_label stage ∷ "." ∷ []))
          ∷ []);
}

-- `build_review_approval_node(stage)`
unfoldable pub review_approval : ApprovalStage → RemediationState → RemediationState
unfolding review_decision
review_approval stage state = review_decision (human_approval_decision state) stage state

abbrev pub delivery_approval_reason : String
delivery_approval_reason = "Policy requires approval before publishing complex remediation results."

-- `build_prepare_delivery_approval_node()`
unfoldable pub prepare_delivery_approval : RemediationState → RemediationState
prepare_delivery_approval state = record state {
  workflow_status = WorkflowStatus.pending;
  pending_approval_stage = some ApprovalStage.delivery;
  pending_approval_reason = some delivery_approval_reason;
  human_feedback = none;
  audit_events =
      state.audit_events
      ++ (audit_event "approval.required"
            "Human approval is required before delivery publication can continue."
            (("repository", optional_text state.current_working_repo)
              ∷ ("approval_stage", string (approval_stage_text ApprovalStage.delivery))
              ∷ ("approval_reason", string delivery_approval_reason)
              ∷ [])
          ∷ []);
}

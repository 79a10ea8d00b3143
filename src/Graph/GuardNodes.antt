-- ===== src/Graph/GuardNodes.antt =====
-- Each node keeps the guard of the publication.
use execution_accelerator.Prelude.{
  ◌≡◌, refl, Bool, true, false, Option, some, List, [], ◌∷◌, ◌++◌, any, last?-append, ok, arith,
}
use execution_accelerator.Schemas.{ApprovalDecision, ApprovalRecord, ApprovalStage}
use execution_accelerator.State.{RemediationState, human_approval_decision}
use execution_accelerator.Policy.{PolicyConfig}
use execution_accelerator.Nodes.ApplyPolicy
use execution_accelerator.Nodes.Approval
use execution_accelerator.Nodes.Delivery.{has_delivery_approval, is_delivery_approval}
use execution_accelerator.Graph.Edges.{
  Node, apply_policy, next_node, select_post_approval_node, select_post_delivery_approval_node,
  select_remediation_node,
}
use execution_accelerator.Graph.Guard.{
  awaits_delivery, delivery_failed, guarded, is_plain, plain-guarded, ready, validated,
}

pub apply_policy-awaits :
    (config : PolicyConfig) (s : RemediationState)
    → awaits_delivery s ≡ false
    → awaits_delivery (ApplyPolicy.apply_policy config s) ≡ false
unfolding ApplyPolicy.apply_policy
apply_policy-awaits config s h = ground arith

pub lane-plain :
    (s : RemediationState) (target : Option Node)
    → select_remediation_node s ≡ ok target
    → is_plain target ≡ true
unfolding select_remediation_node
lane-plain s target h = ground arith

pub policy_edge-plain :
    (dry_run : Bool) (s : RemediationState) (target : Option Node)
    → next_node dry_run apply_policy s ≡ ok target
    → is_plain target ≡ true
unfolding next_node
policy_edge-plain dry_run s target h = ground (arith, lane-plain s target)

pub apply_policy-guarded :
    (config : PolicyConfig) (dry_run : Bool) (s : RemediationState) (target : Option Node)
    → guarded (some apply_policy) s ≡ true
    → next_node dry_run apply_policy (ApplyPolicy.apply_policy config s) ≡ ok target
    → guarded target (ApplyPolicy.apply_policy config s) ≡ true
unfolding guarded
apply_policy-guarded config dry_run s target g h =
    plain-guarded target (ApplyPolicy.apply_policy config s)
      (policy_edge-plain dry_run (ApplyPolicy.apply_policy config s) target h)
      (apply_policy-awaits config s (ground (arith, g)))

-- A reviewed state, by its decision.
pub review-approved :
    (stage : ApprovalStage) (s : RemediationState)
    → human_approval_decision s ≡ ApprovalDecision.approved
    → (awaits_delivery (Approval.review_approval stage s) ≡ false)
      × ((Approval.review_approval stage s).validation_results ≡ s.validation_results)
unfolding Approval.review_approval
review-approved stage s h = ground (arith, h)

has_approval-append :
    (history : List ApprovalRecord) (entry : ApprovalRecord)
    → is_delivery_approval entry ≡ true
    → any is_delivery_approval (history ++ (entry ∷ [])) ≡ true
has_approval-append [] entry h = ground (arith, h)
has_approval-append (first ∷ history) entry h = ground (arith, has_approval-append history entry h)

pub review-approves_delivery :
    (s : RemediationState)
    → human_approval_decision s ≡ ApprovalDecision.approved
    → has_delivery_approval (Approval.review_approval ApprovalStage.delivery s) ≡ true
unfolding Approval.review_approval has_delivery_approval Approval.review_decision
review-approves_delivery s h = rw h (has_approval-append s.approval_history _ (rw h refl))

pub review-rejected :
    (stage : ApprovalStage) (s : RemediationState)
    → human_approval_decision s ≡ ApprovalDecision.rejected
    → (awaits_delivery (Approval.review_approval stage s) ≡ false)
      × (delivery_failed (Approval.review_approval stage s) ≡ false)
unfolding Approval.review_approval Approval.review_decision
review-rejected stage s h = rw h (refl, rw last?-append refl)

pub review-pending :
    (stage : ApprovalStage) (s : RemediationState)
    → human_approval_decision s ≡ ApprovalDecision.pending
    → (awaits_delivery (Approval.review_approval stage s) ≡ awaits_delivery s)
      × ((Approval.review_approval stage s).validation_results ≡ s.validation_results)
unfolding Approval.review_approval Approval.review_decision
review-pending stage s h = rw h (refl, refl)

pub review-decision :
    (stage : ApprovalStage) (s : RemediationState)
    → human_approval_decision (Approval.review_approval stage s) ≡ human_approval_decision s
unfolding Approval.review_approval Approval.review_decision
review-decision stage s = ground arith

-- Behind a review of a delivery.
pub delivery_review-guarded :
    (s : RemediationState)
    → validated s ≡ true
    → let s' = Approval.review_approval ApprovalStage.delivery s in
      guarded (select_post_delivery_approval_node s') s' ≡ true
unfolding guarded select_post_delivery_approval_node ready
delivery_review-guarded s v = ground (
  arith,
  review-decision ApprovalStage.delivery s,
  review-approved ApprovalStage.delivery s,
  review-approves_delivery s,
  review-rejected ApprovalStage.delivery s,
  review-pending ApprovalStage.delivery s,
)

-- Behind a review of a remediation.
pub remediation_review-guarded :
    (s : RemediationState) (target : Option Node)
    → awaits_delivery s ≡ false
    → let s' = Approval.review_approval ApprovalStage.remediation s in
      select_post_approval_node s' ≡ ok target → guarded target s' ≡ true
unfolding guarded select_post_approval_node
remediation_review-guarded s target v h =
    let s' = Approval.review_approval ApprovalStage.remediation s in
    ground (
      arith,
      review-decision ApprovalStage.remediation s,
      review-approved ApprovalStage.remediation s,
      review-rejected ApprovalStage.remediation s,
      review-pending ApprovalStage.remediation s,
      lane-plain s' target,
      plain-guarded target s',
    )

-- ===== src/Graph/AuditTrail.antt =====
-- The audit events of a run are only added to: each node and each resumption adds one at least.
use execution_accelerator.Prelude.{◌≡◌, refl, Bool, inl, inr, Bool-cases, ok, bind_ok, arith}
use execution_accelerator.Schemas.{ApprovalStage, HumanFeedback}
use execution_accelerator.State.{RemediationState}
use execution_accelerator.Policy.{PolicyConfig}
use execution_accelerator.Nodes.ApplyPolicy
use execution_accelerator.Nodes.Approval
use execution_accelerator.Nodes.Delivery
use execution_accelerator.Nodes.Delivery.{
  delivery_failure_update, finish_repository, skip_repository,
}
use execution_accelerator.Nodes.Published.{
  Publication, failed, finished, publish_remediation-Publication,
}
use execution_accelerator.Nodes.Retry
use execution_accelerator.Nodes.Retry.{RetryLimits}
use execution_accelerator.Nodes.Validation
use execution_accelerator.Nodes.Validation.{ValidationAdapter}
use execution_accelerator.Graph.Audited
use execution_accelerator.Graph.Audited.{Audited, Extends-intro}
use execution_accelerator.Graph.Edges.{
  Node, apply_policy, bootstrap_state, check_repository_idempotency, classify_failure,
  detect_maven_profile, escalate, execute_complex_scaffold, handle_validation_failure,
  ingest_and_parse_jira, load_repository_context, preflight_validate, prepare_complex_remediation,
  prepare_delivery_approval, probe_credentials, publish_remediation, remediate_simple,
  remediate_transitive, review_delivery_approval, review_remediation_approval,
  select_post_approval_node, select_post_delivery_approval_node, select_route,
  skip_publish_for_dry_run, validate_remediation, verify_advisory, verify_maven_target,
}
use execution_accelerator.Graph.Run.{
  Adapters, Move, is_delivery_stage, Settings, Thread, resume, resume_delivery, resume_stopped,
  resume_ended, resume_remediation, resumed_state, run, run_node, runs, thread_at, with_feedback,
}
use execution_accelerator.Graph.Termination.{round}

module _ (s s' : RemediationState) where
  Publication-Audited : Publication s s' → Audited s s'
  unfolding delivery_failure_update finish_repository
  Publication-Audited (failed repository error p current e) = grind (arith, e, Extends-intro)
  Publication-Audited (finished repository branch pull_request jira current e) =
      grind (arith, e, Extends-intro)

  skip-Audited :
      (dry_run : Bool) → Delivery.skip_publish_for_dry_run dry_run s ≡ ok s' → Audited s s'
  unfolding Delivery.skip_publish_for_dry_run skip_repository
  skip-Audited dry_run h =
      let (repository, found, done) = bind_ok (Delivery.skipped_repository s) _ h in
      grind (arith, done, Extends-intro)

  apply_policy-Audited :
      (config : PolicyConfig) → ApplyPolicy.apply_policy config s ≡ s' → Audited s s'
  unfolding ApplyPolicy.apply_policy
  apply_policy-Audited config h = grind (arith, Extends-intro)

  review-Audited : (stage : ApprovalStage) → Approval.review_approval stage s ≡ s' → Audited s s'
  unfolding Approval.review_approval
  review-Audited stage h = grind (arith, Extends-intro)

  validate-Audited :
      (a : ValidationAdapter) → Validation.validate_remediation a s ≡ ok s' → Audited s s'
  unfolding Validation.validate_remediation
  validate-Audited a h = grind (arith, Extends-intro)

  handle-Audited :
      (a : ValidationAdapter) → Validation.handle_validation_failure a s ≡ ok s' → Audited s s'
  unfolding Validation.handle_validation_failure
  handle-Audited a h = grind (arith, Extends-intro)

  prepare-Audited : Approval.prepare_delivery_approval s ≡ s' → Audited s s'
  unfolding Approval.prepare_delivery_approval
  prepare-Audited h = grind (arith, Extends-intro)

  classify-Audited : (limits : RetryLimits) → Retry.classify_failure limits s ≡ s' → Audited s s'
  unfolding Retry.classify_failure
  classify-Audited limits h = grind (arith, Extends-intro)

  module _ (settings : Settings) (a : Adapters) where
    run_node-Audited : (node : Node) → run_node settings a node s ≡ ok s' → Audited s s'
    unfolding run_node
    run_node-Audited bootstrap_state h = Audited.bootstrap_state-Audited s s' (ground (arith, h))
    run_node-Audited probe_credentials h =
        Audited.probe_live_credentials-Audited s s' settings.execution_mode a.probe h
    run_node-Audited ingest_and_parse_jira h = Audited.ingest_and_parse_jira-Audited s s' a.jira h
    run_node-Audited load_repository_context h =
        Audited.load_repository_context-Audited s s' a.inventory h
    run_node-Audited check_repository_idempotency h =
        Audited.check_repository_idempotency-Audited s s' a.inventory h
    run_node-Audited detect_maven_profile h = Audited.detect_maven_profile-Audited s s' a.detect h
    run_node-Audited verify_advisory h = Audited.verify_advisory-Audited s s' a.advisory h
    run_node-Audited verify_maven_target h = Audited.verify_maven_target-Audited s s' a.maven h
    run_node-Audited select_route h = Audited.select_route-Audited s s' h
    run_node-Audited apply_policy h = apply_policy-Audited settings.policy (ground (arith, h))
    run_node-Audited review_remediation_approval h =
        review-Audited ApprovalStage.remediation (ground (arith, h))
    run_node-Audited prepare_complex_remediation h =
        Audited.prepare_complex_remediation-Audited s s' a.complex h
    run_node-Audited execute_complex_scaffold h =
        Audited.execute_complex_scaffold-Audited s s' a.complex h
    run_node-Audited remediate_simple h = Audited.remediate_simple-Audited s s' a.pom h
    run_node-Audited remediate_transitive h = Audited.remediate_transitive-Audited s s' a.pom h
    run_node-Audited preflight_validate h = Audited.preflight_validate-Audited s s' a.preflight h
    run_node-Audited validate_remediation h = validate-Audited a.validation h
    run_node-Audited handle_validation_failure h = handle-Audited a.validation h
    run_node-Audited prepare_delivery_approval h = prepare-Audited (ground (arith, h))
    run_node-Audited review_delivery_approval h =
        review-Audited ApprovalStage.delivery (ground (arith, h))
    run_node-Audited publish_remediation h =
        Publication-Audited (publish_remediation-Publication a.delivery s s' h)
    run_node-Audited skip_publish_for_dry_run h = skip-Audited settings.dry_run h
    run_node-Audited classify_failure h = classify-Audited settings.limits (ground (arith, h))
    run_node-Audited escalate h = Audited.escalate-Audited s s' a.bundle h

resumed-Audited :
    (stage : ApprovalStage) (feedback : HumanFeedback) (s : RemediationState)
    → Audited s (resumed_state stage feedback s)
resumed-Audited stage feedback s = review-Audited (with_feedback feedback s) _ stage refl

resume-Audited :
    (feedback : HumanFeedback) (s : RemediationState) (t : Thread)
    → resume feedback s ≡ ok t
    → Audited s t.state
unfolding resume
resume-Audited feedback s t h = elim (Bool-cases (is_delivery_stage s.pending_approval_stage)) [
  | inl delivers ↦
      let s' = resumed_state ApprovalStage.delivery feedback s in
      let e : thread_at (select_post_delivery_approval_node s') s' ≡ t =
        ground (arith, delivers, h) in
      rw (← e) (resumed-Audited ApprovalStage.delivery feedback s)
  | inr remediates ↦
      let s' = resumed_state ApprovalStage.remediation feedback s in
      let (target, edge, done) = bind_ok (select_post_approval_node s') _ (rw remediates at h) in
      let e : thread_at target s' ≡ t = ground (arith, done) in
      rw (← e) (resumed-Audited ApprovalStage.remediation feedback s)
]

-- Each node that runs, and each resumption, keeps the audit events in their order and adds one at
-- least behind them.
pub audit_events-appended :
    (settings : Settings) (s t : Thread) → Move settings s t → Audited s.state t.state
audit_events-appended settings s t (run (runs a node at step)) =
    run_node-Audited s.state t.state settings a node (round settings a node s.state t step).0
audit_events-appended settings s t (resume_ended feedback at h) =
    resume-Audited feedback s.state t h
audit_events-appended settings s t (resume_remediation feedback at h) =
    resume-Audited feedback s.state t h
audit_events-appended settings s t (resume_delivery feedback at h) =
    resume-Audited feedback s.state t h
audit_events-appended settings s t (resume_stopped feedback a node failure at step h) =
    resume-Audited feedback s.state t h

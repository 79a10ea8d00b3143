-- ===== src/Graph/Attempt.antt =====
-- Each node behind the intake leaves less to do.
use execution_accelerator.Prelude.{
  ◌≡◌, refl, ◌⊎◌, ◌≢◌, Bool, true, false, Option, none, some, List, [], ◌∷◌, ◌++◌, ok, arith,
}
use execution_accelerator.Schemas.{ApprovalStage, WorkflowStatus}
use execution_accelerator.State.{RemediationState, WorkflowError}
use execution_accelerator.Nodes.Delivery
use execution_accelerator.Nodes.Delivery.{finish_repository, skip_repository}
use execution_accelerator.Graph.Edges.{
  Node, bootstrap_state, probe_credentials, ingest_and_parse_jira, load_repository_context,
  check_repository_idempotency, detect_maven_profile, verify_advisory, verify_maven_target,
  select_route, apply_policy, review_remediation_approval, prepare_complex_remediation,
  execute_complex_scaffold, remediate_simple, remediate_transitive, preflight_validate,
  validate_remediation, handle_validation_failure, prepare_delivery_approval,
  review_delivery_approval, publish_remediation, skip_publish_for_dry_run, classify_failure,
  escalate, next_node, has_failed, select_post_delivery_node,
}
use execution_accelerator.Graph.Run.{Adapters, Settings, run_node}
use execution_accelerator.Graph.Work
use execution_accelerator.Graph.Work.{Keeps, open_work, stray}
use execution_accelerator.Graph.Rank.{descends}

module _ (settings : Settings) (a : Adapters) (s s' : RemediationState) where
  pub run_node-Keeps :
      (node : Node) → descends node ≡ true → run_node settings a node s ≡ ok s' → Keeps s s'
  unfolding run_node
  run_node-Keeps bootstrap_state d h = cc
  run_node-Keeps probe_credentials d h = cc
  run_node-Keeps ingest_and_parse_jira d h = cc
  run_node-Keeps load_repository_context d h = cc
  run_node-Keeps check_repository_idempotency d h = cc
  run_node-Keeps publish_remediation d h = cc
  run_node-Keeps skip_publish_for_dry_run d h = cc
  run_node-Keeps classify_failure d h = cc
  run_node-Keeps detect_maven_profile d h = Work.detect_maven_profile-Keeps s s' a.detect h
  run_node-Keeps verify_advisory d h = Work.verify_advisory-Keeps s s' a.advisory h
  run_node-Keeps verify_maven_target d h = Work.verify_maven_target-Keeps s s' a.maven h
  run_node-Keeps select_route d h = Work.select_route-Keeps s s' h
  run_node-Keeps apply_policy d h = Work.apply_policy-Keeps s s' settings.policy (ground (arith, h))
  run_node-Keeps review_remediation_approval d h =
      Work.review_approval-Keeps s s' ApprovalStage.remediation (ground (arith, h))
  run_node-Keeps prepare_complex_remediation d h =
      Work.prepare_complex_remediation-Keeps s s' a.complex h
  run_node-Keeps execute_complex_scaffold d h = Work.execute_complex_scaffold-Keeps s s' a.complex h
  run_node-Keeps remediate_simple d h = Work.remediate_simple-Keeps s s' a.pom h
  run_node-Keeps remediate_transitive d h = Work.remediate_transitive-Keeps s s' a.pom h
  run_node-Keeps preflight_validate d h = Work.preflight_validate-Keeps s s' a.preflight h
  run_node-Keeps validate_remediation d h = Work.validate_remediation-Keeps s s' a.validation h
  run_node-Keeps handle_validation_failure d h =
      Work.handle_validation_failure-Keeps s s' a.validation h
  run_node-Keeps prepare_delivery_approval d h =
      Work.prepare_delivery_approval-Keeps s s' (ground (arith, h))
  run_node-Keeps review_delivery_approval d h =
      Work.review_approval-Keeps s s' ApprovalStage.delivery (ground (arith, h))
  run_node-Keeps escalate d h = Work.escalate-Keeps s s' a.bundle h

-- What is left after a finished repository is the next one, or nothing.
pub after_finish :
    (s : RemediationState) (target : Option Node)
    → s.errors ≡ []
    → next_node false publish_remediation s ≡ ok target
    → (target ≡ none) ⊎ (s.pending_repos ≢ [])
unfolding next_node
after_finish s target none_left h = ground arith

pub after_skip :
    (dry_run : Bool) (s : RemediationState) (target : Option Node)
    → next_node dry_run skip_publish_for_dry_run s ≡ ok target
    → (target ≡ none) ⊎ (s.pending_repos ≢ [])
unfolding next_node
after_skip dry_run s target h = ground arith

pub publish_edge :
    (dry_run : Bool) (s : RemediationState)
    → next_node dry_run publish_remediation s ≡ next_node false publish_remediation s
unfolding next_node
publish_edge dry_run s = refl

has_failed-append :
    (errors : List WorkflowError) (error : WorkflowError)
    → has_failed WorkflowStatus.failed (errors ++ (error ∷ [])) ≡ true
has_failed-append [] error = refl
has_failed-append (first ∷ errors) error = refl

-- A recorded failure is classified.
pub failed_publication :
    (s : RemediationState) (error : Delivery.DeliveryError) (p : Delivery.Published)
    → next_node false publish_remediation (Delivery.delivery_failure_update s error p)
      ≡ ok (some classify_failure)
unfolding next_node Delivery.delivery_failure_update select_post_delivery_node
failed_publication s error p = rw has_failed-append

-- ===== src/Graph/Edges.antt =====
-- The nodes of graph/builder.py and the selectors on its conditional edges. `none` is `END`.
use execution_accelerator.Prelude.{
  String, Bool, true, false, not, ◌&&◌, Option, none, some, List, [], ◌∷◌, last?, text_eq, raised,
  ok, ◌>>=◌, if◌then◌else◌,
}
use execution_accelerator.Schemas.{
  ApprovalDecision, PolicyDecision, RemediationRouteDecision, RemediationStrategy, RetryDecision,
  RepositoryValidationResult, WorkflowStatus,
}
use execution_accelerator.State.{
  RemediationState, Step, WorkflowError, human_approval_decision, require_state_field, uncaught,
}
use execution_accelerator.Nodes.Classify.{is_failed}
use execution_accelerator.Nodes.Delivery.{has_delivery_approval}

pub data Node : Type 0 where
  bootstrap_state probe_credentials ingest_and_parse_jira load_repository_context : Node
  check_repository_idempotency detect_maven_profile verify_advisory verify_maven_target : Node
  select_route apply_policy review_remediation_approval prepare_complex_remediation : Node
  execute_complex_scaffold remediate_simple remediate_transitive preflight_validate : Node
  validate_remediation handle_validation_failure prepare_delivery_approval : Node
  review_delivery_approval publish_remediation skip_publish_for_dry_run : Node
  classify_failure escalate : Node

abbrev pub lane_node : RemediationRouteDecision → Option Node
lane_node route = elim route.strategy [
  | RemediationStrategy.simple_update ↦ some remediate_simple
  | RemediationStrategy.transitive_override ↦ some remediate_transitive
  | RemediationStrategy.complex_refactor ↦ some prepare_complex_remediation
  | RemediationStrategy.unknown ↦ none
]

unfoldable pub select_remediation_node : RemediationState → Step (Option Node)
select_remediation_node state = do
  route ←
      require_state_field state.route_decision "_select_remediation_node" "route_decision"
        "Remediation routing requires a selected remediation route." state.current_working_repo
  ok (lane_node route)

abbrev when_pending : List String → Option Node
when_pending [] = none
when_pending (repo ∷ repos) = some detect_maven_profile

unfoldable pub select_post_idempotency_node : RemediationState → Option Node
select_post_idempotency_node state = when_pending state.pending_repos

abbrev pub is_blocked : Option PolicyDecision → Bool
is_blocked none = false
is_blocked (some decision) = not decision.allowed

unfoldable pub select_post_policy_node : RemediationState → Step (Option Node)
unfolding select_remediation_node
select_post_policy_node state =
    if is_blocked (last? state.policy_decisions)
    then ok none
    else if state.requires_human_approval
    then ok (some review_remediation_approval)
    else select_remediation_node state

unfoldable pub select_post_approval_node : RemediationState → Step (Option Node)
unfolding select_remediation_node
select_post_approval_node state = elim (human_approval_decision state) [
  | ApprovalDecision.approved ↦ select_remediation_node state
  | ApprovalDecision.rejected ↦ ok (some classify_failure)
  | ApprovalDecision.pending ↦ ok none
]

abbrev after_validation :
    Bool → RemediationState → Option RepositoryValidationResult → Step (Option Node)
after_validation dry_run state latest = do
  result ←
      require_state_field latest "_build_post_validation_selector" "validation_results"
        "Post-validation routing requires at least one validation result."
        state.current_working_repo
  ok (
      some (
        if is_failed result.status
        then handle_validation_failure
        else if dry_run
        then skip_publish_for_dry_run
        else if state.requires_delivery_approval && not (has_delivery_approval state)
        then prepare_delivery_approval
        else publish_remediation))

-- `_build_post_validation_selector(dry_run=…)`
unfoldable pub select_post_validation_node : Bool → RemediationState → Step (Option Node)
select_post_validation_node dry_run state =
    after_validation dry_run state (last? state.validation_results)

-- The targets that the graph names for `classify_failure`; another name has no edge.
abbrev pub failure_target : String → Step (Option Node)
failure_target name =
    if text_eq name "execute_complex_scaffold"
    then ok (some execute_complex_scaffold)
    else if text_eq name "escalate"
    then ok (some escalate)
    else if text_eq name "publish_remediation"
    then ok (some publish_remediation)
    else if text_eq name "remediate_simple"
    then ok (some remediate_simple)
    else if text_eq name "remediate_transitive"
    then ok (some remediate_transitive)
    else raised (uncaught "KeyError")

abbrev decided_target : Option RetryDecision → Step (Option Node)
decided_target none = ok (some escalate)
decided_target (some decision) = failure_target decision.next_node

unfoldable pub select_failure_node : RemediationState → Step (Option Node)
select_failure_node state = decided_target state.retry_decision

unfoldable pub select_post_delivery_approval_node : RemediationState → Option Node
select_post_delivery_approval_node state = elim (human_approval_decision state) [
  | ApprovalDecision.approved ↦ some publish_remediation
  | ApprovalDecision.rejected ↦ some classify_failure
  | ApprovalDecision.pending ↦ none
]

abbrev pub has_failed : WorkflowStatus → List WorkflowError → Bool
has_failed WorkflowStatus.failed (error ∷ errors) = true
has_failed _ _ = false

unfoldable pub select_post_delivery_node : RemediationState → Option Node
select_post_delivery_node state =
    if has_failed state.workflow_status state.errors
    then some classify_failure
    else when_pending state.pending_repos

-- The dry run has no edge to `classify_failure`.
abbrev dry_run_target : Option Node → Step (Option Node)
dry_run_target (some classify_failure) = raised (uncaught "KeyError")
dry_run_target target = ok target

-- The edges out of a node, by the state that the node left.
unfoldable pub next_node : Bool → Node → RemediationState → Step (Option Node)
unfolding select_post_idempotency_node select_post_policy_node select_post_approval_node
    select_post_validation_node select_failure_node select_post_delivery_approval_node
    select_post_delivery_node
next_node dry_run bootstrap_state state = ok (some probe_credentials)
next_node dry_run probe_credentials state = ok (some ingest_and_parse_jira)
next_node dry_run ingest_and_parse_jira state = ok (some load_repository_context)
next_node dry_run load_repository_context state = ok (some check_repository_idempotency)
next_node dry_run check_repository_idempotency state = ok (select_post_idempotency_node state)
next_node dry_run detect_maven_profile state = ok (some verify_advisory)
next_node dry_run verify_advisory state = ok (some verify_maven_target)
next_node dry_run verify_maven_target state = ok (some select_route)
next_node dry_run select_route state = ok (some apply_policy)
next_node dry_run apply_policy state = select_post_policy_node state
next_node dry_run review_remediation_approval state = select_post_approval_node state
next_node dry_run prepare_complex_remediation state = ok (some execute_complex_scaffold)
next_node dry_run execute_complex_scaffold state = ok (some validate_remediation)
next_node dry_run remediate_simple state = ok (some preflight_validate)
next_node dry_run remediate_transitive state = ok (some preflight_validate)
next_node dry_run preflight_validate state = ok (some validate_remediation)
next_node dry_run validate_remediation state = select_post_validation_node dry_run state
next_node dry_run handle_validation_failure state = ok (some classify_failure)
next_node dry_run prepare_delivery_approval state = ok (some review_delivery_approval)
next_node dry_run review_delivery_approval state = ok (select_post_delivery_approval_node state)
next_node dry_run publish_remediation state = ok (select_post_delivery_node state)
next_node dry_run skip_publish_for_dry_run state = dry_run_target (select_post_delivery_node state)
next_node dry_run classify_failure state = select_failure_node state
next_node dry_run escalate state = ok none

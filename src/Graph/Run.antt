-- ===== src/Graph/Run.antt =====
-- How the graph runs: one node and the edge behind it, and the resumption of a paused or ended
-- thread with human feedback (`resume_ticket_run`).
use execution_accelerator.Prelude.{
  String, Bool, true, false, Option, none, some, [], ok, raised, ◌>>=◌, ◌≡◌,
}
use execution_accelerator.Schemas.{
  AdvisoryVerification, ApprovalStage, ExecutionMode, HumanFeedback, MavenExecutionPlan,
  VulnerabilityDetails, WorkflowStatus,
}
use execution_accelerator.State.{Failure, RemediationState, RepositoryWorkspace, Step}
use execution_accelerator.Policy.{PolicyConfig}
use execution_accelerator.Nodes.ApplyPolicy
use execution_accelerator.Nodes.Approval
use execution_accelerator.Nodes.ComplexLane
use execution_accelerator.Nodes.ComplexLane.{ComplexAdapter}
use execution_accelerator.Nodes.Delivery
use execution_accelerator.Nodes.Delivery.{DeliveryAdapter}
use execution_accelerator.Nodes.Escalate
use execution_accelerator.Nodes.Escalate.{BundleWriter}
use execution_accelerator.Nodes.Intake
use execution_accelerator.Nodes.Intake.{CredentialReport, InventoryAdapter}
use execution_accelerator.Nodes.Remediation
use execution_accelerator.Nodes.Remediation.{PomRewrite, PreflightCheck}
use execution_accelerator.Nodes.Retry
use execution_accelerator.Nodes.Retry.{RetryLimits}
use execution_accelerator.Nodes.Validation
use execution_accelerator.Nodes.Validation.{ValidationAdapter}
use execution_accelerator.Nodes.Verification
use execution_accelerator.Nodes.Verification.{MavenCheck}
use execution_accelerator.Graph.Edges.{
  Node, next_node, select_post_approval_node, select_post_delivery_approval_node,
}

-- The settings of a process, and the policy file.
pub record Settings : Type 0 where
  pub dry_run : Bool
  pub execution_mode : ExecutionMode
  pub limits : RetryLimits
  pub policy : PolicyConfig

-- What the outside answers while one node runs.
pub record Adapters : Type 0 where
  pub probe : Step CredentialReport
  pub jira : String → Step VulnerabilityDetails
  pub inventory : InventoryAdapter
  pub detect : RepositoryWorkspace → Step MavenExecutionPlan
  pub advisory : VulnerabilityDetails → Step AdvisoryVerification
  pub maven : MavenCheck
  pub complex : ComplexAdapter
  pub pom : PomRewrite
  pub preflight : PreflightCheck
  pub validation : ValidationAdapter
  pub delivery : DeliveryAdapter
  pub bundle : BundleWriter

-- The body of a node.
unfoldable pub run_node : Settings → Adapters → Node → RemediationState → Step RemediationState
run_node settings a Node.bootstrap_state s = ok (Intake.bootstrap_state s)
run_node settings a Node.probe_credentials s =
    Intake.probe_live_credentials settings.execution_mode a.probe s
run_node settings a Node.ingest_and_parse_jira s = Intake.ingest_and_parse_jira a.jira s
run_node settings a Node.load_repository_context s = Intake.load_repository_context a.inventory s
run_node settings a Node.check_repository_idempotency s =
    Intake.check_repository_idempotency a.inventory s
run_node settings a Node.detect_maven_profile s = Verification.detect_maven_profile a.detect s
run_node settings a Node.verify_advisory s = Verification.verify_advisory a.advisory s
run_node settings a Node.verify_maven_target s = Verification.verify_maven_target a.maven s
run_node settings a Node.select_route s = Verification.select_route s
run_node settings a Node.apply_policy s = ok (ApplyPolicy.apply_policy settings.policy s)
run_node settings a Node.review_remediation_approval s =
    ok (Approval.review_approval ApprovalStage.remediation s)
run_node settings a Node.prepare_complex_remediation s =
    ComplexLane.prepare_complex_remediation a.complex s
run_node settings a Node.execute_complex_scaffold s =
    ComplexLane.execute_complex_scaffold a.complex s
run_node settings a Node.remediate_simple s = Remediation.remediate_simple a.pom s
run_node settings a Node.remediate_transitive s = Remediation.remediate_transitive a.pom s
run_node settings a Node.preflight_validate s = Remediation.preflight_validate a.preflight s
run_node settings a Node.validate_remediation s = Validation.validate_remediation a.validation s
run_node settings a Node.handle_validation_failure s =
    Validation.handle_validation_failure a.validation s
run_node settings a Node.prepare_delivery_approval s = ok (Approval.prepare_delivery_approval s)
run_node settings a Node.review_delivery_approval s =
    ok (Approval.review_approval ApprovalStage.delivery s)
run_node settings a Node.publish_remediation s = Delivery.publish_remediation a.delivery s
run_node settings a Node.skip_publish_for_dry_run s =
    Delivery.skip_publish_for_dry_run settings.dry_run s
run_node settings a Node.classify_failure s = ok (Retry.classify_failure settings.limits s)
run_node settings a Node.escalate s = Escalate.escalate a.bundle s

-- A thread: the node that runs next, or `none` at `END`, and the state.
pub record Thread : Type 0 where
  pub node : Option Node
  pub state : RemediationState

abbrev pub thread_at : Option Node → RemediationState → Thread
thread_at node state = record { node = node; state = state }

-- One round of the graph: the node, then its edge.
unfoldable pub advance : Settings → Adapters → Node → RemediationState → Step Thread
unfolding run_node
advance settings a node s = do
  s' ← run_node settings a node s
  target ← next_node settings.dry_run node s'
  ok (thread_at target s')

-- The stage that feedback is for.
abbrev pub is_delivery_stage : Option ApprovalStage → Bool
is_delivery_stage none = false
is_delivery_stage (some ApprovalStage.delivery) = true
is_delivery_stage (some ApprovalStage.remediation) = false

abbrev pub with_feedback : HumanFeedback → RemediationState → RemediationState
with_feedback feedback s = record s { human_feedback = some feedback }

-- The update of `resume_ticket_run`, written as the node of the stage.
abbrev pub resumed_state : ApprovalStage → HumanFeedback → RemediationState → RemediationState
resumed_state stage feedback s =
    let reviewed = Approval.review_approval stage (with_feedback feedback s) in
    record reviewed { human_feedback = some feedback }

abbrev pub resumed_thread : Bool → HumanFeedback → RemediationState → Step Thread
resumed_thread true feedback s =
    let s' = resumed_state ApprovalStage.delivery feedback s in
    ok (thread_at (select_post_delivery_approval_node s') s')
resumed_thread false feedback s =
    let s' = resumed_state ApprovalStage.remediation feedback s in
    do target ← select_post_approval_node s'; ok (thread_at target s')

unfoldable pub resume : HumanFeedback → RemediationState → Step Thread
resume feedback s = resumed_thread (is_delivery_stage s.pending_approval_stage) feedback s

-- `RemediationState(initial_ticket_id=ticket_id)`
abbrev pub initial_state : String → RemediationState
initial_state ticket_id = record {
  initial_ticket_id = ticket_id;
  workflow_status = WorkflowStatus.pending;
  vulnerability_details = none;
  advisory_verification = none;
  maven_verification = none;
  route_decision = none;
  pom_mutation_plan = none;
  preflight_resolution = none;
  artifact_candidates = [];
  compatibility_diff = none;
  complex_remediation_plan = none;
  decompiled_artifacts = [];
  symbol_mappings = [];
  code_change_plan = none;
  maven_plan = none;
  targets = [];
  current_target_index = 0;
  repo_map = [];
  pending_repos = [];
  current_working_repo = none;
  completed_repos = [];
  skipped_repos = [];
  remediation_plan = none;
  modified_files = [];
  code_diffs = [];
  validation_results = [];
  rollback_plan = none;
  branch_publication = none;
  pull_request_summary = none;
  jira_completion = none;
  total_attempts = 0;
  failure_classifications = [];
  policy_decisions = [];
  llm_calls = [];
  llm_tokens_used = 0;
  repair_proposals = [];
  relevant_repair_inputs = [];
  errors = [];
  retry_count = 0;
  retry_decision = none;
  requires_human_approval = false;
  requires_delivery_approval = false;
  pending_approval_stage = none;
  pending_approval_reason = none;
  human_feedback = none;
  approval_history = [];
  escalation_bundle = none;
  audit_events = [];
}

-- Where a new run begins.
abbrev pub start : String → Thread
start ticket_id = thread_at (some Node.bootstrap_state) (initial_state ticket_id)

-- One node runs, whatever the outside answers.
pub data Runs (settings : Settings) (s t : Thread) : Type 0 where
  runs :
      (a : Adapters) (node : Node)
      → s.node ≡ some node
      → advance settings a node s.state ≡ ok t
      → Runs settings s t

-- What may happen to a thread: a node runs, or a thread that has ended, that waits before a review,
-- or that a node stopped by raising, is resumed with feedback.
pub data Move (settings : Settings) (s t : Thread) : Type 0 where
  run : Runs settings s t → Move settings s t
  resume_ended :
      (feedback : HumanFeedback)
      → s.node ≡ none
      → resume feedback s.state ≡ ok t
      → Move settings s t
  resume_remediation :
      (feedback : HumanFeedback)
      → s.node ≡ some Node.review_remediation_approval
      → resume feedback s.state ≡ ok t
      → Move settings s t
  resume_delivery :
      (feedback : HumanFeedback)
      → s.node ≡ some Node.review_delivery_approval
      → resume feedback s.state ≡ ok t
      → Move settings s t
  resume_stopped :
      (feedback : HumanFeedback) (a : Adapters) (node : Node) (failure : Failure)
      → s.node ≡ some node
      → advance settings a node s.state ≡ raised failure
      → resume feedback s.state ≡ ok t
      → Move settings s t

-- The threads of a run. Its processes, the first one and each resumption, have settings of their own,
-- all of them allowed ones.
pub data Reaches (Allowed : Settings → Type 0) (ticket_id : String) : Thread → Type 0 where
  begin : Reaches Allowed ticket_id (start ticket_id)
  moved :
      {s t : Thread}
      → Reaches Allowed ticket_id s
      → (settings : Settings) → Allowed settings
      → Move settings s t
      → Reaches Allowed ticket_id t

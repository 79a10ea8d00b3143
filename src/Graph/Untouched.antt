-- ===== src/Graph/Untouched.antt =====
-- The nodes that leave the errors, the approvals and the validations as they are.
use execution_accelerator.Prelude.{String, ◌≡◌, ok, bind_ok, arith}
use execution_accelerator.Schemas.{
  AdvisoryVerification, ExecutionMode, MavenExecutionPlan, MavenVerification, VulnerabilityDetails,
}
use execution_accelerator.State.{RemediationState, RepositoryWorkspace, Step}
use execution_accelerator.Nodes.Verification
use execution_accelerator.Nodes.Verification.{MavenCheck, current_or_first, workspace_of}
use execution_accelerator.Nodes.PomPlan.{build_simple_plan, build_transitive_plan}
use execution_accelerator.Nodes.Remediation
use execution_accelerator.Nodes.Remediation.{PreflightCheck, PomRewrite}
use execution_accelerator.Nodes.ComplexLane
use execution_accelerator.Nodes.ComplexLane.{ComplexAdapter}
use execution_accelerator.Nodes.Intake
use execution_accelerator.Nodes.Intake.{CredentialReport, InventoryAdapter}
use execution_accelerator.Nodes.Escalate
use execution_accelerator.Nodes.Escalate.{BundleWriter}

pub record Untouched (s s' : RemediationState) : Type 0 where
  pub errors : s'.errors ≡ s.errors
  pub stage : s'.pending_approval_stage ≡ s.pending_approval_stage
  pub validations : s'.validation_results ≡ s.validation_results
  pub approvals : s'.approval_history ≡ s.approval_history
  pub required : s'.requires_delivery_approval ≡ s.requires_delivery_approval
  pub retries : s'.retry_count ≡ s.retry_count
  pub completed : s'.completed_repos ≡ s.completed_repos

module _ (s s' : RemediationState) where
  pub detect_maven_profile-Untouched :
      (detect : RepositoryWorkspace → Step MavenExecutionPlan)
      → Verification.detect_maven_profile detect s ≡ ok s'
      → Untouched s s'
  unfolding Verification.detect_maven_profile
  detect_maven_profile-Untouched detect h =
      let (repository, first, rest) = bind_ok (current_or_first s) _ h in
      let (workspace, found, rest') = bind_ok (workspace_of s repository) _ rest in
      let (plan, detected, done) = bind_ok (detect workspace) _ rest' in ground (arith, done)

  pub verify_advisory-Untouched :
      (load : VulnerabilityDetails → Step AdvisoryVerification)
      → Verification.verify_advisory load s ≡ ok s'
      → Untouched s s'
  unfolding Verification.verify_advisory
  verify_advisory-Untouched load h = ground arith

  pub verify_maven_target-Untouched :
      (load : MavenCheck) → Verification.verify_maven_target load s ≡ ok s' → Untouched s s'
  unfolding Verification.verify_maven_target
  verify_maven_target-Untouched load h = ground arith

  pub select_route-Untouched : Verification.select_route s ≡ ok s' → Untouched s s'
  unfolding Verification.select_route
  select_route-Untouched h = ground arith

  pub preflight_validate-Untouched :
      (load : PreflightCheck) → Remediation.preflight_validate load s ≡ ok s' → Untouched s s'
  unfolding Remediation.preflight_validate
  preflight_validate-Untouched load h = ground arith

  pub execute_complex_scaffold-Untouched :
      (a : ComplexAdapter) → ComplexLane.execute_complex_scaffold a s ≡ ok s' → Untouched s s'
  unfolding ComplexLane.execute_complex_scaffold
  execute_complex_scaffold-Untouched a h = ground arith

  pub escalate-Untouched :
      (write : BundleWriter) → Escalate.escalate write s ≡ ok s' → Untouched s s'
  unfolding Escalate.escalate
  escalate-Untouched write h = ground arith

  apply_simple_plan-Untouched :
      (rewrite : PomRewrite) → Remediation.apply_simple_plan rewrite s ≡ ok s' → Untouched s s'
  unfolding Remediation.apply_simple_plan
  apply_simple_plan-Untouched rewrite h =
      let (repository, first, h1) = bind_ok (current_or_first s) _ h in
      let (workspace, found, h2) = bind_ok (workspace_of s repository) _ h1 in
      let (planned, built, h3) = bind_ok (build_simple_plan s repository) _ h2 in
      let (path, written, done) =
        bind_ok (rewrite workspace planned.0.file_path planned.1 s.maven_plan) _ h3 in
      ground (arith, done)

  pub remediate_simple-Untouched :
      (rewrite : PomRewrite) → Remediation.remediate_simple rewrite s ≡ ok s' → Untouched s s'
  unfolding Remediation.remediate_simple
  remediate_simple-Untouched rewrite h = ground (arith, apply_simple_plan-Untouched rewrite)

  apply_transitive_plan-Untouched :
      (rewrite : PomRewrite) → Remediation.apply_transitive_plan rewrite s ≡ ok s' → Untouched s s'
  unfolding Remediation.apply_transitive_plan
  apply_transitive_plan-Untouched rewrite h =
      let (repository, first, h1) = bind_ok (current_or_first s) _ h in
      let (workspace, found, h2) = bind_ok (workspace_of s repository) _ h1 in
      let (planned, built, h3) = bind_ok (build_transitive_plan s repository) _ h2 in
      let (path, written, done) =
        bind_ok (rewrite workspace planned.0.file_path planned.1 s.maven_plan) _ h3 in
      ground (arith, done)

  pub remediate_transitive-Untouched :
      (rewrite : PomRewrite) → Remediation.remediate_transitive rewrite s ≡ ok s' → Untouched s s'
  unfolding Remediation.remediate_transitive
  remediate_transitive-Untouched rewrite h = ground (arith, apply_transitive_plan-Untouched rewrite)

  plan_complex_remediation-Untouched :
      (a : ComplexAdapter) (details : VulnerabilityDetails) (maven : MavenVerification)
      → ComplexLane.plan_complex_remediation a details maven s ≡ ok s'
      → Untouched s s'
  unfolding ComplexLane.plan_complex_remediation
  plan_complex_remediation-Untouched a details maven h =
      let (repository, first, done) = bind_ok (current_or_first s) _ h in ground (arith, done)

  pub prepare_complex_remediation-Untouched :
      (a : ComplexAdapter) → ComplexLane.prepare_complex_remediation a s ≡ ok s' → Untouched s s'
  unfolding ComplexLane.prepare_complex_remediation
  prepare_complex_remediation-Untouched a h = grind (arith, plan_complex_remediation-Untouched)

  pub bootstrap_state-Untouched : Intake.bootstrap_state s ≡ s' → Untouched s s'
  unfolding Intake.bootstrap_state
  bootstrap_state-Untouched h = ground arith

  pub probe_live_credentials-Untouched :
      (mode : ExecutionMode) (probe : Step CredentialReport)
      → Intake.probe_live_credentials mode probe s ≡ ok s'
      → Untouched s s'
  unfolding Intake.probe_live_credentials
  probe_live_credentials-Untouched mode probe h = ground arith

  pub ingest_and_parse_jira-Untouched :
      (load : String → Step VulnerabilityDetails)
      → Intake.ingest_and_parse_jira load s ≡ ok s'
      → Untouched s s'
  unfolding Intake.ingest_and_parse_jira
  ingest_and_parse_jira-Untouched load h = ground arith

  pub load_repository_context-Untouched :
      (a : InventoryAdapter) → Intake.load_repository_context a s ≡ ok s' → Untouched s s'
  unfolding Intake.load_repository_context
  load_repository_context-Untouched a h = ground arith

  pub check_repository_idempotency-Untouched :
      (a : InventoryAdapter) → Intake.check_repository_idempotency a s ≡ ok s' → Untouched s s'
  unfolding Intake.check_repository_idempotency
  check_repository_idempotency-Untouched a h = ground arith

-- ===== src/Graph/Work.antt =====
-- What a node leaves of the work that is to do: the repositories that are pending, the current
-- one, and the attempts that are used up.
use text.Mathlib.TextPositions.{eq_refl}
use execution_accelerator.Prelude.{
  ℕ, ◌+◌, ◌≤◌, ◌≡◌, String, Option, none, some, List, length, one_of, ok, bind_ok, arith,
  if◌then◌else◌,
}
use execution_accelerator.Schemas.{
  AdvisoryVerification, ApprovalStage, MavenExecutionPlan, MavenVerification, VulnerabilityDetails,
}
use execution_accelerator.State.{RemediationState, RepositoryWorkspace, Step}
use execution_accelerator.Policy.{PolicyConfig}
use execution_accelerator.Nodes.ApplyPolicy
use execution_accelerator.Nodes.Approval
use execution_accelerator.Nodes.Validation
use execution_accelerator.Nodes.Validation.{ValidationAdapter}
use execution_accelerator.Nodes.Verification
use execution_accelerator.Nodes.Verification.{MavenCheck, current_or_first, workspace_of}
use execution_accelerator.Nodes.PomPlan.{build_simple_plan, build_transitive_plan}
use execution_accelerator.Nodes.Remediation
use execution_accelerator.Nodes.Remediation.{PreflightCheck, PomRewrite}
use execution_accelerator.Nodes.ComplexLane
use execution_accelerator.Nodes.ComplexLane.{ComplexAdapter}
use execution_accelerator.Nodes.Escalate
use execution_accelerator.Nodes.Escalate.{BundleWriter}

-- 1 where the current repository is not among the pending ones.
abbrev pub stray : Option String → List String → ℕ
stray none pending = 0
stray (some repository) pending = if one_of repository pending then 0 else 1

-- Twice the pending repositories, and one more for a stray current one.
abbrev pub open_work : RemediationState → ℕ
open_work s =
    length s.pending_repos + length s.pending_repos + stray s.current_working_repo s.pending_repos

-- A node that finishes no repository.
pub record Keeps (s s' : RemediationState) : Type 0 where
  pub pending : s'.pending_repos ≡ s.pending_repos
  pub attempts : s'.total_attempts ≡ s.total_attempts
  pub completed : s'.completed_repos ≡ s.completed_repos
  pub current :
      stray s'.current_working_repo s.pending_repos ≤ stray s.current_working_repo s.pending_repos

current_or_first-stray :
    (s : RemediationState) (repository : String)
    → current_or_first s ≡ ok repository
    → stray (some repository) s.pending_repos ≤ stray s.current_working_repo s.pending_repos
current_or_first-stray s repository h = ground (arith, eq_refl repository)

module _ (s s' : RemediationState) where
  pub detect_maven_profile-Keeps :
      (detect : RepositoryWorkspace → Step MavenExecutionPlan)
      → Verification.detect_maven_profile detect s ≡ ok s'
      → Keeps s s'
  unfolding Verification.detect_maven_profile
  detect_maven_profile-Keeps detect h =
      let (repository, first, rest) = bind_ok (current_or_first s) _ h in
      let (workspace, found, rest') = bind_ok (workspace_of s repository) _ rest in
      let (plan, detected, done) = bind_ok (detect workspace) _ rest' in
      ground (arith, current_or_first-stray s repository first, done)

  pub verify_advisory-Keeps :
      (load : VulnerabilityDetails → Step AdvisoryVerification)
      → Verification.verify_advisory load s ≡ ok s'
      → Keeps s s'
  unfolding Verification.verify_advisory
  verify_advisory-Keeps load h = ground arith

  pub verify_maven_target-Keeps :
      (load : MavenCheck) → Verification.verify_maven_target load s ≡ ok s' → Keeps s s'
  unfolding Verification.verify_maven_target
  verify_maven_target-Keeps load h = ground arith

  pub select_route-Keeps : Verification.select_route s ≡ ok s' → Keeps s s'
  unfolding Verification.select_route
  select_route-Keeps h = ground arith

  pub preflight_validate-Keeps :
      (load : PreflightCheck) → Remediation.preflight_validate load s ≡ ok s' → Keeps s s'
  unfolding Remediation.preflight_validate
  preflight_validate-Keeps load h = ground arith

  pub execute_complex_scaffold-Keeps :
      (a : ComplexAdapter) → ComplexLane.execute_complex_scaffold a s ≡ ok s' → Keeps s s'
  unfolding ComplexLane.execute_complex_scaffold
  execute_complex_scaffold-Keeps a h = ground arith

  pub validate_remediation-Keeps :
      (a : ValidationAdapter) → Validation.validate_remediation a s ≡ ok s' → Keeps s s'
  unfolding Validation.validate_remediation
  validate_remediation-Keeps a h = ground arith

  pub handle_validation_failure-Keeps :
      (a : ValidationAdapter) → Validation.handle_validation_failure a s ≡ ok s' → Keeps s s'
  unfolding Validation.handle_validation_failure
  handle_validation_failure-Keeps a h = ground arith

  pub apply_policy-Keeps :
      (config : PolicyConfig) → ApplyPolicy.apply_policy config s ≡ s' → Keeps s s'
  unfolding ApplyPolicy.apply_policy
  apply_policy-Keeps config h = ground arith

  pub review_approval-Keeps :
      (stage : ApprovalStage) → Approval.review_approval stage s ≡ s' → Keeps s s'
  unfolding Approval.review_approval
  review_approval-Keeps stage h = ground arith

  pub prepare_delivery_approval-Keeps : Approval.prepare_delivery_approval s ≡ s' → Keeps s s'
  unfolding Approval.prepare_delivery_approval
  prepare_delivery_approval-Keeps h = ground arith

  pub escalate-Keeps : (write : BundleWriter) → Escalate.escalate write s ≡ ok s' → Keeps s s'
  unfolding Escalate.escalate
  escalate-Keeps write h = ground arith

  apply_simple_plan-Keeps :
      (rewrite : PomRewrite) → Remediation.apply_simple_plan rewrite s ≡ ok s' → Keeps s s'
  unfolding Remediation.apply_simple_plan
  apply_simple_plan-Keeps rewrite h =
      let (repository, first, h1) = bind_ok (current_or_first s) _ h in
      let (workspace, found, h2) = bind_ok (workspace_of s repository) _ h1 in
      let (planned, built, h3) = bind_ok (build_simple_plan s repository) _ h2 in
      let (path, written, done) =
        bind_ok (rewrite workspace planned.0.file_path planned.1 s.maven_plan) _ h3 in
      ground (arith, current_or_first-stray s repository first, done)

  pub remediate_simple-Keeps :
      (rewrite : PomRewrite) → Remediation.remediate_simple rewrite s ≡ ok s' → Keeps s s'
  unfolding Remediation.remediate_simple
  remediate_simple-Keeps rewrite h = ground (arith, apply_simple_plan-Keeps rewrite)

  apply_transitive_plan-Keeps :
      (rewrite : PomRewrite) → Remediation.apply_transitive_plan rewrite s ≡ ok s' → Keeps s s'
  unfolding Remediation.apply_transitive_plan
  apply_transitive_plan-Keeps rewrite h =
      let (repository, first, h1) = bind_ok (current_or_first s) _ h in
      let (workspace, found, h2) = bind_ok (workspace_of s repository) _ h1 in
      let (planned, built, h3) = bind_ok (build_transitive_plan s repository) _ h2 in
      let (path, written, done) =
        bind_ok (rewrite workspace planned.0.file_path planned.1 s.maven_plan) _ h3 in
      ground (arith, current_or_first-stray s repository first, done)

  pub remediate_transitive-Keeps :
      (rewrite : PomRewrite) → Remediation.remediate_transitive rewrite s ≡ ok s' → Keeps s s'
  unfolding Remediation.remediate_transitive
  remediate_transitive-Keeps rewrite h = ground (arith, apply_transitive_plan-Keeps rewrite)

  plan_complex_remediation-Keeps :
      (a : ComplexAdapter) (details : VulnerabilityDetails) (maven : MavenVerification)
      → ComplexLane.plan_complex_remediation a details maven s ≡ ok s'
      → Keeps s s'
  unfolding ComplexLane.plan_complex_remediation
  plan_complex_remediation-Keeps a details maven h =
      let (repository, first, done) = bind_ok (current_or_first s) _ h in
      ground (arith, current_or_first-stray s repository first, done)

  pub prepare_complex_remediation-Keeps :
      (a : ComplexAdapter) → ComplexLane.prepare_complex_remediation a s ≡ ok s' → Keeps s s'
  unfolding ComplexLane.prepare_complex_remediation
  prepare_complex_remediation-Keeps a h = grind (arith, plan_complex_remediation-Keeps)

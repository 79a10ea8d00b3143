-- ===== src/Graph/Audited.antt =====
-- Nodes before the validation only add to the audit events, and add one at least.
use execution_accelerator.Prelude.{String, ◌≡◌, refl, ok, bind_ok, arith, List, ◌∷◌, ◌++◌}
use execution_accelerator.Schemas.{
  AdvisoryVerification, AuditEvent, ExecutionMode, MavenExecutionPlan, MavenVerification,
  VulnerabilityDetails,
}
use execution_accelerator.State.{RemediationState, RepositoryWorkspace, Step}
use execution_accelerator.Nodes.Verification
use execution_accelerator.Nodes.Verification.{MavenCheck, current_or_first, workspace_of}
use execution_accelerator.Nodes.PomPlan.{build_simple_plan, build_transitive_plan}
use execution_accelerator.Nodes.Remediation
use execution_accelerator.Nodes.Remediation.{PreflightCheck, PomRewrite}
use execution_accelerator.Nodes.ComplexLane
use execution_accelerator.Nodes.ComplexLane.{ComplexAdapter}
use execution_accelerator.Nodes.Intake
use execution_accelerator.Nodes.Intake.{CredentialReport, InventoryAdapter}
use execution_accelerator.Nodes.Escalate
use execution_accelerator.Nodes.Escalate.{BundleWriter}

-- A list that begins with another one and is longer.
unfoldable pub Extends : List AuditEvent → List AuditEvent → Type 0
Extends old new = (event : AuditEvent) × (added : List AuditEvent) × (new ≡ old ++ (event ∷ added))

pub Extends-intro :
    (old : List AuditEvent) (event : AuditEvent) (added : List AuditEvent)
    → Extends old (old ++ (event ∷ added))
unfolding Extends
Extends-intro old event added = (event, added, refl)

abbrev pub Audited : RemediationState → RemediationState → Type 0
Audited s s' = Extends s.audit_events s'.audit_events

module _ (s s' : RemediationState) where
  pub detect_maven_profile-Audited :
      (detect : RepositoryWorkspace → Step MavenExecutionPlan)
      → Verification.detect_maven_profile detect s ≡ ok s'
      → Audited s s'
  unfolding Verification.detect_maven_profile
  detect_maven_profile-Audited detect h =
      let (repository, first, rest) = bind_ok (current_or_first s) _ h in
      let (workspace, found, rest') = bind_ok (workspace_of s repository) _ rest in
      let (plan, detected, done) = bind_ok (detect workspace) _ rest' in
      grind (arith, done, Extends-intro)

  pub verify_advisory-Audited :
      (load : VulnerabilityDetails → Step AdvisoryVerification)
      → Verification.verify_advisory load s ≡ ok s'
      → Audited s s'
  unfolding Verification.verify_advisory
  verify_advisory-Audited load h = grind (arith, Extends-intro)

  pub verify_maven_target-Audited :
      (load : MavenCheck) → Verification.verify_maven_target load s ≡ ok s' → Audited s s'
  unfolding Verification.verify_maven_target
  verify_maven_target-Audited load h = grind (arith, Extends-intro)

  pub select_route-Audited : Verification.select_route s ≡ ok s' → Audited s s'
  unfolding Verification.select_route
  select_route-Audited h = grind (arith, Extends-intro)

  pub preflight_validate-Audited :
      (load : PreflightCheck) → Remediation.preflight_validate load s ≡ ok s' → Audited s s'
  unfolding Remediation.preflight_validate
  preflight_validate-Audited load h = grind (arith, Extends-intro)

  pub execute_complex_scaffold-Audited :
      (a : ComplexAdapter) → ComplexLane.execute_complex_scaffold a s ≡ ok s' → Audited s s'
  unfolding ComplexLane.execute_complex_scaffold
  execute_complex_scaffold-Audited a h = grind (arith, Extends-intro)

  pub escalate-Audited : (write : BundleWriter) → Escalate.escalate write s ≡ ok s' → Audited s s'
  unfolding Escalate.escalate
  escalate-Audited write h = grind (arith, Extends-intro)

  apply_simple_plan-Audited :
      (rewrite : PomRewrite) → Remediation.apply_simple_plan rewrite s ≡ ok s' → Audited s s'
  unfolding Remediation.apply_simple_plan
  apply_simple_plan-Audited rewrite h =
      let (repository, first, h1) = bind_ok (current_or_first s) _ h in
      let (workspace, found, h2) = bind_ok (workspace_of s repository) _ h1 in
      let (planned, built, h3) = bind_ok (build_simple_plan s repository) _ h2 in
      let (path, written, done) =
        bind_ok (rewrite workspace planned.0.file_path planned.1 s.maven_plan) _ h3 in
      grind (arith, done, Extends-intro)

  pub remediate_simple-Audited :
      (rewrite : PomRewrite) → Remediation.remediate_simple rewrite s ≡ ok s' → Audited s s'
  unfolding Remediation.remediate_simple
  remediate_simple-Audited rewrite h = grind (arith, Extends-intro, apply_simple_plan-Audited)

  apply_transitive_plan-Audited :
      (rewrite : PomRewrite) → Remediation.apply_transitive_plan rewrite s ≡ ok s' → Audited s s'
  unfolding Remediation.apply_transitive_plan
  apply_transitive_plan-Audited rewrite h =
      let (repository, first, h1) = bind_ok (current_or_first s) _ h in
      let (workspace, found, h2) = bind_ok (workspace_of s repository) _ h1 in
      let (planned, built, h3) = bind_ok (build_transitive_plan s repository) _ h2 in
      let (path, written, done) =
        bind_ok (rewrite workspace planned.0.file_path planned.1 s.maven_plan) _ h3 in
      grind (arith, done, Extends-intro)

  pub remediate_transitive-Audited :
      (rewrite : PomRewrite) → Remediation.remediate_transitive rewrite s ≡ ok s' → Audited s s'
  unfolding Remediation.remediate_transitive
  remediate_transitive-Audited rewrite h =
      grind (arith, Extends-intro, apply_transitive_plan-Audited)

  plan_complex_remediation-Audited :
      (a : ComplexAdapter) (details : VulnerabilityDetails) (maven : MavenVerification)
      → ComplexLane.plan_complex_remediation a details maven s ≡ ok s'
      → Audited s s'
  unfolding ComplexLane.plan_complex_remediation
  plan_complex_remediation-Audited a details maven h =
      let (repository, first, done) = bind_ok (current_or_first s) _ h in
      grind (arith, done, Extends-intro)

  pub prepare_complex_remediation-Audited :
      (a : ComplexAdapter) → ComplexLane.prepare_complex_remediation a s ≡ ok s' → Audited s s'
  unfolding ComplexLane.prepare_complex_remediation
  prepare_complex_remediation-Audited a h =
      grind (arith, Extends-intro, plan_complex_remediation-Audited)

  pub bootstrap_state-Audited : Intake.bootstrap_state s ≡ s' → Audited s s'
  unfolding Intake.bootstrap_state
  bootstrap_state-Audited h = grind (arith, Extends-intro)

  pub probe_live_credentials-Audited :
      (mode : ExecutionMode) (probe : Step CredentialReport)
      → Intake.probe_live_credentials mode probe s ≡ ok s'
      → Audited s s'
  unfolding Intake.probe_live_credentials
  probe_live_credentials-Audited mode probe h = grind (arith, Extends-intro)

  pub ingest_and_parse_jira-Audited :
      (load : String → Step VulnerabilityDetails)
      → Intake.ingest_and_parse_jira load s ≡ ok s'
      → Audited s s'
  unfolding Intake.ingest_and_parse_jira
  ingest_and_parse_jira-Audited load h = grind (arith, Extends-intro)

  pub load_repository_context-Audited :
      (a : InventoryAdapter) → Intake.load_repository_context a s ≡ ok s' → Audited s s'
  unfolding Intake.load_repository_context
  load_repository_context-Audited a h = grind (arith, Extends-intro)

  pub check_repository_idempotency-Audited :
      (a : InventoryAdapter) → Intake.check_repository_idempotency a s ≡ ok s' → Audited s s'
  unfolding Intake.check_repository_idempotency
  check_repository_idempotency-Audited a h = grind (arith, Extends-intro)

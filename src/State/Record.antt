-- ===== src/State/Record.antt =====
-- `RemediationState` of src/execution_accelerator/state.py: all that a run keeps in its checkpoints.
use execution_accelerator.Prelude.{ℕ, String, Bool, Option, List}
use execution_accelerator.Schemas.{
  WorkflowStatus, ApprovalStage, FailureClassification, AuditEvent, VulnerabilityDetails,
  RemediationTarget, MavenExecutionPlan, AdvisoryVerification, MavenVerification,
  RemediationRouteDecision, ArtifactCandidate, CompatibilityDiffResult, DecompiledArtifactSummary,
  SymbolMappingEntry, PomMutationPlan, PreflightResolutionResult, ComplexRemediationPlan,
  ComplexCodeChangePlan, RemediationPlan, RollbackPlan, BranchPublicationResult, PullRequestSummary,
  JiraCompletionResult, RetryDecision, PolicyDecision, ApprovalRecord, RepositoryValidationResult,
  EscalationBundle, LlmCallRecord, RepairProposal, HumanFeedback,
}
use execution_accelerator.State.Parts.{
  RepositoryWorkspace, SkippedRepository, CodeDiffSummary, WorkflowError,
}

-- End-to-end workflow state persisted by LangGraph checkpoints.
pub record RemediationState : Type 0 where
  pub initial_ticket_id : String
  pub workflow_status : WorkflowStatus
  pub vulnerability_details : Option VulnerabilityDetails
  pub advisory_verification : Option AdvisoryVerification
  pub maven_verification : Option MavenVerification
  pub route_decision : Option RemediationRouteDecision
  pub pom_mutation_plan : Option PomMutationPlan
  pub preflight_resolution : Option PreflightResolutionResult
  pub artifact_candidates : List ArtifactCandidate
  pub compatibility_diff : Option CompatibilityDiffResult
  pub complex_remediation_plan : Option ComplexRemediationPlan
  pub decompiled_artifacts : List DecompiledArtifactSummary
  pub symbol_mappings : List SymbolMappingEntry
  pub code_change_plan : Option ComplexCodeChangePlan
  pub maven_plan : Option MavenExecutionPlan
  pub targets : List RemediationTarget
  pub current_target_index : ℕ
  pub repo_map : List (String × RepositoryWorkspace)
  pub pending_repos : List String
  pub current_working_repo : Option String
  pub completed_repos : List String
  pub skipped_repos : List SkippedRepository
  pub remediation_plan : Option RemediationPlan
  pub modified_files : List String
  pub code_diffs : List CodeDiffSummary
  pub validation_results : List RepositoryValidationResult
  pub rollback_plan : Option RollbackPlan
  pub branch_publication : Option BranchPublicationResult
  pub pull_request_summary : Option PullRequestSummary
  pub jira_completion : Option JiraCompletionResult
  pub total_attempts : ℕ
  pub failure_classifications : List FailureClassification
  pub policy_decisions : List PolicyDecision
  pub llm_calls : List LlmCallRecord
  pub llm_tokens_used : ℕ
  pub repair_proposals : List RepairProposal
  pub relevant_repair_inputs : List (String × String)
  pub errors : List WorkflowError
  pub retry_count : ℕ
  pub retry_decision : Option RetryDecision
  pub requires_human_approval : Bool
  pub requires_delivery_approval : Bool
  pub pending_approval_stage : Option ApprovalStage
  pub pending_approval_reason : Option String
  pub human_feedback : Option HumanFeedback
  pub approval_history : List ApprovalRecord
  pub escalation_bundle : Option EscalationBundle
  pub audit_events : List AuditEvent

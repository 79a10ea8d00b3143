-- ===== src/Schemas/Results.antt =====
-- Results of validation, delivery, policy, review and the calls of a language model: records of src/execution_accelerator/schemas.py.
use execution_accelerator.Prelude.{ℕ, String, Bool, Option, List}
use execution_accelerator.Schemas.Enums.{RemediationStrategy, ValidationStatus, RollbackStatus}
use execution_accelerator.Schemas.Kinds.{
  ApprovalDecision, ApprovalStage, FailureClassification, ComplexMigrationTactic,
}

-- Placeholder rollback plan emitted after validation failure.
pub record RollbackPlan : Type 0 where
  pub repository : String
  pub status : RollbackStatus
  pub reason : String
  pub files_to_restore : List String

-- Placeholder branch/commit publication metadata for a completed remediation.
pub record BranchPublicationResult : Type 0 where
  pub repository : String
  pub branch_name : String
  pub commit_sha : String
  pub commit_message : String
  pub pushed : Bool

-- Placeholder pull request metadata emitted after publication.
pub record PullRequestSummary : Type 0 where
  pub repository : String
  pub number : ℕ
  pub url : String
  pub title : String
  pub status : String

-- Placeholder Jira completion metadata for a finished remediation.
pub record JiraCompletionResult : Type 0 where
  pub ticket_id : String
  pub status : String
  pub comment : String

-- Decision produced by the retry classifier.
pub record RetryDecision : Type 0 where
  pub classification : FailureClassification
  pub next_node : String
  pub max_attempts : ℕ
  pub reason : String

-- Policy evaluation result for one remediation target.
pub record PolicyDecision : Type 0 where
  pub allowed : Bool
  pub requires_human_approval : Bool
  pub requires_delivery_approval : Bool
  pub approval_reason : Option String
  pub blocked_reason : Option String

-- One persisted human approval decision.
pub record ApprovalRecord : Type 0 where
  pub stage : ApprovalStage
  pub decision : ApprovalDecision
  pub reviewer : Option String
  pub comments : Option String

-- Single validation step executed against a repository.
pub record ValidationCheck : Type 0 where
  pub name : String
  pub status : ValidationStatus
  pub details : Option String

-- Aggregated validation result for one repository.
pub record RepositoryValidationResult : Type 0 where
  pub repository : String
  pub status : ValidationStatus
  pub checks : List ValidationCheck
  pub summary : Option String

-- Persisted escalation artifact produced for terminal failures.
pub record EscalationBundle : Type 0 where
  pub bundle_path : String
  pub failure_classification : FailureClassification
  pub failed_repository : Option String
  pub error_codes : List String
  pub pending_repos : List String
  pub completed_repos : List String
  pub skipped_repos : List (List (String × String))
  pub route_strategy : Option RemediationStrategy
  pub route_reason : Option String
  pub approval_stage : Option ApprovalStage
  pub approval_reviewer : Option String
  pub approval_comments : Option String
  pub validation_status : Option ValidationStatus
  pub validation_summary : Option String
  pub primary_validation_check : Option String
  pub primary_validation_check_status : Option ValidationStatus
  pub primary_validation_check_details : Option String
  pub branch_publication : Option BranchPublicationResult
  pub pull_request_summary : Option PullRequestSummary
  pub jira_completion : Option JiraCompletionResult
  pub modified_files : List String
  pub code_diff_summaries : List String
  pub complex_migration_tactic : Option ComplexMigrationTactic
  pub complex_target_files : List String
  pub complex_open_questions : List String
  pub log_files : List String
  pub audit_event_count : ℕ

-- Minimal audit payload for an LLM call.
pub record LlmCallRecord : Type 0 where
  pub provider : String
  pub model : String
  pub prompt_name : String
  pub token_count : ℕ

-- LLM-generated patch proposal staged for compile-gated application.
pub record RepairProposal : Type 0 where
  pub failure_classification : FailureClassification
  pub rationale : String
  pub unified_diff : String
  pub affected_files : List String
  pub attempt_index : ℕ

-- Human review feedback captured during interrupt/resume flows.
pub record HumanFeedback : Type 0 where
  pub decision : ApprovalDecision
  pub reviewer : Option String
  pub comments : Option String

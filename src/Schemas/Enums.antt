-- ===== src/Schemas/Enums.antt =====
-- The enumerations of src/execution_accelerator/schemas.py, and the text that each member stands for.
use execution_accelerator.Prelude.{String}

-- Normalized vulnerability severity.
pub data Severity : Type 0 where
  unknown low medium high critical : Severity

abbrev pub severity_text : Severity → String
severity_text Severity.unknown = "unknown"
severity_text Severity.low = "low"
severity_text Severity.medium = "medium"
severity_text Severity.high = "high"
severity_text Severity.critical = "critical"

-- Routing lanes for the remediation workflow.
pub data RemediationStrategy : Type 0 where
  unknown simple_update transitive_override complex_refactor : RemediationStrategy

abbrev pub remediation_strategy_text : RemediationStrategy → String
remediation_strategy_text RemediationStrategy.unknown = "unknown"
remediation_strategy_text RemediationStrategy.simple_update = "simple_update"
remediation_strategy_text RemediationStrategy.transitive_override = "transitive_override"
remediation_strategy_text RemediationStrategy.complex_refactor = "complex_refactor"

-- Top-level workflow progress markers.
pub data WorkflowStatus : Type 0 where
  pending bootstrapped planning_ready in_progress completed failed : WorkflowStatus

abbrev pub workflow_status_text : WorkflowStatus → String
workflow_status_text WorkflowStatus.pending = "pending"
workflow_status_text WorkflowStatus.bootstrapped = "bootstrapped"
workflow_status_text WorkflowStatus.planning_ready = "planning_ready"
workflow_status_text WorkflowStatus.in_progress = "in_progress"
workflow_status_text WorkflowStatus.completed = "completed"
workflow_status_text WorkflowStatus.failed = "failed"

-- Top-level execution mode for fixture-backed versus live integrations.
pub data ExecutionMode : Type 0 where
  fixture live : ExecutionMode

abbrev pub execution_mode_text : ExecutionMode → String
execution_mode_text ExecutionMode.fixture = "fixture"
execution_mode_text ExecutionMode.live = "live"

-- Status for validation checks and repo-level validation.
pub data ValidationStatus : Type 0 where
  pending passed failed skipped : ValidationStatus

abbrev pub validation_status_text : ValidationStatus → String
validation_status_text ValidationStatus.pending = "pending"
validation_status_text ValidationStatus.passed = "passed"
validation_status_text ValidationStatus.failed = "failed"
validation_status_text ValidationStatus.skipped = "skipped"

-- Status of rollback work after validation failure.
pub data RollbackStatus : Type 0 where
  pending applied skipped : RollbackStatus

abbrev pub rollback_status_text : RollbackStatus → String
rollback_status_text RollbackStatus.pending = "pending"
rollback_status_text RollbackStatus.applied = "applied"
rollback_status_text RollbackStatus.skipped = "skipped"

-- Status for advisory and Maven verification steps.
pub data VerificationStatus : Type 0 where
  pending verified rejected : VerificationStatus

abbrev pub verification_status_text : VerificationStatus → String
verification_status_text VerificationStatus.pending = "pending"
verification_status_text VerificationStatus.verified = "verified"
verification_status_text VerificationStatus.rejected = "rejected"

-- ===== src/Schemas/Kinds.antt =====
-- More enumerations of src/execution_accelerator/schemas.py.
use execution_accelerator.Prelude.{String}

-- Possible human review outcomes.
pub data ApprovalDecision : Type 0 where
  pending approved rejected : ApprovalDecision

abbrev pub approval_decision_text : ApprovalDecision → String
approval_decision_text ApprovalDecision.pending = "pending"
approval_decision_text ApprovalDecision.approved = "approved"
approval_decision_text ApprovalDecision.rejected = "rejected"

-- Named approval checkpoints in the workflow.
pub data ApprovalStage : Type 0 where
  remediation delivery : ApprovalStage

abbrev pub approval_stage_text : ApprovalStage → String
approval_stage_text ApprovalStage.remediation = "remediation"
approval_stage_text ApprovalStage.delivery = "delivery"

-- Normalized failure classes for retry and escalation routing.
pub data FailureClassification : Type 0 where
  network_transient compile_error test_failure policy_block recipe_noop license_violation
        llm_schema_invalid llm_patch_uncompilable idempotent_hit unknown :
      FailureClassification

abbrev pub failure_classification_text : FailureClassification → String
failure_classification_text FailureClassification.network_transient = "network_transient"
failure_classification_text FailureClassification.compile_error = "compile_error"
failure_classification_text FailureClassification.test_failure = "test_failure"
failure_classification_text FailureClassification.policy_block = "policy_block"
failure_classification_text FailureClassification.recipe_noop = "recipe_noop"
failure_classification_text FailureClassification.license_violation = "license_violation"
failure_classification_text FailureClassification.llm_schema_invalid = "llm_schema_invalid"
failure_classification_text FailureClassification.llm_patch_uncompilable = "llm_patch_uncompilable"
failure_classification_text FailureClassification.idempotent_hit = "idempotent_hit"
failure_classification_text FailureClassification.unknown = "unknown"

-- Whether the vulnerable dependency is direct or transitive.
pub data MavenDependencyKind : Type 0 where
  direct transitive : MavenDependencyKind

abbrev pub maven_dependency_kind_text : MavenDependencyKind → String
maven_dependency_kind_text MavenDependencyKind.direct = "direct"
maven_dependency_kind_text MavenDependencyKind.transitive = "transitive"

-- Compatibility risk level for a proposed remediation target.
pub data CompatibilityRisk : Type 0 where
  low medium high : CompatibilityRisk

abbrev pub compatibility_risk_text : CompatibilityRisk → String
compatibility_risk_text CompatibilityRisk.low = "low"
compatibility_risk_text CompatibilityRisk.medium = "medium"
compatibility_risk_text CompatibilityRisk.high = "high"

-- Kinds of compatibility changes observed between artifact versions.
pub data CompatibilityChangeType : Type 0 where
  added removed modified deprecated : CompatibilityChangeType

abbrev pub compatibility_change_type_text : CompatibilityChangeType → String
compatibility_change_type_text CompatibilityChangeType.added = "added"
compatibility_change_type_text CompatibilityChangeType.removed = "removed"
compatibility_change_type_text CompatibilityChangeType.modified = "modified"
compatibility_change_type_text CompatibilityChangeType.deprecated = "deprecated"

-- Primary tactic chosen for the complex remediation lane.
pub data ComplexMigrationTactic : Type 0 where
  adapter_shim factory_introduction targeted_symbol_rewrite : ComplexMigrationTactic

abbrev pub complex_migration_tactic_text : ComplexMigrationTactic → String
complex_migration_tactic_text ComplexMigrationTactic.adapter_shim = "adapter_shim"
complex_migration_tactic_text ComplexMigrationTactic.factory_introduction = "factory_introduction"
complex_migration_tactic_text ComplexMigrationTactic.targeted_symbol_rewrite =
    "targeted_symbol_rewrite"

-- Kinds of pom mutations supported by the Day 5 simple remediation flow.
pub data PomMutationKind : Type 0 where
  direct_version_bump dependency_management_override : PomMutationKind

abbrev pub pom_mutation_kind_text : PomMutationKind → String
pom_mutation_kind_text PomMutationKind.direct_version_bump = "direct_version_bump"
pom_mutation_kind_text PomMutationKind.dependency_management_override =
    "dependency_management_override"

-- Pom section targeted by a mutation change.
pub data PomSectionTarget : Type 0 where
  project_dependencies dependency_management : PomSectionTarget

abbrev pub pom_section_target_text : PomSectionTarget → String
pom_section_target_text PomSectionTarget.project_dependencies = "project_dependencies"
pom_section_target_text PomSectionTarget.dependency_management = "dependency_management"

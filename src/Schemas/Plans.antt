-- ===== src/Schemas/Plans.antt =====
-- Plans and results of the remediation lanes: records of src/execution_accelerator/schemas.py.
-- A confidence is counted in ten-thousandths.
use execution_accelerator.Prelude.{ℕ, String, Bool, Option, List}
use execution_accelerator.Schemas.Enums.{RemediationStrategy, ValidationStatus}
use execution_accelerator.Schemas.Kinds.{
  MavenDependencyKind, CompatibilityRisk, CompatibilityChangeType, ComplexMigrationTactic,
  PomMutationKind, PomSectionTarget,
}

-- Maven dependency coordinate used in simple remediation planning.
pub record DependencyCoordinate : Type 0 where
  pub group_id : String
  pub artifact_id : String
  pub version : String

-- Candidate artifact considered during complex remediation planning.
pub record ArtifactCandidate : Type 0 where
  pub coordinate : DependencyCoordinate
  pub source : String
  pub packaging : String
  pub rationale : String

-- One compatibility finding for the complex remediation lane.
pub record CompatibilityDiffEntry : Type 0 where
  pub symbol : String
  pub change_type : CompatibilityChangeType
  pub impact : String
  pub guidance : Option String

-- Placeholder compatibility diff summary between current and target artifacts.
pub record CompatibilityDiffResult : Type 0 where
  pub package_name : String
  pub baseline_version : String
  pub target_version : String
  pub summary : String
  pub risk : CompatibilityRisk
  pub breaking_changes : List CompatibilityDiffEntry

-- Placeholder output from fetching and decompiling one candidate artifact.
pub record DecompiledArtifactSummary : Type 0 where
  pub coordinate : DependencyCoordinate
  pub source_path : String
  pub package_count : ℕ
  pub symbol_count : ℕ
  pub notes : String

-- Mapping between a legacy symbol and its target replacement.
pub record SymbolMappingEntry : Type 0 where
  pub legacy_symbol : String
  pub replacement_symbol : String
  pub confidence : ℕ
  pub rationale : String

-- One file-level change target derived from complex remediation analysis.
pub record CodeChangeTarget : Type 0 where
  pub file_path : String
  pub change_summary : String
  pub related_symbols : List String

-- One mutation to apply to a pom file.
pub record PomMutationChange : Type 0 where
  pub file_path : String
  pub dependency : DependencyCoordinate
  pub mutation_kind : PomMutationKind
  pub target_section : PomSectionTarget
  pub previous_version : String
  pub target_version : String
  pub xml_path_hint : String

-- Planned simple remediation changes for one repository.
pub record PomMutationPlan : Type 0 where
  pub repository : String
  pub strategy : RemediationStrategy
  pub changes : List PomMutationChange
  pub summary : String

-- Result of validating the mutated pom configuration before full remediation.
pub record PreflightResolutionResult : Type 0 where
  pub repository : String
  pub status : ValidationStatus
  pub resolved_version : String
  pub dependency_kind : MavenDependencyKind
  pub message : String

-- Planned Day 7 complex-remediation analysis for one repository.
pub record ComplexRemediationPlan : Type 0 where
  pub repository : String
  pub strategy : RemediationStrategy
  pub summary : String
  pub artifact_candidates : List ArtifactCandidate
  pub compatibility_diff : CompatibilityDiffResult
  pub migration_tactic : ComplexMigrationTactic
  pub tactic_rationale : String
  pub migration_steps : List String
  pub target_files : List CodeChangeTarget
  pub symbol_mappings : List SymbolMappingEntry
  pub open_questions : List String
  pub requires_code_changes : Bool

-- Structured code-change planning placeholder for the complex remediation lane.
pub record ComplexCodeChangePlan : Type 0 where
  pub repository : String
  pub summary : String
  pub target_files : List CodeChangeTarget
  pub symbol_mappings : List SymbolMappingEntry
  pub open_questions : List String

-- Planner output that guides the next stages of execution.
pub record RemediationPlan : Type 0 where
  pub strategy : RemediationStrategy
  pub summary : String
  pub rationale : String
  pub target_repositories : List String
  pub requires_human_approval : Bool

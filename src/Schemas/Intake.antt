-- ===== src/Schemas/Intake.antt =====
-- Audit events, vulnerabilities, repositories and verification results: records of src/execution_accelerator/schemas.py.
-- The time of an event is left out. A confidence is counted in ten-thousandths.
use execution_accelerator.Prelude.{ℕ, String, Bool, Option, List}
use execution_accelerator.Schemas.Enums.{Severity, RemediationStrategy, VerificationStatus}
use execution_accelerator.Schemas.Kinds.{MavenDependencyKind, CompatibilityRisk}

-- A value in the `details` of an audit event; only what the program puts there.
pub data Detail : Type 0 where
  missing : Detail
  flag : Bool → Detail
  number : ℕ → Detail
  string : String → Detail
  strings : List String → Detail

-- Append-only audit event emitted during workflow execution.
pub record AuditEvent : Type 0 where
  pub event_type : String
  pub message : String
  pub details : List (String × Detail)

-- External reference tied to a vulnerability or remediation record.
pub record VulnerabilityReference : Type 0 where
  pub source : String
  pub identifier : String
  pub url : Option String

-- Repository linked to a vulnerability.
pub record AffectedRepository : Type 0 where
  pub name : String
  pub clone_url : Option String
  pub default_branch : String
  pub build_system : String
  pub manifest_path : Option String

-- Normalized vulnerability metadata used by the remediation workflow.
pub record VulnerabilityDetails : Type 0 where
  pub package_name : String
  pub installed_version : String
  pub summary : String
  pub cve_id : Option String
  pub fixed_version : Option String
  pub severity : Severity
  pub affected_repositories : List AffectedRepository
  pub references : List VulnerabilityReference

-- Repository metadata discovered during intake and clone preparation.
pub record RepositoryInventoryRecord : Type 0 where
  pub name : String
  pub clone_url : String
  pub default_branch : String
  pub build_system : String
  pub manifest_path : String
  pub maven_settings : Option String
  pub proxy_jump : Option String
  pub ssh_key : Option String
  pub owner : Option String
  pub tags : List String

-- One remediation unit for a repository/package/version combination.
pub record RemediationTarget : Type 0 where
  pub ticket_id : String
  pub repository_name : String
  pub package_name : String
  pub installed_version : String
  pub target_version : Option String
  pub clone_url : String
  pub default_branch : String
  pub build_system : String
  pub manifest_path : String
  pub maven_settings : Option String
  pub proxy_jump : Option String
  pub ssh_key : Option String
  pub owner : Option String
  pub tags : List String

-- Detected Maven execution settings for a cloned repository workspace.
pub record MavenExecutionPlan : Type 0 where
  pub repository : String
  pub command : List String
  pub root_pom_path : String
  pub uses_wrapper : Bool
  pub modules : List String
  pub profiles : List String
  pub settings_xml : Option String
  pub java_home : Option String

-- Normalized advisory verification result for a vulnerable package.
pub record AdvisoryVerification : Type 0 where
  pub package_name : String
  pub vulnerable_version : String
  pub recommended_fix_version : String
  pub status : VerificationStatus
  pub source : String
  pub summary : String
  pub cve_id : Option String
  pub severity : Severity
  pub references : List VulnerabilityReference

-- Result of verifying a remediation target against Maven-style metadata.
pub record MavenVerification : Type 0 where
  pub package_name : String
  pub current_version : String
  pub target_version : String
  pub dependency_kind : MavenDependencyKind
  pub status : VerificationStatus
  pub compatibility_risk : CompatibilityRisk
  pub resolver_note : String

-- Routing decision produced after advisory and Maven verification.
pub record RemediationRouteDecision : Type 0 where
  pub strategy : RemediationStrategy
  pub reason : String
  pub confidence : ℕ
  pub requires_human_approval : Bool

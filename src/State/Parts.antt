-- ===== src/State/Parts.antt =====
-- The small records of src/execution_accelerator/state.py.
use execution_accelerator.Prelude.{ℕ, String, Bool, Option, List}

-- Repository-specific execution context tracked in workflow state.
pub record RepositoryWorkspace : Type 0 where
  pub name : String
  pub local_path : String
  pub clone_url : Option String
  pub default_branch : String
  pub build_system : String
  pub manifest_path : Option String
  pub maven_settings : Option String
  pub proxy_jump : Option String
  pub ssh_key : Option String
  pub owner : Option String
  pub tags : List String

-- Repository skipped during remediation with an explicit reason.
pub record SkippedRepository : Type 0 where
  pub name : String
  pub reason : String

-- Lightweight diff metadata produced by remediation steps.
pub record CodeDiffSummary : Type 0 where
  pub file_path : String
  pub change_summary : String
  pub additions : ℕ
  pub deletions : ℕ

-- Structured workflow error captured for retry and audit behavior.
pub record WorkflowError : Type 0 where
  pub code : String
  pub message : String
  pub recoverable : Bool
  pub repository : Option String

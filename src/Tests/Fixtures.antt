-- ===== src/Tests/Fixtures.antt =====
-- One repository with one vulnerable dependency, and adapters that answer for it.
use execution_accelerator.Prelude.{String, Bool, true, false, none, some, List, [], ◌∷◌, ok, raised}
use execution_accelerator.Schemas.{
  AdvisoryVerification, ApprovalDecision, BranchPublicationResult, CompatibilityRisk, ExecutionMode,
  HumanFeedback, JiraCompletionResult, MavenDependencyKind, MavenExecutionPlan, MavenVerification,
  PreflightResolutionResult, PullRequestSummary, RemediationRouteDecision, RemediationStrategy,
  RemediationTarget, RepositoryValidationResult, RollbackPlan, RollbackStatus, Severity,
  ValidationCheck, ValidationStatus, VerificationStatus, VulnerabilityDetails,
}
use execution_accelerator.State.{RepositoryWorkspace, uncaught}
use execution_accelerator.Policy.{PolicyConfig, default_config}
use execution_accelerator.Nodes.ComplexLane.{ComplexAdapter}
use execution_accelerator.Nodes.Delivery.{DeliveryAdapter, DeliveryError}
use execution_accelerator.Nodes.Intake.{InventoryAdapter}
use execution_accelerator.Nodes.Retry.{RetryLimits}
use execution_accelerator.Nodes.Validation.{ValidationAdapter}
use execution_accelerator.Graph.Run.{Adapters, Settings}

abbrev pub details : VulnerabilityDetails
details = record {
  package_name = "org.lib:core";
  installed_version = "1.0";
  summary = "A weakness.";
  cve_id = none;
  fixed_version = some "1.1";
  severity = Severity.high;
  affected_repositories = [];
  references = [];
}

abbrev pub target : RemediationTarget
target = record {
  ticket_id = "T-1";
  repository_name = "api";
  package_name = "org.lib:core";
  installed_version = "1.0";
  target_version = none;
  clone_url = "git@host:api";
  default_branch = "main";
  build_system = "maven";
  manifest_path = "pom.xml";
  maven_settings = none;
  proxy_jump = none;
  ssh_key = none;
  owner = none;
  tags = "core" ∷ [];
}

abbrev pub workspace : RepositoryWorkspace
workspace = record {
  name = "api";
  local_path = "work/api";
  clone_url = none;
  default_branch = "main";
  build_system = "maven";
  manifest_path = none;
  maven_settings = none;
  proxy_jump = none;
  ssh_key = none;
  owner = none;
  tags = [];
}

abbrev pub maven_plan : MavenExecutionPlan
maven_plan = record {
  repository = "api";
  command = "mvn" ∷ [];
  root_pom_path = "pom.xml";
  uses_wrapper = false;
  modules = [];
  profiles = [];
  settings_xml = none;
  java_home = none;
}

abbrev pub advisory : AdvisoryVerification
advisory = record {
  package_name = "org.lib:core";
  vulnerable_version = "1.0";
  recommended_fix_version = "1.1";
  status = VerificationStatus.verified;
  source = "osv";
  summary = "";
  cve_id = none;
  severity = Severity.high;
  references = [];
}

abbrev pub maven_check : MavenVerification
maven_check = record {
  package_name = "org.lib:core";
  current_version = "1.0";
  target_version = "1.1";
  dependency_kind = MavenDependencyKind.direct;
  status = VerificationStatus.verified;
  compatibility_risk = CompatibilityRisk.low;
  resolver_note = "";
}

abbrev pub preflight : PreflightResolutionResult
preflight = record {
  repository = "api";
  status = ValidationStatus.passed;
  resolved_version = "1.1";
  dependency_kind = MavenDependencyKind.direct;
  message = "";
}

abbrev pub check : String → ValidationStatus → ValidationCheck
check name status = record { name = name; status = status; details = none }

abbrev pub validation : ValidationStatus → List ValidationCheck → RepositoryValidationResult
validation status checks = record {
  repository = "api";
  status = status;
  checks = checks;
  summary = none;
}

abbrev pub branch : BranchPublicationResult
branch = record {
  repository = "api";
  branch_name = "fix/T-1";
  commit_sha = "abc";
  commit_message = "Fix";
  pushed = true;
}

abbrev pub pull_request : PullRequestSummary
pull_request = record {
  repository = "api";
  number = 7;
  url = "https://host/7";
  title = "Fix";
  status = "open";
}

abbrev pub jira : JiraCompletionResult
jira = record { ticket_id = "T-1"; status = "Done"; comment = "" }

abbrev pub rollback : RollbackPlan
rollback = record {
  repository = "api";
  status = RollbackStatus.applied;
  reason = "";
  files_to_restore = [];
}

-- No target has a pull request yet.
abbrev pub inventory : InventoryAdapter
inventory = record {
  resolve_repositories = λ d. ok [];
  build_targets = λ ticket d. ok (target ∷ []);
  find_existing_pull_request = λ t. ok none;
  prepare_workspace = λ ticket r. ok workspace;
}

-- Each call of the delivery succeeds.
abbrev pub delivery : DeliveryAdapter
delivery = record {
  load_branch_publication = λ r w t p. ok branch;
  load_pull_request = λ r o b h t p d body. ok pull_request;
  load_jira_completion = λ t r u c. ok jira;
}

-- The branch cannot be pushed in time.
abbrev pub slow_delivery : DeliveryAdapter
slow_delivery = record {
  load_branch_publication = λ r w t p. raised (DeliveryError.timeout "late");
  load_pull_request = λ r o b h t p d body. ok pull_request;
  load_jira_completion = λ t r u c. ok jira;
}

abbrev pub complex : ComplexAdapter
complex = record {
  load_artifact_candidates = raised (uncaught "unused");
  load_compatibility_diff = raised (uncaught "unused");
  select_migration_tactic = λ d. raised (uncaught "unused");
  build_migration_steps = λ d. raised (uncaught "unused");
  load_decompiled_artifacts = raised (uncaught "unused");
  load_symbol_mappings = raised (uncaught "unused");
  load_code_change_plan = raised (uncaught "unused");
  materialize = λ w p c. raised (uncaught "unused");
}

abbrev pub validator : ValidationAdapter
validator = record {
  load_validation_result = λ r w m d v.
      ok (validation ValidationStatus.passed (check "test" ValidationStatus.passed ∷ []));
  load_rollback_plan = λ r w fs. ok rollback;
}

abbrev pub adapters : Adapters
adapters = record {
  probe = ok (record { skipped = true; jira_ok = true; github_ok = true });
  jira = λ ticket. ok details;
  inventory = inventory;
  detect = λ w. ok maven_plan;
  advisory = λ d. ok advisory;
  maven = λ d v w p. ok maven_check;
  complex = complex;
  pom = λ w path plan m. ok "work/api/pom.xml";
  preflight = λ r w d m p. ok preflight;
  validation = validator;
  delivery = delivery;
  bundle = λ s. ok ("escalations/T-1.json", []);
}

abbrev pub limits : RetryLimits
limits = record { max_total_attempts = 3; max_retry_attempts = 2 }

abbrev pub settings : Bool → Settings
settings dry_run = record {
  dry_run = dry_run;
  execution_mode = ExecutionMode.fixture;
  limits = limits;
  policy = default_config;
}

abbrev pub simple_route : RemediationRouteDecision
simple_route = record {
  strategy = RemediationStrategy.simple_update;
  reason = "direct";
  confidence = 9300;
  requires_human_approval = false;
}

-- A policy that blocks the tag of the target.
abbrev pub blocking : PolicyConfig
blocking = record default_config { blocked_tags = "core" ∷ [] }

abbrev pub approval : HumanFeedback
approval = record { decision = ApprovalDecision.approved; reviewer = some "Ann"; comments = none }

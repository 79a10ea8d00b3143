-- ===== src/Nodes/Intake.antt =====
-- nodes/bootstrap.py and nodes/intake.py: the start of a run, the ticket, and the repositories it
-- names. Credentials, Jira and the repository inventory are parameters.
use execution_accelerator.Prelude.{
  String, Bool, Option, none, some, List, [], ◌∷◌, ◌++◌, map, length, concat, assign, ok, ◌>>=◌,
  if◌then◌else◌,
}
use execution_accelerator.Schemas.{
  ExecutionMode, execution_mode_text, RemediationTarget, RepositoryInventoryRecord,
  VulnerabilityDetails, WorkflowStatus, flag, number, string, strings,
}
use execution_accelerator.State.{
  RemediationState, RepositoryWorkspace, SkippedRepository, Step, audit_event, require_state_field,
}

abbrev repositories_of : Option VulnerabilityDetails → List String
repositories_of none = []
repositories_of (some details) = map (λ repo. repo.name) details.affected_repositories

abbrev or_else : List String → List String → List String
or_else [] others = others
or_else (s ∷ ss) others = s ∷ ss

unfoldable pub bootstrap_state : RemediationState → RemediationState
bootstrap_state state = record state {
  workflow_status = WorkflowStatus.bootstrapped;
  pending_repos = or_else state.pending_repos (repositories_of state.vulnerability_details);
  audit_events =
      state.audit_events
      ++ (audit_event "graph.bootstrap"
            (concat ("Bootstrapped remediation workflow for " ∷ state.initial_ticket_id ∷ "." ∷ []))
            (("ticket_id", string state.initial_ticket_id) ∷ [])
          ∷ []);
}

-- What `probe_credentials` reports.
pub record CredentialReport : Type 0 where
  pub skipped : Bool
  pub jira_ok : Bool
  pub github_ok : Bool

unfoldable pub probe_live_credentials :
    ExecutionMode → Step CredentialReport → RemediationState → Step RemediationState
probe_live_credentials execution_mode probe state = do
  report ← probe
  ok (record state {
    audit_events =
        state.audit_events
        ++ (audit_event "credentials.probe"
              (if report.skipped
                then "Skipped live credential probe for fixture mode."
                else "Validated live Jira and GitHub credentials.")
              (("execution_mode", string (execution_mode_text execution_mode))
                ∷ ("skipped", flag report.skipped)
                ∷ ("jira_ok", flag report.jira_ok)
                ∷ ("github_ok", flag report.github_ok)
                ∷ [])
            ∷ []);
  })

unfoldable pub ingest_and_parse_jira :
    (String → Step VulnerabilityDetails) → RemediationState → Step RemediationState
ingest_and_parse_jira load_vulnerability_details state = do
  details ← load_vulnerability_details state.initial_ticket_id
  ok (record state {
    workflow_status = WorkflowStatus.in_progress;
    vulnerability_details = some details;
    audit_events =
        state.audit_events
        ++ (audit_event "jira.ingest"
              (concat
                ("Loaded Jira vulnerability context for " ∷ state.initial_ticket_id ∷ "." ∷ []))
              (("ticket_id", string state.initial_ticket_id)
                ∷ ("affected_repo_count", number (length details.affected_repositories))
                ∷ ("package_name", string details.package_name)
                ∷ [])
            ∷ []);
  })

-- The calls of `RepositoryInventoryAdapter`.
pub record InventoryAdapter : Type 0 where
  pub resolve_repositories : VulnerabilityDetails → Step (List RepositoryInventoryRecord)
  pub build_targets : String → VulnerabilityDetails → Step (List RemediationTarget)
  pub find_existing_pull_request : RemediationTarget → Step (Option String)
  pub prepare_workspace : String → RepositoryInventoryRecord → Step RepositoryWorkspace

unfoldable pub load_repository_context : InventoryAdapter → RemediationState → Step RemediationState
load_repository_context adapter state = do
  details ←
      require_state_field state.vulnerability_details "load_repository_context"
        "vulnerability_details"
        "Repository context loading requires vulnerability details from Jira intake." none
  resolved ← adapter.resolve_repositories details
  targets ← adapter.build_targets state.initial_ticket_id details
  ok (record state {
    targets = targets;
    current_target_index = 0;
    audit_events =
        state.audit_events
        ++ (audit_event "repository.context_load"
              (concat
                ("Resolved repository intake context for " ∷ state.initial_ticket_id ∷ "." ∷ []))
              (("ticket_id", string state.initial_ticket_id)
                ∷ ("resolved_repos", strings (map (λ repo. repo.name) resolved))
                ∷ ("target_count", number (length targets))
                ∷ [])
            ∷ []);
  })

abbrev pub inventory_record : RemediationTarget → RepositoryInventoryRecord
inventory_record target = record {
  name = target.repository_name;
  clone_url = target.clone_url;
  default_branch = target.default_branch;
  build_system = target.build_system;
  manifest_path = target.manifest_path;
  maven_settings = target.maven_settings;
  proxy_jump = target.proxy_jump;
  ssh_key = target.ssh_key;
  owner = target.owner;
  tags = target.tags;
}

abbrev pub completed_workspace :
    RepositoryInventoryRecord → RepositoryWorkspace → RepositoryWorkspace
completed_workspace repository workspace = record workspace {
  clone_url = some repository.clone_url;
  manifest_path = some repository.manifest_path;
  owner = repository.owner;
  tags = repository.tags;
  ssh_key = repository.ssh_key;
}

-- The three collections that the loop over the targets fills.
pub record Prepared : Type 0 where
  pub repo_map : List (String × RepositoryWorkspace)
  pub skipped_repos : List SkippedRepository
  pub pending_repos : List String

abbrev pub skip_target : Prepared → RemediationTarget → String → Prepared
skip_target p target existing_pull_request = record p {
  skipped_repos =
      p.skipped_repos
      ++ (record {
        name = target.repository_name;
        reason = concat ("existing_pr:" ∷ existing_pull_request ∷ []);
      }
          ∷ []);
}

abbrev prepare_target : Prepared → RemediationTarget → RepositoryWorkspace → Prepared
prepare_target p target workspace = record p {
  repo_map =
      assign workspace.name (completed_workspace (inventory_record target) workspace) p.repo_map;
  pending_repos = p.pending_repos ++ (target.repository_name ∷ []);
}

-- One round of the loop.
unfoldable pub check_target :
    InventoryAdapter → String → Prepared → RemediationTarget → Option String → Step Prepared
check_target adapter ticket_id p target (some existing_pull_request) =
    ok (skip_target p target existing_pull_request)
check_target adapter ticket_id p target none = do
  workspace ← adapter.prepare_workspace ticket_id (inventory_record target)
  ok (prepare_target p target workspace)

unfoldable pub check_targets :
    InventoryAdapter → String → Prepared → List RemediationTarget → Step Prepared
unfolding check_target
check_targets adapter ticket_id p [] = ok p
check_targets adapter ticket_id p (target ∷ targets) = do
  existing ← adapter.find_existing_pull_request target
  p' ← check_target adapter ticket_id p target existing
  check_targets adapter ticket_id p' targets

abbrev pub completed_if_idle : List String → WorkflowStatus → WorkflowStatus
completed_if_idle [] status = WorkflowStatus.completed
completed_if_idle (repo ∷ repos) status = status

unfoldable pub check_repository_idempotency :
    InventoryAdapter → RemediationState → Step RemediationState
unfolding check_targets
check_repository_idempotency adapter state = do
  p ←
      check_targets adapter state.initial_ticket_id
        (record {
          repo_map = state.repo_map;
          skipped_repos = state.skipped_repos;
          pending_repos = [];
        })
        state.targets
  ok (record state {
    repo_map = p.repo_map;
    pending_repos = p.pending_repos;
    skipped_repos = p.skipped_repos;
    workflow_status = completed_if_idle p.pending_repos state.workflow_status;
    audit_events =
        state.audit_events
        ++ (audit_event "repository.idempotency_check"
              (concat ("Checked repository idempotency for " ∷ state.initial_ticket_id ∷ "." ∷ []))
              (("ticket_id", string state.initial_ticket_id)
                ∷ ("pending_repo_count", number (length p.pending_repos))
                ∷ ("skipped_repo_count", number (length p.skipped_repos))
                ∷ [])
            ∷ []);
  })

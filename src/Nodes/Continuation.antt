-- ===== src/Nodes/Continuation.antt =====
-- nodes/delivery.py: what a finished repository leaves for the next one
-- (`_build_repo_continuation_update`, `_find_target_index`).
use execution_accelerator.Prelude.{
  ℕ, suc, String, false, Option, none, some, List, [], ◌∷◌, ◌++◌, one_of, remove, text_eq,
  if◌then◌else◌,
}
use execution_accelerator.Schemas.{RemediationTarget, WorkflowStatus}
use execution_accelerator.State.{RemediationState}

unfoldable pub target_index_from : ℕ → List RemediationTarget → String → Option ℕ
target_index_from index [] name = none
target_index_from index (target ∷ targets) name =
    let rest = target_index_from (suc index) targets name in
    if text_eq target.repository_name name then some index else rest

unfoldable pub find_target_index : RemediationState → String → ℕ
unfolding target_index_from
find_target_index state repository_name = elim (target_index_from 0 state.targets repository_name) [
  | some index ↦ index
  | none ↦ state.current_target_index
]

-- `completed_repos` with the repository added at its end, if it is not there.
abbrev pub completed_with : RemediationState → String → List String
completed_with state repository =
    if one_of repository state.completed_repos
    then state.completed_repos
    else state.completed_repos ++ (repository ∷ [])

abbrev pub pending_without : RemediationState → String → List String
pending_without state repository = remove repository state.pending_repos

unfoldable pub repo_continuation : RemediationState → List String → List String → RemediationState
repo_continuation state [] completed_repos = record state {
  completed_repos = completed_repos;
  pending_repos = [];
  pending_approval_stage = none;
  pending_approval_reason = none;
  failure_classifications = [];
  errors = [];
  retry_decision = none;
  workflow_status = WorkflowStatus.completed;
}
repo_continuation state (next ∷ pending) completed_repos = record state {
  completed_repos = completed_repos;
  pending_repos = next ∷ pending;
  current_working_repo = none;
  current_target_index = find_target_index state next;
  workflow_status = WorkflowStatus.in_progress;
  route_decision = none;
  pom_mutation_plan = none;
  preflight_resolution = none;
  artifact_candidates = [];
  compatibility_diff = none;
  complex_remediation_plan = none;
  decompiled_artifacts = [];
  symbol_mappings = [];
  code_change_plan = none;
  maven_plan = none;
  maven_verification = none;
  remediation_plan = none;
  modified_files = [];
  code_diffs = [];
  validation_results = [];
  rollback_plan = none;
  branch_publication = none;
  pull_request_summary = none;
  jira_completion = none;
  total_attempts = 0;
  failure_classifications = [];
  policy_decisions = [];
  errors = [];
  retry_count = 0;
  retry_decision = none;
  requires_human_approval = false;
  requires_delivery_approval = false;
  pending_approval_stage = none;
  pending_approval_reason = none;
  human_feedback = none;
  approval_history = [];
}

-- ===== src/Nodes/Remediation.antt =====
-- nodes/remediation.py: the nodes of the simple and the transitive lane, and the preflight check.
-- The pom file and its adapter are parameters.
use execution_accelerator.Prelude.{
  String, Bool, true, false, Option, none, some, List, [], ◌∷◌, ◌++◌, concat, lookup, ok, ◌>>=◌,
  ◌>>◌,
}
use execution_accelerator.Schemas.{
  Detail, MavenExecutionPlan, MavenVerification, PomMutationPlan, pom_section_target_text,
  PreflightResolutionResult, RemediationStrategy, validation_status_text, VulnerabilityDetails,
  string,
}
use execution_accelerator.State.{
  RemediationState, RepositoryWorkspace, Step, audit_event, require_state_condition,
  require_state_field,
}
use execution_accelerator.Nodes.Verification.{current_or_first, workspace_of}
use execution_accelerator.Nodes.PomPlan.{
  PlannedChange, build_simple_plan, build_transitive_plan, build_diff_summary,
}

-- Reads, rewrites and writes the pom at a path of the workspace. It answers with the whole path, or
-- raises `WorkspaceError` where the file is missing.
abbrev pub PomRewrite : Type 0
PomRewrite =
    RepositoryWorkspace → String → PomMutationPlan → Option MavenExecutionPlan → Step String

abbrev is_simple_lane : RemediationStrategy → Bool
is_simple_lane RemediationStrategy.simple_update = true
is_simple_lane _ = false

abbrev is_transitive_lane : RemediationStrategy → Bool
is_transitive_lane RemediationStrategy.transitive_override = true
is_transitive_lane _ = false

-- What both lanes write after the pom is rewritten.
abbrev pom_applied :
    RemediationState
    → String
    → PlannedChange
    → String
    → String
    → String
    → List (String × Detail)
    → RemediationState
pom_applied state repository planned pom_path event_type message more = record state {
  current_working_repo = some repository;
  pom_mutation_plan = some planned.1;
  modified_files = pom_path ∷ [];
  code_diffs = build_diff_summary planned.1;
  audit_events =
      state.audit_events
      ++ (audit_event event_type (concat (message ∷ repository ∷ "." ∷ [])) (
            ("repository", string repository)
            ∷ ("file_path", string planned.0.file_path)
            ∷ ("target_version", string planned.0.target_version)
            ∷ more)
          ∷ []);
}

-- The simple lane behind its checks.
unfoldable pub apply_simple_plan : PomRewrite → RemediationState → Step RemediationState
unfolding build_simple_plan build_diff_summary
apply_simple_plan rewrite state = do
  repository ← current_or_first state
  workspace ← workspace_of state repository
  planned ← build_simple_plan state repository
  pom_path ← rewrite workspace planned.0.file_path planned.1 state.maven_plan
  ok (
      pom_applied state repository planned pom_path "remediation.simple_apply"
        "Applied simple pom remediation for " [])

unfoldable pub remediate_simple : PomRewrite → RemediationState → Step RemediationState
unfolding apply_simple_plan
remediate_simple rewrite state = do
  route ←
      require_state_field state.route_decision "remediate_simple" "route_decision"
        "Simple remediation requires a selected remediation route." none
  maven ←
      require_state_field state.maven_verification "remediate_simple" "maven_verification"
        "Simple remediation requires Maven verification results." none
  require_state_condition (is_simple_lane route.strategy) "remediate_simple"
      "route_decision.strategy" "Simple remediation can only run for the simple_update route." none
  apply_simple_plan rewrite state

-- The transitive lane behind its checks.
unfoldable pub apply_transitive_plan : PomRewrite → RemediationState → Step RemediationState
unfolding build_transitive_plan build_diff_summary
apply_transitive_plan rewrite state = do
  repository ← current_or_first state
  workspace ← workspace_of state repository
  planned ← build_transitive_plan state repository
  pom_path ← rewrite workspace planned.0.file_path planned.1 state.maven_plan
  ok (
      pom_applied state repository planned pom_path "remediation.transitive_override"
        "Applied transitive override remediation for "
        (("target_section", string (pom_section_target_text planned.0.target_section)) ∷ []))

unfoldable pub remediate_transitive : PomRewrite → RemediationState → Step RemediationState
unfolding apply_transitive_plan
remediate_transitive rewrite state = do
  route ←
      require_state_field state.route_decision "remediate_transitive" "route_decision"
        "Transitive remediation requires a selected remediation route." none
  maven ←
      require_state_field state.maven_verification "remediate_transitive" "maven_verification"
        "Transitive remediation requires Maven verification results." none
  require_state_condition (is_transitive_lane route.strategy) "remediate_transitive"
      "route_decision.strategy"
      "Transitive remediation can only run for the transitive_override route." none
  apply_transitive_plan rewrite state

-- The call of `PreflightResolutionAdapter`.
abbrev pub PreflightCheck : Type 0
PreflightCheck =
    String
    → Option RepositoryWorkspace
    → Option VulnerabilityDetails
    → Option MavenVerification
    → Option MavenExecutionPlan
    → Step PreflightResolutionResult

unfoldable pub preflight_validate : PreflightCheck → RemediationState → Step RemediationState
preflight_validate load_result state = do
  repository ←
      require_state_field state.current_working_repo "preflight_validate" "current_working_repo"
        "Preflight validation requires the current working repository to be set." none
  preflight ←
      load_result repository (lookup repository state.repo_map) state.vulnerability_details
        state.maven_verification state.maven_plan
  ok (record state {
    preflight_resolution = some preflight;
    audit_events =
        state.audit_events
        ++ (audit_event "remediation.preflight"
              (concat ("Completed preflight validation for " ∷ repository ∷ "." ∷ []))
              (("repository", string repository)
                ∷ ("status", string (validation_status_text preflight.status))
                ∷ ("resolved_version", string preflight.resolved_version)
                ∷ [])
            ∷ []);
  })

-- ===== src/Nodes/ComplexLane.antt =====
-- nodes/remediation.py: the nodes of the complex lane. The complex adapter and the rewriting of the
-- Java sources are parameters.
use execution_accelerator.Prelude.{
  ℕ, ◌-◌, String, Bool, true, false, Option, none, some, List, [], ◌∷◌, ◌++◌, length, concat,
  decimal, lookup, raised, ok, ◌>>=◌, ◌>>◌,
}
use execution_accelerator.Schemas.{
  ArtifactCandidate, CompatibilityDiffResult, ComplexCodeChangePlan, ComplexMigrationTactic,
  complex_migration_tactic_text, ComplexRemediationPlan, DecompiledArtifactSummary,
  MavenVerification, RemediationPlan, RemediationStrategy, SymbolMappingEntry, VulnerabilityDetails,
  number, string,
}
use execution_accelerator.State.{
  CodeDiffSummary, RemediationState, RepositoryWorkspace, Step, audit_event,
  require_state_condition, require_state_field, uncaught,
}
use execution_accelerator.Nodes.Verification.{current_or_first, target_repositories}

-- The calls of `ComplexRemediationAdapter`, and `_materialize_complex_scaffold`, which edits the
-- sources of a workspace and answers with the files and their changes.
pub record ComplexAdapter : Type 0 where
  pub load_artifact_candidates : Step (List ArtifactCandidate)
  pub load_compatibility_diff : Step CompatibilityDiffResult
  pub select_migration_tactic : CompatibilityDiffResult → Step (ComplexMigrationTactic × String)
  pub build_migration_steps : CompatibilityDiffResult → Step (List String)
  pub load_decompiled_artifacts : Step (List DecompiledArtifactSummary)
  pub load_symbol_mappings : Step (List SymbolMappingEntry)
  pub load_code_change_plan : Step ComplexCodeChangePlan
  pub materialize :
      RepositoryWorkspace
      → ComplexRemediationPlan
      → ComplexCodeChangePlan
      → Step (List String × List CodeDiffSummary)

abbrev pub is_complex_lane : RemediationStrategy → Bool
is_complex_lane RemediationStrategy.complex_refactor = true
is_complex_lane _ = false

abbrev planned_repositories : Option RemediationPlan → RemediationState → List String
planned_repositories none state = target_repositories state
planned_repositories (some plan) state = plan.target_repositories

abbrev planned_approval : Option RemediationPlan → Bool
planned_approval none = true
planned_approval (some plan) = plan.requires_human_approval

-- `_refine_complex_remediation_plan`
unfoldable pub refine_complex_remediation_plan :
    RemediationState → ComplexRemediationPlan → RemediationPlan
refine_complex_remediation_plan state complex_plan = record {
  strategy = RemediationStrategy.complex_refactor;
  summary = complex_plan.summary;
  rationale = complex_plan.tactic_rationale;
  target_repositories = planned_repositories state.remediation_plan state;
  requires_human_approval = planned_approval state.remediation_plan;
}

-- `_refine_complex_execution_plan`; the truncated difference is `max(0, …)`.
unfoldable pub refine_complex_execution_plan :
    RemediationState → ComplexRemediationPlan → ComplexCodeChangePlan → ℕ → RemediationPlan
unfolding refine_complex_remediation_plan
refine_complex_execution_plan state complex_plan change_plan executed_file_count =
    let base_plan = refine_complex_remediation_plan state complex_plan in
    record base_plan {
      summary = concat (
          complex_plan.summary
          ∷ " Executed bounded complex migration edits for "
          ∷ decimal executed_file_count
          ∷ " files."
          ∷ []);
      rationale = concat (
          complex_plan.tactic_rationale
          ∷ " Current bounded execution covers "
          ∷ decimal (length change_plan.target_files)
          ∷ " planned target files, "
          ∷ decimal (executed_file_count - length change_plan.target_files)
          ∷ " detected existing source files, and "
          ∷ decimal (length change_plan.open_questions)
          ∷ " unresolved questions."
          ∷ []);
    }

-- The preparation behind its checks.
unfoldable pub plan_complex_remediation :
    ComplexAdapter
    → VulnerabilityDetails
    → MavenVerification
    → RemediationState
    → Step RemediationState
unfolding refine_complex_remediation_plan
plan_complex_remediation adapter details maven state = do
  repository ← current_or_first state
  candidates ← adapter.load_artifact_candidates
  diff ← adapter.load_compatibility_diff
  chosen ← adapter.select_migration_tactic diff
  steps ← adapter.build_migration_steps diff
  let complex_plan : ComplexRemediationPlan = record {
    repository = repository;
    strategy = RemediationStrategy.complex_refactor;
    summary = concat (
        "Analyze " ∷ details.package_name ∷ " from " ∷ details.installed_version ∷ " to "
        ∷ maven.target_version ∷ " before attempting code changes." ∷ []);
    artifact_candidates = candidates;
    compatibility_diff = diff;
    migration_tactic = chosen.0;
    tactic_rationale = chosen.1;
    migration_steps = steps;
    target_files = [];
    symbol_mappings = [];
    open_questions = [];
    requires_code_changes = true;
  }
  ok (record state {
    current_working_repo = some repository;
    artifact_candidates = candidates;
    compatibility_diff = some diff;
    complex_remediation_plan = some complex_plan;
    remediation_plan = some (refine_complex_remediation_plan state complex_plan);
    audit_events =
        state.audit_events
        ++ (audit_event "remediation.complex_prepare"
              (concat ("Prepared complex remediation analysis for " ∷ repository ∷ "." ∷ []))
              (("repository", string repository)
                ∷ ("candidate_count", number (length candidates))
                ∷ ("breaking_change_count", number (length diff.breaking_changes))
                ∷ ("migration_tactic", string (complex_migration_tactic_text chosen.0))
                ∷ ("migration_step_count", number (length steps))
                ∷ [])
            ∷ []);
  })

unfoldable pub prepare_complex_remediation :
    ComplexAdapter → RemediationState → Step RemediationState
unfolding plan_complex_remediation
prepare_complex_remediation adapter state = do
  route ←
      require_state_field state.route_decision "prepare_complex_remediation" "route_decision"
        "Complex remediation preparation requires a selected remediation route." none
  maven ←
      require_state_field state.maven_verification "prepare_complex_remediation"
        "maven_verification" "Complex remediation preparation requires Maven verification results."
        none
  details ←
      require_state_field state.vulnerability_details "prepare_complex_remediation"
        "vulnerability_details"
        "Complex remediation preparation requires vulnerability details from Jira intake." none
  require_state_condition (is_complex_lane route.strategy) "prepare_complex_remediation"
      "route_decision.strategy"
      "Complex remediation preparation can only run for the complex_refactor route." none
  plan_complex_remediation adapter details maven state

abbrev required_workspace : Option RepositoryWorkspace → Step RepositoryWorkspace
required_workspace none = raised (uncaught "WorkspaceError")
required_workspace (some workspace) = ok workspace

unfoldable pub execute_complex_scaffold : ComplexAdapter → RemediationState → Step RemediationState
unfolding refine_complex_execution_plan
execute_complex_scaffold adapter state = do
  route ←
      require_state_field state.route_decision "execute_complex_scaffold" "route_decision"
        "Complex scaffold execution requires a selected remediation route." none
  require_state_condition (is_complex_lane route.strategy) "execute_complex_scaffold"
      "route_decision.strategy"
      "Complex scaffold execution can only run for the complex_refactor route." none
  repository ←
      require_state_field state.current_working_repo "execute_complex_scaffold"
        "current_working_repo"
        "Complex scaffold execution requires the current working repository to be set." none
  prepared ←
      require_state_field state.complex_remediation_plan "execute_complex_scaffold"
        "complex_remediation_plan"
        "Complex scaffold execution requires a prepared complex remediation plan." (some repository)
  workspace ← required_workspace (lookup repository state.repo_map)
  decompiled ← adapter.load_decompiled_artifacts
  mappings ← adapter.load_symbol_mappings
  change_plan ← adapter.load_code_change_plan
  let complex_plan = record prepared {
    target_files = change_plan.target_files;
    symbol_mappings = mappings;
    open_questions = change_plan.open_questions;
  }
  edits ← adapter.materialize workspace complex_plan change_plan
  ok (record state {
    decompiled_artifacts = decompiled;
    symbol_mappings = mappings;
    code_change_plan = some change_plan;
    complex_remediation_plan = some complex_plan;
    remediation_plan =
        some (refine_complex_execution_plan state complex_plan change_plan (length edits.1));
    modified_files = edits.0;
    code_diffs = edits.1;
    audit_events =
        state.audit_events
        ++ (audit_event "remediation.complex_scaffold"
              (concat ("Built complex execution scaffold for " ∷ repository ∷ "." ∷ []))
              (("repository", string repository)
                ∷ ("decompiled_artifact_count", number (length decompiled))
                ∷ ("symbol_mapping_count", number (length mappings))
                ∷ ("planned_file_count", number (length change_plan.target_files))
                ∷ ("executed_file_count", number (length edits.1))
                ∷ ("open_question_count", number (length change_plan.open_questions))
                ∷ [])
            ∷ []);
  })

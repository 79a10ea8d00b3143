-- ===== src/Nodes/Validation.antt =====
-- nodes/validation.py: the record of a validation, and of the rollback and the error after a
-- failed one. What the validation adapter answers is a parameter.
use execution_accelerator.Prelude.{
  String, Bool, true, false, not, ◌&&◌, ◌||◌, Option, none, some, List, [], ◌∷◌, ◌++◌, last?,
  length, lookup, codes, concat, lower, or_text, ok, ◌>>=◌, if◌then◌else◌,
}
use execution_accelerator.Schemas.{
  MavenExecutionPlan, MavenVerification, RepositoryValidationResult, RollbackPlan,
  rollback_status_text, ValidationCheck, ValidationStatus, validation_status_text,
  VulnerabilityDetails, WorkflowStatus, string, strings, number,
}
use execution_accelerator.State.{
  RemediationState, RepositoryWorkspace, Step, audit_event, require_state_field,
}
use execution_accelerator.Nodes.Classify.{is_failed, lowered, mentions}

-- The calls of `ValidationAdapter`: the repository, its workspace, and the state that is passed.
pub record ValidationAdapter : Type 0 where
  pub load_validation_result :
      String
      → Option RepositoryWorkspace
      → Option MavenExecutionPlan
      → Option VulnerabilityDetails
      → Option MavenVerification
      → Step RepositoryValidationResult
  pub load_rollback_plan : String → Option RepositoryWorkspace → List String → Step RollbackPlan

-- `None if status != FAILED else value`
abbrev kept_on_failure : {A : Type 0} → ValidationStatus → Option A → Option A
kept_on_failure status value = if is_failed status then value else none

abbrev record_validation : RemediationState → String → RepositoryValidationResult → RemediationState
record_validation state current_working_repo validation_result = record state {
  validation_results = state.validation_results ++ (validation_result ∷ []);
  workflow_status =
      if is_failed validation_result.status
      then WorkflowStatus.failed
      else WorkflowStatus.in_progress;
  rollback_plan = kept_on_failure validation_result.status state.rollback_plan;
  retry_decision = kept_on_failure validation_result.status state.retry_decision;
  audit_events =
      state.audit_events
      ++ (audit_event "validation.run"
            (concat ("Completed validation checks for " ∷ current_working_repo ∷ "." ∷ []))
            (("repository", string current_working_repo)
              ∷ ("status", string (validation_status_text validation_result.status))
              ∷ ("check_count", number (length validation_result.checks))
              ∷ [])
          ∷ []);
}

-- `build_validate_remediation_node(adapter)`
unfoldable pub validate_remediation : ValidationAdapter → RemediationState → Step RemediationState
validate_remediation adapter state = do
  current_working_repo ←
      require_state_field state.current_working_repo "validate_remediation" "current_working_repo"
        "Validation requires the current working repository to be set." none
  validation_result ←
      adapter.load_validation_result current_working_repo
        (lookup current_working_repo state.repo_map) state.maven_plan state.vulnerability_details
        state.maven_verification
  ok (record_validation state current_working_repo validation_result)

-- `_is_transient_validation_check`
pub is_transient_validation_check : String → Option String → Bool
is_transient_validation_check check_name check_details =
    let normalized_name = lower (codes check_name) in
    let normalized_details = lowered check_details in
    if not (mentions "security" normalized_name) && not (mentions "license" normalized_name)
    then false
    else mentions "could not inspect the maven dependency tree" normalized_details
      || mentions "transient metadata fetch failures" normalized_details

abbrev pub is_retryable_check : ValidationCheck → Bool
is_retryable_check check =
    mentions "test" (lower (codes check.name))
    || is_transient_validation_check check.name check.details

-- The loop of `_is_recoverable_validation_failure`
unfoldable pub recoverable_checks : Bool → List ValidationCheck → Bool
recoverable_checks has_retryable_failure [] = has_retryable_failure
recoverable_checks has_retryable_failure (check ∷ checks) =
    let skipped = recoverable_checks has_retryable_failure checks in
    let counted = recoverable_checks true checks in
    if not (is_failed check.status)
    then skipped
    else if is_retryable_check check
    then counted
    else false

unfoldable pub is_recoverable_validation_failure : RepositoryValidationResult → Bool
unfolding recoverable_checks
is_recoverable_validation_failure validation_result =
    recoverable_checks false validation_result.checks

-- The loop of `_build_validation_error_code`
unfoldable pub error_code_of : List ValidationCheck → String
unfolding is_transient_validation_check
error_code_of [] = "validation_failed"
error_code_of (check ∷ checks) =
    let normalized_name = lower (codes check.name) in
    let rest = error_code_of checks in
    if not (is_failed check.status)
    then rest
    else if is_transient_validation_check check.name check.details
    then "validation_transient_failed"
    else if mentions "compile" normalized_name
    then "validation_compile_failed"
    else if mentions "test" normalized_name
    then "validation_test_failed"
    else if mentions "security" normalized_name
    then "validation_security_failed"
    else if mentions "license" normalized_name
    then "validation_license_failed"
    else rest

unfoldable pub build_validation_error_code : RepositoryValidationResult → String
unfolding error_code_of
build_validation_error_code validation_result = error_code_of validation_result.checks

abbrev record_failure :
    RemediationState → String → RepositoryValidationResult → RollbackPlan → RemediationState
record_failure state current_working_repo validation_result plan = record state {
  rollback_plan = some plan;
  errors =
      state.errors
      ++ (record {
        code = build_validation_error_code validation_result;
        message =
            or_text validation_result.summary "Validation failed after remediation execution.";
        recoverable = is_recoverable_validation_failure validation_result;
        repository = some current_working_repo;
      }
          ∷ []);
  workflow_status = WorkflowStatus.failed;
  audit_events =
      state.audit_events
      ++ (audit_event "validation.rollback"
            (concat ("Recorded rollback plan for " ∷ current_working_repo ∷ "." ∷ []))
            (("repository", string current_working_repo)
              ∷ ("rollback_status", string (rollback_status_text plan.status))
              ∷ ("files_to_restore", strings plan.files_to_restore)
              ∷ [])
          ∷ []);
}

-- `build_handle_validation_failure_node(adapter)`
unfoldable pub handle_validation_failure :
    ValidationAdapter → RemediationState → Step RemediationState
handle_validation_failure adapter state = do
  current_working_repo ←
      require_state_field state.current_working_repo "handle_validation_failure"
        "current_working_repo"
        "Validation failure handling requires the current working repository to be set." none
  validation_result ←
      require_state_field (last? state.validation_results) "handle_validation_failure"
        "validation_results" "Validation failure handling requires at least one validation result."
        (some current_working_repo)
  plan ←
      adapter.load_rollback_plan current_working_repo (lookup current_working_repo state.repo_map)
        state.modified_files
  ok (record_failure state current_working_repo validation_result plan)

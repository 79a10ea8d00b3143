-- ===== src/Nodes/Classify.antt =====
-- nodes/classify_failure.py: the class of the latest failure.
use execution_accelerator.Prelude.{
  ℕ, String, Bool, true, false, not, ◌&&◌, ◌||◌, Option, none, some, List, [], ◌∷◌, last?, codes,
  starts_with, contains, lower, or_text, one_of, text_eq, if◌then◌else◌,
}
use execution_accelerator.Schemas.{
  FailureClassification, RepositoryValidationResult, ValidationCheck, ValidationStatus,
}
use execution_accelerator.State.{RemediationState, WorkflowError}

-- `word in text` for a lowered text
abbrev pub mentions : String → List ℕ → Bool
mentions word text = contains (codes word) text

abbrev pub is_failed : ValidationStatus → Bool
is_failed ValidationStatus.failed = true
is_failed _ = false

abbrev pub lowered : Option String → List ℕ
lowered t = lower (codes (or_text t ""))

-- The loop over the checks of the latest validation; `none` where no check decides.
pub classify_checks : List ℕ → List ValidationCheck → Option FailureClassification
classify_checks summary_text [] = none
classify_checks summary_text (check ∷ checks) =
    let check_name = lower (codes check.name) in
    let check_details = lowered check.details in
    let rest = classify_checks summary_text checks in
    if not (is_failed check.status)
    then rest
    else if mentions "compile" check_name
    then some FailureClassification.compile_error
    else if mentions "test" check_name
    then some FailureClassification.test_failure
    else if mentions "security" check_name
        && (mentions "still resolves version" check_details
            || mentions "expected only" check_details
            || mentions "unresolved vulnerable dependency" summary_text)
    then some FailureClassification.recipe_noop
    else if mentions "license" check_name
    then some FailureClassification.license_violation
    else rest

pub classify_result : RepositoryValidationResult → FailureClassification
unfolding classify_checks
classify_result result =
    let summary_text = lowered result.summary in
    elim (classify_checks summary_text result.checks) [
      | some classification ↦ classification
      | none ↦
          if mentions "unresolved vulnerable dependency" summary_text
          then FailureClassification.recipe_noop
          else FailureClassification.unknown
    ]

pub classify_validation : Option RepositoryValidationResult → FailureClassification
unfolding classify_result
classify_validation none = FailureClassification.unknown
classify_validation (some result) = classify_result result

pub classify_error : Option WorkflowError → FailureClassification → FailureClassification
classify_error none by_validation = by_validation
classify_error (some latest_error) by_validation =
    if one_of latest_error.code ("policy_blocked" ∷ "approval_rejected" ∷ [])
    then FailureClassification.policy_block
    else if starts_with latest_error.code "delivery_"
    then (if latest_error.recoverable
        then FailureClassification.network_transient
        else FailureClassification.unknown)
    else if text_eq latest_error.code "validation_transient_failed"
    then FailureClassification.network_transient
    else by_validation

unfoldable pub classify_latest_failure : RemediationState → FailureClassification
unfolding classify_error classify_validation
classify_latest_failure state =
    classify_error (last? state.errors) (classify_validation (last? state.validation_results))

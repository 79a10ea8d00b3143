-- ===== src/Nodes/Retry.antt =====
-- nodes/classify_failure.py: the choice between a retry and an escalation, and the node itself.
use execution_accelerator.Prelude.{
  ℕ, ◌+◌, String, Bool, true, false, not, ◌&&◌, Option, none, some, [], ◌∷◌, ◌++◌, last?, concat,
  starts_with, one_of, text_eq, ltb, leb, if◌then◌else◌,
}
use execution_accelerator.Schemas.{
  FailureClassification, failure_classification_text, RemediationRouteDecision, RemediationStrategy,
  RetryDecision, WorkflowStatus, string, number,
}
use execution_accelerator.State.{RemediationState, WorkflowError, audit_event}
use execution_accelerator.Nodes.Classify.{classify_latest_failure}

-- `EA_MAX_TOTAL_ATTEMPTS` and `EA_MAX_RETRIES` of the environment, not negative.
pub record RetryLimits : Type 0 where
  pub max_total_attempts : ℕ
  pub max_retry_attempts : ℕ

abbrev pub is_delivery_error : Option WorkflowError → Bool
is_delivery_error none = false
is_delivery_error (some latest_error) = starts_with latest_error.code "delivery_"

abbrev pub retry_lane : Option RemediationRouteDecision → Option String
retry_lane none = none
retry_lane (some route) = elim route.strategy [
  | RemediationStrategy.simple_update ↦ some "remediate_simple"
  | RemediationStrategy.transitive_override ↦ some "remediate_transitive"
  | RemediationStrategy.complex_refactor ↦ some "execute_complex_scaffold"
  | RemediationStrategy.unknown ↦ none
]

unfoldable pub select_retry_node : RemediationState → Option String
select_retry_node state =
    if is_delivery_error (last? state.errors)
    then some "publish_remediation"
    else retry_lane state.route_decision

abbrev pub is_retryable_classification : FailureClassification → Bool
is_retryable_classification FailureClassification.test_failure = true
is_retryable_classification FailureClassification.network_transient = true
is_retryable_classification _ = false

abbrev is_network_transient : FailureClassification → Bool
is_network_transient FailureClassification.network_transient = true
is_network_transient _ = false

abbrev names_publication : Option String → Bool
names_publication none = false
names_publication (some name) = text_eq name "publish_remediation"

pub build_retry_reason :
    Bool → FailureClassification → Option String → ℕ → ℕ → ℕ → ℕ → Bool → String
build_retry_reason can_retry classification retry_next_node total_attempts max_total_attempts
      retry_count max_retry_attempts latest_error_recoverable =
    if can_retry
    then (if is_network_transient classification && names_publication retry_next_node
        then "Retryable transient delivery failure will rerun publication."
        else if is_network_transient classification
        then "Retryable transient validation failure will rerun the active remediation lane."
        else "Retryable test failure will rerun the active remediation lane.")
    else if leb max_total_attempts total_attempts
    then "Total attempt budget reached; escalation is required."
    else if not (is_retryable_classification classification)
    then concat (
        failure_classification_text classification
        ∷ " failures are not automatically retried."
        ∷ [])
    else if leb max_retry_attempts retry_count
    then "Retry budget reached; escalation is required."
    else if not latest_error_recoverable
    then "Failure is not retryable by the current retry matrix."
    else "Failure is not retryable by the current retry matrix."

abbrev pub latest_recoverable : Option WorkflowError → Bool
latest_recoverable none = false
latest_recoverable (some latest_error) = latest_error.recoverable

abbrev is_some : Option String → Bool
is_some none = false
is_some (some name) = true

-- `can_retry`: every budget has room, and the latest failure is of a kind that a retry may mend.
unfoldable pub can_retry : RetryLimits → RemediationState → Bool
can_retry limits state =
    is_some (select_retry_node state)
    && is_retryable_classification (classify_latest_failure state)
    && ltb (state.total_attempts + 1) limits.max_total_attempts
    && ltb state.retry_count limits.max_retry_attempts
    && latest_recoverable (last? state.errors)

abbrev pub or_escalate : Bool → Option String → String
or_escalate true (some name) = name
or_escalate true none = "escalate"
or_escalate false name = "escalate"

unfoldable pub retry_target : RetryLimits → RemediationState → String
unfolding can_retry
retry_target limits state = or_escalate (can_retry limits state) (select_retry_node state)

-- The lanes that start an attempt afresh.
abbrev pub restarts_attempt : String → Bool
restarts_attempt name =
    one_of name ("execute_complex_scaffold" ∷ "remediate_simple" ∷ "remediate_transitive" ∷ [])

abbrev pub is_escalation : String → Bool
is_escalation name = text_eq name "escalate"

unfoldable pub classify_failure : RetryLimits → RemediationState → RemediationState
unfolding retry_target can_retry
classify_failure limits state =
    let total_attempts = state.total_attempts + 1 in
    let classification = classify_latest_failure state in
    let retrying = can_retry limits state in
    let next_node = retry_target limits state in
    let retry_count =
      if is_escalation next_node then state.retry_count else state.retry_count + 1 in
    let decision : RetryDecision = record {
      classification = classification;
      next_node = next_node;
      max_attempts = limits.max_total_attempts;
      reason =
          build_retry_reason retrying classification (select_retry_node state) total_attempts
            limits.max_total_attempts state.retry_count limits.max_retry_attempts
            (latest_recoverable (last? state.errors));
    } in
    let clear_attempt_scoped_state = retrying && restarts_attempt next_node in
    record state {
      total_attempts = total_attempts;
      failure_classifications = state.failure_classifications ++ (classification ∷ []);
      retry_count = retry_count;
      retry_decision = some decision;
      workflow_status =
          if is_escalation next_node then WorkflowStatus.failed else WorkflowStatus.in_progress;
      rollback_plan = if clear_attempt_scoped_state then none else state.rollback_plan;
      modified_files = if clear_attempt_scoped_state then [] else state.modified_files;
      code_diffs = if clear_attempt_scoped_state then [] else state.code_diffs;
      preflight_resolution =
          if clear_attempt_scoped_state then none else state.preflight_resolution;
      audit_events =
          state.audit_events
          ++ (audit_event "failure.classify"
                (concat (
                  "Classified failure for "
                  ∷ state.initial_ticket_id
                  ∷ " as "
                  ∷ failure_classification_text classification
                  ∷ "."
                  ∷ []))
                (("classification", string (failure_classification_text classification))
                  ∷ ("total_attempts", number total_attempts)
                  ∷ ("next_node", string next_node)
                  ∷ ("retry_count", number retry_count)
                  ∷ [])
              ∷ []);
    }

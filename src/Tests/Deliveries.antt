-- ===== src/Tests/Deliveries.antt =====
-- The nodes of delivery, failure, validation and intake at work.
use execution_accelerator.Prelude.{
  ◌≡◌, ◌≢◌, refl, ◌↔◌, ◌⊎◌, String, true, false, some, List, [], ◌∷◌, ◌++◌, All, any, last?, ok,
  raised,
}
use execution_accelerator.Schemas.{ValidationStatus, WorkflowStatus}
use execution_accelerator.State.{RemediationState, SkippedRepository, Step, WorkflowError}
use execution_accelerator.Nodes.Classify.{classify_latest_failure, is_failed}
use execution_accelerator.Nodes.Delivery.{
  DeliveryError, delivery_failure_update, is_recoverable_delivery_error, publish_branch,
  publish_remediation,
}
use execution_accelerator.Graph.Edges.{Node, next_node}
use execution_accelerator.Graph.Retried.{RetriesAt, classify_failure-next}
use execution_accelerator.Nodes.Idempotency.{Answers, check_repository_idempotency-partition}
use execution_accelerator.Nodes.Intake.{check_repository_idempotency}
use execution_accelerator.Nodes.Publishing.{
  Finished, publish_remediation-branch_once, publish_remediation-outcome,
}
use execution_accelerator.Nodes.Recoverable.{Mendable, is_recoverable_validation_failure_lem}
use execution_accelerator.Nodes.Retry.{classify_failure, retry_target, select_retry_node}
use execution_accelerator.Nodes.RetryBudget.{Retryable}
use execution_accelerator.Nodes.Validation.{is_recoverable_validation_failure}
use execution_accelerator.Graph.Run.{initial_state}
use execution_accelerator.Tests.Fixtures.{
  branch, check, delivery, inventory, limits, simple_route, slow_delivery, target, validation,
}

abbrev publishing : RemediationState
publishing = record (initial_state "T-1") {
  current_working_repo = some "api";
  pending_repos = "api" ∷ "web" ∷ [];
  route_decision = some simple_route;
}

state_of : Step RemediationState → RemediationState
state_of (ok s) = s
state_of (raised f) = initial_state "T-1"

late : RemediationState
late = state_of (publish_remediation slow_delivery publishing)

late_lem : publish_remediation slow_delivery publishing ≡ ok late
unfolding late state_of publish_remediation publish_branch
late_lem = refl

publish_remediation-outcome_example :
    ((error : WorkflowError) × (late.errors ≡ publishing.errors ++ (error ∷ []))
      × (late.workflow_status ≡ WorkflowStatus.failed)
      × (late.pending_repos ≡ publishing.pending_repos)
      × (late.completed_repos ≡ publishing.completed_repos))
    ⊎ ((repository : String) × (publishing.current_working_repo ≡ some repository)
        × Finished publishing late repository)
publish_remediation-outcome_example =
    publish_remediation-outcome slow_delivery publishing late late_lem

abbrev branched : RemediationState
branched = record publishing { branch_publication = some branch }

publish_remediation-branch_once_example :
    publish_remediation
      (record delivery {
        load_branch_publication = λ r w t p. raised (DeliveryError.timeout "late");
      })
      branched
    ≡ publish_remediation delivery branched
publish_remediation-branch_once_example =
    publish_remediation-branch_once delivery (λ r w t p. raised (DeliveryError.timeout "late"))
      branched branch refl

classify_failure-next_example :
    let next = next_node false Node.classify_failure (classify_failure limits late) in
    (Retryable limits late × ((node : Node) × RetriesAt late node × (next ≡ ok (some node))))
    ⊎ (¬ Retryable limits late × (next ≡ ok (some Node.escalate)))
classify_failure-next_example = classify_failure-next limits false late

-- A delivery that came late is tried again.
late_retry : retry_target limits late ≡ "publish_remediation"
unfolding late state_of publish_remediation publish_branch delivery_failure_update
    is_recoverable_delivery_error retry_target last? select_retry_node classify_latest_failure
late_retry = refl

-- Two targets, one of them with a pull request.
abbrev intake : RemediationState
intake = record (initial_state "T-1") {
  targets = target ∷ record target { repository_name = "web" } ∷ [];
}

checked : RemediationState
checked = state_of (check_repository_idempotency inventory intake)

checked_lem : check_repository_idempotency inventory intake ≡ ok checked
unfolding checked state_of check_repository_idempotency
checked_lem = refl

check_repository_idempotency-partition_example :
    (pending : List String) × (skipped : List SkippedRepository) × Answers inventory intake.targets
      pending skipped
    × (checked.pending_repos ≡ pending)
    × (checked.skipped_repos ≡ intake.skipped_repos ++ skipped)
    × ((pending ≢ []) ⊎ (checked.workflow_status ≡ WorkflowStatus.completed))
check_repository_idempotency-partition_example =
    check_repository_idempotency-partition inventory intake checked checked_lem

is_recoverable_validation_failure_lem_example :
    let result =
      validation ValidationStatus.failed (
        check "compile" ValidationStatus.passed ∷ check "unit test" ValidationStatus.failed ∷ []) in
    (is_recoverable_validation_failure result ≡ true)
    ↔ ((any (λ c. is_failed c.status) result.checks ≡ true) × All Mendable result.checks)
is_recoverable_validation_failure_lem_example = is_recoverable_validation_failure_lem (
    validation ValidationStatus.failed
      (check "compile" ValidationStatus.passed ∷ check "unit test" ValidationStatus.failed ∷ []))

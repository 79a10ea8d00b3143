-- ===== src/Nodes/Delivery.antt =====
-- nodes/delivery.py: publication of a repository, its failure, and the dry run. What the delivery
-- adapter answers is a parameter.
use execution_accelerator.Prelude.{
  stripped, ℕ, String, Bool, true, false, not, ◌||◌, Option, none, some, List, [], ◌∷◌, ◌++◌, any,
  eqb, lookup, concat, Outcome, ok, raised, ◌>>=◌, if◌then◌else◌,
}
use execution_accelerator.Schemas.{
  ApprovalStage, ApprovalRecord, BranchPublicationResult, JiraCompletionResult, PullRequestSummary,
  VulnerabilityDetails, WorkflowStatus, flag, number, string,
}
use execution_accelerator.State.{
  RemediationState, RepositoryWorkspace, Step, audit_event, optional_text, require_state_field,
  uncaught,
}
use execution_accelerator.Nodes.Continuation.{completed_with, pending_without, repo_continuation}
use execution_accelerator.Nodes.Summary.{
  build_pull_request_body, build_jira_completion_comment, is_approved,
}

-- What a call of the adapter may raise, with its text: `DeliveryAdapterError` and the classes of
-- `httpx.HTTPError` are caught, the last one is not.
pub data DeliveryError : Type 0 where
  adapter_error : String → DeliveryError
  timeout : String → DeliveryError
  network : String → DeliveryError
  http_status : ℕ → String → DeliveryError
  other_http : String → DeliveryError
  not_caught : String → DeliveryError

pub record DeliveryAdapter : Type 0 where
  -- repository, workspace, ticket, package
  pub load_branch_publication :
      String
      → Option RepositoryWorkspace
      → String
      → Option String
      → Outcome DeliveryError BranchPublicationResult
  -- repository, owner, base and head branch, ticket, package, draft, body
  pub load_pull_request :
      String
      → Option String
      → Option String
      → String
      → String
      → Option String
      → Option Bool
      → String
      → Outcome DeliveryError PullRequestSummary
  -- ticket, repository, address of the pull request, comment
  pub load_jira_completion :
      String → String → String → String → Outcome DeliveryError JiraCompletionResult

abbrev is_delivery : ApprovalStage → Bool
is_delivery ApprovalStage.delivery = true
is_delivery ApprovalStage.remediation = false

abbrev pub is_delivery_approval : ApprovalRecord → Bool
is_delivery_approval entry = elim (is_delivery entry.stage) [
  | true ↦ is_approved entry.decision
  | false ↦ false
]

-- `_has_delivery_approval`
unfoldable pub has_delivery_approval : RemediationState → Bool
has_delivery_approval state = any is_delivery_approval state.approval_history

abbrev number_in : ℕ → List ℕ → Bool
number_in n [] = false
number_in n (m ∷ ms) = eqb n m || number_in n ms

unfoldable pub is_recoverable_delivery_error : DeliveryError → Bool
is_recoverable_delivery_error (timeout message) = true
is_recoverable_delivery_error (network message) = true
is_recoverable_delivery_error (http_status code message) =
    number_in code (408 ∷ 409 ∷ 425 ∷ 429 ∷ 500 ∷ 502 ∷ 503 ∷ 504 ∷ [])
is_recoverable_delivery_error _ = false

-- The results of the three calls, as far as they came.
pub record Published : Type 0 where
  pub branch : Option BranchPublicationResult
  pub pull_request : Option PullRequestSummary
  pub jira : Option JiraCompletionResult

abbrev error_stage :
    Option BranchPublicationResult
    → Option PullRequestSummary
    → Option JiraCompletionResult
    → String × String
error_stage none pr jira = ("delivery_branch_publication_failed", "Branch publication")
error_stage (some branch) none jira = ("delivery_pull_request_failed", "Pull request publication")
error_stage (some branch) (some pr) none = ("delivery_jira_failed", "Jira completion")
error_stage (some branch) (some pr) (some jira) = ("delivery_failed", "Delivery")

-- `_build_delivery_error_code`
abbrev pub delivery_error_code : Published → String
delivery_error_code p = (error_stage p.branch p.pull_request p.jira).0

abbrev error_text : DeliveryError → String
error_text (adapter_error message) = message
error_text (timeout message) = message
error_text (network message) = message
error_text (http_status code message) = message
error_text (other_http message) = message
error_text (not_caught message) = message

-- `_build_delivery_error_message`
abbrev delivery_error_message : Published → DeliveryError → String
delivery_error_message p error =
    concat ((error_stage p.branch p.pull_request p.jira).1 ∷ " failed: " ∷ error_text error ∷ [])

-- `None` in an f-string
abbrev shown : Option String → String
shown none = "None"
shown (some t) = t

-- `_build_delivery_failure_update`
unfoldable pub delivery_failure_update :
    RemediationState → DeliveryError → Published → RemediationState
unfolding is_recoverable_delivery_error stripped
delivery_failure_update state error p = record state {
  branch_publication = p.branch;
  pull_request_summary = p.pull_request;
  jira_completion = p.jira;
  errors =
      state.errors
      ++ (record {
        code = delivery_error_code p;
        message = stripped (delivery_error_message p error);
        recoverable = is_recoverable_delivery_error error;
        repository = state.current_working_repo;
      }
          ∷ []);
  workflow_status = WorkflowStatus.failed;
  audit_events =
      state.audit_events
      ++ (audit_event "delivery.failure"
            (concat ("Delivery failed for " ∷ shown state.current_working_repo ∷ "." ∷ []))
            (("repository", optional_text state.current_working_repo)
              ∷ ("error_code", string (delivery_error_code p))
              ∷ ("recoverable", flag (is_recoverable_delivery_error error))
              ∷ [])
          ∷ []);
}

-- `except (DeliveryAdapterError, httpx.HTTPError)`
abbrev pub caught : RemediationState → DeliveryError → Published → Step RemediationState
caught state (not_caught message) p = raised (uncaught message)
caught state (adapter_error message) p =
    ok (delivery_failure_update state (adapter_error message) p)
caught state (timeout message) p = ok (delivery_failure_update state (timeout message) p)
caught state (network message) p = ok (delivery_failure_update state (network message) p)
caught state (http_status code message) p =
    ok (delivery_failure_update state (http_status code message) p)
caught state (other_http message) p = ok (delivery_failure_update state (other_http message) p)

-- The repository is finished: the list of work shrinks, and the next attempt begins clean.
unfoldable pub finish_repository :
    RemediationState
    → String
    → BranchPublicationResult
    → PullRequestSummary
    → JiraCompletionResult
    → RemediationState
finish_repository state repository branch pull_request jira =
    let published = record state {
      branch_publication = some branch;
      pull_request_summary = some pull_request;
      jira_completion = some jira;
    } in
    let continued =
      repo_continuation published (pending_without state repository)
        (completed_with state repository) in
    record continued {
      audit_events =
          state.audit_events
          ++ (audit_event "delivery.publish"
                (concat ("Recorded branch, PR, and Jira completion for " ∷ repository ∷ "." ∷ []))
                (("repository", string repository)
                  ∷ ("branch_name", string branch.branch_name)
                  ∷ ("pull_request_number", number pull_request.number)
                  ∷ ("jira_status", string jira.status)
                  ∷ [])
              ∷ []);
    }

abbrev package_of : Option VulnerabilityDetails → Option String
package_of none = none
package_of (some details) = some details.package_name

abbrev owner_of : Option RepositoryWorkspace → Option String
owner_of none = none
owner_of (some workspace) = workspace.owner

abbrev base_branch_of : Option RepositoryWorkspace → Option String
base_branch_of none = none
base_branch_of (some workspace) = some workspace.default_branch

-- The repository that is published.
abbrev pub current_repository : RemediationState → Step String
current_repository state =
    require_state_field state.current_working_repo "publish_remediation" "current_working_repo"
      "Delivery publication requires the current working repository to be set." none

module _ (adapter : DeliveryAdapter) where
  -- A result that the state has already is not asked for again.
  abbrev pub branch_result :
      RemediationState → String → Outcome DeliveryError BranchPublicationResult
  branch_result state repository = elim state.branch_publication [
    | some branch ↦ ok branch
    | none ↦
        adapter.load_branch_publication repository (lookup repository state.repo_map)
          state.initial_ticket_id (package_of state.vulnerability_details)
  ]

  abbrev pub pull_request_result :
      RemediationState → String → BranchPublicationResult → Outcome DeliveryError PullRequestSummary
  pull_request_result state repository branch = elim state.pull_request_summary [
    | some pull_request ↦ ok pull_request
    | none ↦
        adapter.load_pull_request repository (owner_of (lookup repository state.repo_map))
          (base_branch_of (lookup repository state.repo_map)) branch.branch_name
          state.initial_ticket_id (package_of state.vulnerability_details)
          (if state.requires_delivery_approval
            then some (not (has_delivery_approval state))
            else none)
          (build_pull_request_body state)
  ]

  abbrev pub jira_result :
      RemediationState → String → PullRequestSummary → Outcome DeliveryError JiraCompletionResult
  jira_result state repository pull_request = elim state.jira_completion [
    | some jira ↦ ok jira
    | none ↦
        adapter.load_jira_completion state.initial_ticket_id repository pull_request.url
          (build_jira_completion_comment state pull_request.url)
  ]

  unfoldable pub publish_jira :
      RemediationState
      → String
      → BranchPublicationResult
      → PullRequestSummary
      → Outcome DeliveryError JiraCompletionResult
      → Step RemediationState
  publish_jira state repository branch pull_request (ok jira) =
      ok (finish_repository state repository branch pull_request jira)
  publish_jira state repository branch pull_request (raised error) = caught state error (record {
    branch = some branch;
    pull_request = some pull_request;
    jira = state.jira_completion;
  })

  unfoldable pub publish_pull_request :
      RemediationState
      → String
      → BranchPublicationResult
      → Outcome DeliveryError PullRequestSummary
      → Step RemediationState
  publish_pull_request state repository branch (ok pull_request) =
      publish_jira state repository branch pull_request (jira_result state repository pull_request)
  publish_pull_request state repository branch (raised error) = caught state error (record {
    branch = some branch;
    pull_request = state.pull_request_summary;
    jira = state.jira_completion;
  })

  unfoldable pub publish_branch :
      RemediationState
      → String
      → Outcome DeliveryError BranchPublicationResult
      → Step RemediationState
  publish_branch state repository (ok branch) =
      publish_pull_request state repository branch (pull_request_result state repository branch)
  publish_branch state repository (raised error) = caught state error (record {
    branch = state.branch_publication;
    pull_request = state.pull_request_summary;
    jira = state.jira_completion;
  })

  -- `build_publish_remediation_node(adapter)`
  unfoldable pub publish_remediation : RemediationState → Step RemediationState
  publish_remediation state = do
    repository ← current_repository state
    publish_branch state repository (branch_result state repository)

-- The dry run's end of a repository.
unfoldable pub skip_repository : Bool → RemediationState → String → RemediationState
skip_repository dry_run state repository =
    let continued =
      repo_continuation state (pending_without state repository)
        (completed_with state repository) in
    record continued {
      audit_events =
          state.audit_events
          ++ (audit_event "delivery.skipped_dry_run"
                (concat
                  ("Skipped publication side effects for " ∷ repository ∷ " in dry-run mode." ∷ []))
                (("repository", string repository) ∷ ("dry_run", flag dry_run) ∷ [])
              ∷ []);
    }

abbrev pub skipped_repository : RemediationState → Step String
skipped_repository state =
    require_state_field state.current_working_repo "skip_publish_for_dry_run" "current_working_repo"
      "Dry-run publication skipping requires the current working repository to be set." none

-- `build_skip_publish_for_dry_run_node(runtime_config)`
unfoldable pub skip_publish_for_dry_run : Bool → RemediationState → Step RemediationState
skip_publish_for_dry_run dry_run state = do
  repository ← skipped_repository state
  ok (skip_repository dry_run state repository)

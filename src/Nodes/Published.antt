-- ===== src/Nodes/Published.antt =====
-- How `publish_remediation` ends: with a recorded failure, or with a finished repository.
use execution_accelerator.Prelude.{
  String, ◌≡◌, refl, Option, none, some, Outcome, ok, raised, arith,
}
use execution_accelerator.Schemas.{
  BranchPublicationResult, JiraCompletionResult, PullRequestSummary,
}
use execution_accelerator.State.{RemediationState}
use execution_accelerator.Nodes.Delivery.{
  DeliveryAdapter, DeliveryError, adapter_error, timeout, network, http_status, other_http,
  not_caught, Published, caught, delivery_failure_update, finish_repository, branch_result,
  pull_request_result, jira_result, publish_branch, publish_pull_request, publish_jira,
  publish_remediation,
}

pub data Publication (s s' : RemediationState) : Type 0 where
  failed :
      (repository : String) (error : DeliveryError) (p : Published)
      → s.current_working_repo ≡ some repository
      → s' ≡ delivery_failure_update s error p
      → Publication s s'
  finished :
      (repository : String) (branch : BranchPublicationResult) (pull_request : PullRequestSummary)
      (jira : JiraCompletionResult)
      → s.current_working_repo ≡ some repository
      → s' ≡ finish_repository s repository branch pull_request jira
      → Publication s s'

module _ (s s' : RemediationState) (repository : String)
    (current : s.current_working_repo ≡ some repository) where
  caught-Publication :
      (error : DeliveryError) (p : Published) → caught s error p ≡ ok s' → Publication s s'
  caught-Publication (adapter_error m) p h =
      failed repository (adapter_error m) p current (ground (arith, h))
  caught-Publication (timeout m) p h = failed repository (timeout m) p current (ground (arith, h))
  caught-Publication (network m) p h = failed repository (network m) p current (ground (arith, h))
  caught-Publication (http_status c m) p h =
      failed repository (http_status c m) p current (ground (arith, h))
  caught-Publication (other_http m) p h =
      failed repository (other_http m) p current (ground (arith, h))
  caught-Publication (not_caught m) p h = cc

  module _ (a : DeliveryAdapter) where
    publish_jira-Publication :
        (branch : BranchPublicationResult) (pull_request : PullRequestSummary)
        (result : Outcome DeliveryError JiraCompletionResult)
        → publish_jira a s repository branch pull_request result ≡ ok s'
        → Publication s s'
    unfolding publish_jira
    publish_jira-Publication branch pull_request (ok jira) h =
        finished repository branch pull_request jira current (ground (arith, h))
    publish_jira-Publication branch pull_request (raised error) h = caught-Publication error _ h

    publish_pull_request-Publication :
        (branch : BranchPublicationResult) (result : Outcome DeliveryError PullRequestSummary)
        → publish_pull_request a s repository branch result ≡ ok s'
        → Publication s s'
    unfolding publish_pull_request
    publish_pull_request-Publication branch (ok pull_request) h =
        publish_jira-Publication branch pull_request (jira_result a s repository pull_request) h
    publish_pull_request-Publication branch (raised error) h = caught-Publication error _ h

    publish_branch-Publication :
        (result : Outcome DeliveryError BranchPublicationResult)
        → publish_branch a s repository result ≡ ok s'
        → Publication s s'
    unfolding publish_branch
    publish_branch-Publication (ok branch) h =
        publish_pull_request-Publication branch (pull_request_result a s repository branch) h
    publish_branch-Publication (raised error) h = caught-Publication error _ h

-- A node that returned had a current repository, and published that one.
publish_remediation-current :
    (a : DeliveryAdapter) (s s' : RemediationState) (current : Option String)
    → s.current_working_repo ≡ current
    → publish_remediation a s ≡ ok s'
    → (repository : String) × (current ≡ some repository)
      × (publish_branch a s repository (branch_result a s repository) ≡ ok s')
unfolding publish_remediation
publish_remediation-current a s s' none e h = absurd (ground (arith, e, h))
publish_remediation-current a s s' (some repository) e h = (repository, refl, ground (arith, e, h))

pub publish_remediation-Publication :
    (a : DeliveryAdapter) (s s' : RemediationState)
    → publish_remediation a s ≡ ok s'
    → Publication s s'
publish_remediation-Publication a s s' h =
    let (repository, current, published) =
      publish_remediation-current a s s' s.current_working_repo refl h in
    publish_branch-Publication s s' repository current a (branch_result a s repository) published

-- ===== src/Graph/Finish.antt =====
-- A finished repository, a recorded failure and a classified one: what they leave of the work.
use execution_accelerator.Prelude.{
  ◌+◌, ◌≤◌, ◌<◌, ◌≡◌, refl, ◌∙◌, ◌⊎◌, inl, inr, String, Bool, none, some, List, [], ◌∷◌, length,
  one_of, remove, arith, if◌then◌else◌,
}
use execution_accelerator.Schemas.{
  BranchPublicationResult, JiraCompletionResult, PullRequestSummary,
}
use execution_accelerator.State.{RemediationState}
use execution_accelerator.Nodes.Continuation.{completed_with, pending_without, repo_continuation}
use execution_accelerator.Nodes.Delivery.{
  DeliveryError, Published, delivery_failure_update, finish_repository, skip_repository,
}
use execution_accelerator.Nodes.Retry
use execution_accelerator.Nodes.Retry.{RetryLimits, can_retry, retry_target}
use execution_accelerator.Graph.Work.{Keeps, open_work}

remove_fewer :
    (r : String) (ps : List String)
    → length (remove r ps) + (if one_of r ps then 1 else 0) ≤ length ps
unfolding remove
remove_fewer r [] = omega arith
remove_fewer r (p ∷ ps) = ground (arith, remove_fewer r ps)

-- Either nothing is left, or strictly less than before.
abbrev pub Shrinks : RemediationState → RemediationState → Type 0
Shrinks s s' = (s'.pending_repos ≡ []) ⊎ (open_work s' < open_work s)

continuation-pending :
    (t : RemediationState) (pending completed : List String)
    → (repo_continuation t pending completed).pending_repos ≡ pending
unfolding repo_continuation
continuation-pending t [] completed = refl
continuation-pending t (next ∷ pending) completed = refl

continuation-current :
    (t : RemediationState) (pending completed : List String)
    → (pending ≡ []) ⊎ ((repo_continuation t pending completed).current_working_repo ≡ none)
unfolding repo_continuation
continuation-current t [] completed = inl refl
continuation-current t (next ∷ pending) completed = inr refl

continuation-errors :
    (t : RemediationState) (pending completed : List String)
    → (repo_continuation t pending completed).errors ≡ []
unfolding repo_continuation
continuation-errors t [] completed = refl
continuation-errors t (next ∷ pending) completed = refl

Shrinks-intro :
    (s s' : RemediationState) (repository : String)
    → s.current_working_repo ≡ some repository
    → s'.pending_repos ≡ remove repository s.pending_repos
    → (remove repository s.pending_repos ≡ []) ⊎ (s'.current_working_repo ≡ none)
    → Shrinks s s'
Shrinks-intro s s' repository current pending (inl empty) = inl (pending ∙ empty)
Shrinks-intro s s' repository current pending (inr idle) =
    inr (ground (arith, remove_fewer repository s.pending_repos))

module _ (s : RemediationState) (repository : String) where
  pub finish_repository-Shrinks :
      s.current_working_repo ≡ some repository
      → (branch : BranchPublicationResult) (pull_request : PullRequestSummary)
        (jira : JiraCompletionResult)
      → Shrinks s (finish_repository s repository branch pull_request jira)
  unfolding finish_repository
  finish_repository-Shrinks current branch pull_request jira =
      let published = record s {
        branch_publication = some branch;
        pull_request_summary = some pull_request;
        jira_completion = some jira;
      } in
      Shrinks-intro s (finish_repository s repository branch pull_request jira) repository current
        (continuation-pending published (pending_without s repository)
          (completed_with s repository))
        (continuation-current published (pending_without s repository)
          (completed_with s repository))

  -- No error is left behind a finished repository.
  pub finish_repository-errors :
      (branch : BranchPublicationResult) (pull_request : PullRequestSummary)
      (jira : JiraCompletionResult)
      → (finish_repository s repository branch pull_request jira).errors ≡ []
  unfolding finish_repository
  finish_repository-errors branch pull_request jira =
      continuation-errors _ (pending_without s repository) (completed_with s repository)

  pub skip_repository-Shrinks :
      (dry_run : Bool)
      → s.current_working_repo ≡ some repository
      → Shrinks s (skip_repository dry_run s repository)
  unfolding skip_repository
  skip_repository-Shrinks dry_run current =
      Shrinks-intro s (skip_repository dry_run s repository) repository current
        (continuation-pending s (pending_without s repository) (completed_with s repository))
        (continuation-current s (pending_without s repository) (completed_with s repository))

  pub skip_repository-errors : (dry_run : Bool) → (skip_repository dry_run s repository).errors ≡ []
  unfolding skip_repository
  skip_repository-errors dry_run =
      continuation-errors s (pending_without s repository) (completed_with s repository)

pub delivery_failure_update-Keeps :
    (s : RemediationState) (error : DeliveryError) (p : Published)
    → Keeps s (delivery_failure_update s error p)
unfolding delivery_failure_update
delivery_failure_update-Keeps s error p = ground arith

-- A classified failure has used up one attempt.
pub classify_failure_work :
    (limits : RetryLimits) (s : RemediationState)
    → let s' = Retry.classify_failure limits s in
      (s'.pending_repos ≡ s.pending_repos)
      × (s'.current_working_repo ≡ s.current_working_repo)
      × (s'.total_attempts ≡ s.total_attempts + 1)
unfolding Retry.classify_failure
classify_failure_work limits s = (refl, refl, refl)

-- It escalates, or an attempt is left.
pub retry_target_room :
    (limits : RetryLimits) (s : RemediationState)
    → (retry_target limits s ≡ "escalate") ⊎ (s.total_attempts + 1 < limits.max_total_attempts)
unfolding retry_target
retry_target_room limits s = ground arith

-- ===== src/Nodes/Publishing.antt =====
-- nodes/delivery.py: what a publication does with its repository, and with what was published
-- before it.
use text.Mathlib.TextPositions.{eq_refl}
use execution_accelerator.Prelude.{
  String, ◌≡◌, refl, sym, ap, ◌∙◌, ◌⊎◌, inl, inr, true, false, Option, none, some, List, [], ◌∷◌,
  ◌++◌, one_of, remove, Outcome, ok, raised, ◌>>=◌, arith,
}
use execution_accelerator.Schemas.{
  BranchPublicationResult, JiraCompletionResult, PullRequestSummary, WorkflowStatus,
}
use execution_accelerator.State.{RemediationState, RepositoryWorkspace, Step, WorkflowError}
use execution_accelerator.Nodes.NextTarget.{PointsAt, find_target_index-PointsAt}
use execution_accelerator.Nodes.Published.{failed, finished, publish_remediation-Publication}
use execution_accelerator.Nodes.Continuation.{completed_with, pending_without, repo_continuation}
use execution_accelerator.Nodes.Delivery.{
  DeliveryAdapter, DeliveryError, branch_result, delivery_failure_update, finish_repository,
  jira_result, publish_branch, publish_jira, publish_pull_request, publish_remediation,
  pull_request_result, current_repository,
}

-- The adapter matters to a publication only by what it answers.
publish_jira-adapter :
    (a b : DeliveryAdapter) (state : RemediationState) (repository : String)
    (branch : BranchPublicationResult) (pull_request : PullRequestSummary)
    (result : Outcome DeliveryError JiraCompletionResult)
    → publish_jira a state repository branch pull_request result
      ≡ publish_jira b state repository branch pull_request result
unfolding publish_jira
publish_jira-adapter a b state repository branch pull_request (ok jira) = refl
publish_jira-adapter a b state repository branch pull_request (raised error) = refl

publish_pull_request-adapter :
    (a : DeliveryAdapter)
    (load : String
      → Option RepositoryWorkspace
      → String
      → Option String
      → Outcome DeliveryError BranchPublicationResult)
    (state : RemediationState) (repository : String) (branch : BranchPublicationResult)
    (result : Outcome DeliveryError PullRequestSummary)
    → publish_pull_request
        (record a { load_branch_publication = load })
        state
        repository
        branch
        result
      ≡ publish_pull_request a state repository branch result
unfolding publish_pull_request
publish_pull_request-adapter a load state repository branch (ok pull_request) =
    publish_jira-adapter (record a { load_branch_publication = load }) a state repository branch
      pull_request (jira_result a state repository pull_request)
publish_pull_request-adapter a load state repository branch (raised error) = refl

current_cases :
    (state : RemediationState) (f g : String → Step RemediationState)
    → ((repository : String) → f repository ≡ g repository)
    → (current_repository state >>= f) ≡ (current_repository state >>= g)
current_cases state f g same = of_outcome (current_repository state)
  where
    of_outcome : (m : Step String) → (m >>= f) ≡ (m >>= g)
    of_outcome (ok repository) = same repository
    of_outcome (raised failure) = refl

branch_reused :
    (a : DeliveryAdapter) (state : RemediationState) (repository : String)
    (branch : BranchPublicationResult)
    → state.branch_publication ≡ some branch
    → branch_result a state repository ≡ ok branch
branch_reused a state repository branch published = ground (arith, published)

-- A branch that is published already is not published again: what the adapter would answer to
-- that call makes no difference to the node.
pub publish_remediation-branch_once :
    (a : DeliveryAdapter)
    (load : String
      → Option RepositoryWorkspace
      → String
      → Option String
      → Outcome DeliveryError BranchPublicationResult)
    (state : RemediationState) (branch : BranchPublicationResult)
    → state.branch_publication ≡ some branch
    → publish_remediation (record a { load_branch_publication = load }) state
      ≡ publish_remediation a state
unfolding publish_remediation publish_branch
publish_remediation-branch_once a load state branch published =
    current_cases state _ _ λ repository.
      ap (publish_branch _ state repository) (
        branch_reused (record a { load_branch_publication = load }) state repository branch
          published)
      ∙ publish_pull_request-adapter a load state repository branch
          (pull_request_result a state repository branch)
      ∙ sym (
          ap (publish_branch a state repository)
            (branch_reused a state repository branch published))

remove-absent : (r : String) (ps : List String) → one_of r (remove r ps) ≡ false
unfolding remove
remove-absent r [] = refl
remove-absent r (p ∷ ps) = ground (arith, remove-absent r ps)

one_of-append : (r : String) (ps : List String) → one_of r (ps ++ (r ∷ [])) ≡ true
one_of-append r [] = ground (arith, eq_refl r)
one_of-append r (p ∷ ps) = ground (arith, one_of-append r ps)

completed_with-one_of :
    (state : RemediationState) (repository : String)
    → one_of repository (completed_with state repository) ≡ true
completed_with-one_of state repository =
    ground (arith, one_of-append repository state.completed_repos)

-- No route is chosen, and nothing is known or planned of the repository.
abbrev pub WithoutPlans : RemediationState → Type 0
WithoutPlans state' =
    (state'.route_decision ≡ none)
    × (state'.pom_mutation_plan ≡ none)
    × (state'.preflight_resolution ≡ none)
    × (state'.artifact_candidates ≡ [])
    × (state'.compatibility_diff ≡ none)
    × (state'.complex_remediation_plan ≡ none)
    × (state'.decompiled_artifacts ≡ [])
    × (state'.symbol_mappings ≡ [])
    × (state'.code_change_plan ≡ none)
    × (state'.maven_plan ≡ none)
    × (state'.maven_verification ≡ none)
    × (state'.remediation_plan ≡ none)

-- Nothing is changed, validated or published.
abbrev pub WithoutChanges : RemediationState → Type 0
WithoutChanges state' =
    (state'.modified_files ≡ [])
    × (state'.code_diffs ≡ [])
    × (state'.validation_results ≡ [])
    × (state'.rollback_plan ≡ none)
    × (state'.branch_publication ≡ none)
    × (state'.pull_request_summary ≡ none)
    × (state'.jira_completion ≡ none)

-- No attempt counts, and nothing is decided about one.
abbrev pub WithoutAttempts : RemediationState → Type 0
WithoutAttempts state' =
    (state'.total_attempts ≡ 0)
    × (state'.failure_classifications ≡ [])
    × (state'.policy_decisions ≡ [])
    × (state'.retry_count ≡ 0)
    × (state'.retry_decision ≡ none)

-- No approval is wanted, awaited or given.
abbrev pub WithoutApprovals : RemediationState → Type 0
WithoutApprovals state' =
    (state'.requires_human_approval ≡ false)
    × (state'.requires_delivery_approval ≡ false)
    × (state'.pending_approval_stage ≡ none)
    × (state'.pending_approval_reason ≡ none)
    × (state'.human_feedback ≡ none)
    × (state'.approval_history ≡ [])

-- A state in which the next repository begins, without the plans, changes, attempts and approvals of
-- the one before it.
abbrev pub BeginsAfresh : RemediationState → Type 0
BeginsAfresh state' =
    (state'.current_working_repo ≡ none)
    × (state'.workflow_status ≡ WorkflowStatus.in_progress)
    × WithoutPlans state'
    × WithoutChanges state'
    × WithoutAttempts state'
    × WithoutApprovals state'

-- What the continuation leaves, by the repositories that are pending then.
abbrev pub Continues : RemediationState → RemediationState → Type 0
Continues state state' =
    ((state'.pending_repos ≡ [])
      × (state'.workflow_status ≡ WorkflowStatus.completed)
      × (state'.pending_approval_stage ≡ none)
      × (state'.retry_decision ≡ none))
    ⊎ ((next : String) × (later : List String) × (state'.pending_repos ≡ next ∷ later)
        × PointsAt state next state'.current_target_index
        × BeginsAfresh state')

-- The lists of repositories after a publication.
abbrev pub Finished : RemediationState → RemediationState → String → Type 0
Finished state state' repository =
    (state'.pending_repos ≡ remove repository state.pending_repos)
    × (one_of repository state'.pending_repos ≡ false)
    × (one_of repository state'.completed_repos ≡ true)
    × (state'.errors ≡ [])
    × Continues state state'

continuation-next :
    (state : RemediationState) (pending completed : List String)
    → let state' = repo_continuation state pending completed in
      (state'.pending_repos ≡ pending)
      × (state'.completed_repos ≡ completed)
      × (state'.errors ≡ [])
      × Continues state state'
unfolding repo_continuation
continuation-next state [] completed = (refl, refl, refl, inl (refl, refl, refl, refl))
continuation-next state (next ∷ pending) completed = (
  refl,
  refl,
  refl,
  inr (
    next,
    pending,
    refl,
    find_target_index-PointsAt state next,
    (
      refl,
      refl,
      (refl, refl, refl, refl, refl, refl, refl, refl, refl, refl, refl, refl),
      (refl, refl, refl, refl, refl, refl, refl),
      (refl, refl, refl, refl, refl),
      (refl, refl, refl, refl, refl, refl),
    ),
  ),
)

finish_repository-Finished :
    (state : RemediationState) (repository : String) (branch : BranchPublicationResult)
    (pull_request : PullRequestSummary) (jira : JiraCompletionResult)
    → Finished state (finish_repository state repository branch pull_request jira) repository
unfolding finish_repository
finish_repository-Finished state repository branch pull_request jira =
    let published = record state {
      branch_publication = some branch;
      pull_request_summary = some pull_request;
      jira_completion = some jira;
    } in
    let (pending, completed, errors, next) =
      continuation-next published (pending_without state repository)
        (completed_with state repository) in
    (
      pending,
      rw pending (remove-absent repository state.pending_repos),
      rw completed (completed_with-one_of state repository),
      errors,
      elim next [
        | inl (p, q, r, s) ↦ inl (p, q, r, s)
        | inr (n, l, pend, at, b) ↦ inr (n, l, pend, at, b)
      ],
    )

-- A publication that returns has recorded one more error, failed the workflow and left the lists of
-- repositories as they were; or its repository is completed and the only one taken off the pending
-- ones, no error is left, and either nothing is pending and the workflow is completed, or the next
-- repository begins at its first target, without the plans, changes, attempts and approvals of this
-- one.
pub publish_remediation-outcome :
    (a : DeliveryAdapter) (state state' : RemediationState)
    → publish_remediation a state ≡ ok state'
    → ((error : WorkflowError) × (state'.errors ≡ state.errors ++ (error ∷ []))
        × (state'.workflow_status ≡ WorkflowStatus.failed)
        × (state'.pending_repos ≡ state.pending_repos)
        × (state'.completed_repos ≡ state.completed_repos))
      ⊎ ((repository : String) × (state.current_working_repo ≡ some repository)
          × Finished state state' repository)
unfolding delivery_failure_update
publish_remediation-outcome a state state' h =
    elim (publish_remediation-Publication a state state' h) [
      | failed repository error p current e ↦ inl (rw e (_, refl, refl, refl, refl))
      | finished repository branch pull_request jira current e ↦ inr (
        repository,
        current,
        rw e (finish_repository-Finished state repository branch pull_request jira),
      )
    ]

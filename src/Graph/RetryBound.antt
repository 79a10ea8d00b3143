-- ===== src/Graph/RetryBound.antt =====
-- The retries of a run stay within their budget.
use execution_accelerator.Prelude.{
  ℕ, ◌≤◌, ◌≡◌, refl, ◌⊎◌, inl, inr, String, Bool, some, List, [], ◌∷◌, Bool-cases, ok, bind_ok,
  arith,
}
use execution_accelerator.Schemas.{ApprovalStage, HumanFeedback}
use execution_accelerator.State.{RemediationState}
use execution_accelerator.Policy.{PolicyConfig}
use execution_accelerator.Nodes.ApplyPolicy
use execution_accelerator.Nodes.Approval
use execution_accelerator.Nodes.Continuation.{completed_with, pending_without, repo_continuation}
use execution_accelerator.Nodes.Delivery
use execution_accelerator.Nodes.Delivery.{
  finish_repository, delivery_failure_update, skip_repository,
}
use execution_accelerator.Nodes.Published.{
  Publication, failed, finished, publish_remediation-Publication,
}
use execution_accelerator.Nodes.Retry
use execution_accelerator.Nodes.Retry.{RetryLimits, is_escalation, retry_target}
use execution_accelerator.Nodes.RetryBudget.{retry_target-retries}
use execution_accelerator.Nodes.Validation
use execution_accelerator.Nodes.Validation.{ValidationAdapter}
use execution_accelerator.Graph.Edges.{
  Node, apply_policy, review_remediation_approval, validate_remediation, handle_validation_failure,
  prepare_delivery_approval, review_delivery_approval, publish_remediation,
  skip_publish_for_dry_run, classify_failure, select_post_approval_node,
  select_post_delivery_approval_node,
}
use execution_accelerator.Graph.Run.{
  Adapters, Move, Reaches, is_delivery_stage, Settings, Thread, begin, moved, resume,
  resume_delivery, resume_stopped, resume_ended, resume_remediation, resumed_state, run, run_node,
  runs, thread_at, with_feedback,
}
use execution_accelerator.Graph.Safety.{run_node-Untouched}
use execution_accelerator.Graph.Termination.{round}

-- The retries are as many as before, or none.
abbrev SameOrNone : RemediationState → RemediationState → Type 0
SameOrNone s s' = (s'.retry_count ≡ s.retry_count) ⊎ (s'.retry_count ≡ 0)

continuation-retries :
    (s : RemediationState) (pending completed : List String)
    → SameOrNone s (repo_continuation s pending completed)
unfolding repo_continuation
continuation-retries s [] completed = inl refl
continuation-retries s (next ∷ pending) completed = inr refl

Publication-retries : (s s' : RemediationState) → Publication s s' → SameOrNone s s'
unfolding delivery_failure_update finish_repository
Publication-retries s s' (failed repository error p current e) = inl (rw e refl)
Publication-retries s s' (finished repository branch pull_request jira current e) =
    let published = record s {
      branch_publication = some branch;
      pull_request_summary = some pull_request;
      jira_completion = some jira;
    } in
    rw e
      (continuation-retries published (pending_without s repository) (completed_with s repository))

skip-retries :
    (dry_run : Bool) (s s' : RemediationState)
    → Delivery.skip_publish_for_dry_run dry_run s ≡ ok s'
    → SameOrNone s s'
unfolding Delivery.skip_publish_for_dry_run skip_repository
skip-retries dry_run s s' h =
    let (repository, found, done) = bind_ok (Delivery.skipped_repository s) _ h in
    let kept =
      continuation-retries s (pending_without s repository) (completed_with s repository) in
    ground (arith, kept, done)

policy-retries :
    (config : PolicyConfig) (s : RemediationState)
    → (ApplyPolicy.apply_policy config s).retry_count ≡ s.retry_count
unfolding ApplyPolicy.apply_policy
policy-retries config s = ground arith

review-retries :
    (stage : ApprovalStage) (s : RemediationState)
    → (Approval.review_approval stage s).retry_count ≡ s.retry_count
unfolding Approval.review_approval
review-retries stage s = ground arith

validate-retries :
    (a : ValidationAdapter) (s s' : RemediationState)
    → Validation.validate_remediation a s ≡ ok s'
    → s'.retry_count ≡ s.retry_count
unfolding Validation.validate_remediation
validate-retries a s s' h = ground arith

handle-retries :
    (a : ValidationAdapter) (s s' : RemediationState)
    → Validation.handle_validation_failure a s ≡ ok s'
    → s'.retry_count ≡ s.retry_count
unfolding Validation.handle_validation_failure
handle-retries a s s' h = ground arith

-- A retry is counted where there is room for it.
classify-retries :
    (limits : RetryLimits) (bound : ℕ) (s : RemediationState)
    → limits.max_retry_attempts ≤ bound
    → s.retry_count ≤ bound
    → (Retry.classify_failure limits s).retry_count ≤ bound
unfolding Retry.classify_failure
classify-retries limits bound s budget h =
    elim (Bool-cases (is_escalation (retry_target limits s))) [
      | inl escalates ↦ rw escalates h
      | inr retries ↦
          let room = (retry_target-retries limits s).0 retries in
          let r = room.retries in rw retries (omega arith)
    ]

module _ (settings : Settings) (bound : ℕ)
    (budget : settings.limits.max_retry_attempts ≤ bound) where
  -- The retries are within the bound.
  abbrev Within : RemediationState → Type 0
  Within s = s.retry_count ≤ bound

  SameOrNone-Within : (s s' : RemediationState) → SameOrNone s s' → Within s → Within s'
  SameOrNone-Within s s' kept h = omega arith

  node-Within :
      (a : Adapters) (s s' : RemediationState) (node : Node)
      → Within s
      → run_node settings a node s ≡ ok s'
      → Within s'
  unfolding run_node
  node-Within a s s' apply_policy w h =
      let e : ApplyPolicy.apply_policy settings.policy s ≡ s' = ground (arith, h) in
      rw (← e, policy-retries settings.policy s) w
  node-Within a s s' review_remediation_approval w h =
      let e : Approval.review_approval ApprovalStage.remediation s ≡ s' = ground (arith, h) in
      rw (← e, review-retries ApprovalStage.remediation s) w
  node-Within a s s' review_delivery_approval w h =
      let e : Approval.review_approval ApprovalStage.delivery s ≡ s' = ground (arith, h) in
      rw (← e, review-retries ApprovalStage.delivery s) w
  node-Within a s s' validate_remediation w h = rw (validate-retries a.validation s s' h) w
  node-Within a s s' handle_validation_failure w h = rw (handle-retries a.validation s s' h) w
  node-Within a s s' prepare_delivery_approval w h =
      let e : Approval.prepare_delivery_approval s ≡ s' = ground (arith, h) in
      rw (← e) (unfold Approval.prepare_delivery_approval in w)
  node-Within a s s' publish_remediation w h =
      SameOrNone-Within s s'
        (Publication-retries s s' (publish_remediation-Publication a.delivery s s' h)) w
  node-Within a s s' skip_publish_for_dry_run w h =
      SameOrNone-Within s s' (skip-retries settings.dry_run s s' h) w
  node-Within a s s' classify_failure w h =
      let e : Retry.classify_failure settings.limits s ≡ s' = ground (arith, h) in
      rw (← e) (classify-retries settings.limits bound s budget w)
  node-Within a s s' node w h = rw ((run_node-Untouched settings a s s' node refl h).retries) w

  resumed-Within :
      (stage : ApprovalStage) (feedback : HumanFeedback) (s : RemediationState)
      → Within s
      → Within (resumed_state stage feedback s)
  resumed-Within stage feedback s w = rw (review-retries stage (with_feedback feedback s)) w

  resume-Within :
      (feedback : HumanFeedback) (s : RemediationState) (t : Thread)
      → Within s
      → resume feedback s ≡ ok t
      → Within t.state
  unfolding resume
  resume-Within feedback s t w h = elim (Bool-cases (is_delivery_stage s.pending_approval_stage)) [
    | inl delivers ↦
        let s' = resumed_state ApprovalStage.delivery feedback s in
        let e : thread_at (select_post_delivery_approval_node s') s' ≡ t =
          ground (arith, delivers, h) in
        rw (← e) (resumed-Within ApprovalStage.delivery feedback s w)
    | inr remediates ↦
        let s' = resumed_state ApprovalStage.remediation feedback s in
        let (target, edge, done) = bind_ok (select_post_approval_node s') _ (rw remediates at h) in
        let e : thread_at target s' ≡ t = ground (arith, done) in
        rw (← e) (resumed-Within ApprovalStage.remediation feedback s w)
  ]

  Move-Within : (s t : Thread) → Move settings s t → Within s.state → Within t.state
  Move-Within s t (run (runs a node at step)) w =
      let (ran, edge) = round settings a node s.state t step in
      node-Within a s.state t.state node w ran
  Move-Within s t (resume_ended feedback at h) w = resume-Within feedback s.state t w h
  Move-Within s t (resume_remediation feedback at h) w = resume-Within feedback s.state t w h
  Move-Within s t (resume_delivery feedback at h) w = resume-Within feedback s.state t w h
  Move-Within s t (resume_stopped feedback a node failure at step h) w =
      resume-Within feedback s.state t w h

-- In every thread of a run, resumptions included, the retries of the current repository are within
-- any bound on the retry budgets of the run's processes; where all have one budget, within that.
pub retry_count-bound :
    (Allowed : Settings → Type 0) (bound : ℕ) (ticket_id : String) {t : Thread}
    → ((settings : Settings) → Allowed settings → settings.limits.max_retry_attempts ≤ bound)
    → Reaches Allowed ticket_id t
    → t.state.retry_count ≤ bound
retry_count-bound Allowed bound ticket_id within begin = omega arith
retry_count-bound Allowed bound ticket_id within (moved {s} {t} reaches settings allowed move) =
    Move-Within settings bound (within settings allowed) s t move
      (retry_count-bound Allowed bound ticket_id within reaches)

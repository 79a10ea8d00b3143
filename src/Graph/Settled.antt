-- ===== src/Graph/Settled.antt =====
-- A completed repository of a run is not pending again.
use execution_accelerator.Prelude.{
  ◌≡◌, refl, ◌∙◌, Bool, true, false, inl, inr, Bool-cases, Option, some, String, List, [], ◌∷◌, ok,
  bind_ok, arith,
}
use execution_accelerator.Schemas.{ApprovalStage, HumanFeedback}
use execution_accelerator.State.{RemediationState}
use execution_accelerator.Nodes.Continuation.{completed_with, pending_without, repo_continuation}
use execution_accelerator.Nodes.Delivery
use execution_accelerator.Nodes.Delivery.{
  delivery_failure_update, finish_repository, skip_repository,
}
use execution_accelerator.Nodes.Published.{
  Publication, failed, finished, publish_remediation-Publication,
}
use execution_accelerator.Nodes.Retry
use execution_accelerator.Nodes.Retry.{RetryLimits}
use execution_accelerator.Graph.Edges.{
  Node, bootstrap_state, probe_credentials, ingest_and_parse_jira, load_repository_context,
  check_repository_idempotency, publish_remediation, skip_publish_for_dry_run, classify_failure,
  next_node, select_post_approval_node, select_post_delivery_approval_node,
}
use execution_accelerator.Graph.Apart.{IsApart, completed_with-IsApart}
use execution_accelerator.Graph.Attempt.{run_node-Keeps}
use execution_accelerator.Graph.Work
use execution_accelerator.Graph.Work.{Keeps}
use execution_accelerator.Graph.Finish.{delivery_failure_update-Keeps}
use execution_accelerator.Graph.Safety.{run_node-Untouched, touches_nothing}
use execution_accelerator.Graph.Run.{
  Adapters, Move, Reaches, Settings, Thread, begin, is_delivery_stage, moved, resume,
  resume_delivery, resume_stopped, resume_ended, resume_remediation, resumed_state, run, run_node,
  runs, thread_at, with_feedback,
}
use execution_accelerator.Graph.Termination.{round}

-- The completed and the pending repositories of a state.
abbrev pub Settled : RemediationState → Type 0
Settled s = IsApart s.completed_repos s.pending_repos

Keeps-Settled : (s s' : RemediationState) → Keeps s s' → Settled s → Settled s'
Keeps-Settled s s' k h = rw (k.completed, k.pending) h

continuation-Settled :
    (t : RemediationState) (pending completed : List String)
    → IsApart completed pending
    → Settled (repo_continuation t pending completed)
unfolding repo_continuation
continuation-Settled t [] completed h = h
continuation-Settled t (next ∷ pending) completed h = h

Publication-Settled : (s s' : RemediationState) → Publication s s' → Settled s → Settled s'
unfolding finish_repository
Publication-Settled s s' (failed repository error p current e) h = rw e (
    Keeps-Settled s (delivery_failure_update s error p) (delivery_failure_update-Keeps s error p) h)
Publication-Settled s s' (finished repository branch pull_request jira current e) h =
    let published = record s {
      branch_publication = some branch;
      pull_request_summary = some pull_request;
      jira_completion = some jira;
    } in
    rw e (
      continuation-Settled published (pending_without s repository) (completed_with s repository)
        (completed_with-IsApart s repository h))

skip-Settled :
    (dry_run : Bool) (s s' : RemediationState)
    → Delivery.skip_publish_for_dry_run dry_run s ≡ ok s'
    → Settled s
    → Settled s'
unfolding Delivery.skip_publish_for_dry_run skip_repository
skip-Settled dry_run s s' h settled =
    let (repository, found, done) = bind_ok (Delivery.skipped_repository s) _ h in
    let e : skip_repository dry_run s repository ≡ s' = ground (arith, done) in
    rw (← e) (
      continuation-Settled s (pending_without s repository) (completed_with s repository)
        (completed_with-IsApart s repository settled))

classify-Settled :
    (limits : RetryLimits) (s : RemediationState)
    → Settled s
    → Settled (Retry.classify_failure limits s)
unfolding Retry.classify_failure
classify-Settled limits s h = h

-- The nodes up to the idempotency check, before which no repository is completed.
abbrev is_early : Option Node → Bool
is_early (some bootstrap_state) = true
is_early (some probe_credentials) = true
is_early (some ingest_and_parse_jira) = true
is_early (some load_repository_context) = true
is_early (some check_repository_idempotency) = true
is_early _ = false

next_node-late :
    (dry_run : Bool) (node : Node) (s : RemediationState) (target : Option Node)
    → is_early (some node) ≡ false
    → next_node dry_run node s ≡ ok target
    → is_early target ≡ false
unfolding next_node
next_node-late dry_run _ s target d h = ground (arith, d, h)

early_touches_nothing : (node : Node) → is_early (some node) ≡ true → touches_nothing node ≡ true
early_touches_nothing _ d = ground (arith, d)

-- No repository is completed before the check, and none is completed and pending behind it.
abbrev ThreadSettled : Thread → Type 0
ThreadSettled t = (is_early t.node ≡ true → t.state.completed_repos ≡ []) × Settled t.state

module _ (settings : Settings) where
  node-Settled :
      (a : Adapters) (s s' : RemediationState) (node : Node)
      → is_early (some node) ≡ false
      → run_node settings a node s ≡ ok s'
      → Settled s
      → Settled s'
  unfolding run_node
  node-Settled a s s' publish_remediation d h settled =
      Publication-Settled s s' (publish_remediation-Publication a.delivery s s' h) settled
  node-Settled a s s' skip_publish_for_dry_run d h settled =
      skip-Settled settings.dry_run s s' h settled
  node-Settled a s s' classify_failure d h settled =
      let e : Retry.classify_failure settings.limits s ≡ s' = ground (arith, h) in
      rw (← e) (classify-Settled settings.limits s settled)
  node-Settled a s s' node d h settled =
      Keeps-Settled s s' (run_node-Keeps settings a s s' node (ground (arith, d)) h) settled

  none-Settled : (s : RemediationState) → s.completed_repos ≡ [] → Settled s
  none-Settled s e = rw e tt

  late-ThreadSettled : (t : Thread) → is_early t.node ≡ false → Settled t.state → ThreadSettled t
  late-ThreadSettled t late settled = ((λ e. absurd (ground (arith, e, late))), settled)

  run-ThreadSettled :
      (a : Adapters) (node : Node) (s t : Thread)
      → s.node ≡ some node
      → run_node settings a node s.state ≡ ok t.state
      → next_node settings.dry_run node t.state ≡ ok t.node
      → ThreadSettled s
      → ThreadSettled t
  run-ThreadSettled a node s t at ran edge (early, settled) =
      elim (Bool-cases (is_early (some node))) [
        | inl before ↦
            let kept =
              (run_node-Untouched settings a s.state t.state node
                (early_touches_nothing node before) ran).completed in
            let empty : t.state.completed_repos ≡ [] = kept ∙ early (rw at before) in
            ((λ e. empty), none-Settled t.state empty)
        | inr late ↦
            late-ThreadSettled t (next_node-late settings.dry_run node t.state t.node late edge)
              (node-Settled a s.state t.state node late ran settled)
      ]

  resumed-Settled :
      (stage : ApprovalStage) (feedback : HumanFeedback) (s : RemediationState)
      → Settled s
      → Settled (resumed_state stage feedback s)
  resumed-Settled stage feedback s settled =
      let kept = Work.review_approval-Keeps (with_feedback feedback s) _ stage refl in
      rw (kept.completed, kept.pending) settled

  approval-late :
      (s : RemediationState) (target : Option Node)
      → select_post_approval_node s ≡ ok target
      → is_early target ≡ false
  unfolding next_node
  approval-late s target h = next_node-late false Node.review_remediation_approval s target refl h

  delivery-late : (s : RemediationState) → is_early (select_post_delivery_approval_node s) ≡ false
  unfolding next_node
  delivery-late s = next_node-late false Node.review_delivery_approval s _ refl refl

  resume-ThreadSettled :
      (feedback : HumanFeedback) (s : RemediationState) (t : Thread)
      → Settled s
      → resume feedback s ≡ ok t
      → ThreadSettled t
  unfolding resume
  resume-ThreadSettled feedback s t settled h =
      elim (Bool-cases (is_delivery_stage s.pending_approval_stage)) [
        | inl delivers ↦
            let s' = resumed_state ApprovalStage.delivery feedback s in
            let e : thread_at (select_post_delivery_approval_node s') s' ≡ t =
              ground (arith, delivers, h) in
            rw (← e) (
              late-ThreadSettled (thread_at (select_post_delivery_approval_node s') s')
                (delivery-late s') (resumed-Settled ApprovalStage.delivery feedback s settled))
        | inr remediates ↦
            let s' = resumed_state ApprovalStage.remediation feedback s in
            let (target, edge, done) =
              bind_ok (select_post_approval_node s') _ (rw remediates at h) in
            let e : thread_at target s' ≡ t = ground (arith, done) in
            rw (← e) (
              late-ThreadSettled (thread_at target s') (approval-late s' target edge)
                (resumed-Settled ApprovalStage.remediation feedback s settled))
      ]

  Move-ThreadSettled : (s t : Thread) → Move settings s t → ThreadSettled s → ThreadSettled t
  Move-ThreadSettled s t (run (runs a node at step)) settled =
      let (ran, edge) = round settings a node s.state t step in
      run-ThreadSettled a node s t at ran edge settled
  Move-ThreadSettled s t (resume_ended feedback at h) settled =
      resume-ThreadSettled feedback s.state t settled.1 h
  Move-ThreadSettled s t (resume_remediation feedback at h) settled =
      resume-ThreadSettled feedback s.state t settled.1 h
  Move-ThreadSettled s t (resume_delivery feedback at h) settled =
      resume-ThreadSettled feedback s.state t settled.1 h
  Move-ThreadSettled s t (resume_stopped feedback a node failure at step h) settled =
      resume-ThreadSettled feedback s.state t settled.1 h

Reaches-ThreadSettled :
    (Allowed : Settings → Type 0) (ticket_id : String) {t : Thread}
    → Reaches Allowed ticket_id t
    → ThreadSettled t
Reaches-ThreadSettled Allowed ticket_id begin = ((λ e. refl), tt)
Reaches-ThreadSettled Allowed ticket_id (moved {s} {t} reaches settings allowed move) =
    Move-ThreadSettled settings s t move (Reaches-ThreadSettled Allowed ticket_id reaches)

-- In every thread of a run, resumptions included, whatever the settings of each process, no completed
-- repository is pending.
pub completed_repos-apart :
    (Allowed : Settings → Type 0) (ticket_id : String) {t : Thread}
    → Reaches Allowed ticket_id t
    → Settled t.state
completed_repos-apart Allowed ticket_id {t} reaches =
    (Reaches-ThreadSettled Allowed ticket_id reaches).1

-- ===== src/Graph/DryRun.antt =====
-- The dry run publishes nothing.
use execution_accelerator.Prelude.{
  String, ◌≡◌, ◌≢◌, refl, ◌∙◌, Bool, true, false, not, ◌&&◌, Option, none, some, ok, bind_ok, arith,
}
use execution_accelerator.Schemas.{ApprovalStage, HumanFeedback}
use execution_accelerator.State.{RemediationState}
use execution_accelerator.Nodes.Approval
use execution_accelerator.Nodes.ApplyPolicy
use execution_accelerator.Nodes.Delivery
use execution_accelerator.Nodes.Delivery.{skip_repository}
use execution_accelerator.Nodes.Retry
use execution_accelerator.Nodes.Retry.{RetryLimits, retry_target}
use execution_accelerator.Graph.Edges.{
  Node, apply_policy, review_remediation_approval, validate_remediation, handle_validation_failure,
  prepare_delivery_approval, review_delivery_approval, publish_remediation,
  skip_publish_for_dry_run, classify_failure, next_node, select_post_validation_node,
  select_post_approval_node,
}
use execution_accelerator.Graph.Run.{
  Adapters, Move, Reaches, Settings, Thread, begin, moved, resume, resume_delivery, resume_stopped,
  resume_ended, resume_remediation, resumed_state, run, run_node, runs, thread_at, with_feedback,
}
use execution_accelerator.Graph.Guard.{
  Untouched-awaits_delivery, awaits_delivery, delivery_failed, is_plain,
}
use execution_accelerator.Graph.GuardNodes.{
  apply_policy-awaits, lane-plain, policy_edge-plain, review-approved, review-decision,
  review-pending, review-rejected,
}
use execution_accelerator.Graph.GuardDelivery.{
  classified_state, handle-after, retry_target-publishes, skip-awaits, skip-plain, validate-awaits,
}
use execution_accelerator.Graph.Descent.{decided_edge}
use execution_accelerator.Graph.Safety.{resumed-review, run_node-Untouched, untouched-plain}
use execution_accelerator.Graph.Termination.{round}

-- No delivery is awaited, and none has failed.
unfoldable calm : Option Node → RemediationState → Bool
calm none s = not (awaits_delivery s)
calm (some publish_remediation) s = false
calm (some prepare_delivery_approval) s = false
calm (some review_delivery_approval) s = false
calm (some classify_failure) s = not (delivery_failed s) && not (awaits_delivery s)
calm (some node) s = not (awaits_delivery s)

plain-calm :
    (target : Option Node) (s : RemediationState)
    → is_plain target ≡ true
    → awaits_delivery s ≡ false
    → calm target s ≡ true
unfolding calm
plain-calm none s plain quiet = ground arith
plain-calm (some _) s plain quiet = ground arith

calm-quiet :
    (target : Option Node) (s : RemediationState) → calm target s ≡ true → awaits_delivery s ≡ false
unfolding calm
calm-quiet none s h = ground arith
calm-quiet (some _) s h = ground arith

review-calm :
    (s : RemediationState) (target : Option Node)
    → awaits_delivery s ≡ false
    → let s' = Approval.review_approval ApprovalStage.remediation s in
      select_post_approval_node s' ≡ ok target → calm target s' ≡ true
unfolding calm select_post_approval_node
review-calm s target v h =
    let s' = Approval.review_approval ApprovalStage.remediation s in
    ground (
      arith,
      review-decision ApprovalStage.remediation s,
      review-approved ApprovalStage.remediation s,
      review-rejected ApprovalStage.remediation s,
      review-pending ApprovalStage.remediation s,
      lane-plain s' target,
      plain-calm target s',
    )

validation_edge-calm :
    (s : RemediationState) (target : Option Node)
    → awaits_delivery s ≡ false
    → next_node true validate_remediation s ≡ ok target
    → calm target s ≡ true
unfolding next_node select_post_validation_node calm
validation_edge-calm s target quiet h = ground arith

skip-calm :
    (s s' : RemediationState) (target : Option Node)
    → Delivery.skip_publish_for_dry_run true s ≡ ok s'
    → next_node true skip_publish_for_dry_run s' ≡ ok target
    → calm target s' ≡ true
unfolding Delivery.skip_publish_for_dry_run
skip-calm s s' target h edge =
    let (repository, found, done) = bind_ok (Delivery.skipped_repository s) _ h in
    plain-calm target s' (skip-plain true s' target edge)
      (ground (arith, skip-awaits true s repository, done))

classify-calm :
    (limits : RetryLimits) (s : RemediationState) (target : Option Node)
    → calm (some classify_failure) s ≡ true
    → next_node true classify_failure (Retry.classify_failure limits s) ≡ ok target
    → calm target (Retry.classify_failure limits s) ≡ true
unfolding calm
classify-calm limits s target g edge =
    let s' = Retry.classify_failure limits s in
    ground (
      arith,
      classified_state limits s,
      plain-calm target s',
      retry_target-publishes limits s target (decided_edge true limits s target edge),
      g,
    )

module _ (settings : Settings) (dry : settings.dry_run ≡ true) where
  node-calm :
      (a : Adapters) (s s' : RemediationState) (node : Node) (target : Option Node)
      → calm (some node) s ≡ true
      → run_node settings a node s ≡ ok s'
      → next_node true node s' ≡ ok target
      → calm target s' ≡ true
  unfolding run_node calm next_node
  node-calm a s s' apply_policy target g h edge =
      let e : ApplyPolicy.apply_policy settings.policy s ≡ s' = ground (arith, h) in
      plain-calm target s' (policy_edge-plain true s' target edge)
        (rw (← e) (apply_policy-awaits settings.policy s (ground (arith, g))))
  node-calm a s s' review_remediation_approval target g h edge =
      let e : Approval.review_approval ApprovalStage.remediation s ≡ s' = ground (arith, h) in
      rw (← e) (review-calm s target (ground (arith, g)) (rw (← e) at edge))
  node-calm a s s' validate_remediation target g h edge =
      validation_edge-calm s' target (validate-awaits a.validation s s' h ∙ ground (arith, g)) edge
  node-calm a s s' handle_validation_failure target g h edge =
      let e : some classify_failure ≡ target = ground (arith, edge) in
      rw (← e) (ground (arith, handle-after a.validation s s' h, g))
  node-calm a s s' prepare_delivery_approval target g h edge = cc
  node-calm a s s' review_delivery_approval target g h edge = cc
  node-calm a s s' publish_remediation target g h edge = cc
  node-calm a s s' skip_publish_for_dry_run target g h edge =
      skip-calm s s' target (rw dry at h) edge
  node-calm a s s' classify_failure target g h edge =
      let e : Retry.classify_failure settings.limits s ≡ s' = ground (arith, h) in
      rw (← e) (classify-calm settings.limits s target g (rw (← e) at edge))
  node-calm a s s' node target g h edge =
      plain-calm target s' (untouched-plain true node s' target refl edge) (
        Untouched-awaits_delivery s s' (run_node-Untouched settings a s s' node refl h)
        ∙ calm-quiet (some node) s g)

  resume-calm :
      (feedback : HumanFeedback) (s : RemediationState) (t : Thread)
      → awaits_delivery s ≡ false
      → resume feedback s ≡ ok t
      → calm t.node t.state ≡ true
  unfolding resume
  resume-calm feedback s t quiet h =
      let s' = resumed_state ApprovalStage.remediation feedback s in
      let (target, edge, done) = bind_ok (select_post_approval_node s') _ (rw quiet at h) in
      let e : thread_at target s' ≡ t = ground (arith, done) in
      let reviewed = resumed-review ApprovalStage.remediation feedback s in
      rw (← e, reviewed) (review-calm (with_feedback feedback s) target quiet (rw reviewed at edge))

  Move-calm :
      (s t : Thread) → Move settings s t → calm s.node s.state ≡ true → calm t.node t.state ≡ true
  Move-calm s t (run (runs a node at step)) g =
      let (ran, edge) = round settings a node s.state t step in
      node-calm a s.state t.state node t.node (rw at at g) ran (rw dry at edge)
  Move-calm s t (resume_ended feedback at h) g =
      resume-calm feedback s.state t (calm-quiet s.node s.state g) h
  Move-calm s t (resume_remediation feedback at h) g =
      resume-calm feedback s.state t (calm-quiet s.node s.state g) h
  Move-calm s t (resume_delivery feedback at h) g =
      resume-calm feedback s.state t (calm-quiet s.node s.state g) h
  Move-calm s t (resume_stopped feedback a node failure at step h) g =
      resume-calm feedback s.state t (calm-quiet s.node s.state g) h

module _ (Allowed : Settings → Type 0)
    (dry : (settings : Settings) → Allowed settings → settings.dry_run ≡ true) where
  Reaches-calm :
      (ticket_id : String) {t : Thread} → Reaches Allowed ticket_id t → calm t.node t.state ≡ true
  unfolding calm
  Reaches-calm ticket_id begin = refl
  Reaches-calm ticket_id (moved {s} {t} reaches settings allowed move) =
      Move-calm settings (dry settings allowed) s t move (Reaches-calm ticket_id reaches)

-- Where the first process of a run and every one that resumes it is a dry run, no thread of the run
-- is ever about to publish.
pub dry_run-publishes_nothing :
    (Allowed : Settings → Type 0) (ticket_id : String) (t : Thread)
    → ((settings : Settings) → Allowed settings → settings.dry_run ≡ true)
    → Reaches Allowed ticket_id t
    → t.node ≢ some publish_remediation
unfolding calm
dry_run-publishes_nothing Allowed ticket_id t dry reaches at =
    let g = rw at at (Reaches-calm Allowed dry ticket_id reaches) in ground (arith, g)

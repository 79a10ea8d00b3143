-- ===== src/Graph/Safety.antt =====
-- What a published repository has behind it.
use execution_accelerator.Prelude.{
  String, ◌≡◌, refl, ◌∙◌, ◌⊎◌, inl, inr, Bool, true, false, Option, none, some, ◌≢◌, Bool-cases,
  last?, ok, bind_ok, arith,
}
use execution_accelerator.Schemas.{
  ApprovalDecision, ApprovalStage, HumanFeedback, RepositoryValidationResult, ValidationStatus,
}
use execution_accelerator.State.{RemediationState}
use execution_accelerator.Nodes.Approval
use execution_accelerator.Nodes.ApplyPolicy
use execution_accelerator.Nodes.Delivery.{has_delivery_approval}
use execution_accelerator.Nodes.Published.{publish_remediation-Publication}
use execution_accelerator.Nodes.Retry
use execution_accelerator.Graph.Edges.{
  Node, bootstrap_state, probe_credentials, ingest_and_parse_jira, load_repository_context,
  check_repository_idempotency, detect_maven_profile, verify_advisory, verify_maven_target,
  select_route, apply_policy, review_remediation_approval, prepare_complex_remediation,
  execute_complex_scaffold, remediate_simple, remediate_transitive, preflight_validate,
  validate_remediation, handle_validation_failure, prepare_delivery_approval,
  review_delivery_approval, publish_remediation, skip_publish_for_dry_run, classify_failure,
  escalate, next_node, select_post_approval_node, select_post_delivery_approval_node,
}
use execution_accelerator.Graph.Run.{
  Adapters, Move, Reaches, Runs, Settings, Thread, begin, moved, resume, resumed_thread,
  resume_delivery, resume_stopped, resume_ended, resume_remediation, resumed_state, run, run_node,
  runs, thread_at, with_feedback,
}
use execution_accelerator.Graph.Untouched
use execution_accelerator.Graph.Untouched.{Untouched}
use execution_accelerator.Graph.Guard.{
  Untouched-awaits_delivery, awaits_delivery, guarded, is_plain, not_failed, plain-guarded, ready,
  validated,
}
use execution_accelerator.Graph.GuardNodes.{
  apply_policy-guarded, delivery_review-guarded, remediation_review-guarded,
}
use execution_accelerator.Graph.GuardDelivery.{
  Publication-guarded, classify-guarded, handle-guarded, prepare_delivery-guarded, skip-guarded,
  validate-guarded,
}
use execution_accelerator.Graph.Termination.{round}

-- The nodes that touch no error, no approval and no validation.
abbrev pub touches_nothing : Node → Bool
touches_nothing apply_policy = false
touches_nothing review_remediation_approval = false
touches_nothing validate_remediation = false
touches_nothing handle_validation_failure = false
touches_nothing prepare_delivery_approval = false
touches_nothing review_delivery_approval = false
touches_nothing publish_remediation = false
touches_nothing skip_publish_for_dry_run = false
touches_nothing classify_failure = false
touches_nothing node = true

pub untouched-plain :
    (dry_run : Bool) (node : Node) (s : RemediationState) (target : Option Node)
    → touches_nothing node ≡ true
    → next_node dry_run node s ≡ ok target
    → is_plain target ≡ true
unfolding next_node
untouched-plain dry_run _ s target d h = ground arith

pub touches_nothing-quiet :
    (node : Node) (s : RemediationState)
    → touches_nothing node ≡ true
    → guarded (some node) s ≡ true
    → awaits_delivery s ≡ false
unfolding guarded
touches_nothing-quiet _ s d g = ground (arith, d, g)

module _ (settings : Settings) (a : Adapters) (s s' : RemediationState) where
  pub run_node-Untouched :
      (node : Node)
      → touches_nothing node ≡ true
      → run_node settings a node s ≡ ok s'
      → Untouched s s'
  unfolding run_node
  run_node-Untouched bootstrap_state d h =
      Untouched.bootstrap_state-Untouched s s' (ground (arith, h))
  run_node-Untouched probe_credentials d h =
      Untouched.probe_live_credentials-Untouched s s' settings.execution_mode a.probe h
  run_node-Untouched ingest_and_parse_jira d h =
      Untouched.ingest_and_parse_jira-Untouched s s' a.jira h
  run_node-Untouched load_repository_context d h =
      Untouched.load_repository_context-Untouched s s' a.inventory h
  run_node-Untouched check_repository_idempotency d h =
      Untouched.check_repository_idempotency-Untouched s s' a.inventory h
  run_node-Untouched detect_maven_profile d h =
      Untouched.detect_maven_profile-Untouched s s' a.detect h
  run_node-Untouched verify_advisory d h = Untouched.verify_advisory-Untouched s s' a.advisory h
  run_node-Untouched verify_maven_target d h =
      Untouched.verify_maven_target-Untouched s s' a.maven h
  run_node-Untouched select_route d h = Untouched.select_route-Untouched s s' h
  run_node-Untouched prepare_complex_remediation d h =
      Untouched.prepare_complex_remediation-Untouched s s' a.complex h
  run_node-Untouched execute_complex_scaffold d h =
      Untouched.execute_complex_scaffold-Untouched s s' a.complex h
  run_node-Untouched remediate_simple d h = Untouched.remediate_simple-Untouched s s' a.pom h
  run_node-Untouched remediate_transitive d h =
      Untouched.remediate_transitive-Untouched s s' a.pom h
  run_node-Untouched preflight_validate d h =
      Untouched.preflight_validate-Untouched s s' a.preflight h
  run_node-Untouched escalate d h = Untouched.escalate-Untouched s s' a.bundle h
  run_node-Untouched _ d h = cc

  plain_node-guarded :
      (node : Node) (target : Option Node)
      → touches_nothing node ≡ true
      → guarded (some node) s ≡ true
      → run_node settings a node s ≡ ok s'
      → next_node settings.dry_run node s' ≡ ok target
      → guarded target s' ≡ true
  plain_node-guarded node target d g h edge =
      let quiet : awaits_delivery s ≡ false = touches_nothing-quiet node s d g in
      plain-guarded target s' (untouched-plain settings.dry_run node s' target d edge)
        (Untouched-awaits_delivery s s' (run_node-Untouched node d h) ∙ quiet)

  node-guarded :
      (node : Node) (target : Option Node)
      → guarded (some node) s ≡ true
      → run_node settings a node s ≡ ok s'
      → next_node settings.dry_run node s' ≡ ok target
      → guarded target s' ≡ true
  unfolding run_node guarded next_node
  node-guarded apply_policy target g h edge =
      let e : ApplyPolicy.apply_policy settings.policy s ≡ s' = ground (arith, h) in
      rw (← e) (apply_policy-guarded settings.policy settings.dry_run s target g (rw (← e) at edge))
  node-guarded review_remediation_approval target g h edge =
      let e : Approval.review_approval ApprovalStage.remediation s ≡ s' = ground (arith, h) in
      rw (← e) (remediation_review-guarded s target (ground (arith, g)) (rw (← e) at edge))
  node-guarded validate_remediation target g h edge =
      validate-guarded a.validation settings.dry_run s s' target g h edge
  node-guarded handle_validation_failure target g h edge =
      let e : some classify_failure ≡ target = ground (arith, edge) in
      rw (← e) (handle-guarded a.validation s s' g h)
  node-guarded prepare_delivery_approval target g h edge =
      let e : some review_delivery_approval ≡ target = ground (arith, edge) in
      let e' : Approval.prepare_delivery_approval s ≡ s' = ground (arith, h) in
      rw (← e, ← e') (prepare_delivery-guarded s g)
  node-guarded review_delivery_approval target g h edge =
      let e : Approval.review_approval ApprovalStage.delivery s ≡ s' = ground (arith, h) in
      let e' : select_post_delivery_approval_node s' ≡ target = ground (arith, edge) in
      rw (← e', ← e) (delivery_review-guarded s g)
  node-guarded publish_remediation target g h edge =
      Publication-guarded settings.dry_run s s' target g
        (publish_remediation-Publication a.delivery s s' h) edge
  node-guarded skip_publish_for_dry_run target g h edge =
      skip-guarded settings.dry_run s s' target h edge
  node-guarded classify_failure target g h edge =
      let e : Retry.classify_failure settings.limits s ≡ s' = ground (arith, h) in
      rw (← e) (classify-guarded settings.dry_run settings.limits s target g (rw (← e) at edge))
  node-guarded node target g h edge = plain_node-guarded node target (ground arith) g h edge

abbrev ThreadGuarded : Thread → Type 0
ThreadGuarded t = guarded t.node t.state ≡ true

Runs-guarded :
    (settings : Settings) (s t : Thread) → Runs settings s t → ThreadGuarded s → ThreadGuarded t
Runs-guarded settings s t (runs a node at step) g =
    let (ran, edge) = round settings a node s.state t step in
    node-guarded settings a s.state t.state node t.node (rw at at g) ran edge

validated_result :
    (s : RemediationState)
    → validated s ≡ true
    → (result : RepositoryValidationResult) × (last? s.validation_results ≡ some result)
      × (result.status ≢ ValidationStatus.failed)
validated_result s h = not_failed_result (last? s.validation_results) h
  where
    not_failed_result :
        (latest : Option RepositoryValidationResult)
        → not_failed latest ≡ true
        → (result : RepositoryValidationResult) × (latest ≡ some result)
          × (result.status ≢ ValidationStatus.failed)
    not_failed_result none h = cc
    not_failed_result (some result) h = (result, refl, λ e. ground (arith, e, h))

-- A resumed state is a reviewed one.
pub resumed-review :
    (stage : ApprovalStage) (feedback : HumanFeedback) (s : RemediationState)
    → resumed_state stage feedback s ≡ Approval.review_approval stage (with_feedback feedback s)
unfolding Approval.review_approval
resumed-review stage feedback s = review_kept feedback.decision refl
  where
    review_kept :
        (decision : ApprovalDecision)
        → feedback.decision ≡ decision
        → resumed_state stage feedback s ≡ Approval.review_approval stage (with_feedback feedback s)
    review_kept ApprovalDecision.pending e = ground (arith, e)
    review_kept ApprovalDecision.approved e = ground (arith, e)
    review_kept ApprovalDecision.rejected e = ground (arith, e)

resume_remediation-guarded :
    (feedback : HumanFeedback) (s : RemediationState) (t : Thread)
    → awaits_delivery s ≡ false
    → resumed_thread false feedback s ≡ ok t
    → ThreadGuarded t
resume_remediation-guarded feedback s t quiet h =
    let s' = resumed_state ApprovalStage.remediation feedback s in
    let (target, edge, done) = bind_ok (select_post_approval_node s') _ h in
    let e : thread_at target s' ≡ t = ground (arith, done) in
    let reviewed = resumed-review ApprovalStage.remediation feedback s in
    rw (← e, reviewed)
      (remediation_review-guarded (with_feedback feedback s) target quiet (rw reviewed at edge))

resume_delivery-guarded :
    (feedback : HumanFeedback) (s : RemediationState) (t : Thread)
    → validated s ≡ true
    → resumed_thread true feedback s ≡ ok t
    → ThreadGuarded t
resume_delivery-guarded feedback s t v h =
    let s' = resumed_state ApprovalStage.delivery feedback s in
    let e : thread_at (select_post_delivery_approval_node s') s' ≡ t = ground (arith, h) in
    rw (← e, resumed-review ApprovalStage.delivery feedback s)
      (delivery_review-guarded (with_feedback feedback s) v)

resume-guarded :
    (feedback : HumanFeedback) (s : RemediationState) (t : Thread)
    → (awaits_delivery s ≡ false) ⊎ (validated s ≡ true)
    → resume feedback s ≡ ok t
    → ThreadGuarded t
unfolding resume
resume-guarded feedback s t g h = elim (Bool-cases (awaits_delivery s)) [
  | inl awaits ↦ resume_delivery-guarded feedback s t (ground (arith, awaits, g)) (rw awaits at h)
  | inr quiet ↦ resume_remediation-guarded feedback s t quiet (rw quiet at h)
]

-- Where a thread stands, it awaits no delivery, or is validated.
guarded-resumable :
    (node : Option Node) (s : RemediationState)
    → guarded node s ≡ true
    → (awaits_delivery s ≡ false) ⊎ (validated s ≡ true)
unfolding guarded
guarded-resumable none s g = ground (arith, g)
guarded-resumable (some _) s g = ground (arith, g)

Move-guarded :
    (settings : Settings) (s t : Thread) → Move settings s t → ThreadGuarded s → ThreadGuarded t
unfolding guarded
Move-guarded settings s t (run r) g = Runs-guarded settings s t r g
Move-guarded settings s t (resume_ended feedback at h) g =
    resume-guarded feedback s.state t (ground (arith, rw at at g)) h
Move-guarded settings s t (resume_remediation feedback at h) g =
    resume-guarded feedback s.state t (ground (arith, rw at at g)) h
Move-guarded settings s t (resume_delivery feedback at h) g =
    resume-guarded feedback s.state t (ground (arith, rw at at g)) h
Move-guarded settings s t (resume_stopped feedback a node failure at step h) g =
    resume-guarded feedback s.state t (guarded-resumable s.node s.state g) h

Reaches-guarded :
    (Allowed : Settings → Type 0) (ticket_id : String) {t : Thread}
    → Reaches Allowed ticket_id t
    → ThreadGuarded t
unfolding guarded
Reaches-guarded Allowed ticket_id begin = refl
Reaches-guarded Allowed ticket_id (moved {s} {t} reaches settings allowed move) =
    Move-guarded settings s t move (Reaches-guarded Allowed ticket_id reaches)

-- In every thread of a run that is about to publish, pauses and resumptions included, whatever the
-- settings of each process, the latest validation of the repository did not fail, and where the
-- policy wants a delivery approval, a human has given one.
pub publication-guarded :
    (Allowed : Settings → Type 0) (ticket_id : String) (t : Thread)
    → Reaches Allowed ticket_id t
    → t.node ≡ some publish_remediation
    → ((result : RepositoryValidationResult) × (last? t.state.validation_results ≡ some result)
        × (result.status ≢ ValidationStatus.failed))
      × ((t.state.requires_delivery_approval ≡ false) ⊎ (has_delivery_approval t.state ≡ true))
unfolding guarded ready
publication-guarded Allowed ticket_id t reaches at =
    let g : guarded (some publish_remediation) t.state ≡ true =
      rw at at (Reaches-guarded Allowed ticket_id reaches) in
    (validated_result t.state (ground (arith, g)), ground (arith, g))

-- ===== src/Tests/Runs.antt =====
-- A whole run, from the ticket to the publication.
use mathlib.Core.Path.{subst}
use mathlib.Core.WellFounded.{Acc}
use execution_accelerator.Schemas.{
  ApprovalStage, RepositoryValidationResult, ValidationStatus, WorkflowStatus,
}
use execution_accelerator.Nodes.Delivery.{
  has_delivery_approval, publish_remediation, publish_branch, publish_pull_request, publish_jira,
}
use execution_accelerator.Prelude.{
  ℕ, zero, suc, lookup, assign, last?, sort_texts, distinct, remove, ◌≡◌, ap, ◌≢◌, ◌⊎◌, refl, [],
  ◌∷◌, ◌++◌, Bool, true, false, Option, none, some, ok, raised, ◌>>=◌, bind_ok, arith, ◌≤◌,
}
use execution_accelerator.State.{RemediationState, Step, WorkflowError, uncaught}
use execution_accelerator.Policy.{collect_approval_reasons, current_target_tags, evaluate}
use execution_accelerator.Nodes.ApplyPolicy
use execution_accelerator.Nodes.Intake
use execution_accelerator.Nodes.Remediation
use execution_accelerator.Nodes.Validation
use execution_accelerator.Nodes.Verification
use execution_accelerator.Graph.Edges.{Node, next_node}
use execution_accelerator.Graph.Run.{
  Reaches, Runs, Settings, Thread, advance, begin, moved, initial_state, resume, resumed_state, run,
  runs, start, thread_at,
}
use execution_accelerator.Graph.Safety.{publication-guarded}
use execution_accelerator.Graph.RetryBound.{retry_count-bound}
use execution_accelerator.Graph.Audited.{Audited}
use execution_accelerator.Graph.AuditTrail.{audit_events-appended}
use execution_accelerator.Graph.Settled.{Settled, completed_repos-apart}
use execution_accelerator.Nodes.Continuation.{repo_continuation}
use execution_accelerator.Graph.DryRun.{dry_run-publishes_nothing}
use execution_accelerator.Graph.Termination.{every_run_ends}
use execution_accelerator.Graph.Blocked.{
  apply_policy-blocked, resume-overrides_block, resume-restarts_completed,
}
use execution_accelerator.Tests.Fixtures.{
  adapters, approval, blocking, settings, simple_route, target,
}

-- The round of a thread, where it has one.
round_of : Settings → Thread → Option Node → Step Thread
unfolding advance
round_of s t none = raised (uncaught "ended")
round_of s t (some node) = advance s adapters node t.state

-- So many rounds.
rounds : ℕ → Settings → Thread → Step Thread
unfolding round_of
rounds zero s t = ok t
rounds (suc n) s t = do u ← rounds n s t; round_of s u u.node

at_node : Step Thread → Option Node
at_node (ok t) = t.node
at_node (raised f) = none

-- A run without a failure publishes in its fourteenth round.
test0 : at_node (rounds 13 (settings false) (start "T-1")) ≡ some Node.publish_remediation
unfolding at_node rounds next_node Intake.bootstrap_state Intake.probe_live_credentials
    Intake.ingest_and_parse_jira Intake.load_repository_context Intake.check_repository_idempotency
    lookup assign last? Verification.detect_maven_profile Verification.verify_advisory
    Verification.verify_maven_target Verification.select_route ApplyPolicy.apply_policy evaluate
    sort_texts current_target_tags distinct remove collect_approval_reasons
    Remediation.remediate_simple Remediation.preflight_validate Validation.validate_remediation
test0 = refl

is_ok : Step Thread → Bool
is_ok (ok t) = true
is_ok (raised f) = false

thread_of : Step Thread → Thread
thread_of (ok t) = t
thread_of (raised f) = start "T-1"

thread_of_lem : (m : Step Thread) → is_ok m ≡ true → m ≡ ok (thread_of m)
unfolding thread_of is_ok
thread_of_lem (ok t) h = refl
thread_of_lem (raised f) h = cc

round_of-Runs :
    (s : Settings) (t u : Thread) (node : Option Node)
    → t.node ≡ node
    → round_of s t node ≡ ok u
    → Runs s t u
unfolding round_of
round_of-Runs s t u none e h = cc
round_of-Runs s t u (some node) e h = runs adapters node e h

rounds-Reaches :
    (n : ℕ) (s : Settings) (u : Thread)
    → rounds n s (start "T-1") ≡ ok u
    → Reaches (λ x. x ≡ s) "T-1" u
unfolding rounds
rounds-Reaches zero s u h =
    let e : start "T-1" ≡ u = ground (arith, h) in subst (Reaches (λ x. x ≡ s) "T-1") e begin
rounds-Reaches (suc n) s u h =
    let (t, before, last) = bind_ok (rounds n s (start "T-1")) _ h in
    moved (rounds-Reaches n s t before) s refl (run (round_of-Runs s t u t.node refl last))

-- The thread of a run after thirteen rounds, with and without publication.
thirteenth : Bool → Thread
thirteenth dry_run = thread_of (rounds 13 (settings dry_run) (start "T-1"))

thirteenth-Reaches :
    (dry_run : Bool)
    → is_ok (rounds 13 (settings dry_run) (start "T-1")) ≡ true
    → Reaches (λ x. x ≡ settings dry_run) "T-1" (thirteenth dry_run)
unfolding thirteenth
thirteenth-Reaches dry_run h =
    rounds-Reaches 13 (settings dry_run) (thirteenth dry_run)
      (thread_of_lem (rounds 13 (settings dry_run) (start "T-1")) h)

thirteen_rounds : (dry_run : Bool) → is_ok (rounds 13 (settings dry_run) (start "T-1")) ≡ true
unfolding thirteenth thread_of is_ok at_node rounds next_node Intake.bootstrap_state
    Intake.probe_live_credentials Intake.ingest_and_parse_jira Intake.load_repository_context
    Intake.check_repository_idempotency lookup assign last? Verification.detect_maven_profile
    Verification.verify_advisory Verification.verify_maven_target Verification.select_route
    ApplyPolicy.apply_policy evaluate sort_texts current_target_tags distinct remove
    collect_approval_reasons Remediation.remediate_simple Remediation.preflight_validate
    Validation.validate_remediation
thirteen_rounds true = refl
thirteen_rounds false = refl

thirteenth-publishes : (thirteenth false).node ≡ some Node.publish_remediation
unfolding thirteenth thread_of is_ok at_node rounds next_node Intake.bootstrap_state
    Intake.probe_live_credentials Intake.ingest_and_parse_jira Intake.load_repository_context
    Intake.check_repository_idempotency lookup assign last? Verification.detect_maven_profile
    Verification.verify_advisory Verification.verify_maven_target Verification.select_route
    ApplyPolicy.apply_policy evaluate sort_texts current_target_tags distinct remove
    collect_approval_reasons Remediation.remediate_simple Remediation.preflight_validate
    Validation.validate_remediation
thirteenth-publishes = refl

publication-guarded_example :
    ((result : RepositoryValidationResult) × (last? (thirteenth false).state.validation_results
        ≡ some result)
      × (result.status ≢ ValidationStatus.failed))
    × (((thirteenth false).state.requires_delivery_approval ≡ false)
        ⊎ (has_delivery_approval (thirteenth false).state ≡ true))
publication-guarded_example =
    publication-guarded (λ x. x ≡ settings false) "T-1" (thirteenth false)
      (thirteenth-Reaches false (thirteen_rounds false)) thirteenth-publishes

dry_run-publishes_nothing_example : (thirteenth true).node ≢ some Node.publish_remediation
dry_run-publishes_nothing_example =
    dry_run-publishes_nothing (λ x. x ≡ settings true) "T-1" (thirteenth true)
      (λ x e. ap (λ y. y.dry_run) e) (thirteenth-Reaches true (thirteen_rounds true))

retry_count-bound_example :
    (thirteenth false).state.retry_count ≤ (settings false).limits.max_retry_attempts
retry_count-bound_example =
    retry_count-bound (λ x. x ≡ settings false) (settings false).limits.max_retry_attempts "T-1"
      (λ x e. rw e (omega arith)) (thirteenth-Reaches false (thirteen_rounds false))

-- The thread that the publication leaves.
published : Thread
published = thread_of (rounds 14 (settings false) (start "T-1"))

fourteen_rounds : is_ok (rounds 14 (settings false) (start "T-1")) ≡ true
unfolding thread_of is_ok at_node rounds next_node Intake.bootstrap_state
    Intake.probe_live_credentials Intake.ingest_and_parse_jira Intake.load_repository_context
    Intake.check_repository_idempotency lookup assign last? Verification.detect_maven_profile
    Verification.verify_advisory Verification.verify_maven_target Verification.select_route
    ApplyPolicy.apply_policy evaluate sort_texts current_target_tags distinct remove
    collect_approval_reasons Remediation.remediate_simple Remediation.preflight_validate
    Validation.validate_remediation publish_remediation publish_branch publish_pull_request
    publish_jira
fourteen_rounds = refl

published-Reaches : Reaches (λ x. x ≡ settings false) "T-1" published
unfolding published
published-Reaches =
    rounds-Reaches 14 (settings false) published
      (thread_of_lem (rounds 14 (settings false) (start "T-1")) fourteen_rounds)

completed_repos-apart_example : Settled published.state
completed_repos-apart_example =
    completed_repos-apart (λ x. x ≡ settings false) "T-1" published-Reaches

second : Thread
second = thread_of (round_of (settings false) (start "T-1") (start "T-1").node)

second-Runs : Runs (settings false) (start "T-1") second
unfolding second round_of thread_of is_ok Intake.bootstrap_state next_node
second-Runs =
    round_of-Runs (settings false) (start "T-1") second (start "T-1").node refl
      (thread_of_lem (round_of (settings false) (start "T-1") (start "T-1").node) refl)

audit_events-appended_example : Audited (start "T-1").state second.state
audit_events-appended_example =
    audit_events-appended (settings false) (start "T-1") second (run second-Runs)

every_run_ends_example : Acc (λ later earlier. Runs (settings false) earlier later) (start "T-1")
every_run_ends_example = every_run_ends (settings false) (start "T-1")

blocked_start : RemediationState
blocked_start = record (initial_state "T-1") {
  targets = target ∷ [];
  route_decision = some simple_route;
}

blocked_start-evaluate : (evaluate blocking blocked_start).allowed ≡ false
unfolding blocked_start evaluate current_target_tags sort_texts distinct remove
blocked_start-evaluate = refl

apply_policy-blocked_example :
    let state' = ApplyPolicy.apply_policy blocking blocked_start in
    (next_node false Node.apply_policy state' ≡ ok none)
    × (state'.workflow_status ≡ WorkflowStatus.failed)
    × ((error : WorkflowError) × (state'.errors ≡ blocked_start.errors ++ (error ∷ []))
        × (error.code ≡ "policy_blocked")
        × (error.recoverable ≡ false))
apply_policy-blocked_example =
    apply_policy-blocked blocking false blocked_start blocked_start-evaluate

resume-overrides_block_example :
    let blocked_state = ApplyPolicy.apply_policy blocking blocked_start in
    resume approval blocked_state
    ≡ ok (
        thread_at
          (some Node.remediate_simple)
          (resumed_state ApprovalStage.remediation approval blocked_state))
unfolding blocked_start
resume-overrides_block_example =
    resume-overrides_block blocking approval blocked_start simple_route blocked_start-evaluate refl
      refl

resume-restarts_completed_example :
    let finished = repo_continuation blocked_start [] ("app" ∷ []) in
    (finished.workflow_status ≡ WorkflowStatus.completed)
    × (resume approval finished
        ≡ ok (
            thread_at
              (some Node.remediate_simple)
              (resumed_state ApprovalStage.remediation approval finished)))
unfolding blocked_start
resume-restarts_completed_example =
    resume-restarts_completed approval blocked_start ("app" ∷ []) simple_route refl refl

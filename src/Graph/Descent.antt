-- ===== src/Graph/Descent.antt =====
-- Each node behind the intake ends the run or leaves less to do.
use execution_accelerator.Prelude.{
  ℕ, ◌<◌, ◌≡◌, refl, sym, ◌∙◌, ◌⊎◌, inl, inr, ◌≢◌, Bool, true, false, Option, none, some, [], ok,
  bind_ok, arith,
}
use execution_accelerator.State.{RemediationState}
use execution_accelerator.Nodes.Delivery
use execution_accelerator.Nodes.Delivery.{
  delivery_failure_update, finish_repository, skip_repository,
}
use execution_accelerator.Nodes.Published.{
  Publication, failed, finished, publish_remediation-Publication,
}
use execution_accelerator.Nodes.Retry
use execution_accelerator.Nodes.Retry.{RetryLimits, retry_target}
use execution_accelerator.Graph.Edges.{
  Node, publish_remediation, skip_publish_for_dry_run, classify_failure, next_node, failure_target,
  select_failure_node,
}
use execution_accelerator.Graph.Run.{Adapters, Settings, Thread, run_node, thread_at}
use execution_accelerator.Graph.Work.{Keeps}
use execution_accelerator.Graph.Finish.{
  Shrinks, delivery_failure_update-Keeps, finish_repository-Shrinks, finish_repository-errors,
  retry_target_room, skip_repository-Shrinks,
}
use execution_accelerator.Graph.Rank.{descends, in_attempt, next_node-descends, rank_at}
use execution_accelerator.Graph.Measure.{
  Keeps-measure, attempt-measure, measure, rank_at_bound, used-measure, work-measure,
}
use execution_accelerator.Graph.Attempt.{
  after_finish, after_skip, failed_publication, publish_edge, run_node-Keeps,
}

module _ (max_total_attempts : ℕ) where
  -- The run ends, or its measure falls.
  abbrev pub Descends : Thread → Thread → Type 0
  Descends s t = (t.node ≡ none) ⊎ (measure max_total_attempts t < measure max_total_attempts s)

  shrunk :
      (s s' : RemediationState) (node : Node) (target : Option Node)
      → Shrinks s s'
      → (target ≡ none) ⊎ (s'.pending_repos ≢ [])
      → Descends (thread_at (some node) s) (thread_at target s')
  shrunk s s' node target shrinks (inl ended) = inl ended
  shrunk s s' node target (inl empty) (inr more) = absurd (more empty)
  shrunk s s' node target (inr less) (inr more) =
      inr (work-measure max_total_attempts s s' node target less (rank_at_bound target))

  Publication-Descends :
      (s s' : RemediationState) (target : Option Node)
      → Publication s s'
      → next_node false publish_remediation s' ≡ ok target
      → Descends (thread_at (some publish_remediation) s) (thread_at target s')
  Publication-Descends s s' target (failed repository error p current e) h =
      let named : target ≡ some Node.classify_failure =
        grind (arith, failed_publication s error p) in
      let k : Keeps s s' = rw e (delivery_failure_update-Keeps s error p) in
      inr
        (Keeps-measure max_total_attempts s s' publish_remediation target k (ground (arith, named)))
  Publication-Descends s s' target (finished repository branch pull_request jira current e) h =
      let none_left : s'.errors ≡ [] =
        rw e (finish_repository-errors s repository branch pull_request jira) in
      let shrinks : Shrinks s s' =
        rw e (finish_repository-Shrinks s repository current branch pull_request jira) in
      shrunk s s' publish_remediation target shrinks (after_finish s' target none_left h)

  skip_publish-Descends :
      (dry_run : Bool) (s s' : RemediationState) (target : Option Node)
      → Delivery.skip_publish_for_dry_run dry_run s ≡ ok s'
      → next_node dry_run skip_publish_for_dry_run s' ≡ ok target
      → Descends (thread_at (some skip_publish_for_dry_run) s) (thread_at target s')
  unfolding Delivery.skip_publish_for_dry_run
  skip_publish-Descends dry_run s s' target h edge =
      let (repository, found, done) = bind_ok (Delivery.skipped_repository s) _ h in
      let current : s.current_working_repo ≡ some repository = ground (arith, found) in
      let shrinks : Shrinks s s' =
        ground (arith, skip_repository-Shrinks s repository dry_run current, done) in
      shrunk s s' skip_publish_for_dry_run target shrinks (after_skip dry_run s' target edge)

-- An edge out of the classification goes where its decision says.
pub decided_edge :
    (dry_run : Bool) (limits : RetryLimits) (s : RemediationState) (target : Option Node)
    → next_node dry_run classify_failure (Retry.classify_failure limits s) ≡ ok target
    → failure_target (retry_target limits s) ≡ ok target
unfolding next_node select_failure_node Retry.classify_failure
decided_edge dry_run limits s target h = h

escalated_target :
    (target : Option Node) → failure_target "escalate" ≡ ok target → rank_at target < 2
escalated_target target h = ground arith

classify_failure-Descends :
    (dry_run : Bool) (limits : RetryLimits) (s : RemediationState) (target : Option Node)
    → next_node dry_run classify_failure (Retry.classify_failure limits s) ≡ ok target
    → Descends limits.max_total_attempts
        (thread_at (some classify_failure) s)
        (thread_at target (Retry.classify_failure limits s))
unfolding Retry.classify_failure
classify_failure-Descends dry_run limits s target h = elim (retry_target_room limits s) [
  | inl escalates ↦
      let down : rank_at target < 2 =
        escalated_target target (rw escalates at (decided_edge dry_run limits s target h)) in
      inr (
        used-measure limits.max_total_attempts s (Retry.classify_failure limits s) classify_failure
          target refl refl down)
  | inr room ↦ inr (
      attempt-measure limits.max_total_attempts s (Retry.classify_failure limits s) classify_failure
        target refl refl room (rank_at_bound target))
]

module _ (settings : Settings) (a : Adapters) (s : RemediationState) where
  pub node-Descends :
      (node : Node) (s' : RemediationState) (target : Option Node)
      → in_attempt node ≡ true
      → run_node settings a node s ≡ ok s'
      → next_node settings.dry_run node s' ≡ ok target
      → Descends settings.limits.max_total_attempts (thread_at (some node) s) (thread_at target s')
  unfolding run_node
  node-Descends publish_remediation s' target d h edge =
      Publication-Descends settings.limits.max_total_attempts s s' target
        (publish_remediation-Publication a.delivery s s' h)
        (sym (publish_edge settings.dry_run s') ∙ edge)
  node-Descends skip_publish_for_dry_run s' target d h edge =
      skip_publish-Descends settings.limits.max_total_attempts settings.dry_run s s' target h edge
  node-Descends classify_failure s' target d h edge =
      let e : Retry.classify_failure settings.limits s ≡ s' = ground (arith, h) in
      rw (← e)
        (classify_failure-Descends settings.dry_run settings.limits s target (rw (← e) at edge))
  node-Descends node s' target d h edge =
      let down : descends node ≡ true = ground (arith, d) in
      inr (
        Keeps-measure settings.limits.max_total_attempts s s' node target
          (run_node-Keeps settings a s s' node down h)
          (next_node-descends settings.dry_run node s' target down edge))

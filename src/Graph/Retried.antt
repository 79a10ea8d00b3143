-- ===== src/Graph/Retried.antt =====
-- Where the graph goes behind `classify_failure`: the node and the edge behind it, in one.
use execution_accelerator.Prelude.{
  ◌≡◌, ◌≢◌, refl, ap, ◌∙◌, ◌⊎◌, inl, inr, String, Bool, true, false, Option, none, some, ok, last?,
  arith, Bool-cases,
}
use execution_accelerator.Schemas.{RemediationRouteDecision, RemediationStrategy}
use execution_accelerator.State.{RemediationState}
use execution_accelerator.Nodes.Retry
use execution_accelerator.Nodes.Retry.{
  RetryLimits, can_retry, is_delivery_error, is_escalation, or_escalate, retry_lane, retry_target,
  select_retry_node,
}
use execution_accelerator.Nodes.RetryBudget.{Retryable, Retryable-can_retry, can_retry-Retryable}
use execution_accelerator.Graph.Edges.{
  Node, classify_failure, escalate, execute_complex_scaffold, failure_target, next_node,
  publish_remediation, remediate_simple, remediate_transitive, select_failure_node,
}

-- The node at which an attempt of a strategy begins again.
abbrev pub attempt_node : RemediationStrategy → Option Node
attempt_node RemediationStrategy.unknown = none
attempt_node RemediationStrategy.simple_update = some remediate_simple
attempt_node RemediationStrategy.transitive_override = some remediate_transitive
attempt_node RemediationStrategy.complex_refactor = some execute_complex_scaffold

-- A retry of a failed delivery publishes again; any other one begins the attempt of the route again.
abbrev pub RetriesAt : RemediationState → Node → Type 0
RetriesAt state node =
    ((is_delivery_error (last? state.errors) ≡ true) × (node ≡ publish_remediation))
    ⊎ ((is_delivery_error (last? state.errors) ≡ false)
        × ((route : RemediationRouteDecision) × (state.route_decision ≡ some route)
            × (attempt_node route.strategy ≡ some node)))

route_lane :
    (decision : Option RemediationRouteDecision)
    → retry_lane decision ≢ none
    → (route : RemediationRouteDecision) × (node : Node) × (decision ≡ some route)
      × (attempt_node route.strategy ≡ some node)
      × (failure_target (or_escalate true (retry_lane decision)) ≡ ok (some node))
route_lane none there = absurd (there refl)
route_lane (some route) there = strategy_lane route.strategy refl
  where
    named_target :
        (name : String) (node : Node)
        → retry_lane (some route) ≡ some name
        → failure_target name ≡ ok (some node)
        → failure_target (or_escalate true (retry_lane (some route))) ≡ ok (some node)
    named_target name node e target = ap (λ lane. failure_target (or_escalate true lane)) e ∙ target

    strategy_lane :
        (strategy : RemediationStrategy)
        → route.strategy ≡ strategy
        → (r : RemediationRouteDecision) × (node : Node) × (some route ≡ some r)
          × (attempt_node r.strategy ≡ some node)
          × (failure_target (or_escalate true (retry_lane (some route))) ≡ ok (some node))
    strategy_lane RemediationStrategy.unknown e = absurd (there (ground (arith, e)))
    strategy_lane RemediationStrategy.simple_update e = (
      route,
      remediate_simple,
      refl,
      ap attempt_node e,
      named_target "remediate_simple" remediate_simple (ground (arith, e)) refl,
    )
    strategy_lane RemediationStrategy.transitive_override e = (
      route,
      remediate_transitive,
      refl,
      ap attempt_node e,
      named_target "remediate_transitive" remediate_transitive (ground (arith, e)) refl,
    )
    strategy_lane RemediationStrategy.complex_refactor e = (
      route,
      execute_complex_scaffold,
      refl,
      ap attempt_node e,
      named_target "execute_complex_scaffold" execute_complex_scaffold (ground (arith, e)) refl,
    )

selected_node :
    (state : RemediationState)
    → select_retry_node state ≢ none
    → (node : Node) × RetriesAt state node
      × (failure_target (or_escalate true (select_retry_node state)) ≡ ok (some node))
unfolding select_retry_node
selected_node state there = elim (Bool-cases (is_delivery_error (last? state.errors))) [
  | inl delivery ↦ (publish_remediation, inl (delivery, refl), rw delivery refl)
  | inr other ↦
      let (route, node, routed, lane, target) =
        route_lane state.route_decision (rw other at there) in
      (node, inr (other, (route, routed, lane)), rw other target)
]

-- Behind a classified failure, the graph goes on exactly if the failure is a test failure or a
-- transient one, both budgets have room, the latest error is recoverable, and there is a node to go
-- on with: the publication after a failed delivery, and otherwise the one at which an attempt in the
-- lane of the route begins. Where it does not, it escalates.
pub classify_failure-next :
    (limits : RetryLimits) (dry_run : Bool) (state : RemediationState)
    → let next = next_node dry_run classify_failure (Retry.classify_failure limits state) in
      (Retryable limits state × ((node : Node) × RetriesAt state node × (next ≡ ok (some node))))
      ⊎ (¬ Retryable limits state × (next ≡ ok (some escalate)))
unfolding next_node select_failure_node Retry.classify_failure retry_target
classify_failure-next limits dry_run state = elim (Bool-cases (can_retry limits state)) [
  | inl can ↦
      let r = can_retry-Retryable limits state can in
      let (node, lane, target) = selected_node state r.lane in inl (r, (node, lane, rw can target))
  | inr cannot ↦
      inr (λ r. absurd (ground (arith, cannot, Retryable-can_retry limits state r)), rw cannot refl)
]

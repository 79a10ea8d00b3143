-- ===== src/Nodes/RetryBudget.antt =====
-- nodes/classify_failure.py: when a failure is retried, and what a retry resets.
use execution_accelerator.Prelude.{
  ◌+◌, ◌<◌, ◌≡◌, ◌≢◌, refl, ◌↔◌, ◌⊎◌, inl, inr, String, true, false, Option, none, some, Bool-cases,
  last?, arith,
}
use execution_accelerator.Schemas.{FailureClassification}
use execution_accelerator.State.{RemediationState}
use execution_accelerator.Nodes.Classify.{classify_latest_failure}
use execution_accelerator.Nodes.Retry.{
  RetryLimits, can_retry, latest_recoverable, is_escalation, or_escalate, retry_target,
  select_retry_node,
}

-- What a retry needs: a lane, a class of failure that a retry may mend, room in both budgets, and
-- an error that is marked as recoverable.
pub record Retryable (limits : RetryLimits) (state : RemediationState) : Type 0 where
  pub lane : select_retry_node state ≢ none
  pub mendable :
      (classify_latest_failure state ≡ FailureClassification.test_failure)
      ⊎ (classify_latest_failure state ≡ FailureClassification.network_transient)
  pub attempts : state.total_attempts + 1 < limits.max_total_attempts
  pub retries : state.retry_count < limits.max_retry_attempts
  pub recoverable : latest_recoverable (last? state.errors) ≡ true

pub can_retry-Retryable :
    (limits : RetryLimits) (state : RemediationState)
    → can_retry limits state ≡ true
    → Retryable limits state
unfolding can_retry
can_retry-Retryable limits state h = ground arith

pub Retryable-can_retry :
    (limits : RetryLimits) (state : RemediationState)
    → Retryable limits state
    → can_retry limits state ≡ true
unfolding can_retry
Retryable-can_retry limits state r =
    ground (arith, r.lane, r.mendable, r.attempts, r.retries, r.recoverable)

select_retry_node-cases :
    (state : RemediationState)
    → (select_retry_node state ≡ none)
      ⊎ (select_retry_node state ≡ some "publish_remediation")
      ⊎ (select_retry_node state ≡ some "remediate_simple")
      ⊎ (select_retry_node state ≡ some "remediate_transitive")
      ⊎ (select_retry_node state ≡ some "execute_complex_scaffold")
unfolding select_retry_node
select_retry_node-cases state = ground arith

names_no_escalation :
    (lane : Option String)
    → (lane ≡ none)
      ⊎ (lane ≡ some "publish_remediation")
      ⊎ (lane ≡ some "remediate_simple")
      ⊎ (lane ≡ some "remediate_transitive")
      ⊎ (lane ≡ some "execute_complex_scaffold")
    → lane ≢ none
    → is_escalation (or_escalate true lane) ≡ false
names_no_escalation lane (inl e) there = absurd (there e)
names_no_escalation lane (inr (inl e)) there = rw e refl
names_no_escalation lane (inr (inr (inl e))) there = rw e refl
names_no_escalation lane (inr (inr (inr (inl e)))) there = rw e refl
names_no_escalation lane (inr (inr (inr (inr e)))) there = rw e refl

Retryable-retry_target :
    (limits : RetryLimits) (state : RemediationState)
    → Retryable limits state
    → is_escalation (retry_target limits state) ≡ false
unfolding retry_target
Retryable-retry_target limits state r =
    rw (Retryable-can_retry limits state r)
      (names_no_escalation (select_retry_node state) (select_retry_node-cases state) r.lane)

retry_target-Retryable :
    (limits : RetryLimits) (state : RemediationState)
    → is_escalation (retry_target limits state) ≡ false
    → Retryable limits state
unfolding retry_target
retry_target-Retryable limits state h = elim (Bool-cases (can_retry limits state)) [
  | inl can ↦ can_retry-Retryable limits state can
  | inr cannot ↦ absurd (escalates (rw cannot at h))
]
  where
    escalates : true ≡ false → ⊥
    escalates e = cc

-- A failure is retried, rather than escalated, exactly if the graph has a lane for it, its class
-- is a test failure or a transient one, another attempt and another retry are within their
-- budgets, and the latest error is marked as recoverable.
pub retry_target-retries :
    (limits : RetryLimits) (state : RemediationState)
    → (is_escalation (retry_target limits state) ≡ false) ↔ Retryable limits state
retry_target-retries limits state =
    (retry_target-Retryable limits state, Retryable-retry_target limits state)

-- What an attempt has left in a state.
abbrev pub KeepsAttempt : RemediationState → RemediationState → Type 0
KeepsAttempt state state' =
    (state'.modified_files ≡ state.modified_files)
    × (state'.code_diffs ≡ state.code_diffs)
    × (state'.rollback_plan ≡ state.rollback_plan)
    × (state'.preflight_resolution ≡ state.preflight_resolution)

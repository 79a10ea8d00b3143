-- ===== src/Nodes.antt =====
-- src/execution_accelerator/nodes: the bodies of the workflow's nodes. A node returns an update of
-- the state; here it returns the updated state, or what it raises.
pub mod Classify
pub mod Retry
pub mod Approval
pub mod Validation
pub mod Continuation
pub mod Summary
pub mod Delivery
pub mod ApplyPolicy
pub mod Intake
pub mod Verification
pub mod PomPlan
pub mod Remediation
pub mod ComplexLane
pub mod Escalate
pub mod Published
pub mod RetryBudget
pub mod Recoverable
pub mod Lanes
pub mod NextTarget
pub mod Publishing
pub mod Idempotency
pub mod Repair
pub mod RepairLimits

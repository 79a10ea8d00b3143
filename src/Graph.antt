-- ===== src/Graph.antt =====
-- src/execution_accelerator/graph/builder.py: the workflow's state graph. `Edges` has the routing,
-- `Run` the execution of nodes, of pauses and of resumption; the others prove what a run does.
pub mod Edges
pub mod Run
pub mod Work
pub mod Finish
pub mod Rank
pub mod Measure
pub mod Attempt
pub mod Descent
pub mod Termination
pub mod Untouched
pub mod Guard
pub mod GuardNodes
pub mod GuardDelivery
pub mod Safety
pub mod DryRun
pub mod Blocked
pub mod RetryBound
pub mod Retried
pub mod Audited
pub mod AuditTrail
pub mod Apart
pub mod Settled

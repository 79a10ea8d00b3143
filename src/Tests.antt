-- ===== src/Tests.antt =====
-- Runs of the definitions at concrete inputs, and the theorems at work on them.
mod Fixtures
mod Versions
mod Decisions
mod Deliveries
mod Runs
mod Sources
mod Repairs
mod Interfaces
mod Registry

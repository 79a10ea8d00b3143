-- ===== src/Java.antt =====
-- The second half of nodes/remediation.py: how the complex lane rewrites Java sources.
pub mod Symbols
pub mod Rewrites
pub mod Parentheses
pub mod Parse
pub mod Matching
pub mod Constructors
pub mod Gathered
pub mod Complete
pub mod Moved

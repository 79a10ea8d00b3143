-- ===== src/Version.antt =====
-- src/execution_accelerator/services/version_range.py: Maven versions, ranges and the choice of a
-- fix. The children define the parts of the file in its order, and prove what they promise.
pub mod Parts
pub mod Compare
pub mod Order
pub mod Equality
pub mod Range
pub mod Render
pub mod Union
pub mod Select
pub mod Lowest

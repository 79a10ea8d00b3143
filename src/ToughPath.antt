-- ===== src/ToughPath.antt =====
-- src/execution_accelerator/tough_path: the parts of the code rewriting lane.
pub mod ApiDiff
pub mod Difference
pub mod Recipes
pub mod FirstRecipe

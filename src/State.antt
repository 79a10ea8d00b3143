-- ===== src/State.antt =====
-- src/execution_accelerator/state.py: the workflow state and the checks that nodes make on it.
mod Parts
mod Record
mod Require
pub use Parts.*
pub use Record.*
unfoldable pub use Require.*

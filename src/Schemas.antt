-- ===== src/Schemas.antt =====
-- src/execution_accelerator/schemas.py: the types that the nodes and adapters share.
mod Enums
mod Kinds
mod Intake
mod Plans
mod Results
unfoldable pub use Enums.*
unfoldable pub use Kinds.*
unfoldable pub use Intake.*
unfoldable pub use Plans.*
unfoldable pub use Results.*

-- ===== src/Domain/OperationState.antt =====
-- src/domain/operation-state.ts: the lifecycle of an operation.
mod Defs
pub mod Graph
unfoldable pub use Defs.*

-- ===== src/Domain/ApprovalState.antt =====
-- src/domain/approval-state.ts: approval requests and the tally of decisions.
mod Defs
pub mod Tally
unfoldable pub use Defs.*

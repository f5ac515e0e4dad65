-- ===== src/Reconciliation.antt =====
-- src/modules/transactions/reconciliation-service.ts: the chain against what the database believes.
mod Defs
pub mod Consistent
unfoldable pub use Defs.*

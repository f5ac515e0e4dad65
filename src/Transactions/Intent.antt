-- ===== src/Transactions/Intent.antt =====
-- src/modules/transactions/transaction-intent.ts: fingerprints, fee-only replacement and fee bumps.
mod Defs
pub mod FeeOnly
unfoldable pub use Defs.*

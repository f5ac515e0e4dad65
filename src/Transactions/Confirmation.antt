-- ===== src/Transactions/Confirmation.antt =====
-- src/modules/transactions/confirmation.ts: inclusion, canonicality and finality of a receipt.
mod Defs
pub mod Justified
unfoldable pub use Defs.*

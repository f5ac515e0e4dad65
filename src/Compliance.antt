-- ===== src/Compliance.antt =====
-- src/modules/compliance/compliance-service.ts and src/modules/operations/administrative-intent.ts:
-- compliance decisions and the chain writes that mirror them.
mod Intent
mod Defs
mod Withdrawing
pub mod Live
pub mod Scopes
unfoldable pub use Intent.*
unfoldable pub use Defs.*
unfoldable pub use Withdrawing.*

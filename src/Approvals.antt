-- ===== src/Approvals.antt =====
-- src/modules/approvals/approval-service.ts: the two-person approval of mints.
mod Defs
pub mod Atomicity
pub mod Guards
pub mod Decisions
pub mod TwoPerson
pub mod Outcome
unfoldable pub use Defs.*

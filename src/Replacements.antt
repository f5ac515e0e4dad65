-- ===== src/Replacements.antt =====
-- src/modules/transactions/replacement-service.ts: the sweep that keeps a signer's lane moving.
mod Stuck
mod Lane
pub mod Moves
pub mod Refinement
unfoldable pub use Stuck.*
unfoldable pub use Lane.*

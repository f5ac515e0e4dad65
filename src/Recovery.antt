-- ===== src/Recovery.antt =====
-- src/modules/transactions/recovery-service.ts: the sweep over operations that came to a stop.
mod Defs
mod InFlight
mod Sweep
pub mod Moves
pub mod Refinement
pub mod Ends
unfoldable pub use Defs.*
unfoldable pub use InFlight.*
unfoldable pub use Sweep.*

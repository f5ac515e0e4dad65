-- ===== src/Transactions/ChainWriter.antt =====
-- src/modules/transactions/chain-writer.ts: one write to the chain, from simulation to broadcast.
mod Interface
mod Sending
mod Signature
mod Writes
pub mod Steady
pub mod Sends
pub mod Persisting
pub mod Logs
pub mod Durability
pub mod Outcomes
pub mod Superseded
pub mod Replacing
unfoldable pub use Interface.*
unfoldable pub use Sending.*
unfoldable pub use Signature.*
unfoldable pub use Writes.*

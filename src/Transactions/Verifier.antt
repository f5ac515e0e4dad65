-- ===== src/Transactions/Verifier.antt =====
-- src/adapters/evm/signed-transaction-verifier.ts: the bytes of an untrusted signer.
mod Defs
pub mod Verified
unfoldable pub use Defs.*

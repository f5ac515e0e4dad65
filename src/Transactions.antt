-- ===== src/Transactions.antt =====
-- src/modules/transactions and src/adapters/evm: what is signed, sent and confirmed.
pub mod Intent
pub mod Confirmation
pub mod Verifier
pub mod Nonces
pub mod ChainWriter

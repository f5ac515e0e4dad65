-- ===== src/Repo.antt =====
-- src/db/repositories: the statements that the services run.
pub mod Assets
pub mod Compliance
pub mod Observations
pub mod Operations
pub mod Attempts
pub mod Nonces
pub mod Approvals
pub mod Signers
pub mod Idempotency
pub mod Outbox
pub mod Reference

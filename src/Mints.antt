-- ===== src/Mints.antt =====
-- src/modules/operations/mint-service.ts: mint requests.
pub mod Proposal

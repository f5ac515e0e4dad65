-- ===== src/Domain/MintProposal.antt =====
-- src/domain/mint-proposal.ts: the intent that approvers sign off on, and its hash.
mod Defs
unfoldable pub use Defs.*

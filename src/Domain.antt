-- ===== src/Domain.antt =====
-- src/domain: the state machines, roles, errors, canonical JSON and the mint proposal.
pub mod OperationState
pub mod ApprovalState
pub mod Roles
pub mod Errors
pub mod Canonical
pub mod MintProposal

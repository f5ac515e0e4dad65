-- ===== src/Db/Rows.antt =====
-- The rows of the tables (src/db/schema/index.ts and the record types of src/db/repositories), and
-- the whole store. Identifiers are numbers; columns of messages and labels that no code reads back
-- are left out.
use institutional_tokenizati.Base.{ℕ, Bool, Option, List, Text}
use institutional_tokenizati.Domain.OperationState.{OperationState}
use institutional_tokenizati.Domain.ApprovalState.{ApprovalRequestState, ApprovalDecisionKind}
use institutional_tokenizati.Domain.Canonical.{JsonValue}
use institutional_tokenizati.Domain.MintProposal.{MintProposalSnapshot}
use institutional_tokenizati.Domain.Roles.{ActorType}
use institutional_tokenizati.Db.Codes.{
  OperationType, AttemptStatus, AttemptPurpose, SignerRequestState, IdempotencyStatus, OutboxStatus,
  FailureCode, ReplacementReason, AuditAction, ObservationKind, ObservationSeverity,
  ComplianceStatus, ChainSyncStatus, AssetStatus,
}

-- OperationRecord
pub record Operation : Type 0 where
  pub id : ℕ
  pub organization_id : ℕ
  pub type : OperationType
  pub state : OperationState
  pub asset_id : ℕ
  pub wallet_id : Option ℕ
  pub amount : Option ℕ  -- base units; a decimal string in the program
  pub operation_reference : Option Text
  pub compliance_decision_id : Option ℕ
  pub proposal_hash : Text
  pub required_approvals : ℕ
  pub requested_by : ℕ
  pub correlation_id : ℕ
  pub failure_code : Option FailureCode
  pub claimed_by : Option ℕ
  pub claimed_at : Option ℕ
  pub state_updated_at : ℕ

-- operation_transitions
pub record Transition : Type 0 where
  pub operation_id : ℕ
  pub from_state : Option OperationState
  pub to_state : OperationState

-- TransactionAttemptRecord. The wei amounts are decimal strings in the program.
pub record Attempt : Type 0 where
  pub id : ℕ
  pub operation_id : Option ℕ
  pub asset_id : Option ℕ
  pub wallet_id : Option ℕ
  pub purpose : AttemptPurpose
  pub chain_id : ℕ
  pub from_address : Text
  pub to_address : Option Text
  pub nonce : ℕ
  pub value : ℕ
  pub calldata : Text
  pub gas_limit : ℕ
  pub max_fee_per_gas : ℕ
  pub max_priority_fee_per_gas : ℕ
  pub request_hash : Text
  pub signed_raw_transaction : Option Text
  pub transaction_hash : Option Text
  pub status : AttemptStatus
  pub broadcast_attempts : ℕ
  pub block_number : Option ℕ
  pub block_hash : Option Text
  pub gas_used : Option ℕ
  pub receipt_status : Option ℕ
  pub contract_address : Option Text
  pub error_code : Option FailureCode
  pub intent_fingerprint : Option Text
  pub replaces_attempt_id : Option ℕ
  pub replaced_by_attempt_id : Option ℕ
  pub replacement_reason : Option ReplacementReason
  pub replacement_number : ℕ
  pub updated_at : ℕ

-- signer_nonces
pub record NonceLane : Type 0 where
  pub chain_id : ℕ
  pub signer_address : Text
  pub next_nonce : ℕ

pub record ApprovalRequest : Type 0 where
  pub id : ℕ
  pub operation_id : ℕ
  pub state : ApprovalRequestState
  pub required_approvals : ℕ
  pub proposal_snapshot : MintProposalSnapshot
  pub proposal_hash : Text
  pub requested_by : ℕ

pub record ApprovalDecision : Type 0 where
  pub id : ℕ
  pub approval_request_id : ℕ
  pub approver_id : ℕ
  pub operation_requested_by : ℕ
  pub decision : ApprovalDecisionKind
  pub proposal_hash : Text

-- IdempotencyRecord
pub record IdempotencyRow : Type 0 where
  pub id : ℕ
  pub scope : ℕ
  pub organization_id : ℕ
  pub actor_id : ℕ
  pub idempotency_key : Text
  pub request_hash : Text
  pub status : IdempotencyStatus
  pub response_status : Option ℕ
  pub response_body : Option JsonValue
  pub resource_type : Option Text
  pub resource_id : Option Text

pub record SignerRequest : Type 0 where
  pub id : ℕ
  pub transaction_attempt_id : ℕ
  pub operation_id : Option ℕ
  pub provider_request_id : ℕ
  pub status : SignerRequestState
  pub request_fingerprint : Text
  pub requested_at : ℕ
  pub rejection_code : Option FailureCode

-- OutboxRecord; the payload is the identifier of an operation, or a malformed one.
pub record OutboxRow : Type 0 where
  pub id : ℕ
  pub aggregate_id : ℕ
  pub payload_operation_id : Option ℕ
  pub status : OutboxStatus
  pub attempts : ℕ
  pub available_at : ℕ
  pub correlation_id : ℕ
  pub claim_token : Option ℕ
  pub claim_expires_at : Option ℕ

pub record AuditEvent : Type 0 where
  pub actor_type : ActorType
  pub actor_id : ℕ
  pub action : AuditAction
  pub resource_id : ℕ
  pub operation_id : Option ℕ

-- AssetRecord
pub record Asset : Type 0 where
  pub id : ℕ
  pub organization_id : ℕ
  pub symbol : Text
  pub name : Text
  pub decimals : ℕ
  pub supply_cap : ℕ  -- base units; a decimal string in the program
  pub chain_id : ℕ
  pub contract_address : Option Text
  pub deployment_tx_hash : Option Text
  pub status : AssetStatus
  pub policy_version : ℕ
  pub created_by : ℕ

-- ComplianceDecisionRecord, without the provider's labels. Times are in milliseconds.
pub record ComplianceDecision : Type 0 where
  pub id : ℕ
  pub wallet_id : ℕ
  pub asset_id : Option ℕ
  pub status : ComplianceStatus
  pub subject_reference : Text
  pub valid_from : ℕ
  pub valid_until : ℕ
  pub decided_at : ℕ
  pub decided_by : ℕ
  pub chain_sync_status : ChainSyncStatus
  pub chain_sync_tx_hash : Option Text
  pub superseded_at : Option ℕ

-- chain_observations. `expected`, `actual` and `detail` are for a reader only.
pub record Observation : Type 0 where
  pub operation_id : Option ℕ
  pub transaction_attempt_id : Option ℕ
  pub kind : ObservationKind
  pub chain_id : ℕ
  pub block_number : Option ℕ
  pub block_hash : Option Text
  pub transaction_hash : Option Text
  pub is_matched : Bool
  pub is_canonical : Bool
  pub severity : ObservationSeverity
  pub is_open : Bool  -- status is 'OPEN'

pub record Wallet : Type 0 where
  pub id : ℕ
  pub organization_id : ℕ
  pub chain_id : ℕ
  pub address : Text
  pub investor_reference : Text
  pub is_registered : Bool  -- status is 'REGISTERED'

-- What the node was handed: the bytes, and the attempts on record at that moment
pub record Dispatch : Type 0 where
  pub bytes : Text
  pub rows : List Attempt

-- The tables, newest row first, with the two clocks (milliseconds): `now` is PostgreSQL's,
-- `clock` the application's. `sent` is what was handed to `broadcastRawTransaction`, newest first,
-- and `next_id` the supply of fresh identifiers.
pub record Store : Type 0 where
  pub operations : List Operation
  pub transitions : List Transition
  pub attempts : List Attempt
  pub nonces : List NonceLane
  pub requests : List ApprovalRequest
  pub decisions : List ApprovalDecision
  pub idempotency_keys : List IdempotencyRow
  pub signer_requests : List SignerRequest
  pub outbox : List OutboxRow
  pub audit : List AuditEvent
  pub assets : List Asset
  pub wallets : List Wallet
  pub compliance_decisions : List ComplianceDecision
  pub observations : List Observation
  pub sent : List Dispatch
  pub next_id : ℕ
  pub now : ℕ
  pub clock : ℕ

-- ===== src/Db/Codes.antt =====
-- The closed sets of labels that the tables of src/db/schema hold.
use institutional_tokenizati.Base.{Bool, true, false, ◌≡◌, ◌↔◌, arith}
use institutional_tokenizati.Domain.Errors.{ErrorCode}

-- OperationType of src/db/repositories/operation-repository.ts
pub data OperationType : Type 0 where
  mint deploy_asset sync_eligibility : OperationType

-- AttemptStatus of src/db/repositories/transaction-repository.ts
pub data AttemptStatus : Type 0 where
  prepared signed broadcasting broadcast_unknown submitted : AttemptStatus
  included confirmed reverted failed replaced : AttemptStatus

pub data AttemptPurpose : Type 0 where
  deploy_token set_eligibility mint_tokens nonce_recovery : AttemptPurpose

-- SignerRequestState of src/db/repositories/signer-request-repository.ts
pub data SignerRequestState : Type 0 where
  pending signed rejected expired : SignerRequestState

-- IdempotencyStatus of src/db/repositories/idempotency-repository.ts
pub data IdempotencyStatus : Type 0 where
  in_progress completed failed : IdempotencyStatus

pub data OutboxStatus : Type 0 where
  pending claimed dispatched failed : OutboxStatus

-- Failure codes: an `ErrorCode`, or one of the literals that the services write.
pub data FailureCode : Type 0 where
  error_code : ErrorCode → FailureCode
  approval_rejected chain_reverted abandoned_before_broadcast : FailureCode
  superseded_by_newer_decision broadcast_rejected broadcast_ambiguous : FailureCode
  attempt_superseded signer_request_timeout provider_rejected : FailureCode

-- Why an attempt was replaced.
pub data ReplacementReason : Type 0 where
  stuck_no_inclusion nonce_lane_recovery : ReplacementReason

-- The actions of the audit trail.
pub data AuditAction : Type 0 where
  mint_requested request_superseded decision_recorded operation_approved : AuditAction
  operation_cancelled operation_failed operation_succeeded operation_settled : AuditAction
  execution_withheld reorg_observed transaction_replaced nonce_recovered : AuditAction
  compliance_decision_recorded compliance_revoked compliance_expired : AuditAction

-- AssetStatus of src/db/repositories/asset-repository.ts
pub data AssetStatus : Type 0 where
  provisioning active paused failed : AssetStatus

-- The statuses of compliance_decisions
pub data ComplianceStatus : Type 0 where
  approved rejected revoked expired : ComplianceStatus

pub data ChainSyncStatus : Type 0 where
  pending synced failed : ChainSyncStatus

-- ObservationKind and ObservationSeverity of src/db/repositories/transaction-repository.ts
pub data ObservationKind : Type 0 where
  receipt block_canonicality finality mint_event reference_consumed : ObservationKind
  recipient_balance total_supply chain_identity contract_code token_metadata : ObservationKind
  eligibility_window : ObservationKind

pub data ObservationSeverity : Type 0 where
  info warning critical : ObservationSeverity

unfoldable pub operation_type_eq : OperationType → OperationType → Bool
operation_type_eq mint mint = true
operation_type_eq deploy_asset deploy_asset = true
operation_type_eq sync_eligibility sync_eligibility = true
operation_type_eq _ _ = false

unfoldable pub attempt_status_eq : AttemptStatus → AttemptStatus → Bool
attempt_status_eq prepared prepared = true
attempt_status_eq signed signed = true
attempt_status_eq broadcasting broadcasting = true
attempt_status_eq broadcast_unknown broadcast_unknown = true
attempt_status_eq submitted submitted = true
attempt_status_eq included included = true
attempt_status_eq confirmed confirmed = true
attempt_status_eq reverted reverted = true
attempt_status_eq failed failed = true
attempt_status_eq replaced replaced = true
attempt_status_eq _ _ = false

unfoldable pub purpose_eq : AttemptPurpose → AttemptPurpose → Bool
purpose_eq deploy_token deploy_token = true
purpose_eq set_eligibility set_eligibility = true
purpose_eq mint_tokens mint_tokens = true
purpose_eq nonce_recovery nonce_recovery = true
purpose_eq _ _ = false

unfoldable pub compliance_status_eq : ComplianceStatus → ComplianceStatus → Bool
compliance_status_eq approved approved = true
compliance_status_eq ComplianceStatus.rejected ComplianceStatus.rejected = true
compliance_status_eq revoked revoked = true
compliance_status_eq ComplianceStatus.expired ComplianceStatus.expired = true
compliance_status_eq _ _ = false

unfoldable pub asset_status_eq : AssetStatus → AssetStatus → Bool
asset_status_eq provisioning provisioning = true
asset_status_eq active active = true
asset_status_eq paused paused = true
asset_status_eq AssetStatus.failed AssetStatus.failed = true
asset_status_eq _ _ = false

unfoldable pub signer_state_eq : SignerRequestState → SignerRequestState → Bool
signer_state_eq pending pending = true
signer_state_eq SignerRequestState.signed SignerRequestState.signed = true
signer_state_eq rejected rejected = true
signer_state_eq expired expired = true
signer_state_eq _ _ = false

pub attempt_status_eq_iff : (a b : AttemptStatus) → (attempt_status_eq a b ≡ true) ↔ (a ≡ b)
unfolding attempt_status_eq
attempt_status_eq_iff a b = ground arith

pub purpose_eq_iff : (a b : AttemptPurpose) → (purpose_eq a b ≡ true) ↔ (a ≡ b)
unfolding purpose_eq
purpose_eq_iff a b = ground arith

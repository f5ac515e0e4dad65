-- ===== src/Domain/Errors.antt =====
-- src/domain/errors.ts: the error codes, their HTTP status, and what an operation may throw.
use institutional_tokenizati.Base.{ℕ}

pub data ErrorCode : Type 0 where
  validation_error unauthorized forbidden resource_not_found idempotency_key_required : ErrorCode
  idempotency_conflict idempotency_in_progress invalid_state_transition : ErrorCode
  approval_already_recorded self_approval_not_allowed approval_request_closed : ErrorCode
  compliance_not_eligible asset_paused asset_not_active supply_cap_exceeded : ErrorCode
  operation_conflict chain_unavailable chain_identity_mismatch signer_rejected : ErrorCode
  signed_transaction_mismatch nonce_divergence replacement_intent_mismatch : ErrorCode
  replacement_limit_reached simulation_failed internal_error : ErrorCode

-- HTTP_STATUS_BY_CODE
unfoldable pub http_status_by_code : ErrorCode → ℕ
http_status_by_code validation_error = 400
http_status_by_code unauthorized = 401
http_status_by_code forbidden = 403
http_status_by_code resource_not_found = 404
http_status_by_code idempotency_key_required = 400
http_status_by_code idempotency_conflict = 409
http_status_by_code idempotency_in_progress = 409
http_status_by_code invalid_state_transition = 409
http_status_by_code approval_already_recorded = 409
http_status_by_code self_approval_not_allowed = 409
http_status_by_code approval_request_closed = 409
http_status_by_code compliance_not_eligible = 422
http_status_by_code asset_paused = 409
http_status_by_code asset_not_active = 409
http_status_by_code supply_cap_exceeded = 422
http_status_by_code operation_conflict = 409
http_status_by_code chain_unavailable = 503
http_status_by_code chain_identity_mismatch = 500
http_status_by_code signer_rejected = 502
http_status_by_code signed_transaction_mismatch = 500
http_status_by_code nonce_divergence = 500
http_status_by_code replacement_intent_mismatch = 500
http_status_by_code replacement_limit_reached = 409
http_status_by_code simulation_failed = 422
http_status_by_code internal_error = 500

-- The database constraints whose violation the program tells apart.
pub data Constraint : Type 0 where
  one_per_approver no_self_approval live_nonce transaction_hash_key : Constraint
  one_active_per_wallet validity_window : Constraint

-- A thrown value: an `AppError` by its code (its message and details are left out), a violated
-- database constraint, or any other error.
pub data Fault : Type 0 where
  app_error : ErrorCode → Fault
  constraint_violation : Constraint → Fault
  plain_error : Fault

-- `isAppError(error) ? error.code : ErrorCode.INTERNAL_ERROR`
unfoldable pub code_of : Fault → ErrorCode
code_of (app_error c) = c
code_of (constraint_violation _) = internal_error
code_of plain_error = internal_error

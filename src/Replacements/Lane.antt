-- ===== src/Replacements/Lane.antt =====
-- src/modules/transactions/replacement-service.ts: `recoverBlockedLane`. Metrics and logs are left out.
use institutional_tokenizati.Base.{
  ℕ, suc, Bool, true, false, not, ◌&&◌, Option, none, some, [], Text, leb, is_none, get_or,
  if◌then◌else◌,
}
use institutional_tokenizati.Db.{
  Attempt, AttemptStatus, nonce_recovery, nonce_lane_recovery, receipt, info, warning,
  nonce_recovered, Action, Done, pure, transaction, try_catch, ◌>>=◌, ◌>>◌, attempt_status_eq,
  purpose_eq,
}
use institutional_tokenizati.Repo.Attempts.{
  find_attempt_by_id, find_live_attempt_at_nonce, record_receipt, update_attempt_status,
}
use institutional_tokenizati.Repo.Nonces.{read_reserved_nonce}
use institutional_tokenizati.Repo.Observations.{ObservationInput, record_observation}
use institutional_tokenizati.Repo.Reference.{record_audit_event}
use institutional_tokenizati.Transactions.Confirmation.{
  TransactionReceiptView, ConfirmationOutcome, await_confirmation,
}
use institutional_tokenizati.Transactions.Intent.{FeeEstimate}
use institutional_tokenizati.Transactions.ChainWriter.{
  ChainWriteOutcome, cancel_nonce, resume_signature, broadcast,
}
use institutional_tokenizati.Executor.Settlement.{receipt_columns}
use institutional_tokenizati.Replacements.Stuck.{
  ReplacementDeps, empty_hooks, bumped_fees, submitted_part, replace_stuck_transactions,
}

pub record ReplacementSummary : Type 0 where
  pub replaced : ℕ
  pub recovered : ℕ

-- What `confirmRecovery` notes
unfoldable pub recovery_observation : Attempt → TransactionReceiptView → ObservationInput
recovery_observation attempt view = record {
  operation_id = none;
  transaction_attempt_id = some attempt.id;
  kind = receipt;
  chain_id = attempt.chain_id;
  block_number = some view.block_number;
  block_hash = some view.block_hash;
  transaction_hash = some view.transaction_hash;
  is_matched = not view.is_reverted;
  is_canonical = true;
  severity = if view.is_reverted then warning else info;
}

-- Its transaction; `final` is whether the outcome is FINALIZED.
unfoldable pub confirm_attempt : TransactionReceiptView → Bool → Option Attempt → Action Done
unfolding recovery_observation
confirm_attempt view final none = pure tt
confirm_attempt view final (some attempt) = transaction (do
  record_receipt attempt.id (receipt_columns view)
  record_observation (recovery_observation attempt view)
  if final && not view.is_reverted
      then update_attempt_status attempt.id AttemptStatus.confirmed none false
      else pure tt)

unfoldable pub confirm_receipt : ℕ → TransactionReceiptView → Bool → Action Done
unfolding confirm_attempt
confirm_receipt attempt_id view final = do
  attempt ← find_attempt_by_id attempt_id
  confirm_attempt view final attempt

unfoldable pub confirm_outcome : ℕ → ConfirmationOutcome → Action Done
unfolding confirm_receipt
confirm_outcome attempt_id ConfirmationOutcome.pending = pure tt
confirm_outcome attempt_id (ConfirmationOutcome.orphaned view) = pure tt
confirm_outcome attempt_id (ConfirmationOutcome.included view) =
    confirm_receipt attempt_id view false
confirm_outcome attempt_id (ConfirmationOutcome.reverted view) =
    confirm_receipt attempt_id view false
confirm_outcome attempt_id (ConfirmationOutcome.finalized view) =
    confirm_receipt attempt_id view true

-- `confirmRecovery`
unfoldable pub confirm_recovery : ReplacementDeps → ℕ → Text → Action Done
unfolding confirm_outcome
confirm_recovery deps attempt_id hash = do
  watch ← deps.executor.watch hash
  confirm_outcome attempt_id (
      get_or
        (await_confirmation watch.polls deps.executor.confirmation watch.start (suc watch.turns))
        ConfirmationOutcome.pending)

-- `if (outcome.kind !== 'SUBMITTED') return false; await this.confirmRecovery(...)`
unfoldable pub confirm_if_submitted : ReplacementDeps → Option (ℕ × Text) → Action Bool
unfolding confirm_recovery
confirm_if_submitted deps none = pure false
confirm_if_submitted deps (some (attempt_id, hash)) = do
  confirm_recovery deps attempt_id hash
  pure true

-- `resumeSignature`, or a broadcast of the stored bytes with the attempt's hash
unfoldable pub resume_or_send : ReplacementDeps → Attempt → Option Text → Action ChainWriteOutcome
resume_or_send deps recovery none = resume_signature deps.executor.writer empty_hooks recovery
resume_or_send deps recovery (some bytes) =
    broadcast deps.executor.writer empty_hooks recovery bytes (get_or recovery.transaction_hash [])

unfoldable pub resume_recovery : ReplacementDeps → Attempt → Action Bool
unfolding resume_or_send submitted_part confirm_if_submitted
resume_recovery deps recovery =
    if attempt_status_eq recovery.status AttemptStatus.failed then pure false else (do
      outcome ← resume_or_send deps recovery recovery.signed_raw_transaction
      confirm_if_submitted deps (submitted_part outcome))

-- The try block of `cancelNonce`
unfoldable pub try_cancel :
    ReplacementDeps → Attempt → FeeEstimate → Action (Option ChainWriteOutcome)
try_cancel deps blocking fees =
    try_catch
      (do
        outcome ← cancel_nonce deps.executor.writer empty_hooks blocking fees nonce_lane_recovery
        pure (some outcome))
      (λ e. pure none)

unfoldable pub after_cancel : ReplacementDeps → Attempt → Option ChainWriteOutcome → Action Bool
unfolding submitted_part confirm_if_submitted
after_cancel deps blocking none = pure false
after_cancel deps blocking (some outcome) = do
  record_audit_event deps.actor nonce_recovered blocking.id blocking.operation_id
  confirm_if_submitted deps (submitted_part outcome)

-- `cancelNonce`
unfoldable pub cancel_blocking : ReplacementDeps → Attempt → Action Bool
unfolding bumped_fees try_cancel after_cancel
cancel_blocking deps blocking = do
  fees ← bumped_fees deps blocking
  outcome ← try_cancel deps blocking fees
  after_cancel deps blocking outcome

-- `isAbandoned`
unfoldable pub is_abandoned : Attempt → Bool
is_abandoned attempt =
    attempt_status_eq attempt.status AttemptStatus.failed && is_none attempt.block_number

-- `recoverBlockedLane` once the blocking attempt was looked for
unfoldable pub recover_blocking : ReplacementDeps → Option Attempt → Action Bool
unfolding resume_recovery is_abandoned cancel_blocking
recover_blocking deps none = pure false
recover_blocking deps (some blocking) =
    if purpose_eq blocking.purpose nonce_recovery
    then resume_recovery deps blocking
    else if not (is_abandoned blocking)
    then pure false
    else cancel_blocking deps blocking

-- Its part after the reserved nonce was read: `chainNonce >= reserved` means nothing is blocked.
unfoldable pub recover_reserved : ReplacementDeps → Text → Option ℕ → Action ℕ
unfolding recover_blocking
recover_reserved deps signer_address none = pure 0
recover_reserved deps signer_address (some reserved) = do
  chain_nonce ← deps.get_latest_count signer_address
  if leb reserved chain_nonce then pure 0 else (do
    blocking ← find_live_attempt_at_nonce deps.executor.writer.chain_id signer_address chain_nonce
    done ← recover_blocking deps blocking
    pure (if done then 1 else 0))

unfoldable pub recover_blocked_lane : ReplacementDeps → Action ℕ
unfolding recover_reserved
recover_blocked_lane deps = do
  signer_address ← deps.executor.writer.ports.get_signer_address
  reserved ← read_reserved_nonce deps.executor.writer.chain_id signer_address
  recover_reserved deps signer_address reserved

-- `sweep`
unfoldable pub replacement_sweep : ReplacementDeps → Action ReplacementSummary
unfolding replace_stuck_transactions recover_blocked_lane
replacement_sweep deps = do
  replaced ← replace_stuck_transactions deps
  recovered ← recover_blocked_lane deps
  pure (record { replaced = replaced; recovered = recovered })

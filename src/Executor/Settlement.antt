-- ===== src/Executor/Settlement.antt =====
-- src/modules/operations/operation-executor.ts: `observeAndFinalize`, `recordReorg`, `settle` and
-- `failOperation`.
use institutional_tokenizati.Base.{
  ℕ, suc, false, Option, none, some, List, [], ◌∷◌, Text, get_or, if◌then◌else◌,
}
use institutional_tokenizati.Domain.OperationState.{
  OperationState, broadcasting, broadcast_unknown, submitted, state_eq, includes_state,
  is_terminal_operation_state,
}
use institutional_tokenizati.Domain.Errors.{plain_error}
use institutional_tokenizati.Db.{
  Operation, Attempt, AttemptStatus, FailureCode, chain_reverted, operation_failed,
  operation_succeeded, operation_settled, reorg_observed, block_canonicality, warning, Action, Done,
  pure, or_throw, transaction, try_catch, ◌>>=◌, ◌>>◌, attempt_status_eq,
}
use institutional_tokenizati.Repo.Operations.{
  Patch, no_patch, failure, find_operation_by_id, transition_operation,
}
use institutional_tokenizati.Repo.Attempts.{
  ReceiptColumns, record_receipt, update_attempt_status, clear_attempt_inclusion,
  find_latest_attempt_for_operation,
}
use institutional_tokenizati.Repo.Observations.{
  ObservationInput, record_observation, invalidate_attempt_observations,
}
use institutional_tokenizati.Repo.Reference.{record_audit_event}
use institutional_tokenizati.Transactions.Confirmation.{
  TransactionReceiptView, ConfirmationOutcome, await_confirmation,
}
use institutional_tokenizati.Executor.Interface.{
  ExecutorDeps, ExecutionResult, OperationHandler, SettledOperation, ReconciliationReport,
  handler_for,
}

-- The columns that `recordReceipt` is given
unfoldable pub receipt_columns : TransactionReceiptView → ReceiptColumns
receipt_columns receipt = record {
  status = if receipt.is_reverted then AttemptStatus.reverted else AttemptStatus.included;
  block_number = receipt.block_number;
  block_hash = receipt.block_hash;
  gas_used = receipt.gas_used;
  receipt_status = if receipt.is_reverted then 0 else 1;
  contract_address = receipt.contract_address;
}

-- `if (operation.state === from) await transitionOperation(tx, { operation, to })`
unfoldable pub move_from : OperationState → OperationState → Operation → Action Done
move_from from to operation =
    if state_eq operation.state from
    then (do transition_operation operation to no_patch; pure tt)
    else pure tt

-- The transaction that records the inclusion
unfoldable pub record_inclusion : ℕ → ℕ → TransactionReceiptView → Action Done
unfolding move_from receipt_columns
record_inclusion operation_id attempt_id receipt = transaction (do
  found ← find_operation_by_id operation_id
  operation ← or_throw found plain_error
  move_from submitted OperationState.included operation
  record_receipt attempt_id (receipt_columns receipt))

-- What `recordReorg` notes about the block
unfoldable pub reorg_observation : ExecutorDeps → ℕ → ℕ → TransactionReceiptView → ObservationInput
reorg_observation deps operation_id attempt_id receipt = record {
  operation_id = some operation_id;
  transaction_attempt_id = some attempt_id;
  kind = block_canonicality;
  chain_id = deps.writer.chain_id;
  block_number = some receipt.block_number;
  block_hash = some receipt.block_hash;
  transaction_hash = some receipt.transaction_hash;
  is_matched = false;
  is_canonical = false;
  severity = warning;
}

unfoldable pub record_reorg : ExecutorDeps → ℕ → ℕ → TransactionReceiptView → Action ExecutionResult
unfolding reorg_observation move_from
record_reorg deps operation_id attempt_id receipt = do
  transaction (do
    found ← find_operation_by_id operation_id
    operation ← or_throw found plain_error
    invalidate_attempt_observations attempt_id
    clear_attempt_inclusion attempt_id
    record_observation (reorg_observation deps operation_id attempt_id receipt)
    move_from OperationState.included submitted operation
    record_audit_event deps.actor reorg_observed operation_id (some operation_id))
  pure (ExecutionResult.pending submitted)

-- What the transaction of `settle` does after the transition
unfoldable pub settle_effects :
    ExecutorDeps
    → OperationHandler
    → SettledOperation
    → Operation
    → OperationState
    → AttemptStatus
    → Action Done
settle_effects deps handler settled operation to attempt_status = do
  update_attempt_status settled.attempt_id attempt_status none false
  if state_eq to OperationState.succeeded then handler.apply_success settled else pure tt
  record_audit_event deps.actor
      (if state_eq to OperationState.succeeded then operation_succeeded else operation_settled)
      operation.id (some operation.id)

-- That transaction, once the operation is reloaded
unfoldable pub settle_row :
    ExecutorDeps
    → OperationHandler
    → SettledOperation
    → Operation
    → OperationState
    → AttemptStatus
    → Patch
    → Action Done
unfolding settle_effects
settle_row deps handler settled operation to attempt_status patch =
    if state_eq operation.state to then pure tt else (do
      transition_operation operation to patch
      settle_effects deps handler settled operation to attempt_status)

unfoldable pub settle :
    ExecutorDeps → SettledOperation → OperationState → AttemptStatus → Patch → Action Done
unfolding settle_row handler_for
settle deps settled to attempt_status patch = do
  handler ← handler_for deps settled.operation
  transaction (do
    found ← find_operation_by_id settled.operation.id
    operation ← or_throw found plain_error
    settle_row deps handler settled operation to attempt_status patch)

-- `settled`, and the report of the operation's handler
unfoldable pub reconcile_found :
    ExecutorDeps
    → ℕ
    → TransactionReceiptView
    → Operation
    → Action (SettledOperation × ReconciliationReport)
unfolding handler_for
reconcile_found deps attempt_id receipt operation = do
  let settled : SettledOperation = record {
    operation = operation;
    attempt_id = attempt_id;
    receipt = receipt;
  }
  handler ← handler_for deps operation
  report ← handler.reconcile settled
  pure (settled, report)

-- The operation is reloaded first.
unfoldable pub reconcile_receipt :
    ExecutorDeps → ℕ → ℕ → TransactionReceiptView → Action (SettledOperation × ReconciliationReport)
unfolding reconcile_found
reconcile_receipt deps operation_id attempt_id receipt = do
  found ← find_operation_by_id operation_id
  operation ← or_throw found plain_error
  reconcile_found deps attempt_id receipt operation

-- A finalized receipt: success only if the report is consistent
unfoldable pub conclude :
    ExecutorDeps → Text → SettledOperation → ReconciliationReport → Action ExecutionResult
unfolding settle
conclude deps hash settled report =
    if report.consistent
    then (do
      settle deps settled OperationState.succeeded AttemptStatus.confirmed no_patch
      pure (ExecutionResult.succeeded hash))
    else pure (ExecutionResult.pending OperationState.included)

-- What follows the wait
unfoldable pub on_confirmation :
    ExecutorDeps → ℕ → ℕ → Text → ConfirmationOutcome → Action ExecutionResult
unfolding record_reorg record_inclusion reconcile_receipt conclude settle
on_confirmation deps operation_id attempt_id hash ConfirmationOutcome.pending =
    pure (ExecutionResult.pending submitted)
on_confirmation deps operation_id attempt_id hash (ConfirmationOutcome.orphaned receipt) =
    record_reorg deps operation_id attempt_id receipt
on_confirmation deps operation_id attempt_id hash (ConfirmationOutcome.included receipt) = do
  record_inclusion operation_id attempt_id receipt
  pure (ExecutionResult.pending OperationState.included)
on_confirmation deps operation_id attempt_id hash (ConfirmationOutcome.reverted receipt) = do
  record_inclusion operation_id attempt_id receipt
  (settled, report) ← reconcile_receipt deps operation_id attempt_id receipt
  settle deps settled OperationState.reverted AttemptStatus.reverted (failure chain_reverted)
  pure (ExecutionResult.reverted hash)
on_confirmation deps operation_id attempt_id hash (ConfirmationOutcome.finalized receipt) = do
  record_inclusion operation_id attempt_id receipt
  (settled, report) ← reconcile_receipt deps operation_id attempt_id receipt
  conclude deps hash settled report

-- The result for an operation that is settled already
unfoldable pub settled_result : OperationState → Text → ExecutionResult
settled_result state hash =
    if state_eq state OperationState.succeeded
    then ExecutionResult.succeeded hash
    else ExecutionResult.pending state

unfoldable pub observe_and_finalize : ExecutorDeps → ℕ → ℕ → Text → Action ExecutionResult
unfolding settled_result on_confirmation
observe_and_finalize deps operation_id attempt_id hash = do
  found ← find_operation_by_id operation_id
  existing ← or_throw found plain_error
  if is_terminal_operation_state existing.state
      then pure (settled_result existing.state hash)
      else (do
        watch ← deps.watch hash
        on_confirmation deps operation_id attempt_id hash (
            get_or (await_confirmation watch.polls deps.confirmation watch.start (suc watch.turns))
              ConfirmationOutcome.pending))

-- `inFlight` of `failOperation`
abbrev pub unfailable_states : List OperationState
unfailable_states =
    broadcasting ∷ broadcast_unknown ∷ submitted ∷ OperationState.included
    ∷ OperationState.succeeded ∷ OperationState.reverted ∷ OperationState.failed
    ∷ OperationState.cancelled ∷ []

-- The newest attempt fails with its operation if it is only prepared.
unfoldable pub fail_prepared : Option Attempt → FailureCode → Action Done
fail_prepared none code = pure tt
fail_prepared (some latest) code =
    if attempt_status_eq latest.status AttemptStatus.prepared
    then update_attempt_status latest.id AttemptStatus.failed (some code) false
    else pure tt

-- The transaction of `failOperation`, once the row is locked
unfoldable pub fail_locked : ExecutorDeps → Operation → FailureCode → Option Operation → Action Done
unfolding fail_prepared
fail_locked deps operation code none = pure tt
fail_locked deps operation code (some current) =
    if includes_state unfailable_states current.state then pure tt else (do
      transition_operation current OperationState.failed (failure code)
      latest ← find_latest_attempt_for_operation operation.id
      fail_prepared latest code
      record_audit_event deps.actor operation_failed operation.id (some operation.id))

unfoldable pub fail_operation : ExecutorDeps → Operation → FailureCode → Action Done
unfolding fail_locked
fail_operation deps operation code =
    try_catch
      (transaction
        (do current ← find_operation_by_id operation.id; fail_locked deps operation code current))
      (λ e. pure tt)

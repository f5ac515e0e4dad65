-- ===== src/Executor/Interface.antt =====
-- src/modules/operations/operation-handler.ts and the first part of operation-executor.ts: what the
-- executor is given, and what it returns. Metrics, logs and messages are left out.
use institutional_tokenizati.Base.{ℕ, Bool, Option, List, Text}
use institutional_tokenizati.Domain.OperationState.{OperationState}
use institutional_tokenizati.Domain.Errors.{plain_error}
use institutional_tokenizati.Domain.Roles.{Actor}
use institutional_tokenizati.Db.{
  Operation, OperationType, AttemptPurpose, FailureCode, Action, Done, ObservationKind, or_throw,
}
use institutional_tokenizati.Transactions.Confirmation.{
  Polls, ConfirmationPolicy, TransactionReceiptView,
}
use institutional_tokenizati.Transactions.ChainWriter.{Deps, EncodedCall}

pub record SettledOperation : Type 0 where
  pub operation : Operation
  pub attempt_id : ℕ
  pub receipt : TransactionReceiptView

-- ReconciliationReport; a finding by the kind of its check
pub record ReconciliationReport : Type 0 where
  pub consistent : Bool
  pub findings : List ObservationKind

-- OperationHandler. An absent optional method does nothing; the evidence of `prepare` is left out.
pub record OperationHandler : Type 0 where
  pub purpose : AttemptPurpose
  pub prepare : Operation → Action EncodedCall
  pub assert_still_executable : Operation → Action Done
  pub reconcile : SettledOperation → Action ReconciliationReport
  pub apply_success : SettledOperation → Action Done

-- What a wait for a transaction sees: the polls, the clock at its start, and a turn at which the
-- clock has passed the deadline. Other workers may change the store meanwhile.
pub record Watch : Type 0 where
  pub polls : Polls
  pub start : ℕ
  pub turns : ℕ

-- OperationExecutorDeps, and the identity of the worker
pub record ExecutorDeps : Type 0 where
  pub writer : Deps
  pub handlers : OperationType → Option OperationHandler
  pub watch : Text → Action Watch
  pub confirmation : ConfirmationPolicy
  pub actor : Actor

-- OperationExecutionResult
pub data ExecutionResult : Type 0 where
  skipped : Option OperationState → ExecutionResult
  succeeded reverted : Text → ExecutionResult
  pending : OperationState → ExecutionResult
  failed : FailureCode → ExecutionResult

unfoldable pub handler_for : ExecutorDeps → Operation → Action OperationHandler
handler_for deps operation = or_throw (deps.handlers operation.type) plain_error

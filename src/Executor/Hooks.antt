-- ===== src/Executor/Hooks.antt =====
-- src/modules/operations/operation-executor.ts: `operationHooks` and `replacementHooks`, the moves of
-- an operation within the chain writer's own transactions.
use institutional_tokenizati.Base.{ℕ, Option, none, some, if◌then◌else◌, not}
use institutional_tokenizati.Domain.OperationState.{
  OperationState, cancelled, state_eq, can_transition_operation,
}
use institutional_tokenizati.Domain.Errors.{app_error, operation_conflict, plain_error}
use institutional_tokenizati.Db.{
  Operation, execution_withheld, Action, Done, pure, throw, or_throw, throw_if, try_catch, ◌>>=◌,
  ◌>>◌,
}
use institutional_tokenizati.Repo.Operations.{
  Patch, no_patch, failure, find_operation_by_id, transition_operation,
}
use institutional_tokenizati.Repo.Reference.{record_audit_event}
use institutional_tokenizati.Transactions.ChainWriter.{ChainWriteHooks}
use institutional_tokenizati.Executor.Interface.{ExecutorDeps, handler_for}

-- `step`
unfoldable pub step_operation : ℕ → OperationState → Patch → Action Done
step_operation operation_id to patch = do
  found ← find_operation_by_id operation_id
  current ← or_throw found plain_error
  transition_operation current to patch
  pure tt

-- The try block of `assertBroadcastAllowed`
unfoldable pub assert_executable : ExecutorDeps → Operation → Action Done
unfolding handler_for
assert_executable deps operation = do
  throw_if (state_eq operation.state cancelled) (app_error operation_conflict)
  handler ← handler_for deps operation
  handler.assert_still_executable operation

unfoldable pub assert_broadcast_allowed : ExecutorDeps → ℕ → Action Done
unfolding assert_executable
assert_broadcast_allowed deps operation_id = do
  found ← find_operation_by_id operation_id
  operation ← or_throw found plain_error
  try_catch (assert_executable deps operation) (λ e. do
    record_audit_event deps.actor execution_withheld operation.id (some operation.id)
    throw e)

unfoldable pub operation_hooks : ExecutorDeps → ℕ → ChainWriteHooks
unfolding step_operation assert_broadcast_allowed
operation_hooks deps operation_id = record {
  on_prepared = λ a. step_operation operation_id OperationState.signing no_patch;
  on_signed = λ a. step_operation operation_id OperationState.signed no_patch;
  assert_broadcast_allowed = assert_broadcast_allowed deps operation_id;
  on_broadcasting = λ a. step_operation operation_id OperationState.broadcasting no_patch;
  on_submitted = λ a h. step_operation operation_id OperationState.submitted no_patch;
  on_broadcast_unknown = λ a. step_operation operation_id OperationState.broadcast_unknown no_patch;
  on_failed = λ a code. step_operation operation_id OperationState.failed (failure code);
}

-- `advance` of `replacementHooks`, once the row is locked
unfoldable pub advance_locked : OperationState → Option Operation → Action Done
advance_locked to none = pure tt
advance_locked to (some current) =
    if not (can_transition_operation current.state to)
    then pure tt
    else (do transition_operation current to no_patch; pure tt)

unfoldable pub advance : ℕ → OperationState → Action Done
unfolding advance_locked
advance operation_id to = do current ← find_operation_by_id operation_id; advance_locked to current

unfoldable pub replacement_hooks : ExecutorDeps → ℕ → ChainWriteHooks
unfolding advance assert_broadcast_allowed
replacement_hooks deps operation_id = record {
  on_prepared = λ a. pure tt;
  on_signed = λ a. pure tt;
  assert_broadcast_allowed = assert_broadcast_allowed deps operation_id;
  on_broadcasting = λ a. pure tt;
  on_submitted = λ a h. advance operation_id OperationState.submitted;
  on_broadcast_unknown = λ a. advance operation_id OperationState.broadcast_unknown;
  on_failed = λ a code. pure tt;
}

-- ===== src/Executor/Pipeline.antt =====
-- src/modules/operations/operation-executor.ts: `execute`, `runPipeline` and
-- `resumePendingSignature`.
use institutional_tokenizati.Base.{ℕ, Option, none, some, option_map}
use institutional_tokenizati.Domain.OperationState.{OperationState}
use institutional_tokenizati.Domain.Errors.{code_of}
use institutional_tokenizati.Db.{
  Operation, Attempt, error_code, Action, pure, transaction, try_catch, ◌>>=◌, ◌>>◌,
}
use institutional_tokenizati.Repo.Operations.{find_operation_by_id, claim_ready_operation}
use institutional_tokenizati.Transactions.ChainWriter.{
  ChainWriteIntent, ChainWriteOutcome, EncodedCall, resume_signature, execute,
}
use institutional_tokenizati.Executor.Interface.{
  ExecutorDeps, ExecutionResult, OperationHandler, handler_for,
}
use institutional_tokenizati.Executor.Hooks.{operation_hooks}
use institutional_tokenizati.Executor.Settlement.{observe_and_finalize, fail_operation}

-- What follows the chain writer's outcome, in `runPipeline` and in `resumePendingSignature`
unfoldable pub after_write : ExecutorDeps → ℕ → ChainWriteOutcome → Action ExecutionResult
after_write deps operation_id (ChainWriteOutcome.has_failed attempt_id code) =
    pure (ExecutionResult.failed code)
after_write deps operation_id (ChainWriteOutcome.signature_pending attempt_id request) =
    pure (ExecutionResult.pending OperationState.signing)
after_write deps operation_id (ChainWriteOutcome.is_unknown attempt_id hash) =
    pure (ExecutionResult.pending OperationState.broadcast_unknown)
after_write deps operation_id (ChainWriteOutcome.is_submitted attempt_id hash) =
    observe_and_finalize deps operation_id attempt_id hash

-- The intent that `runPipeline` hands to the chain writer
unfoldable pub write_intent : Operation → OperationHandler → EncodedCall → ChainWriteIntent
write_intent operation handler call = record {
  purpose = handler.purpose;
  call = call;
  operation_id = some operation.id;
  asset_id = some operation.asset_id;
  wallet_id = operation.wallet_id;
}

unfoldable pub run_pipeline : ExecutorDeps → Operation → Action ExecutionResult
unfolding handler_for after_write write_intent
run_pipeline deps operation = do
  handler ← handler_for deps operation
  call ← handler.prepare operation
  outcome ←
      execute deps.writer (write_intent operation handler call) (operation_hooks deps operation.id)
  after_write deps operation.id outcome

-- `execute` after the claim
unfoldable pub run_claimed : ExecutorDeps → ℕ → Option Operation → Action ExecutionResult
unfolding run_pipeline
run_claimed deps operation_id none = do
  current ← find_operation_by_id operation_id
  pure (ExecutionResult.skipped (option_map (λ o. o.state) current))
run_claimed deps operation_id (some claimed) = try_catch (run_pipeline deps claimed) (λ e. do
  fail_operation deps claimed (error_code (code_of e))
  pure (ExecutionResult.failed (error_code (code_of e))))

-- `execute`
unfoldable pub execute_operation : ExecutorDeps → ℕ → ℕ → Action ExecutionResult
unfolding run_claimed
execute_operation deps operation_id worker_id = do
  claimed ← transaction (claim_ready_operation operation_id worker_id)
  run_claimed deps operation_id claimed

unfoldable pub resume_pending_signature : ExecutorDeps → ℕ → Attempt → Action ExecutionResult
unfolding after_write
resume_pending_signature deps operation_id attempt = do
  outcome ← resume_signature deps.writer (operation_hooks deps operation_id) attempt
  after_write deps operation_id outcome

-- ===== src/Recovery/Sweep.antt =====
-- src/modules/transactions/recovery-service.ts: `recoverOne` and `sweep`.
use institutional_tokenizati.Base.{◌+◌, ◌-◌, Option, none, some, List, [], ◌∷◌, option_map, get_or}
use institutional_tokenizati.Domain.OperationState.{
  OperationState, cancelled, pending_approval, ready, preparing, signing, signed, broadcasting,
  broadcast_unknown, submitted, included,
}
use institutional_tokenizati.Db.{Operation, Action, pure, gets, try_catch, ◌>>=◌, ◌>>◌}
use institutional_tokenizati.Repo.Operations.{find_stale_operations}
use institutional_tokenizati.Recovery.Defs.{
  RecoveryDeps, RecoveryResult, RecoverySummary, requeued, rebroadcast, resolved, failed, noop,
  resolved_if, resume_signing, finalize,
}
use institutional_tokenizati.Recovery.InFlight.{
  failed_if, abandon_unbroadcast, resolve_in_flight, recovery_fuel,
}

-- The end of `recoverOne` for a state in which nothing was broadcast
unfoldable pub abandon_as_failed : RecoveryDeps → Operation → Action RecoveryResult
abandon_as_failed deps operation = do
  abandoned ← abandon_unbroadcast deps recovery_fuel operation
  pure (get_or (option_map failed_if abandoned) noop)

unfoldable pub resumed_or_abandon :
    RecoveryDeps → Operation → Option RecoveryResult → Action RecoveryResult
unfolding abandon_as_failed
resumed_or_abandon deps operation (some result) = pure result
resumed_or_abandon deps operation none = abandon_as_failed deps operation

unfoldable pub resolve_as : RecoveryDeps → Operation → Action RecoveryResult
resolve_as deps operation = do
  result ← resolve_in_flight deps recovery_fuel operation
  pure (get_or result noop)

unfoldable pub finalize_as : RecoveryDeps → Operation → Action RecoveryResult
finalize_as deps operation = do settled ← finalize deps operation; pure (resolved_if settled)

-- `switch (operation.state)`
unfoldable pub recover_state : RecoveryDeps → Operation → OperationState → Action RecoveryResult
unfolding resumed_or_abandon abandon_as_failed resolve_as finalize_as
recover_state deps operation ready = do
  deps.queue_add operation.id operation.correlation_id
  pure requeued
recover_state deps operation signing = do
  outcome ← resume_signing deps operation
  resumed_or_abandon deps operation outcome
recover_state deps operation preparing = abandon_as_failed deps operation
recover_state deps operation signed = resolve_as deps operation
recover_state deps operation broadcasting = resolve_as deps operation
recover_state deps operation broadcast_unknown = resolve_as deps operation
recover_state deps operation submitted = finalize_as deps operation
recover_state deps operation included = finalize_as deps operation
recover_state deps operation pending_approval = pure noop
recover_state deps operation OperationState.succeeded = pure noop
recover_state deps operation OperationState.reverted = pure noop
recover_state deps operation OperationState.failed = pure noop
recover_state deps operation cancelled = pure noop

unfoldable pub recover_one : RecoveryDeps → Operation → Action RecoveryResult
unfolding recover_state
recover_one deps operation = recover_state deps operation operation.state

abbrev pub nothing_done : RecoverySummary
nothing_done = record { requeued = 0; rebroadcast = 0; resolved = 0; failed = 0 }

unfoldable pub count_result : RecoveryResult → RecoverySummary → RecoverySummary
count_result requeued c = record c { requeued = c.requeued + 1 }
count_result rebroadcast c = record c { rebroadcast = c.rebroadcast + 1 }
count_result resolved c = record c { resolved = c.resolved + 1 }
count_result failed c = record c { failed = c.failed + 1 }
count_result noop c = c

-- The loop of `sweep`: an error is logged, and the sweep goes on.
unfoldable pub sweep_each : RecoveryDeps → List Operation → RecoverySummary → Action RecoverySummary
unfolding recover_one count_result
sweep_each deps [] summary = pure summary
sweep_each deps (operation ∷ rest) summary = do
  result ← try_catch (recover_one deps operation) (λ e. pure noop)
  sweep_each deps rest (count_result result summary)

-- `sweep`, over all that `findStaleOperations` lists; `Date.now()` is past `staleAfterMs`.
unfoldable pub sweep : RecoveryDeps → Action RecoverySummary
unfolding sweep_each
sweep deps = do
  at ← gets λ s. s.clock
  stale ← find_stale_operations (at - deps.stale_after_ms)
  sweep_each deps stale nothing_done

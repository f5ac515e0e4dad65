-- ===== src/Recovery/InFlight.antt =====
-- src/modules/transactions/recovery-service.ts: `resolveInFlight` and `abandonUnbroadcast`, which call
-- each other. They run on fuel, one unit for each call.
use institutional_tokenizati.Base.{
  ℕ, zero, suc, Bool, true, false, not, ◌||◌, Option, none, some, Text, option_map, if◌then◌else◌,
}
use institutional_tokenizati.Domain.OperationState.{
  OperationState, signed, broadcasting, broadcast_unknown, submitted, state_eq,
}
use institutional_tokenizati.Db.{
  Operation, Attempt, AttemptStatus, Action, Done, pure, transaction, ◌>>=◌, ◌>>◌,
  attempt_status_eq,
}
use institutional_tokenizati.Repo.Operations.{no_patch, find_operation_by_id, transition_operation}
use institutional_tokenizati.Repo.Attempts.{
  find_latest_attempt_for_operation, update_attempt_status,
}
use institutional_tokenizati.Transactions.Confirmation.{TransactionReceiptView}
use institutional_tokenizati.Transactions.ChainWriter.{ChainWriteHooks, broadcast}
use institutional_tokenizati.Executor.Settlement.{move_from}
use institutional_tokenizati.Recovery.Defs.{
  RecoveryDeps, RecoveryResult, in_flight_part, has_bytes, finalize, resolved_if, abandon_attempt,
  rebroadcast, failed, noop,
}

-- `if (current !== null && current.state === from) await transitionOperation(...)`
unfoldable pub move_locked : OperationState → OperationState → Option Operation → Action Done
unfolding move_from
move_locked from to none = pure tt
move_locked from to (some current) = move_from from to current

unfoldable pub move_if : ℕ → OperationState → OperationState → Action Done
unfolding move_locked
move_if operation_id from to = do
  current ← find_operation_by_id operation_id
  move_locked from to current

-- The hooks of the rebroadcast
unfoldable pub rebroadcast_hooks : ℕ → ChainWriteHooks
unfolding move_if
rebroadcast_hooks operation_id = record {
  on_prepared = λ a. pure tt;
  on_signed = λ a. pure tt;
  assert_broadcast_allowed = pure tt;
  on_broadcasting = λ a. pure tt;
  on_submitted = λ a h. move_if operation_id broadcasting submitted;
  on_broadcast_unknown = λ a. move_if operation_id broadcasting broadcast_unknown;
  on_failed = λ a code. pure tt;
}

-- The transaction before the rebroadcast, once the row is locked
unfoldable pub mark_rebroadcast : Attempt → Option Operation → Action Done
mark_rebroadcast attempt none = pure tt
mark_rebroadcast attempt (some current) = do
  if state_eq current.state broadcast_unknown || state_eq current.state signed
      then (do transition_operation current broadcasting no_patch; pure tt)
      else pure tt
  update_attempt_status attempt.id AttemptStatus.broadcasting none true

-- The same bytes again
unfoldable pub rebroadcast_bytes :
    RecoveryDeps → Operation → Attempt → Text → Text → Action RecoveryResult
unfolding mark_rebroadcast rebroadcast_hooks
rebroadcast_bytes deps operation attempt bytes hash = do
  transaction (do current ← find_operation_by_id operation.id; mark_rebroadcast attempt current)
  broadcast deps.executor.writer (rebroadcast_hooks operation.id) attempt bytes hash
  pure rebroadcast

-- `advanceToSubmitted`, once the row is locked
unfoldable pub submit_locked : Option Operation → Action Done
submit_locked none = pure tt
submit_locked (some current) =
    if state_eq current.state broadcast_unknown || state_eq current.state broadcasting
    then (do transition_operation current submitted no_patch; pure tt)
    else pure tt

unfoldable pub advance_to_submitted : Operation → Action Done
unfolding submit_locked
advance_to_submitted operation =
    transaction (do current ← find_operation_by_id operation.id; submit_locked current)

-- `resolveInFlight` after the look-up of the receipt
unfoldable pub after_lookup :
    RecoveryDeps
    → Operation
    → Attempt
    → Text
    → Text
    → Option TransactionReceiptView
    → Action RecoveryResult
unfolding rebroadcast_bytes advance_to_submitted finalize resolved_if
after_lookup deps operation attempt bytes hash none =
    rebroadcast_bytes deps operation attempt bytes hash
after_lookup deps operation attempt bytes hash (some receipt) = do
  advance_to_submitted operation
  settled ← finalize deps operation
  pure (resolved_if settled)

-- `resolveInFlight` for an attempt with bytes and a hash
unfoldable pub resolve_signed :
    RecoveryDeps → Operation → Attempt → Text → Text → Action RecoveryResult
unfolding after_lookup
resolve_signed deps operation attempt bytes hash =
    if attempt_status_eq attempt.status AttemptStatus.replaced then pure noop else (do
      receipt ← deps.get_transaction_receipt hash
      after_lookup deps operation attempt bytes hash receipt)

abbrev pub is_noop : RecoveryResult → Bool
is_noop noop = true
is_noop _ = false

abbrev pub failed_if : Bool → RecoveryResult
failed_if b = if b then failed else noop

-- `abandonUnbroadcast` after its look-up; `resolve` is its call of `resolveInFlight`.
unfoldable pub abandon_or :
    RecoveryDeps
    → Operation
    → Option Attempt
    → Bool
    → Action (Option RecoveryResult)
    → Action (Option Bool)
unfolding abandon_attempt
abandon_or deps operation attempt true resolve = do
  result ← resolve
  pure (option_map (λ r. not (is_noop r)) result)
abandon_or deps operation attempt false resolve = do
  done ← abandon_attempt deps operation attempt
  pure (some done)

-- `resolveInFlight` after its look-up; `abandon` is its call of `abandonUnbroadcast`.
unfoldable pub resolve_or :
    RecoveryDeps
    → Operation
    → Option (Attempt × Text × Text)
    → Action (Option Bool)
    → Action (Option RecoveryResult)
unfolding resolve_signed
resolve_or deps operation none abandon = do done ← abandon; pure (option_map failed_if done)
resolve_or deps operation (some (attempt, bytes, hash)) abandon = do
  result ← resolve_signed deps operation attempt bytes hash
  pure (some result)

-- `none` is for no fuel.
unfoldable mutual
  unfolding abandon_or resolve_or

  pub abandon_unbroadcast : RecoveryDeps → ℕ → Operation → Action (Option Bool)
  abandon_unbroadcast deps zero operation = pure none
  abandon_unbroadcast deps (suc fuel) operation = do
    attempt ← find_latest_attempt_for_operation operation.id
    abandon_or deps operation attempt (has_bytes attempt) (resolve_in_flight deps fuel operation)

  pub resolve_in_flight : RecoveryDeps → ℕ → Operation → Action (Option RecoveryResult)
  resolve_in_flight deps zero operation = pure none
  resolve_in_flight deps (suc fuel) operation = do
    attempt ← find_latest_attempt_for_operation operation.id
    resolve_or deps operation (in_flight_part attempt) (abandon_unbroadcast deps fuel operation)

-- Three calls are enough where stored bytes come with a hash, as `persistSignedAttempt` writes them.
abbrev pub recovery_fuel : ℕ
recovery_fuel = 3

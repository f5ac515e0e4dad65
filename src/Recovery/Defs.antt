-- ===== src/Recovery/Defs.antt =====
-- src/modules/transactions/recovery-service.ts: what the sweep is given, and its simpler steps.
use institutional_tokenizati.Base.{
  ℕ, Bool, true, false, not, ◌||◌, Option, none, some, Text, is_none, option_map, if◌then◌else◌,
}
use institutional_tokenizati.Domain.OperationState.{OperationState, preparing, signing, state_eq}
use institutional_tokenizati.Domain.Roles.{Actor}
use institutional_tokenizati.Db.{
  Operation, Attempt, AttemptStatus, abandoned_before_broadcast, operation_failed, Action, Done,
  pure, transaction, ◌>>=◌, ◌>>◌,
}
use institutional_tokenizati.Repo.Operations.{failure, find_operation_by_id, transition_operation}
use institutional_tokenizati.Repo.Attempts.{
  find_latest_attempt_for_operation, update_attempt_status,
}
use institutional_tokenizati.Repo.Signers.{find_signer_request_for_attempt}
use institutional_tokenizati.Repo.Reference.{record_audit_event}
use institutional_tokenizati.Transactions.Confirmation.{TransactionReceiptView}
use institutional_tokenizati.Transactions.ChainWriter.{outstanding}
use institutional_tokenizati.Executor.Interface.{ExecutorDeps, ExecutionResult}
use institutional_tokenizati.Executor.Settlement.{observe_and_finalize}
use institutional_tokenizati.Executor.Pipeline.{resume_pending_signature}

pub record RecoveryDeps : Type 0 where
  pub executor : ExecutorDeps
  pub get_transaction_receipt : Text → Action (Option TransactionReceiptView)
  pub queue_add : ℕ → ℕ → Action Done  -- the job's operation and correlation id
  pub stale_after_ms : ℕ
  pub actor : Actor

pub data RecoveryResult : Type 0 where
  requeued rebroadcast resolved failed noop : RecoveryResult

pub record RecoverySummary : Type 0 where
  pub requeued : ℕ
  pub rebroadcast : ℕ
  pub resolved : ℕ
  pub failed : ℕ

-- `result.kind === 'SUCCEEDED' || result.kind === 'REVERTED'`
unfoldable pub is_settled : ExecutionResult → Bool
is_settled (ExecutionResult.succeeded _) = true
is_settled (ExecutionResult.reverted _) = true
is_settled (ExecutionResult.skipped _) = false
is_settled (ExecutionResult.pending _) = false
is_settled (ExecutionResult.failed _) = false

-- An attempt with a hash
abbrev pub hash_of : Option Attempt → Option (Attempt × Text)
hash_of none = none
hash_of (some a) = option_map (λ hash. (a, hash)) a.transaction_hash

-- An attempt with stored bytes and a hash
abbrev pub signed_part : Attempt → Option Text → Option Text → Option (Attempt × Text × Text)
signed_part a (some bytes) (some hash) = some (a, bytes, hash)
signed_part a (some bytes) none = none
signed_part a none hash = none

abbrev pub in_flight_part : Option Attempt → Option (Attempt × Text × Text)
in_flight_part none = none
in_flight_part (some a) = signed_part a a.signed_raw_transaction a.transaction_hash

abbrev pub has_bytes : Option Attempt → Bool
has_bytes none = false
has_bytes (some a) = not (is_none a.signed_raw_transaction)

unfoldable pub finalize_attempt : RecoveryDeps → Operation → Option (Attempt × Text) → Action Bool
unfolding is_settled
finalize_attempt deps operation none = pure false
finalize_attempt deps operation (some (attempt, hash)) = do
  result ← observe_and_finalize deps.executor operation.id attempt.id hash
  pure (is_settled result)

-- `finalize`
unfoldable pub finalize : RecoveryDeps → Operation → Action Bool
unfolding finalize_attempt
finalize deps operation = do
  attempt ← find_latest_attempt_for_operation operation.id
  finalize_attempt deps operation (hash_of attempt)

unfoldable pub resolved_if : Bool → RecoveryResult
resolved_if b = if b then resolved else noop

-- What `resumePendingSignature` makes of the executor's result
unfoldable pub resumed_as : ExecutionResult → RecoveryResult
resumed_as (ExecutionResult.pending state) = if state_eq state signing then noop else resolved
resumed_as (ExecutionResult.failed _) = failed
resumed_as (ExecutionResult.skipped _) = resolved
resumed_as (ExecutionResult.succeeded _) = resolved
resumed_as (ExecutionResult.reverted _) = resolved

-- Its part once the attempt is found: an outstanding request, or none
unfoldable pub resume_attempt :
    RecoveryDeps → Operation → Option Attempt → Action (Option RecoveryResult)
unfolding resumed_as
resume_attempt deps operation none = pure none
resume_attempt deps operation (some attempt) =
    if not (is_none attempt.signed_raw_transaction) then pure none else (do
      request ← find_signer_request_for_attempt attempt.id
      if is_none (outstanding request) then pure none else (do
        result ← resume_pending_signature deps.executor operation.id attempt
        pure (some (resumed_as result))))

unfoldable pub resume_signing : RecoveryDeps → Operation → Action (Option RecoveryResult)
unfolding resume_attempt
resume_signing deps operation = do
  attempt ← find_latest_attempt_for_operation operation.id
  resume_attempt deps operation attempt

abbrev pub is_abandonable : OperationState → Bool
is_abandonable state = state_eq state preparing || state_eq state signing

unfoldable pub fail_abandoned : Option Attempt → Action Done
fail_abandoned none = pure tt
fail_abandoned (some attempt) =
    update_attempt_status attempt.id AttemptStatus.failed (some abandoned_before_broadcast) false

-- The transaction of `abandonUnbroadcast`, once the row is locked
unfoldable pub abandon_locked :
    RecoveryDeps → Operation → Option Attempt → Option Operation → Action Done
unfolding fail_abandoned
abandon_locked deps operation attempt none = pure tt
abandon_locked deps operation attempt (some current) =
    if not (is_abandonable current.state) then pure tt else (do
      transition_operation current OperationState.failed (failure abandoned_before_broadcast)
      fail_abandoned attempt
      record_audit_event deps.actor operation_failed operation.id (some operation.id))

unfoldable pub abandon_attempt : RecoveryDeps → Operation → Option Attempt → Action Bool
unfolding abandon_locked
abandon_attempt deps operation attempt = do
  transaction (do
    current ← find_operation_by_id operation.id
    abandon_locked deps operation attempt current)
  pure true

-- ===== src/Replacements/Stuck.antt =====
-- src/modules/transactions/replacement-service.ts: `replaceStuckTransactions`. Metrics and logs are left out.
use institutional_tokenizati.Base.{
  ℕ, ◌+◌, Bool, true, false, not, Option, none, some, List, [], ◌∷◌, Text, is_none, if◌then◌else◌,
}
use institutional_tokenizati.Domain.OperationState.{is_terminal_operation_state}
use institutional_tokenizati.Domain.Roles.{Actor}
use institutional_tokenizati.Db.{
  Operation, Attempt, stuck_no_inclusion, transaction_replaced, Action, Done, pure, try_catch,
  ◌>>=◌, ◌>>◌,
}
use institutional_tokenizati.Repo.Operations.{find_operation_by_id}
use institutional_tokenizati.Repo.Attempts.{find_stuck_attempts}
use institutional_tokenizati.Repo.Reference.{record_audit_event}
use institutional_tokenizati.Transactions.Confirmation.{TransactionReceiptView}
use institutional_tokenizati.Transactions.Intent.{FeeEstimate, bump_fees}
use institutional_tokenizati.Transactions.ChainWriter.{
  ChainWriteHooks, ChainWriteOutcome, is_submitted, signature_pending, is_unknown, has_failed,
  replace_fees,
}
use institutional_tokenizati.Executor.Interface.{ExecutorDeps}
use institutional_tokenizati.Executor.Hooks.{replacement_hooks}
use institutional_tokenizati.Executor.Settlement.{observe_and_finalize}

-- The dependencies; `profile.replacement` is spelled out.
pub record ReplacementDeps : Type 0 where
  pub executor : ExecutorDeps
  pub get_transaction_receipt : Text → Action (Option TransactionReceiptView)
  pub get_latest_count : Text → Action ℕ  -- `getTransactionCount(address, 'latest')`
  pub stuck_after_ms : ℕ
  pub max_replacements : ℕ
  pub fee_bump_percent : ℕ
  pub actor : Actor

abbrev pub is_found_live : Option Operation → Bool
is_found_live none = false
is_found_live (some o) = not (is_terminal_operation_state o.state)

-- Whether the attempt's operation, if it has one, is there and not settled
unfoldable pub may_replace : Option ℕ → Action Bool
may_replace none = pure true
may_replace (some operation_id) = do
  operation ← find_operation_by_id operation_id
  pure (is_found_live operation)

-- No operation, no hooks
abbrev pub empty_hooks : ChainWriteHooks
empty_hooks = record {
  on_prepared = λ a. pure tt;
  on_signed = λ a. pure tt;
  assert_broadcast_allowed = pure tt;
  on_broadcasting = λ a. pure tt;
  on_submitted = λ a h. pure tt;
  on_broadcast_unknown = λ a. pure tt;
  on_failed = λ a code. pure tt;
}

unfoldable pub hooks_for : ReplacementDeps → Option ℕ → ChainWriteHooks
hooks_for deps none = empty_hooks
hooks_for deps (some operation_id) = replacement_hooks deps.executor operation_id

abbrev pub fees_of : Attempt → FeeEstimate
fees_of attempt = record {
  max_fee_per_gas = attempt.max_fee_per_gas;
  max_priority_fee_per_gas = attempt.max_priority_fee_per_gas;
}

-- `bumpFees(attempt, await gateway.getFeeEstimate(), ...)`
unfoldable pub bumped_fees : ReplacementDeps → Attempt → Action FeeEstimate
bumped_fees deps attempt = do
  current ← deps.executor.writer.ports.get_fee_estimate
  pure (bump_fees (fees_of attempt) current deps.fee_bump_percent)

-- An outcome that is SUBMITTED, with its attempt and hash
unfoldable pub submitted_part : ChainWriteOutcome → Option (ℕ × Text)
submitted_part (is_submitted attempt_id hash) = some (attempt_id, hash)
submitted_part (signature_pending attempt_id request) = none
submitted_part (is_unknown attempt_id hash) = none
submitted_part (has_failed attempt_id code) = none

-- `outcome.kind === 'SUBMITTED' && attempt.operationId !== null`
unfoldable pub observe_replacement : ReplacementDeps → Option (ℕ × Text) → Option ℕ → Action Done
observe_replacement deps (some (attempt_id, hash)) (some operation_id) = do
  observe_and_finalize deps.executor operation_id attempt_id hash
  pure tt
observe_replacement deps (some part) none = pure tt
observe_replacement deps none operation_id = pure tt

-- `replaceOne` once the writer returned an outcome or threw (none)
unfoldable pub after_replacement :
    ReplacementDeps → Attempt → Option ChainWriteOutcome → Action Bool
unfolding submitted_part observe_replacement
after_replacement deps attempt none = pure false
after_replacement deps attempt (some outcome) = do
  record_audit_event deps.actor transaction_replaced attempt.id attempt.operation_id
  observe_replacement deps (submitted_part outcome) attempt.operation_id
  pure true

-- The try block of `replaceOne`
unfoldable pub try_replace :
    ReplacementDeps → Attempt → FeeEstimate → Action (Option ChainWriteOutcome)
unfolding hooks_for
try_replace deps attempt fees =
    try_catch
      (do
        outcome ←
            replace_fees deps.executor.writer (hooks_for deps attempt.operation_id) attempt fees
              stuck_no_inclusion
        pure (some outcome))
      (λ e. pure none)

unfoldable pub replace_unmined : ReplacementDeps → Attempt → Action Bool
unfolding may_replace bumped_fees try_replace after_replacement
replace_unmined deps attempt = do
  allowed ← may_replace attempt.operation_id
  if not allowed then pure false else (do
    fees ← bumped_fees deps attempt
    outcome ← try_replace deps attempt fees
    after_replacement deps attempt outcome)

-- `replaceOne`
unfoldable pub replace_one : ReplacementDeps → Attempt → Option Text → Action Bool
unfolding replace_unmined
replace_one deps attempt none = pure false
replace_one deps attempt (some hash) = do
  mined ← deps.get_transaction_receipt hash
  if not (is_none mined) then pure false else replace_unmined deps attempt

unfoldable pub replace_each : ReplacementDeps → List Attempt → Action ℕ
unfolding replace_one
replace_each deps [] = pure 0
replace_each deps (attempt ∷ rest) = do
  done ← replace_one deps attempt attempt.transaction_hash
  others ← replace_each deps rest
  pure ((if done then 1 else 0) + others)

-- `replaceStuckTransactions`, for all that `findStuckAttempts` lists
unfoldable pub replace_stuck_transactions : ReplacementDeps → Action ℕ
unfolding replace_each
replace_stuck_transactions deps = do
  stuck ←
      find_stuck_attempts deps.executor.writer.chain_id deps.stuck_after_ms deps.max_replacements
  replace_each deps stuck

-- ===== src/Idempotency/Defs.antt =====
-- src/modules/idempotency/idempotency-service.ts: `IdempotencyService.execute`.
use institutional_tokenizati.Base.{
  ℕ, Bool, true, false, not, [], Text, codes, text_eq, get_or, if◌then◌else◌,
}
use institutional_tokenizati.Domain.Canonical.{Host, JsonValue, canonical_hash}
use institutional_tokenizati.Domain.Errors.{
  app_error, idempotency_conflict, idempotency_in_progress,
}
use institutional_tokenizati.Db.{
  IdempotencyRow, IdempotencyStatus, Action, pure, throw, transaction, try_catch, throw_if, ◌>>=◌,
  ◌>>◌,
}
use institutional_tokenizati.Repo.Idempotency.{
  IdempotencyIdentity, claim_idempotency_key, complete_idempotency_key, release_idempotency_key,
}

pub record IdempotentResult : Type 0 where
  pub status : ℕ
  pub body : JsonValue
  pub resource_type : Text
  pub resource_id : Text

-- IdempotentOutcome
pub record IdempotentOutcome : Type 0 where
  pub result : IdempotentResult
  pub replayed : Bool

-- The answer that a completed row stores
unfoldable pub stored_result : IdempotencyRow → IdempotentResult
stored_result row = record {
  status = get_or row.response_status 200;
  body = get_or row.response_body JsonValue.null;
  resource_type = get_or row.resource_type (codes "unknown");
  resource_id = get_or row.resource_id [];
}

-- `if (!claimed) { ... }`: another request holds or has used the key
unfoldable pub answer_existing : Text → IdempotencyRow → Action IdempotentOutcome
unfolding stored_result
answer_existing request_hash row = do
  throw_if (not (text_eq row.request_hash request_hash)) (app_error idempotency_conflict)
  elim row.status [
    | IdempotencyStatus.completed ↦ pure (record { result = stored_result row; replayed = true })
    | IdempotencyStatus.in_progress ↦ throw (app_error idempotency_in_progress)
    | IdempotencyStatus.failed ↦ throw (app_error idempotency_in_progress)
  ]

-- The transaction of the winner: the business effect and the stored answer
unfoldable pub perform : IdempotencyRow → Action IdempotentResult → Action IdempotentResult
perform row work = transaction (do
  produced ← work
  complete_idempotency_key row.id produced.status produced.body produced.resource_type
      produced.resource_id
  pure produced)

unfoldable pub run_claimed : IdempotencyRow → Action IdempotentResult → Action IdempotentOutcome
run_claimed row work = do
  result ← try_catch (perform row work) (λ e. (release_idempotency_key row.id >> throw e))
  pure (record { result = result; replayed = false })

unfoldable pub execute :
    Host → IdempotencyIdentity → JsonValue → Action IdempotentResult → Action IdempotentOutcome
execute host identity request work = do
  claim ← claim_idempotency_key identity (canonical_hash host request)
  if claim.0
      then run_claimed claim.1 work
      else answer_existing (canonical_hash host request) claim.1

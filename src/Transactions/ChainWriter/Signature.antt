-- ===== src/Transactions/ChainWriter/Signature.antt =====
-- src/modules/transactions/chain-writer.ts: `settleSignature`, `resumeSignature` and the requests.
use institutional_tokenizati.Base.{ℕ, true, Option, none, some, Text, if◌then◌else◌}
use institutional_tokenizati.Domain.Errors.{
  app_error, code_of, signed_transaction_mismatch, signer_rejected,
}
use institutional_tokenizati.Db.{
  Attempt, SignerRequest, SignerRequestState, FailureCode, error_code, Action, Done, pure, throw,
  transaction, try_catch, ◌>>=◌, ◌>>◌, broadcasting, signer_state_eq,
}
use institutional_tokenizati.Repo.Attempts.{update_attempt_status, persist_signed_attempt}
use institutional_tokenizati.Repo.Signers.{
  mark_signer_request_signed, mark_signer_request_rejected, expire_lapsed_signer_request,
  find_signer_request_for_attempt, record_signer_request,
}
use institutional_tokenizati.Transactions.Verifier.{
  UnsignedTransactionRequest, Verification, verified, mismatch, verify_signed_transaction,
}
use institutional_tokenizati.Transactions.ChainWriter.Interface.{
  Deps, ChainWriteHooks, ChainWriteOutcome, signature_pending, has_failed, SignerReply,
  still_pending, has_signed, has_rejected,
}
use institutional_tokenizati.Transactions.ChainWriter.Sending.{fail_attempt, broadcast}

unfoldable pub unsigned_request_from : Attempt → UnsignedTransactionRequest
unsigned_request_from attempt = record {
  attempt_id = attempt.id;
  chain_id = attempt.chain_id;
  from_address = attempt.from_address;
  to_address = attempt.to_address;
  nonce = attempt.nonce;
  value = 0;
  calldata = attempt.calldata;
  gas_limit = attempt.gas_limit;
  max_fee_per_gas = attempt.max_fee_per_gas;
  max_priority_fee_per_gas = attempt.max_priority_fee_per_gas;
}

-- The transaction that makes the bytes and the hash durable
unfoldable pub store_signature : ChainWriteHooks → Attempt → ℕ → Text → Text → Action Done
store_signature hooks attempt signer_request_id bytes hash = transaction (do
  persist_signed_attempt attempt.id bytes hash
  mark_signer_request_signed signer_request_id
  hooks.on_signed attempt)

-- `assertBroadcastAllowed` in its try block: the code of what it throws, or none
unfoldable pub refusal_to_broadcast : ChainWriteHooks → Action (Option FailureCode)
refusal_to_broadcast hooks =
    try_catch (do hooks.assert_broadcast_allowed; pure none)
      (λ e. pure (some (error_code (code_of e))))

-- The transaction that commits BROADCASTING before the send
unfoldable pub commit_broadcasting : ChainWriteHooks → Attempt → Action Done
commit_broadcasting hooks attempt =
    transaction
      (do update_attempt_status attempt.id broadcasting none true; hooks.on_broadcasting attempt)

unfoldable pub release_signed :
    Deps → ChainWriteHooks → Attempt → Text → Text → Option FailureCode → Action ChainWriteOutcome
unfolding commit_broadcasting
release_signed deps hooks attempt bytes hash (some code) = do
  fail_attempt hooks attempt code
  pure (has_failed attempt.id code)
release_signed deps hooks attempt bytes hash none = do
  commit_broadcasting hooks attempt
  broadcast deps hooks attempt bytes hash

-- `settleSignature` once the bytes are checked
unfoldable pub settle_verified :
    Deps → ChainWriteHooks → Attempt → ℕ → Text → Verification → Action ChainWriteOutcome
unfolding store_signature refusal_to_broadcast release_signed
settle_verified deps hooks attempt signer_request_id bytes (mismatch refusal) = do
  fail_attempt hooks attempt (error_code signed_transaction_mismatch)
  throw (app_error signed_transaction_mismatch)
settle_verified deps hooks attempt signer_request_id bytes (verified hash signer) = do
  store_signature hooks attempt signer_request_id bytes hash
  refusal ← refusal_to_broadcast hooks
  release_signed deps hooks attempt bytes hash refusal

-- `settleSignature`, and before it the answer while the request is pending, with the request's
-- identifier at the provider
unfoldable pub settle_signature :
    Deps
    → ChainWriteHooks
    → Attempt
    → UnsignedTransactionRequest
    → ℕ
    → ℕ
    → SignerReply
    → Action ChainWriteOutcome
unfolding settle_verified
settle_signature deps hooks attempt request signer_request_id provider_request_id
      (still_pending _) =
    pure (signature_pending attempt.id provider_request_id)
settle_signature deps hooks attempt request signer_request_id provider_request_id
      (has_rejected _ code) =
    do
      mark_signer_request_rejected signer_request_id code
      fail_attempt hooks attempt (error_code signer_rejected)
      pure (has_failed attempt.id (error_code signer_rejected))
settle_signature deps hooks attempt request signer_request_id provider_request_id
      (has_signed _ bytes claimed_hash) =
    settle_verified deps hooks attempt signer_request_id bytes
      (verify_signed_transaction deps.codec bytes request request.from_address claimed_hash)

-- The status that `recordSignerRequest` stores for a reply
unfoldable pub reply_status : SignerReply → SignerRequestState
reply_status (still_pending _) = SignerRequestState.pending
reply_status (has_signed _ _ _) = SignerRequestState.signed
reply_status (has_rejected _ _) = SignerRequestState.rejected

unfoldable pub reply_provider_request : SignerReply → ℕ
reply_provider_request (still_pending id) = id
reply_provider_request (has_signed id _ _) = id
reply_provider_request (has_rejected id _) = id

-- The request to the signer, its record, and what follows from the reply: the second half of
-- `execute` and of `signReplacement`
unfoldable pub ask_signer :
    Deps
    → ChainWriteHooks
    → Attempt
    → Option ℕ
    → UnsignedTransactionRequest
    → Action ChainWriteOutcome
unfolding settle_signature reply_status reply_provider_request
ask_signer deps hooks attempt operation_id request = do
  reply ← deps.ports.request_signature request
  signer_request ←
      record_signer_request attempt.id operation_id (reply_provider_request reply)
        (reply_status reply) attempt.request_hash
  settle_signature deps hooks attempt request signer_request.id (reply_provider_request reply) reply

-- `signerRequest === null || signerRequest.status !== 'PENDING'`
unfoldable pub outstanding : Option SignerRequest → Option SignerRequest
outstanding none = none
outstanding (some r) = if signer_state_eq r.status SignerRequestState.pending then some r else none

-- The rest of `resumeSignature`, without `touchSignerRequest`, whose column no code reads
unfoldable pub resume_outstanding :
    Deps → ChainWriteHooks → Attempt → Option SignerRequest → Action ChainWriteOutcome
unfolding settle_signature unsigned_request_from
resume_outstanding deps hooks attempt none =
    pure (has_failed attempt.id (error_code signer_rejected))
resume_outstanding deps hooks attempt (some signer_request) = do
  expired ← expire_lapsed_signer_request signer_request.id deps.signer_request_timeout_ms
  if expired
      then (do
        fail_attempt hooks attempt (error_code signer_rejected)
        pure (has_failed attempt.id (error_code signer_rejected)))
      else (do
        reply ← deps.ports.fetch_signature signer_request.provider_request_id
        settle_signature deps hooks attempt (unsigned_request_from attempt) signer_request.id
            signer_request.provider_request_id reply)

unfoldable pub resume_signature : Deps → ChainWriteHooks → Attempt → Action ChainWriteOutcome
unfolding outstanding resume_outstanding
resume_signature deps hooks attempt = do
  signer_request ← find_signer_request_for_attempt attempt.id
  resume_outstanding deps hooks attempt (outstanding signer_request)

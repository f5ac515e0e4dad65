-- ===== src/Transactions/ChainWriter/Writes.antt =====
-- src/modules/transactions/chain-writer.ts: `execute`, `replaceFees`, `cancelNonce` and
-- `signReplacement`.
use institutional_tokenizati.Base.{
  ℕ, ◌+◌, ◌*◌, ◌/◌, Bool, not, ◌||◌, Option, none, some, is_none, Text, codes, text_eq, to_lower,
  leb, option_map,
}
use institutional_tokenizati.Domain.Canonical.{JsonValue, Fields, canonical_hash, decimal}
use institutional_tokenizati.Domain.Errors.{
  app_error, simulation_failed, replacement_limit_reached, replacement_intent_mismatch,
  operation_conflict,
}
use institutional_tokenizati.Db.{
  Attempt, nonce_recovery, ReplacementReason, Action, pure, or_throw, throw_if, transaction, ◌>>=◌,
  ◌>>◌,
}
use institutional_tokenizati.Repo.Attempts.{
  InsertAttemptInput, insert_prepared_attempt, retire_attempt_for_replacement,
  link_attempt_replacement,
}
use institutional_tokenizati.Repo.Nonces.{reserve_nonce}
use institutional_tokenizati.Transactions.Intent.{
  TransactionIntent, FeeEstimate, intent_of, intent_fingerprint, fingerprint_of, text_or_null,
  assert_fee_only_replacement,
}
use institutional_tokenizati.Transactions.Verifier.{UnsignedTransactionRequest}
use institutional_tokenizati.Transactions.ChainWriter.Interface.{
  Deps, ChainWriteHooks, ChainWriteIntent, ChainWriteOutcome,
}
use institutional_tokenizati.Transactions.ChainWriter.Signature.{unsigned_request_from, ask_signer}

-- What `requestHash` is the hash of
unfoldable pub request_json : ℕ → Text → Option Text → ℕ → Text → ℕ → FeeEstimate → JsonValue
request_json chain_id from_address to_address nonce calldata gas_limit fees = JsonValue.obj (
    Fields.field (codes "chainId") (JsonValue.num chain_id) (
      Fields.field (codes "from") (JsonValue.str (to_lower from_address)) (
        Fields.field (codes "to") (text_or_null (option_map to_lower to_address)) (
          Fields.field (codes "nonce") (JsonValue.num nonce) (
            Fields.field (codes "value") (JsonValue.str (codes "0")) (
              Fields.field (codes "data") (JsonValue.str (to_lower calldata)) (
                Fields.field (codes "gasLimit") (JsonValue.str (decimal gas_limit)) (
                  Fields.field (codes "maxFeePerGas") (JsonValue.str (decimal fees.max_fee_per_gas))
                    (Fields.field (codes "maxPriorityFeePerGas")
                      (JsonValue.str (decimal fees.max_priority_fee_per_gas)) Fields.end)))))))))

-- GAS_BUFFER_NUMERATOR over GAS_BUFFER_DENOMINATOR
unfoldable pub with_gas_buffer : ℕ → ℕ
with_gas_buffer estimate = estimate * 5 / 4

abbrev pub nonce_recovery_gas_limit : ℕ
nonce_recovery_gas_limit = 30000

abbrev pub intent_of_write : Deps → Text → ChainWriteIntent → TransactionIntent
intent_of_write deps signer_address intent = record {
  chain_id = deps.chain_id;
  from_address = signer_address;
  to_address = intent.call.to_address;
  calldata = intent.call.calldata;
  value = 0;
  purpose = intent.purpose;
  operation_id = intent.operation_id;
}

-- The argument of `insertPreparedAttempt` in `execute`
unfoldable pub first_attempt_input :
    Deps → Text → ChainWriteIntent → ℕ → ℕ → FeeEstimate → InsertAttemptInput
unfolding request_json
first_attempt_input deps signer_address intent nonce gas_limit fees = record {
  operation_id = intent.operation_id;
  asset_id = intent.asset_id;
  wallet_id = intent.wallet_id;
  purpose = intent.purpose;
  chain_id = deps.chain_id;
  from_address = signer_address;
  to_address = intent.call.to_address;
  nonce = nonce;
  calldata = intent.call.calldata;
  gas_limit = gas_limit;
  max_fee_per_gas = fees.max_fee_per_gas;
  max_priority_fee_per_gas = fees.max_priority_fee_per_gas;
  request_hash = canonical_hash deps.host (
      request_json deps.chain_id signer_address intent.call.to_address nonce intent.call.calldata
        gas_limit fees);
  intent_fingerprint = intent_fingerprint deps.host (intent_of_write deps signer_address intent);
  replaces_attempt_id = none;
  replacement_reason = none;
  replacement_number = 0;
}

-- The transaction that reserves the nonce and records the attempt
unfoldable pub prepare :
    Deps → ChainWriteHooks → Text → ChainWriteIntent → ℕ → ℕ → FeeEstimate → Action Attempt
unfolding first_attempt_input
prepare deps hooks signer_address intent chain_nonce gas_limit fees = transaction (do
  nonce ← reserve_nonce deps.chain_id signer_address chain_nonce
  prepared ←
      insert_prepared_attempt (first_attempt_input deps signer_address intent nonce gas_limit fees)
  hooks.on_prepared prepared
  pure prepared)

-- The request that `execute` builds: the intent's call, and the row's nonce, gas and fees
unfoldable pub first_request : Deps → Text → ChainWriteIntent → Attempt → UnsignedTransactionRequest
first_request deps signer_address intent attempt = record {
  attempt_id = attempt.id;
  chain_id = deps.chain_id;
  from_address = signer_address;
  to_address = intent.call.to_address;
  nonce = attempt.nonce;
  value = 0;
  calldata = intent.call.calldata;
  gas_limit = attempt.gas_limit;
  max_fee_per_gas = attempt.max_fee_per_gas;
  max_priority_fee_per_gas = attempt.max_priority_fee_per_gas;
}

unfoldable pub execute : Deps → ChainWriteIntent → ChainWriteHooks → Action ChainWriteOutcome
unfolding with_gas_buffer prepare first_request
execute deps intent hooks = do
  signer_address ← deps.ports.get_signer_address
  deps.ports.get_chain_identity
  simulation ← deps.ports.simulate signer_address intent.call
  estimate ← or_throw simulation (app_error simulation_failed)
  fees ← deps.ports.get_fee_estimate
  chain_nonce ← deps.ports.get_transaction_count signer_address
  attempt ← prepare deps hooks signer_address intent chain_nonce (with_gas_buffer estimate) fees
  ask_signer deps hooks attempt intent.operation_id
      (first_request deps signer_address intent attempt)

-- The argument of `insertPreparedAttempt` in `signReplacement`
unfoldable pub replacement_input :
    Deps
    → Attempt
    → TransactionIntent
    → Text
    → ℕ
    → FeeEstimate
    → ReplacementReason
    → InsertAttemptInput
unfolding request_json
replacement_input deps previous candidate fingerprint gas_limit fees reason = record {
  operation_id = candidate.operation_id;
  asset_id = previous.asset_id;
  wallet_id = previous.wallet_id;
  purpose = candidate.purpose;
  chain_id = candidate.chain_id;
  from_address = candidate.from_address;
  to_address = candidate.to_address;
  nonce = previous.nonce;
  calldata = candidate.calldata;
  gas_limit = gas_limit;
  max_fee_per_gas = fees.max_fee_per_gas;
  max_priority_fee_per_gas = fees.max_priority_fee_per_gas;
  request_hash = canonical_hash deps.host (
      request_json candidate.chain_id candidate.from_address candidate.to_address previous.nonce
        candidate.calldata gas_limit fees);
  intent_fingerprint = fingerprint;
  replaces_attempt_id = some previous.id;
  replacement_reason = some reason;
  replacement_number = previous.replacement_number + 1;
}

-- Retire, insert, then link
unfoldable pub supersede :
    ChainWriteHooks → Attempt → InsertAttemptInput → ReplacementReason → Action Attempt
supersede hooks previous input reason = transaction (do
  retired ← retire_attempt_for_replacement previous.id reason
  throw_if (not retired) (app_error operation_conflict)
  inserted ← insert_prepared_attempt input
  link_attempt_replacement previous.id inserted.id
  hooks.on_prepared inserted
  pure inserted)

unfoldable pub sign_replacement :
    Deps
    → ChainWriteHooks
    → Attempt
    → TransactionIntent
    → Text
    → ℕ
    → FeeEstimate
    → ReplacementReason
    → Action ChainWriteOutcome
unfolding replacement_input supersede
sign_replacement deps hooks previous candidate fingerprint gas_limit fees reason = do
  attempt ←
      supersede hooks previous
        (replacement_input deps previous candidate fingerprint gas_limit fees reason) reason
  ask_signer deps hooks attempt candidate.operation_id (unsigned_request_from attempt)

-- `maxFeePerGas <= previous.maxFeePerGas || maxPriorityFeePerGas <= previous.maxPriorityFeePerGas`
unfoldable pub fees_not_raised : FeeEstimate → Attempt → Bool
fees_not_raised fees previous =
    leb fees.max_fee_per_gas previous.max_fee_per_gas
    || leb fees.max_priority_fee_per_gas previous.max_priority_fee_per_gas

unfoldable pub replace_fees :
    Deps → ChainWriteHooks → Attempt → FeeEstimate → ReplacementReason → Action ChainWriteOutcome
unfolding fees_not_raised sign_replacement
replace_fees deps hooks previous fees reason = do
  throw_if (leb deps.max_replacements previous.replacement_number)
      (app_error replacement_limit_reached)
  let candidate = intent_of previous
  throw_if
      (not (
        is_none (
          assert_fee_only_replacement deps.host previous
            (record { intent = candidate; nonce = previous.nonce }))))
      (app_error replacement_intent_mismatch)
  throw_if (fees_not_raised fees previous) (app_error replacement_intent_mismatch)
  sign_replacement deps hooks previous candidate (fingerprint_of deps.host previous)
      previous.gas_limit fees reason

-- The transaction to the signer itself that takes the nonce
unfoldable pub recovery_intent : Attempt → Text → TransactionIntent
recovery_intent blocked signer_address = record {
  chain_id = blocked.chain_id;
  from_address = signer_address;
  to_address = some signer_address;
  calldata = codes "0x";
  value = 0;
  purpose = nonce_recovery;
  operation_id = none;
}

unfoldable pub cancel_nonce :
    Deps → ChainWriteHooks → Attempt → FeeEstimate → ReplacementReason → Action ChainWriteOutcome
unfolding recovery_intent sign_replacement
cancel_nonce deps hooks blocked fees reason = do
  signer_address ← deps.ports.get_signer_address
  throw_if (not (text_eq (to_lower signer_address) (to_lower blocked.from_address)))
      (app_error replacement_intent_mismatch)
  let candidate = recovery_intent blocked signer_address
  sign_replacement deps hooks blocked candidate (intent_fingerprint deps.host candidate)
      nonce_recovery_gas_limit fees reason

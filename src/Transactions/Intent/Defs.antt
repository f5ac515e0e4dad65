-- ===== src/Transactions/Intent/Defs.antt =====
-- src/modules/transactions/transaction-intent.ts.
use institutional_tokenizati.Base.{
  ℕ, ◌+◌, ◌*◌, ◌/◌, Bool, not, ◌||◌, Option, none, some, Text, codes, text_eq, to_lower, ltb, ◌==◌,
  option_map, option_eq, get_or, if◌then◌else◌,
}
use institutional_tokenizati.Domain.Canonical.{Host, JsonValue, Fields, canonical_hash, decimal}
use institutional_tokenizati.Db.{
  Attempt, AttemptPurpose, deploy_token, set_eligibility, mint_tokens, nonce_recovery, purpose_eq,
}

pub record TransactionIntent : Type 0 where
  pub chain_id : ℕ
  pub from_address : Text
  pub to_address : Option Text
  pub calldata : Text
  pub value : ℕ
  pub purpose : AttemptPurpose
  pub operation_id : Option ℕ

unfoldable pub purpose_text : AttemptPurpose → Text
purpose_text deploy_token = codes "DEPLOY_TOKEN"
purpose_text set_eligibility = codes "SET_ELIGIBILITY"
purpose_text mint_tokens = codes "MINT"
purpose_text nonce_recovery = codes "NONCE_RECOVERY"

-- A text or `null`
unfoldable pub text_or_null : Option Text → JsonValue
text_or_null none = JsonValue.null
text_or_null (some t) = JsonValue.str t

unfoldable pub intent_json : Host → TransactionIntent → JsonValue
unfolding purpose_text text_or_null
intent_json host intent = JsonValue.obj (
    Fields.field (codes "chainId") (JsonValue.num intent.chain_id) (
      Fields.field (codes "from") (JsonValue.str (to_lower intent.from_address)) (
        Fields.field (codes "to") (text_or_null (option_map to_lower intent.to_address)) (
          Fields.field (codes "data") (JsonValue.str (to_lower intent.calldata)) (
            Fields.field (codes "value") (JsonValue.str (decimal intent.value)) (
              Fields.field (codes "purpose") (JsonValue.str (purpose_text intent.purpose)) (
                Fields.field (codes "operationId")
                  (text_or_null (option_map host.uuid_text intent.operation_id)) Fields.end)))))))

unfoldable pub intent_fingerprint : Host → TransactionIntent → Text
unfolding intent_json canonical_hash
intent_fingerprint host intent = canonical_hash host (intent_json host intent)

-- The intent that an attempt carries
abbrev pub intent_of : Attempt → TransactionIntent
intent_of attempt = record {
  chain_id = attempt.chain_id;
  from_address = attempt.from_address;
  to_address = attempt.to_address;
  calldata = attempt.calldata;
  value = attempt.value;
  purpose = attempt.purpose;
  operation_id = attempt.operation_id;
}

unfoldable pub fingerprint_of : Host → Attempt → Text
fingerprint_of host attempt = intent_fingerprint host (intent_of attempt)

-- The `replacement` argument of `assertFeeOnlyReplacement`
pub record Replacement : Type 0 where
  pub intent : TransactionIntent
  pub nonce : ℕ

-- The field that a refused replacement would change
pub data Mismatch : Type 0 where
  nonce_differs chain_id_differs signer_differs destination_differs calldata_differs : Mismatch
  value_differs purpose_differs operation_differs intent_fingerprint_differs : Mismatch

-- The last check: the recorded fingerprint is recomputed from the row.
unfoldable pub fingerprint_differs : Host → Attempt → TransactionIntent → Bool
unfolding fingerprint_of
fingerprint_differs host previous intent =
    let expected = fingerprint_of host previous in
    not (text_eq (intent_fingerprint host intent) expected)
    || not (text_eq (get_or previous.intent_fingerprint expected) expected)

-- `assertFeeOnlyReplacement`: the first field that differs, or none
unfoldable pub assert_fee_only_replacement : Host → Attempt → Replacement → Option Mismatch
assert_fee_only_replacement host previous replacement =
    let intent = replacement.intent in
    if not (replacement.nonce == previous.nonce)
    then some nonce_differs
    else if not (intent.chain_id == previous.chain_id)
    then some chain_id_differs
    else if not (text_eq (to_lower intent.from_address) (to_lower previous.from_address))
    then some signer_differs
    else if not (option_eq text_eq (option_map to_lower intent.to_address) previous.to_address)
    then some destination_differs
    else if not (text_eq (to_lower intent.calldata) previous.calldata)
    then some calldata_differs
    else if not (intent.value == previous.value)
    then some value_differs
    else if not (purpose_eq intent.purpose previous.purpose)
    then some purpose_differs
    else if not (option_eq ◌==◌ intent.operation_id previous.operation_id)
    then some operation_differs
    else if fingerprint_differs host previous intent
    then some intent_fingerprint_differs
    else none

pub record FeeEstimate : Type 0 where
  pub max_fee_per_gas : ℕ
  pub max_priority_fee_per_gas : ℕ

unfoldable pub larger : ℕ → ℕ → ℕ
larger a b = if ltb b a then a else b

-- `scale` of `bumpFees`
unfoldable pub scale : ℕ → ℕ → ℕ
scale bump_percent value = value * (100 + bump_percent) / 100 + 1

unfoldable pub bump_fees : FeeEstimate → FeeEstimate → ℕ → FeeEstimate
unfolding larger scale
bump_fees previous current bump_percent = record {
  max_fee_per_gas = larger (scale bump_percent previous.max_fee_per_gas) current.max_fee_per_gas;
  max_priority_fee_per_gas =
      larger (scale bump_percent previous.max_priority_fee_per_gas)
        current.max_priority_fee_per_gas;
}

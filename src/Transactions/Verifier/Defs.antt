-- ===== src/Transactions/Verifier/Defs.antt =====
-- src/adapters/evm/signed-transaction-verifier.ts, and `UnsignedTransactionRequest` of
-- src/ports/signer-provider.ts.
use institutional_tokenizati.Base.{
  ℕ, Bool, false, not, Option, none, some, Text, codes, text_eq, to_lower, starts_with, ltb, ◌==◌,
  option_map, option_eq, get_or, if◌then◌else◌,
}

pub record UnsignedTransactionRequest : Type 0 where
  pub attempt_id : ℕ
  pub chain_id : ℕ
  pub from_address : Text
  pub to_address : Option Text
  pub nonce : ℕ
  pub value : ℕ
  pub calldata : Text
  pub gas_limit : ℕ
  pub max_fee_per_gas : ℕ
  pub max_priority_fee_per_gas : ℕ

-- What viem's `parseTransaction` reads from the bytes; a field may be absent.
pub record ParsedTransaction : Type 0 where
  pub is_eip1559 : Bool
  pub chain_id : Option ℕ
  pub nonce : Option ℕ
  pub to_address : Option Text
  pub value : Option ℕ
  pub calldata : Option Text
  pub gas : Option ℕ
  pub max_fee_per_gas : Option ℕ
  pub max_priority_fee_per_gas : Option ℕ

-- viem: parsing and recovery may throw.
pub record Codec : Type 0 where
  pub parse_transaction : Text → Option ParsedTransaction
  pub recover_transaction_address : Text → Option Text
  pub keccak256 : Text → Text

-- Which check the bytes fail
pub data Refusal : Type 0 where
  envelope not_a_transaction type chain_id nonce to value data_field gas : Refusal
  max_fee_per_gas max_priority_fee_per_gas fee_policy no_signer signer transaction_hash : Refusal

-- VerifiedSignedTransaction, or the mismatch that is thrown
pub data Verification : Type 0 where
  verified : Text → Text → Verification
  mismatch : Refusal → Verification

-- `priority > fee`, where both are present
unfoldable pub exceeds : Option ℕ → Option ℕ → Bool
exceeds (some priority) (some fee) = ltb fee priority
exceeds _ _ = false

-- From `keccak256` to the end
unfoldable pub verify_hash : Codec → Text → Text → Text → Verification
verify_hash codec bytes recovered claimed_hash =
    let hash = codec.keccak256 bytes in
    if not (text_eq (to_lower hash) (to_lower claimed_hash))
    then mismatch transaction_hash
    else verified hash recovered

-- From `recoverTransactionAddress`
unfoldable pub verify_signer : Codec → Text → Text → Text → Option Text → Verification
unfolding verify_hash
verify_signer codec bytes expected_signer claimed_hash none = mismatch no_signer
verify_signer codec bytes expected_signer claimed_hash (some recovered) =
    if not (text_eq (to_lower recovered) (to_lower expected_signer))
    then mismatch signer
    else verify_hash codec bytes recovered claimed_hash

-- The fields, from `parsed.type` to the fee policy: the first that does not match
unfoldable pub verify_fields : UnsignedTransactionRequest → ParsedTransaction → Option Refusal
unfolding exceeds
verify_fields request parsed =
    if not parsed.is_eip1559
    then some type
    else if not (option_eq ◌==◌ parsed.chain_id (some request.chain_id))
    then some Refusal.chain_id
    else if not (option_eq ◌==◌ parsed.nonce (some request.nonce))
    then some Refusal.nonce
    else if not (
        option_eq text_eq (option_map to_lower request.to_address)
          (option_map to_lower parsed.to_address))
    then some to
    else if not (get_or parsed.value 0 == request.value)
    then some Refusal.value
    else if not
        (text_eq (to_lower (get_or parsed.calldata (codes "0x"))) (to_lower request.calldata))
    then some data_field
    else if not (option_eq ◌==◌ parsed.gas (some request.gas_limit))
    then some Refusal.gas
    else if not (option_eq ◌==◌ parsed.max_fee_per_gas (some request.max_fee_per_gas))
    then some Refusal.max_fee_per_gas
    else if not
        (option_eq ◌==◌ parsed.max_priority_fee_per_gas (some request.max_priority_fee_per_gas))
    then some Refusal.max_priority_fee_per_gas
    else if exceeds parsed.max_priority_fee_per_gas parsed.max_fee_per_gas
    then some fee_policy
    else none

unfoldable pub verify_parsed :
    Codec
    → Text
    → UnsignedTransactionRequest
    → Text
    → Text
    → Option ParsedTransaction
    → Verification
unfolding verify_fields verify_signer
verify_parsed codec bytes request expected_signer claimed_hash none = mismatch not_a_transaction
verify_parsed codec bytes request expected_signer claimed_hash (some parsed) =
    elim (verify_fields request parsed) [
      | some refusal ↦ mismatch refusal
      | none ↦
          verify_signer codec bytes expected_signer claimed_hash
            (codec.recover_transaction_address bytes)
    ]

unfoldable pub verify_signed_transaction :
    Codec → Text → UnsignedTransactionRequest → Text → Text → Verification
unfolding verify_parsed
verify_signed_transaction codec bytes request expected_signer claimed_hash =
    if not (starts_with bytes (codes "0x02"))
    then mismatch envelope
    else verify_parsed codec bytes request expected_signer claimed_hash
        (codec.parse_transaction bytes)

-- ===== src/Transactions/Verifier/Verified.antt =====
-- src/adapters/evm/signed-transaction-verifier.ts: what bytes that pass are known to encode.
use institutional_tokenizati.Base.{
  ℕ, ◌≤◌, ◌≡◌, refl, ◌↔◌, ap, true, Option, none, some, Text, codes, text_eq, text_eq_iff, to_lower,
  starts_with, ◌==◌, option_map, option_eq, get_or, arith,
}
use institutional_tokenizati.Transactions.Verifier.Defs.{
  UnsignedTransactionRequest, ParsedTransaction, Codec, verified, exceeds, verify_hash,
  verify_signer, verify_fields, verify_parsed, verify_signed_transaction,
}

-- The parsed bytes carry the request.
pub record Encodes (parsed : ParsedTransaction) (request : UnsignedTransactionRequest)
    : Type 0 where
  pub is_eip1559 : parsed.is_eip1559 ≡ true
  pub chain_id : parsed.chain_id ≡ some request.chain_id
  pub nonce : parsed.nonce ≡ some request.nonce
  pub to_address : option_map to_lower parsed.to_address ≡ option_map to_lower request.to_address
  pub value : get_or parsed.value 0 ≡ request.value
  pub calldata : to_lower (get_or parsed.calldata (codes "0x")) ≡ to_lower request.calldata
  pub gas : parsed.gas ≡ some request.gas_limit
  pub max_fee_per_gas : parsed.max_fee_per_gas ≡ some request.max_fee_per_gas
  pub max_priority_fee_per_gas :
      parsed.max_priority_fee_per_gas ≡ some request.max_priority_fee_per_gas
  pub fees : request.max_priority_fee_per_gas ≤ request.max_fee_per_gas

-- The bytes carry the request, the expected signer signed them, and they hash to the claim.
pub record IsGenuine (codec : Codec) (bytes : Text) (request : UnsignedTransactionRequest)
    (expected_signer claimed_hash hash recovered : Text) : Type 0 where
  pub envelope : starts_with bytes (codes "0x02") ≡ true
  pub encodes :
      (parsed : ParsedTransaction) × (codec.parse_transaction bytes ≡ some parsed)
      × Encodes parsed request
  pub recovered_from : codec.recover_transaction_address bytes ≡ some recovered
  pub signer : to_lower recovered ≡ to_lower expected_signer
  pub hashes : codec.keccak256 bytes ≡ hash
  pub claimed : to_lower hash ≡ to_lower claimed_hash

nat_field : (a : Option ℕ) (b : ℕ) → (option_eq ◌==◌ a (some b) ≡ true) ↔ (a ≡ some b)
nat_field none b = ground arith
nat_field (some a) b = ground arith

text_field : (a b : Option Text) → (option_eq text_eq a b ≡ true) ↔ (b ≡ a)
text_field none none = (λ _. refl, λ _. refl)
text_field none (some b) = ground arith
text_field (some a) none = ground arith
text_field (some a) (some b) =
    (λ h. ap some (ground (arith, text_eq_iff a b)), λ h. ground (arith, text_eq_iff a b))

fields_pass :
    (request : UnsignedTransactionRequest) (parsed : ParsedTransaction)
    → (verify_fields request parsed ≡ none) ↔ Encodes parsed request
unfolding verify_fields exceeds
fields_pass request parsed =
    let c = nat_field parsed.chain_id request.chain_id in
    let n = nat_field parsed.nonce request.nonce in
    let g = nat_field parsed.gas request.gas_limit in
    let m = nat_field parsed.max_fee_per_gas request.max_fee_per_gas in
    let p = nat_field parsed.max_priority_fee_per_gas request.max_priority_fee_per_gas in
    let t =
      text_field (option_map to_lower request.to_address) (option_map to_lower parsed.to_address) in
    let d =
      text_eq_iff (to_lower (get_or parsed.calldata (codes "0x"))) (to_lower request.calldata) in
    (λ h. ground (arith, c, n, g, m, p, t, d), λ h. ground (arith, c, n, g, m, p, t, d))

signer_passes :
    (codec : Codec) (bytes expected_signer claimed_hash hash recovered : Text) (o : Option Text)
    → (verify_signer codec bytes expected_signer claimed_hash o ≡ verified hash recovered) ↔ (
        (o ≡ some recovered)
        × (to_lower recovered ≡ to_lower expected_signer)
        × (codec.keccak256 bytes ≡ hash)
        × (to_lower hash ≡ to_lower claimed_hash))
unfolding verify_signer verify_hash
signer_passes codec bytes expected_signer claimed_hash hash recovered none =
    (λ h. ground arith, λ h. ground arith)
signer_passes codec bytes expected_signer claimed_hash hash recovered (some r) =
    let s = text_eq_iff (to_lower r) (to_lower expected_signer) in
    let k = text_eq_iff (to_lower (codec.keccak256 bytes)) (to_lower claimed_hash) in
    (λ h. ground (arith, s, k), λ h. ground (arith, s, k))

parsed_passes :
    (codec : Codec) (bytes : Text) (request : UnsignedTransactionRequest)
    (expected_signer claimed_hash hash recovered : Text) (o : Option ParsedTransaction)
    → (verify_parsed codec bytes request expected_signer claimed_hash o ≡ verified hash recovered)
      ↔ ((parsed : ParsedTransaction) × (o ≡ some parsed)
          × Encodes parsed request
          × (verify_signer codec bytes expected_signer claimed_hash
                (codec.recover_transaction_address bytes)
              ≡ verified hash recovered))
unfolding verify_parsed
parsed_passes codec bytes request expected_signer claimed_hash hash recovered none =
    (λ h. ground arith, λ h. ground arith)
parsed_passes codec bytes request expected_signer claimed_hash hash recovered (some p) =
    let f = fields_pass request p in
    (
      λ h. (p, refl, ground (arith, f), ground (arith, f)),
      λ (q, e, h, k). ground (arith, f, e, h, k),
    )

module _ (codec : Codec) (bytes : Text) (request : UnsignedTransactionRequest)
    (expected_signer claimed_hash hash recovered : Text) where
  -- Bytes of the signer pass with a hash and a signer exactly when they are an EIP-1559
  -- transaction that carries every field of the request, the expected signer is recovered from
  -- them, the priority fee is within the fee, and they hash to the hash that the signer claimed.
  pub verified_iff_IsGenuine :
      (verify_signed_transaction codec bytes request expected_signer claimed_hash
        ≡ verified hash recovered)
      ↔ IsGenuine codec bytes request expected_signer claimed_hash hash recovered
  unfolding verify_signed_transaction
  verified_iff_IsGenuine =
      let p =
        parsed_passes codec bytes request expected_signer claimed_hash hash recovered
          (codec.parse_transaction bytes) in
      let s =
        signer_passes codec bytes expected_signer claimed_hash hash recovered
          (codec.recover_transaction_address bytes) in
      (λ h. ground (arith, p, s, h), λ h. ground (arith, p, s, h))

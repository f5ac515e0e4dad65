-- ===== src/Transactions/Intent/FeeOnly.antt =====
-- src/modules/transactions/transaction-intent.ts: what a replacement may change, and by how much
-- the fees rise.
use institutional_tokenizati.Base.{
  ℕ, ◌+◌, ◌*◌, ◌/◌, ◌≤◌, ◌<◌, ◌≡◌, refl, ap, true, Option, none, some, arith, ◌==◌, Text, text_eq,
  text_eq_iff, to_lower, option_map, option_eq, get_or,
}
use institutional_tokenizati.Domain.Canonical.{Host}
use institutional_tokenizati.Db.{Attempt, purpose_eq_iff}
use institutional_tokenizati.Transactions.Intent.Defs.{
  Replacement, FeeEstimate, intent_of, intent_fingerprint, fingerprint_of, fingerprint_differs,
  assert_fee_only_replacement, scale, larger, bump_fees,
}

option_text_eq : (a b : Option Text) → option_eq text_eq a b ≡ true → a ≡ b
option_text_eq none none h = refl
option_text_eq (some a) (some b) h = ap some ((text_eq_iff a b).0 h)
option_text_eq none (some b) h = cc
option_text_eq (some a) none h = cc

option_nat_eq : (a b : Option ℕ) → option_eq ◌==◌ a b ≡ true → a ≡ b
option_nat_eq none none h = refl
option_nat_eq (some a) (some b) h = ground arith
option_nat_eq none (some b) h = cc
option_nat_eq (some a) none h = cc

-- What a replacement that passes has in common with the attempt that it replaces
pub record IsFeeOnly (host : Host) (previous : Attempt) (replacement : Replacement) : Type 0 where
  pub nonce : replacement.nonce ≡ previous.nonce
  pub chain_id : replacement.intent.chain_id ≡ previous.chain_id
  pub signer : to_lower replacement.intent.from_address ≡ to_lower previous.from_address
  pub destination : option_map to_lower replacement.intent.to_address ≡ previous.to_address
  pub calldata : to_lower replacement.intent.calldata ≡ previous.calldata
  pub value : replacement.intent.value ≡ previous.value
  pub purpose : replacement.intent.purpose ≡ previous.purpose
  pub operation : replacement.intent.operation_id ≡ previous.operation_id
  pub fingerprint : intent_fingerprint host replacement.intent ≡ fingerprint_of host previous
  pub recorded :
      get_or previous.intent_fingerprint (fingerprint_of host previous)
      ≡ fingerprint_of host previous

module _ (host : Host) (previous : Attempt) (replacement : Replacement) where
  -- A replacement that is let through differs from the attempt in the fees at most: the same
  -- nonce, chain, signer, destination, calldata, value, purpose, operation and fingerprint, and
  -- the fingerprint on record is the one that the row gives.
  pub passed_replacement-IsFeeOnly :
      assert_fee_only_replacement host previous replacement ≡ none
      → IsFeeOnly host previous replacement
  unfolding assert_fee_only_replacement fingerprint_differs fingerprint_of
  passed_replacement-IsFeeOnly h =
      let i = replacement.intent in
      let f = fingerprint_of host previous in
      ground (
        arith,
        text_eq_iff (to_lower i.from_address) (to_lower previous.from_address),
        option_text_eq (option_map to_lower i.to_address) previous.to_address,
        text_eq_iff (to_lower i.calldata) previous.calldata,
        purpose_eq_iff i.purpose previous.purpose,
        option_nat_eq i.operation_id previous.operation_id,
        text_eq_iff (intent_fingerprint host i) (intent_fingerprint host (intent_of previous)),
        text_eq_iff
            (get_or previous.intent_fingerprint (intent_fingerprint host (intent_of previous)))
            (intent_fingerprint host (intent_of previous)),
      )

larger-scale :
    (bump fee current : ℕ)
    → (fee < larger (scale bump fee) current)
      × (current ≤ larger (scale bump fee) current)
      × (fee * (100 + bump) < larger (scale bump fee) current * 100)
unfolding larger scale
larger-scale bump fee current = ground (arith, scaled (fee * (100 + bump)), wider fee bump)
  where
    scaled : (x : ℕ) → x < (x / 100 + 1) * 100
    scaled x = omega arith

    wider : (f b : ℕ) → f * 100 ≤ f * (100 + b)
    wider f b = omega arith

-- Both fees of a bump are above the attempt's own and not below the current estimate.
pub bump_fees_raises :
    (previous current : FeeEstimate) (bump : ℕ)
    → let bumped = bump_fees previous current bump in
      (previous.max_fee_per_gas < bumped.max_fee_per_gas)
      × (previous.max_priority_fee_per_gas < bumped.max_priority_fee_per_gas)
      × (current.max_fee_per_gas ≤ bumped.max_fee_per_gas)
      × (current.max_priority_fee_per_gas ≤ bumped.max_priority_fee_per_gas)
      × (previous.max_fee_per_gas * (100 + bump) < bumped.max_fee_per_gas * 100)
      × (previous.max_priority_fee_per_gas * (100 + bump) < bumped.max_priority_fee_per_gas * 100)
unfolding bump_fees
bump_fees_raises previous current bump =
    let (a, b, c) = larger-scale bump previous.max_fee_per_gas current.max_fee_per_gas in
    let (d, e, f) =
      larger-scale bump previous.max_priority_fee_per_gas current.max_priority_fee_per_gas in
    (a, d, b, e, c, f)

-- ===== src/Tests/Chain.antt =====
-- Nonces, replacements, verification and confirmation on concrete inputs.
use institutional_tokenizati.Base.{
  ℕ, ◌+◌, ◌*◌, ◌≤◌, ◌<◌, ◌≡◌, ◌↔◌, refl, true, false, Option, none, some, [], ◌∷◌, codes, to_lower,
  ltb, arith, find_row, update_rows, if◌then◌else◌,
}
use institutional_tokenizati.Domain.Canonical.{canonical_hash}
use institutional_tokenizati.Domain.Errors.{app_error, nonce_divergence}
use institutional_tokenizati.Db.{ok, err, ◌>>=◌, purpose_eq}
use institutional_tokenizati.Repo.Nonces.{reserve_nonce, open_lane, take_nonce}
use institutional_tokenizati.Transactions.Nonces.{
  next_of, reserve_many, count_from, reserve_open_lane, reserved_nonces_consecutive,
}
use institutional_tokenizati.Transactions.Intent.{
  FeeEstimate, Replacement, intent_of, intent_fingerprint, fingerprint_of, fingerprint_differs,
  assert_fee_only_replacement, bump_fees,
}
use institutional_tokenizati.Transactions.Intent.FeeOnly.{
  IsFeeOnly, passed_replacement-IsFeeOnly, bump_fees_raises,
}
use institutional_tokenizati.Transactions.Verifier.{
  Codec, ParsedTransaction, UnsignedTransactionRequest, verified, verify_signed_transaction,
}
use institutional_tokenizati.Transactions.Verifier.Verified.{IsGenuine, verified_iff_IsGenuine}
use institutional_tokenizati.Transactions.Confirmation.{
  Poll, Polls, ConfirmationPolicy, ConfirmationOutcome, TransactionReceiptView, await_confirmation,
}
use institutional_tokenizati.Transactions.Confirmation.Justified.{Rests, await_confirmation_ends}
use institutional_tokenizati.Tests.Fixtures.{host, stuck, store}

next_is : next_of 1 (codes "0xEE") store ≡ some 41
unfolding find_row to_lower
next_is = refl

reserve_open_lane_example :
    (40 ≤ 41
      → ((reserve_nonce 1 (codes "0xEE") 40 store).0 ≡ ok 41)
        × (next_of 1 (codes "0xEE") (reserve_nonce 1 (codes "0xEE") 40 store).1 ≡ some 42))
    × (41 < 40
        → reserve_nonce 1 (codes "0xEE") 40 store ≡ (err (app_error nonce_divergence), store))
reserve_open_lane_example = reserve_open_lane 1 (codes "0xEE") 40 store 41 next_is

three_reserved :
    (reserve_many 1 (codes "0xEE") (40 ∷ 41 ∷ 39 ∷ []) store).0 ≡ ok (41 ∷ 42 ∷ 43 ∷ [])
unfolding reserve_many reserve_nonce open_lane take_nonce find_row update_rows to_lower ◌>>=◌
three_reserved = refl

reserved_nonces_consecutive_example : (41 ∷ 42 ∷ 43 ∷ []) ≡ count_from 41 3
reserved_nonces_consecutive_example =
    reserved_nonces_consecutive 1 (codes "0xEE") (40 ∷ 41 ∷ 39 ∷ []) store 41 (41 ∷ 42 ∷ 43 ∷ [])
      next_is three_reserved

abbrev same_intent : Replacement
same_intent = record { intent = intent_of stuck; nonce = 40 }

same_intent_passes : assert_fee_only_replacement host stuck same_intent ≡ none
unfolding assert_fee_only_replacement fingerprint_differs fingerprint_of intent_fingerprint
    canonical_hash to_lower purpose_eq
same_intent_passes = refl

passed_replacement-IsFeeOnly_example : IsFeeOnly host stuck same_intent
passed_replacement-IsFeeOnly_example =
    passed_replacement-IsFeeOnly host stuck same_intent same_intent_passes

abbrev pub old_fees : FeeEstimate
old_fees = record { max_fee_per_gas = 100; max_priority_fee_per_gas = 10 }

abbrev market : FeeEstimate
market = record { max_fee_per_gas = 90; max_priority_fee_per_gas = 30 }

bump_fees_raises_example :
    let bumped = bump_fees old_fees market 12 in
    (100 < bumped.max_fee_per_gas)
    × (10 < bumped.max_priority_fee_per_gas)
    × (90 ≤ bumped.max_fee_per_gas)
    × (30 ≤ bumped.max_priority_fee_per_gas)
    × (100 * 112 < bumped.max_fee_per_gas * 100)
    × (10 * 112 < bumped.max_priority_fee_per_gas * 100)
bump_fees_raises_example = bump_fees_raises old_fees market 12

-- A node that has the receipt from the second poll on, in a block that is final at the third
abbrev pub receipt : TransactionReceiptView
receipt = record {
  is_reverted = false;
  block_number = 10;
  block_hash = codes "0xAA";
  gas_used = 21000;
  contract_address = none;
  transaction_hash = codes "0xbeef";
  logs = [];
}

abbrev poll_with : Option TransactionReceiptView → ℕ → ℕ → Poll
poll_with r clock height = record {
  clock = clock;
  receipt = r;
  block_hash_at = λ n. some (codes "0xaa");
  finalized_block_number = none;
  latest_block_number = height;
}

abbrev pub polls : Polls
polls n = poll_with (if ltb 0 n then some receipt else none) (n * 100) (9 + n)

abbrev pub policy : ConfirmationPolicy
policy = record { confirmations = 3; finality_is_latest = false; timeout_ms = 1000 }

await_confirmation_ends_example :
    (out : ConfirmationOutcome) × (await_confirmation polls policy 0 11 ≡ some out)
    × Rests polls policy 1000 out
await_confirmation_ends_example =
    await_confirmation_ends polls policy 0 10 11 (omega arith) (omega arith)

abbrev request : UnsignedTransactionRequest
request = record {
  attempt_id = 31;
  chain_id = 1;
  from_address = codes "0xEE";
  to_address = some (codes "0xCC");
  nonce = 41;
  value = 0;
  calldata = codes "0x01";
  gas_limit = 90000;
  max_fee_per_gas = 100;
  max_priority_fee_per_gas = 10;
}

abbrev parsed : ParsedTransaction
parsed = record {
  is_eip1559 = true;
  chain_id = some 1;
  nonce = some 41;
  to_address = some (codes "0xcc");
  value = none;
  calldata = some (codes "0x01");
  gas = some 90000;
  max_fee_per_gas = some 100;
  max_priority_fee_per_gas = some 10;
}

abbrev pub codec : Codec
codec = record {
  parse_transaction = λ b. some parsed;
  recover_transaction_address = λ b. some (codes "0xEe");
  keccak256 = λ b. codes "0xf00d";
}

verified_iff_IsGenuine_example :
    (verify_signed_transaction codec (codes "0x02aa") request (codes "0xEE") (codes "0xF00D")
      ≡ verified (codes "0xf00d") (codes "0xEe"))
    ↔ IsGenuine codec
        (codes "0x02aa")
        request
        (codes "0xEE")
        (codes "0xF00D")
        (codes "0xf00d")
        (codes "0xEe")
verified_iff_IsGenuine_example =
    verified_iff_IsGenuine codec (codes "0x02aa") request (codes "0xEE") (codes "0xF00D")
      (codes "0xf00d") (codes "0xEe")

-- ===== src/Transactions/ChainWriter/Replacing.antt =====
-- src/modules/transactions/chain-writer.ts: what a replacement changes, and that an attempt is
-- replaced once.
use mathlib.Core.Path.{subst}
use institutional_tokenizati.Base.{
  sym, find_row, ℕ, ◌+◌, ◌<◌, ◌≡◌, refl, ap, ◌∙◌, Bool, some, List, [], ◌∷◌, to_lower, arith,
  select_rows, count_rows, option_map,
}
use institutional_tokenizati.Domain.Errors.{app_error, operation_conflict}
use institutional_tokenizati.Db.{Store, Attempt, ReplacementReason, ok, err, ◌>>=◌}
use institutional_tokenizati.Db.Within.{Within}
use institutional_tokenizati.Db.Atomic.{>>=-ok, throw_if_ok}
use institutional_tokenizati.Transactions.Verifier.{UnsignedTransactionRequest}
use institutional_tokenizati.Repo.Attempts.{
  InsertAttemptInput, prepared_row, is_not_replaced, has_id, update_attempts,
  retire_attempt_for_replacement,
}
use institutional_tokenizati.Transactions.Intent.{FeeEstimate, intent_of, fingerprint_of}
use institutional_tokenizati.Transactions.ChainWriter.Interface.{
  Deps, ChainWriteHooks, ChainWriteOutcome, SignerReply,
}
use institutional_tokenizati.Transactions.ChainWriter.Signature.{ask_signer, unsigned_request_from}
use institutional_tokenizati.Transactions.ChainWriter.Superseded.{
  supersede_row, supersede_store, row_found, superseded_count,
}
use institutional_tokenizati.Transactions.ChainWriter.Writes.{
  replacement_input, supersede, sign_replacement, fees_not_raised, replace_fees,
}

-- The replacement asks for the same effect at the given fees, and points back.
pub record IsSameEffect (previous : Attempt) (fees : FeeEstimate) (a : Attempt) : Type 0 where
  pub nonce : a.nonce ≡ previous.nonce
  pub chain_id : a.chain_id ≡ previous.chain_id
  pub signer : a.from_address ≡ to_lower previous.from_address
  pub destination : a.to_address ≡ option_map to_lower previous.to_address
  pub calldata : a.calldata ≡ to_lower previous.calldata
  pub value : a.value ≡ 0
  pub gas_limit : a.gas_limit ≡ previous.gas_limit
  pub purpose : a.purpose ≡ previous.purpose
  pub operation_id : a.operation_id ≡ previous.operation_id
  pub max_fee_per_gas : a.max_fee_per_gas ≡ fees.max_fee_per_gas
  pub max_priority_fee_per_gas : a.max_priority_fee_per_gas ≡ fees.max_priority_fee_per_gas
  pub replaces : a.replaces_attempt_id ≡ some previous.id
  pub number : a.replacement_number ≡ previous.replacement_number + 1

same_effect :
    (deps : Deps) (hooks : ChainWriteHooks) (previous : Attempt) (fees : FeeEstimate)
    (reason : ReplacementReason) (s : Store) (a : Attempt)
    → (supersede hooks previous
        (replacement_input deps previous
          (intent_of previous)
          (fingerprint_of deps.host previous)
          previous.gas_limit
          fees
          reason)
        reason
        s).0
      ≡ ok a
    → IsSameEffect previous fees a
unfolding replacement_input prepared_row
same_effect deps hooks previous fees reason s a e =
    let row = supersede_row hooks previous _ reason s a e in
    record {
      nonce = ap (λ x. x.nonce) row;
      chain_id = ap (λ x. x.chain_id) row;
      signer = ap (λ x. x.from_address) row;
      destination = ap (λ x. x.to_address) row;
      calldata = ap (λ x. x.calldata) row;
      value = ap (λ x. x.value) row;
      gas_limit = ap (λ x. x.gas_limit) row;
      purpose = ap (λ x. x.purpose) row;
      operation_id = ap (λ x. x.operation_id) row;
      max_fee_per_gas = ap (λ x. x.max_fee_per_gas) row;
      max_priority_fee_per_gas = ap (λ x. x.max_priority_fee_per_gas) row;
      replaces = ap (λ x. x.replaces_attempt_id) row;
      number = ap (λ x. x.replacement_number) row;
    }

-- The signer is asked for that effect, for the attempt of the replacement.
pub record IsAskedFor (previous : Attempt) (fees : FeeEstimate) (a : Attempt)
    (request : UnsignedTransactionRequest) : Type 0 where
  pub attempt_id : request.attempt_id ≡ a.id
  pub nonce : request.nonce ≡ previous.nonce
  pub chain_id : request.chain_id ≡ previous.chain_id
  pub signer : request.from_address ≡ to_lower previous.from_address
  pub destination : request.to_address ≡ option_map to_lower previous.to_address
  pub calldata : request.calldata ≡ to_lower previous.calldata
  pub value : request.value ≡ 0
  pub gas_limit : request.gas_limit ≡ previous.gas_limit
  pub max_fee_per_gas : request.max_fee_per_gas ≡ fees.max_fee_per_gas
  pub max_priority_fee_per_gas : request.max_priority_fee_per_gas ≡ fees.max_priority_fee_per_gas

-- What a replacement that goes through has put on record, and what it asked the signer
pub record IsReplacement (deps : Deps) (hooks : ChainWriteHooks) (previous : Attempt)
    (fees : FeeEstimate) (s : Store) : Type 0 where
  pub attempt : Attempt
  pub before_hook : Store
  pub request : UnsignedTransactionRequest
  pub same_effect : IsSameEffect previous fees attempt
  pub on_record :
      previous.id < s.next_id → find_row (has_id attempt.id) before_hook.attempts ≡ some attempt
  pub asked_for : IsAskedFor previous fees attempt request
  pub asked :
      (reply : SignerReply) × (v : Store) × (deps.ports.request_signature request
          (hooks.on_prepared attempt before_hook).1
        ≡ (ok reply, v))

signed_for :
    (deps : Deps) (hooks : ChainWriteHooks) (previous : Attempt) (fees : FeeEstimate)
    (reason : ReplacementReason) (s : Store) (out : ChainWriteOutcome)
    → (sign_replacement deps hooks previous
        (intent_of previous)
        (fingerprint_of deps.host previous)
        previous.gas_limit
        fees
        reason
        s).0
      ≡ ok out
    → IsReplacement deps hooks previous fees s
unfolding sign_replacement ask_signer unsigned_request_from prepared_row
signed_for deps hooks previous fees reason s out h =
    let input =
      replacement_input deps previous (intent_of previous) (fingerprint_of deps.host previous)
        previous.gas_limit fees reason in
    let (a, t, e, h1) = >>=-ok (supersede hooks previous input reason) _ s out h in
    let (reply, v, asked, _) =
      >>=-ok (deps.ports.request_signature (unsigned_request_from a)) _ t out h1 in
    let (u, rows, left) = supersede_store hooks previous input reason s t a e in
    let same = same_effect deps hooks previous fees reason s a (ap (λ r. r.0) e) in
    let row = supersede_row hooks previous input reason s a (ap (λ r. r.0) e) in
    record {
      attempt = a;
      before_hook = u;
      request = unsigned_request_from a;
      same_effect = same;
      on_record = λ below.
          subst (λ (x : Attempt). find_row (has_id x.id) u.attempts ≡ some x) (sym row)
            (ap (find_row (has_id s.next_id)) rows ∙ row_found previous input reason s below);
      asked_for = record {
        attempt_id = refl;
        nonce = same.nonce;
        chain_id = same.chain_id;
        signer = same.signer;
        destination = same.destination;
        calldata = same.calldata;
        value = refl;
        gas_limit = same.gas_limit;
        max_fee_per_gas = same.max_fee_per_gas;
        max_priority_fee_per_gas = same.max_priority_fee_per_gas;
      };
      asked = (
        reply,
        v,
        ap (deps.ports.request_signature (unsigned_request_from a)) (sym left) ∙ asked,
      );
    }

-- A replacement that goes through is within the limit and raises both fees. Its attempt, which is on
-- record before its hook runs where identifiers are fresh, and what the signer is asked next have
-- the effect of the attempt that it replaces: the same nonce, chain, signer, destination, calldata
-- and gas limit and no value, with the new fees; the attempt has the same purpose and operation,
-- and points back.
pub replace_fees-IsSameEffect :
    (deps : Deps) (hooks : ChainWriteHooks) (previous : Attempt) (fees : FeeEstimate)
    (reason : ReplacementReason) (s : Store) (out : ChainWriteOutcome)
    → (replace_fees deps hooks previous fees reason s).0 ≡ ok out
    → (previous.replacement_number < deps.max_replacements)
      × (previous.max_fee_per_gas < fees.max_fee_per_gas)
      × (previous.max_priority_fee_per_gas < fees.max_priority_fee_per_gas)
      × IsReplacement deps hooks previous fees s
unfolding replace_fees fees_not_raised
replace_fees-IsSameEffect deps hooks previous fees reason s out h =
    let (limit, h1) = throw_if_ok _ _ _ s out h in
    let (_, h2) = throw_if_ok _ _ _ s out h1 in
    let (raised, h3) = throw_if_ok _ _ _ s out h2 in
    (
      ground (arith, limit),
      ground (arith, raised),
      ground (arith, raised),
      signed_for deps hooks previous fees reason s out h3,
    )

-- The hook of the winner brings no replaced attempt back.
pub record KeepsReplaced (id : ℕ) (s t : Store) : Type 0 where
  pub gone :
      count_rows (is_not_replaced id) s.attempts ≡ 0
      → count_rows (is_not_replaced id) t.attempts ≡ 0

none_selected :
    (p : Attempt → Bool) (rows : List Attempt) → count_rows p rows ≡ 0 → select_rows p rows ≡ []
unfolding count_rows select_rows
none_selected p [] h = refl
none_selected p (a ∷ rows) h = ground (arith, none_selected p rows)

replaced_already :
    (hooks : ChainWriteHooks) (previous : Attempt) (input : InsertAttemptInput)
    (reason : ReplacementReason) (t : Store)
    → count_rows (is_not_replaced previous.id) t.attempts ≡ 0
    → supersede hooks previous input reason t ≡ (err (app_error operation_conflict), t)
unfolding supersede retire_attempt_for_replacement update_attempts ◌>>=◌
replaced_already hooks previous input reason t h =
    ground (arith, h, none_selected (is_not_replaced previous.id) t.attempts h)

-- Two dispatchers that replace the same attempt, one after the other: when the first commits, the
-- second is refused with a conflict and changes nothing, whatever it wanted to put there.
pub second_replacement_conflicts :
    (first second : ChainWriteHooks) (previous : Attempt) (input other : InsertAttemptInput)
    (reason why : ReplacementReason) (s t : Store) (a : Attempt)
    → previous.id < s.next_id
    → ((x : Attempt) → Within (KeepsReplaced previous.id) (first.on_prepared x))
    → supersede first previous input reason s ≡ (ok a, t)
    → supersede second previous other why t ≡ (err (app_error operation_conflict), t)
second_replacement_conflicts first second previous input other reason why s t a n keeps h =
    let (u, rows, final) = supersede_store first previous input reason s t a h in
    let before =
      ap (count_rows (is_not_replaced previous.id)) rows
      ∙ superseded_count previous input reason s n in
    let after = ((keeps a).at u).gone before in
    replaced_already second previous other why t
      (ap (λ x. count_rows (is_not_replaced previous.id) x.attempts) final ∙ after)

-- ===== src/Repo/Attempts/Defs.antt =====
-- src/db/repositories/transaction-repository.ts: transaction attempts, with the unique indexes of
-- src/db/migrations that their writes run into.
use institutional_tokenizati.Base.{
  map, ℕ, ◌+◌, Bool, not, ◌&&◌, ◌||◌, Option, none, some, List, ◌∷◌, Text, text_eq, to_lower, ltb,
  leb, ◌==◌, find_row, update_rows, select_rows, count_rows, option_map, option_eq, is_none, any,
  if◌then◌else◌,
}
use institutional_tokenizati.Domain.Errors.{constraint_violation, live_nonce, transaction_hash_key}
use institutional_tokenizati.Db.{
  Attempt, AttemptStatus, AttemptPurpose, FailureCode, ReplacementReason, Action, Done, pure, gets,
  modify, throw_if, fresh_id, ◌>>=◌, ◌>>◌, attempt_status_eq, prepared, confirmed, reverted,
  replaced,
}

pub record InsertAttemptInput : Type 0 where
  pub operation_id : Option ℕ
  pub asset_id : Option ℕ
  pub wallet_id : Option ℕ
  pub purpose : AttemptPurpose
  pub chain_id : ℕ
  pub from_address : Text
  pub to_address : Option Text
  pub nonce : ℕ
  pub calldata : Text
  pub gas_limit : ℕ
  pub max_fee_per_gas : ℕ
  pub max_priority_fee_per_gas : ℕ
  pub request_hash : Text
  pub intent_fingerprint : Text
  pub replaces_attempt_id : Option ℕ
  pub replacement_reason : Option ReplacementReason
  pub replacement_number : ℕ

-- The row holds a nonce of a lane: only REPLACED rows leave the unique index.
abbrev pub holds_nonce : ℕ → Text → ℕ → Attempt → Bool
holds_nonce chain_id address nonce a =
    a.chain_id == chain_id
    && (text_eq a.from_address address
        && (a.nonce == nonce && not (attempt_status_eq a.status replaced)))

-- The row that the INSERT of `insertPreparedAttempt` writes
unfoldable pub prepared_row : ℕ → ℕ → InsertAttemptInput → Attempt
prepared_row id at input = record {
  id = id;
  operation_id = input.operation_id;
  asset_id = input.asset_id;
  wallet_id = input.wallet_id;
  purpose = input.purpose;
  chain_id = input.chain_id;
  from_address = to_lower input.from_address;
  to_address = option_map to_lower input.to_address;
  nonce = input.nonce;
  value = 0;
  calldata = to_lower input.calldata;
  gas_limit = input.gas_limit;
  max_fee_per_gas = input.max_fee_per_gas;
  max_priority_fee_per_gas = input.max_priority_fee_per_gas;
  request_hash = input.request_hash;
  signed_raw_transaction = none;
  transaction_hash = none;
  status = prepared;
  broadcast_attempts = 0;
  block_number = none;
  block_hash = none;
  gas_used = none;
  receipt_status = none;
  contract_address = none;
  error_code = none;
  intent_fingerprint = some input.intent_fingerprint;
  replaces_attempt_id = input.replaces_attempt_id;
  replaced_by_attempt_id = none;
  replacement_reason = input.replacement_reason;
  replacement_number = input.replacement_number;
  updated_at = at;
}

unfoldable pub insert_prepared_attempt : InsertAttemptInput → Action Attempt
unfolding prepared_row
insert_prepared_attempt input = do
  taken ←
      gets
        λ s. any (holds_nonce input.chain_id (to_lower input.from_address) input.nonce) s.attempts
  throw_if taken (constraint_violation live_nonce)
  id ← fresh_id
  row ← gets λ s. prepared_row id s.now input
  modify λ s. record s { attempts = row ∷ s.attempts }
  pure row

-- Two rows hold the same nonce: the index transaction_attempts_live_nonce_key forbids it.
abbrev pub is_doubled : List Attempt → Attempt → Bool
is_doubled rows a =
    not (attempt_status_eq a.status replaced)
    && ltb 1 (count_rows (holds_nonce a.chain_id a.from_address a.nonce) rows)

-- An UPDATE of the attempts that pass a test. A replaced attempt may not come back to life while
-- another one holds its nonce: the rows that are written are checked.
unfoldable pub update_attempts : (Attempt → Bool) → (ℕ → Attempt → Attempt) → Action Done
update_attempts test write = do
  written ← gets λ s. map (write s.clock) (select_rows test s.attempts)
  rows ← gets λ s. update_rows test (write s.clock) s.attempts
  throw_if (any (is_doubled rows) written) (constraint_violation live_nonce)
  modify λ s. record s { attempts = rows }

abbrev pub has_id : ℕ → Attempt → Bool
has_id id a = a.id == id

abbrev pub hash_of_another : ℕ → Text → Attempt → Bool
hash_of_another id hash a = not (a.id == id) && option_eq text_eq a.transaction_hash (some hash)

unfoldable pub write_signed : Text → Text → ℕ → Attempt → Attempt
write_signed raw hash at a = record a {
  signed_raw_transaction = some (to_lower raw);
  transaction_hash = some (to_lower hash);
  status = AttemptStatus.signed;
  updated_at = at;
}

unfoldable pub persist_signed_attempt : ℕ → Text → Text → Action Done
unfolding write_signed update_attempts
persist_signed_attempt attempt_id raw hash = do
  duplicate ← gets λ s. any (hash_of_another attempt_id (to_lower hash)) s.attempts
  throw_if duplicate (constraint_violation transaction_hash_key)
  update_attempts (has_id attempt_id) (write_signed raw hash)

-- `errorCode` is written when it is given; `incrementBroadcastAttempts` is the last argument.
unfoldable pub write_status : AttemptStatus → Option FailureCode → Bool → ℕ → Attempt → Attempt
write_status status error_code increment at a = record a {
  status = status;
  updated_at = at;
  error_code = elim error_code [ none ↦ a.error_code | some code ↦ some code ];
  broadcast_attempts = if increment then a.broadcast_attempts + 1 else a.broadcast_attempts;
}

unfoldable pub update_attempt_status : ℕ → AttemptStatus → Option FailureCode → Bool → Action Done
unfolding write_status update_attempts
update_attempt_status attempt_id status error_code increment =
    update_attempts (has_id attempt_id) (write_status status error_code increment)

-- The columns that a receipt fills. `receiptStatus` is 1 for success and 0 for a revert.
pub record ReceiptColumns : Type 0 where
  pub status : AttemptStatus
  pub block_number : ℕ
  pub block_hash : Text
  pub gas_used : ℕ
  pub receipt_status : ℕ
  pub contract_address : Option Text

unfoldable pub write_receipt : ReceiptColumns → ℕ → Attempt → Attempt
write_receipt r at a = record a {
  status = r.status;
  block_number = some r.block_number;
  block_hash = some (to_lower r.block_hash);
  gas_used = some r.gas_used;
  receipt_status = some r.receipt_status;
  contract_address = option_map to_lower r.contract_address;
  updated_at = at;
}

-- A settled attempt is not downgraded.
abbrev pub is_unsettled : ℕ → Attempt → Bool
is_unsettled id a =
    a.id == id && not (attempt_status_eq a.status confirmed || attempt_status_eq a.status reverted)

unfoldable pub record_receipt : ℕ → ReceiptColumns → Action Done
unfolding write_receipt update_attempts
record_receipt attempt_id columns =
    update_attempts (is_unsettled attempt_id) (write_receipt columns)

unfoldable pub find_attempt_by_id : ℕ → Action (Option Attempt)
find_attempt_by_id id = gets λ s. find_row (has_id id) s.attempts

-- the newest attempt of an operation
unfoldable pub find_latest_attempt_for_operation : ℕ → Action (Option Attempt)
find_latest_attempt_for_operation operation_id =
    gets λ s. find_row (λ a. option_eq ◌==◌ a.operation_id (some operation_id)) s.attempts

unfoldable pub write_cleared : ℕ → Attempt → Attempt
write_cleared at a = record a {
  status = AttemptStatus.submitted;
  block_number = none;
  block_hash = none;
  gas_used = none;
  receipt_status = none;
  updated_at = at;
}

unfoldable pub clear_attempt_inclusion : ℕ → Action Done
unfolding write_cleared update_attempts
clear_attempt_inclusion attempt_id = update_attempts (has_id attempt_id) write_cleared

unfoldable pub find_live_attempt_at_nonce : ℕ → Text → ℕ → Action (Option Attempt)
find_live_attempt_at_nonce chain_id signer nonce =
    gets λ s. find_row (holds_nonce chain_id (to_lower signer) nonce) s.attempts

unfoldable pub write_replaced : ReplacementReason → ℕ → Attempt → Attempt
write_replaced reason at a = record a {
  status = replaced;
  replacement_reason = some reason;
  updated_at = at;
}

abbrev pub is_not_replaced : ℕ → Attempt → Bool
is_not_replaced id a = a.id == id && not (attempt_status_eq a.status replaced)

-- Whether the update changed a row
unfoldable pub retire_attempt_for_replacement : ℕ → ReplacementReason → Action Bool
unfolding write_replaced update_attempts
retire_attempt_for_replacement attempt_id reason = do
  rows ← gets λ s. count_rows (is_not_replaced attempt_id) s.attempts
  update_attempts (is_not_replaced attempt_id) (write_replaced reason)
  pure (ltb 0 rows)

unfoldable pub write_link : ℕ → ℕ → Attempt → Attempt
write_link replacement_id at a = record a { replaced_by_attempt_id = some replacement_id }

unfoldable pub link_attempt_replacement : ℕ → ℕ → Action Done
unfolding write_link update_attempts
link_attempt_replacement attempt_id replacement_id =
    update_attempts (has_id attempt_id) (write_link replacement_id)

-- `findStuckAttempts`, without its ORDER BY and LIMIT: `updated_at` against PostgreSQL's clock
abbrev pub is_stuck : ℕ → ℕ → ℕ → ℕ → Attempt → Bool
is_stuck chain_id stuck_after max_replacements now a =
    a.chain_id == chain_id
    && ((attempt_status_eq a.status AttemptStatus.submitted
          || (attempt_status_eq a.status AttemptStatus.broadcasting
              || attempt_status_eq a.status AttemptStatus.broadcast_unknown))
        && (is_none a.block_number
            && (ltb a.replacement_number max_replacements && leb (a.updated_at + stuck_after) now)))

unfoldable pub find_stuck_attempts : ℕ → ℕ → ℕ → Action (List Attempt)
find_stuck_attempts chain_id stuck_after max_replacements =
    gets λ s. select_rows (is_stuck chain_id stuck_after max_replacements s.now) s.attempts

-- ===== src/Tests/Sending.antt =====
-- Writes to a node that refuses a transaction, and replacements of a stuck one.
use institutional_tokenizati.Base.{
  ◌<◌, ◌≡◌, ◌≢◌, ◌⊎◌, refl, true, some, Text, codes, to_lower, includes, arith, find_row,
  update_rows, select_rows, count_rows,
}
use institutional_tokenizati.Domain.Canonical.{canonical_hash}
use institutional_tokenizati.Domain.Errors.{app_error, operation_conflict}
use institutional_tokenizati.Db.{
  Store, Attempt, attempt_superseded, broadcast_rejected, stuck_no_inclusion, attempt_status_eq,
  purpose_eq, ok, err, pure, ◌>>=◌,
}
use institutional_tokenizati.Db.Within.{Within, Within-pure}
use institutional_tokenizati.Repo.Attempts.{
  has_id, InsertAttemptInput, prepared_row, insert_prepared_attempt, find_attempt_by_id,
  update_attempts, update_attempt_status, write_status, retire_attempt_for_replacement,
  write_replaced, link_attempt_replacement, write_link,
}
use institutional_tokenizati.Repo.Signers.{record_signer_request, upsert_signer_request}
use institutional_tokenizati.Transactions.Intent.{
  FeeEstimate, intent_of, fingerprint_of, intent_fingerprint, fingerprint_differs,
  assert_fee_only_replacement,
}
use institutional_tokenizati.Transactions.ChainWriter.{
  Ports, Deps, ChainWriteHooks, ChainWriteIntent, signature_pending, has_failed, errored,
  still_pending, is_superseded, broadcast, send, note_dispatch, after_send, on_broadcast_error,
  fail_attempt, classify_broadcast_error, is_known_message, is_rejection_message,
  deterministic_rejection, execute, resume_signature, replacement_input, supersede,
  sign_replacement, replace_fees, fees_not_raised, cancel_nonce, ask_signer, settle_signature,
}
use institutional_tokenizati.Transactions.ChainWriter.Steady.{
  AllDurable, Logged, IsSteady, Logged-IsPreorder, IsSteady-IsPreorder,
}
use institutional_tokenizati.Transactions.ChainWriter.Sends.{SteadyHooks, LoggedPorts}
use institutional_tokenizati.Transactions.ChainWriter.Durability.{every_write_is_durable}
use institutional_tokenizati.Transactions.ChainWriter.Outcomes.{
  handed, failed_broadcast_is_proved, nonce_too_low_is_no_failure,
}
use institutional_tokenizati.Transactions.ChainWriter.Replacing.{
  IsReplacement, KeepsReplaced, replace_fees-IsSameEffect, second_replacement_conflicts,
}
use institutional_tokenizati.Tests.Fixtures.{host, stuck, store}
use institutional_tokenizati.Tests.Chain.{codec, old_fees}

abbrev pub ports : Ports
ports = record {
  get_signer_address = pure (codes "0xee");
  get_chain_identity = pure tt;
  simulate = λ a c. pure (some 72000);
  get_fee_estimate = pure old_fees;
  get_transaction_count = λ a. pure 40;
  request_signature = λ r. pure (still_pending 77);
  fetch_signature = λ id. pure (still_pending id);
  broadcast_raw_transaction = λ b. pure (errored (codes "RLP: bad"));
}

abbrev pub deps : Deps
deps = record {
  host = host;
  codec = codec;
  ports = ports;
  chain_id = 1;
  signer_request_timeout_ms = 1000;
  max_replacements = 3;
}

abbrev no_hooks : ChainWriteHooks
no_hooks = record {
  on_prepared = λ a. pure tt;
  on_signed = λ a. pure tt;
  assert_broadcast_allowed = pure tt;
  on_broadcasting = λ a. pure tt;
  on_submitted = λ a h. pure tt;
  on_broadcast_unknown = λ a. pure tt;
  on_failed = λ a c. pure tt;
}

calm : {A : Type 0} (a : A) → Within Logged (pure a)
calm a = Within-pure Logged-IsPreorder a

still : Within IsSteady (pure tt)
still = Within-pure IsSteady-IsPreorder tt

pub logged_ports : LoggedPorts ports
logged_ports = record {
  get_signer_address = calm _;
  get_chain_identity = calm _;
  simulate = λ a c. calm _;
  get_fee_estimate = calm _;
  get_transaction_count = λ a. calm _;
  request_signature = λ r. calm _;
  fetch_signature = λ id. calm _;
  broadcast_raw_transaction = λ b. calm _;
}

steady_hooks : SteadyHooks no_hooks
steady_hooks = record {
  on_prepared = λ a. still;
  on_signed = λ a. still;
  assert_broadcast_allowed = still;
  on_broadcasting = λ a. still;
  on_submitted = λ a h. still;
  on_broadcast_unknown = λ a. still;
  on_failed = λ a c. still;
}

abbrev pub write : ChainWriteIntent
write = record {
  purpose = stuck.purpose;
  call = record { to_address = some (codes "0xcc"); calldata = codes "0x01" };
  operation_id = some 1;
  asset_id = some 2;
  wallet_id = some 3;
}

abbrev pub higher : FeeEstimate
higher = record { max_fee_per_gas = 120; max_priority_fee_per_gas = 12 }

pub nothing_sent : AllDurable store.sent
unfolding AllDurable
nothing_sent = tt

every_write_is_durable_example :
    AllDurable (execute deps write no_hooks store).1.sent
    × AllDurable (resume_signature deps no_hooks stuck store).1.sent
    × AllDurable (replace_fees deps no_hooks stuck higher stuck_no_inclusion store).1.sent
    × AllDurable (cancel_nonce deps no_hooks stuck higher stuck_no_inclusion store).1.sent
every_write_is_durable_example =
    every_write_is_durable deps no_hooks logged_ports steady_hooks store write stuck higher
      stuck_no_inclusion nothing_sent

rejected :
    (broadcast deps no_hooks stuck (codes "0x02aa") (codes "0xbeef") store).0
    ≡ ok (has_failed 30 broadcast_rejected)
unfolding broadcast find_attempt_by_id find_row is_superseded attempt_status_eq send note_dispatch
    after_send on_broadcast_error classify_broadcast_error is_known_message is_rejection_message
    to_lower fail_attempt update_attempt_status update_attempts update_rows select_rows count_rows
    write_status ◌>>=◌
rejected = refl

failed_broadcast_is_proved_example :
    ((is_superseded (find_row (has_id 30) store.attempts) ≡ true)
      × ((broadcast deps no_hooks stuck (codes "0x02aa") (codes "0xbeef") store).1 ≡ store)
      × (broadcast_rejected ≡ attempt_superseded))
    ⊎ ((message : Text) × ((ports.broadcast_raw_transaction
            (codes "0x02aa")
            (handed (codes "0x02aa") store)).0
          ≡ ok (errored message))
        × (classify_broadcast_error message ≡ deterministic_rejection)
        × (broadcast_rejected ≡ broadcast_rejected))
failed_broadcast_is_proved_example =
    failed_broadcast_is_proved deps no_hooks stuck (codes "0xbeef") (codes "0x02aa") store 30
      broadcast_rejected rejected

nonce_too_low_is_no_failure_example :
    (classify_broadcast_error (to_lower (codes "Nonce too low"))
      ≡ classify_broadcast_error (codes "Nonce too low"))
    × (includes (to_lower (codes "Nonce too low")) (codes "nonce too low") ≡ true
        → classify_broadcast_error (codes "Nonce too low") ≢ deterministic_rejection)
nonce_too_low_is_no_failure_example = nonce_too_low_is_no_failure (codes "Nonce too low")

replaced_fees :
    (replace_fees deps no_hooks stuck higher stuck_no_inclusion store).0
    ≡ ok (signature_pending 100 77)
unfolding replace_fees assert_fee_only_replacement fingerprint_differs fingerprint_of
    intent_fingerprint canonical_hash to_lower purpose_eq fees_not_raised sign_replacement
    replacement_input supersede retire_attempt_for_replacement write_replaced
    insert_prepared_attempt prepared_row link_attempt_replacement write_link ask_signer
    record_signer_request upsert_signer_request settle_signature find_row attempt_status_eq
    update_attempts update_rows select_rows count_rows ◌>>=◌
replaced_fees = refl

abbrev replacement : InsertAttemptInput
replacement =
    replacement_input deps stuck (intent_of stuck) (fingerprint_of host stuck) 90000 higher
      stuck_no_inclusion

replace_fees-IsSameEffect_example :
    (0 < 3) × (100 < 120) × (10 < 12) × IsReplacement deps no_hooks stuck higher store
replace_fees-IsSameEffect_example =
    replace_fees-IsSameEffect deps no_hooks stuck higher stuck_no_inclusion store
      (signature_pending 100 77) replaced_fees

abbrev inserted : Attempt
inserted = prepared_row 100 5000 replacement

abbrev after_first : Store
after_first = (supersede no_hooks stuck replacement stuck_no_inclusion store).1

first_wins :
    supersede no_hooks stuck replacement stuck_no_inclusion store ≡ (ok inserted, after_first)
unfolding canonical_hash to_lower replacement_input supersede retire_attempt_for_replacement
    write_replaced insert_prepared_attempt prepared_row link_attempt_replacement write_link find_row
    attempt_status_eq update_attempts update_rows select_rows count_rows ◌>>=◌
first_wins = refl

keeps_replaced : (x : Attempt) → Within (KeepsReplaced 30) (no_hooks.on_prepared x)
unfolding pure
keeps_replaced x = record { at = λ s. record { gone = λ h. h } }

second_replacement_conflicts_example :
    supersede no_hooks stuck replacement stuck_no_inclusion after_first
    ≡ (err (app_error operation_conflict), after_first)
second_replacement_conflicts_example =
    second_replacement_conflicts no_hooks no_hooks stuck replacement replacement stuck_no_inclusion
      stuck_no_inclusion store after_first inserted (omega arith) keeps_replaced first_wins

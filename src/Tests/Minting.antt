-- ===== src/Tests/Minting.antt =====
-- Handlers, reconciliation, compliance and the outbox on concrete inputs.
use institutional_tokenizati.Base.{
  ap, update_rows, ◌/◌, ◌<◌, ◌≡◌, ◌≢◌, refl, true, false, none, some, [], ◌∷◌, codes, to_lower, any,
  find_row, select_rows,
}
use institutional_tokenizati.Domain.Canonical.{canonical_hash}
use institutional_tokenizati.Db.{
  modify, Store, ComplianceDecision, ComplianceStatus, OutboxRow, OutboxStatus, ok, pure, or_throw,
  throw_if, gets, try_catch, compliance_status_eq, ◌>>=◌,
}
use institutional_tokenizati.Repo.Reference.{find_asset_by_id, find_wallet_by_id}
use institutional_tokenizati.Repo.Compliance.{
  find_active_approval, latest_decision, is_active_approval, covers_asset, is_live_for,
  supersede_active_decisions, has_decision_id,
}
use institutional_tokenizati.Repo.Observations.{record_observation}
use institutional_tokenizati.Repo.Outbox.{
  reschedule_outbox, write_rescheduled, write_dispatched, mark_outbox_dispatched,
}
use institutional_tokenizati.Mints.Proposal.{rebuilt_hash}
use institutional_tokenizati.Gateway.{EvmGateway}
use institutional_tokenizati.Executor.Interface.{SettledOperation}
use institutional_tokenizati.Transactions.ChainWriter.{EncodedCall}
use institutional_tokenizati.Compliance.{
  ComplianceDeps, assert_eligible_for_execution, eligible_until_for, hash_eligibility_sync_intent,
}
use institutional_tokenizati.Compliance.Scopes.{IsInScope, supersede_clears_scope}
use institutional_tokenizati.Reconciliation.{
  Reconciler, MintExpectation, reconcile_mint, report, run_check, check_receipt, check_consumed,
  check_balance, check_supply, event_ok, mint_events, find_mint_event,
}
use institutional_tokenizati.Reconciliation.Consistent.{IsMinted, consistent-IsMinted}
use institutional_tokenizati.Handlers.{
  MintDeps, prepare_mint, resolve_mint_target, wallet_of, target_of_parts, check_chain,
  halt_if_consumed, mint_call, EligibilityDeps, EligibilityParts, EligibilityTarget, check_parts,
}
use institutional_tokenizati.Handlers.Cleared.{IsCleared, prepared-IsCleared}
use institutional_tokenizati.Handlers.Granted.{IsRequested, granted_on_live_approval}
use institutional_tokenizati.Dispatch.{
  DispatcherDeps, publish_each, publish_or_reschedule, publish, dispatch_claimed,
}
use institutional_tokenizati.Dispatch.Published.{IsAccepted, marked_rows-IsAccepted}
use institutional_tokenizati.Dispatch.Undispatched.{has_row_id, KeepsUndispatched-IsPreorder}
use institutional_tokenizati.Db.Within.{Within-pure}
use institutional_tokenizati.Tests.Fixtures.{host, mint, asset, wallet, approval, store}
use institutional_tokenizati.Tests.Chain.{receipt}

abbrev gateway : EvmGateway
gateway = record {
  get_chain_identity = pure 1;
  assert_contract_deployed = λ a. pure tt;
  decode_mint_executed_events = λ a logs.
      record { operation_reference = codes "0xAB"; recipient = codes "0xDD"; amount = 1000 } ∷ [];
  read_token_state = λ a. pure (record {
    is_paused = false;
    total_supply = 5000;
    supply_cap = 100000;
    decimals = 2;
    symbol = codes "BND";
  });
  read_balance_of = λ a b. pure 1000;
  read_reference_consumed = λ a r. pure true;
  read_eligible_until = λ a b. pure 9;
  encode_token_deployment = λ d. record { to_address = none; calldata = d.name };
  encode_mint_call = λ a c. record { to_address = some a; calldata = c.recipient };
  encode_set_eligibility_call = λ a b n. record { to_address = some a; calldata = b };
}

abbrev fresh_gateway : EvmGateway
fresh_gateway = record gateway { read_reference_consumed = λ a r. pure false }

abbrev compliance : ComplianceDeps
compliance = record {
  host = host;
  provider = record {
    screen = λ subject address chain asset_id. pure (record {
      status = ComplianceStatus.approved;
      valid_from = 0;
      valid_until = 9000;
      decided_at = 0;
    });
    check_eligibility = λ subject address chain asset_id amount. pure true;
  };
}

abbrev minting : MintDeps
minting = record {
  compliance = compliance;
  reconciliation = record { gateway = fresh_gateway; chain_id = 1 };
  mint_deadline_seconds = 600;
}

abbrev call : EncodedCall
call = record { to_address = some (codes "0xcc"); calldata = codes "0xdd" }

prepares : (prepare_mint minting mint store).0 ≡ ok call
unfolding prepare_mint resolve_mint_target find_asset_by_id find_wallet_by_id wallet_of
    target_of_parts find_row rebuilt_hash canonical_hash assert_eligible_for_execution
    find_active_approval latest_decision select_rows is_active_approval covers_asset
    compliance_status_eq check_chain halt_if_consumed mint_call gets pure or_throw throw_if ◌>>=◌
prepares = refl

prepared-IsCleared_example : IsCleared minting mint call store
prepared-IsCleared_example = prepared-IsCleared minting mint store call prepares

abbrev reconciler : Reconciler
reconciler = record { gateway = gateway; chain_id = 1 }

abbrev expectation : MintExpectation
expectation = record {
  contract_address = codes "0xcc";
  recipient = codes "0xdd";
  amount = 1000;
  operation_reference = codes "0xab";
}

abbrev settled : SettledOperation
settled = record { operation = mint; attempt_id = 30; receipt = receipt }

reconciles : (reconcile_mint reconciler settled expectation store).0 ≡ ok (report [])
unfolding reconcile_mint report run_check check_receipt check_consumed check_balance check_supply
    event_ok mint_events find_mint_event find_row to_lower record_observation pure ◌>>=◌
reconciles = refl

nothing_found : (report []).consistent ≡ true
unfolding report
nothing_found = refl

consistent-IsMinted_example : IsMinted reconciler settled expectation
consistent-IsMinted_example =
    consistent-IsMinted reconciler settled expectation store (report []) reconciles nothing_found

abbrev eligibility : EligibilityDeps
eligibility = record { host = host; reconciliation = reconciler }

abbrev parts : EligibilityParts
parts = record {
  asset = asset;
  contract_address = codes "0xcc";
  wallet = wallet;
  decision = approval;
}

abbrev target : EligibilityTarget
target = record {
  contract_address = codes "0xcc";
  account = codes "0xdd";
  eligible_until = 9;
  decision_id = 4;
}

resolves : (check_parts eligibility mint parts store).0 ≡ ok target
unfolding check_parts eligible_until_for compliance_status_eq canonical_hash throw_if pure ◌>>=◌
    hash_eligibility_sync_intent
resolves = refl

granted_on_live_approval_example :
    IsRequested eligibility mint parts target
    × (0 < target.eligible_until
        → (approval.status ≡ ComplianceStatus.approved)
          × (approval.superseded_at ≡ none)
          × (target.eligible_until ≡ approval.valid_until / 1000))
    × (approval.status ≢ ComplianceStatus.approved → target.eligible_until ≡ 0)
granted_on_live_approval_example =
    granted_on_live_approval eligibility mint parts store target resolves

supersede_clears_scope_example :
    (any
        (is_live_for 3 (some 2))
        (supersede_active_decisions 3 (some 2) store).1.compliance_decisions
      ≡ false)
    × ((d : ComplianceDecision)
        → find_row (has_decision_id d.id) store.compliance_decisions ≡ some d
        → IsInScope 3 (some 2) d
        → find_row
            (has_decision_id d.id)
            (supersede_active_decisions 3 (some 2) store).1.compliance_decisions
          ≡ some (record d { superseded_at = some store.now }))
    × ((d : ComplianceDecision)
        → find_row (has_decision_id d.id) store.compliance_decisions ≡ some d
        → ¬ IsInScope 3 (some 2) d
        → find_row
            (has_decision_id d.id)
            (supersede_active_decisions 3 (some 2) store).1.compliance_decisions
          ≡ some d)
supersede_clears_scope_example = supersede_clears_scope 3 (some 2) store

abbrev claimed_row : OutboxRow
claimed_row = record {
  id = 60;
  aggregate_id = 1;
  payload_operation_id = some 1;
  status = OutboxStatus.claimed;
  attempts = 1;
  available_at = 0;
  correlation_id = 6;
  claim_token = some 61;
  claim_expires_at = some 9000;
}

-- A row whose payload has no operation
abbrev malformed_row : OutboxRow
malformed_row = record claimed_row { id = 62; payload_operation_id = none }

abbrev dispatcher : DispatcherDeps
dispatcher = record {
  queue_add = λ job. pure tt;
  batch_size = 10;
  lease = 1000;
  retry_after_ms = 2000;
}

abbrev queued : Store
queued = record store { outbox = malformed_row ∷ claimed_row ∷ [] }

marks : dispatch_claimed dispatcher 61 (malformed_row ∷ claimed_row ∷ []) queued ≡ (
  ok 1,
  record queued {
    outbox = write_rescheduled 7000 malformed_row ∷ write_dispatched claimed_row ∷ [];
  },
)
unfolding dispatch_claimed publish_each publish_or_reschedule publish try_catch pure ◌>>=◌
    reschedule_outbox mark_outbox_dispatched update_rows write_rescheduled write_dispatched modify
marks = refl

marked_rows-IsAccepted_example : IsAccepted dispatcher (malformed_row ∷ claimed_row ∷ []) 60
unfolding find_row write_dispatched write_rescheduled
marked_rows-IsAccepted_example =
    marked_rows-IsAccepted dispatcher 61 (λ job. Within-pure KeepsUndispatched-IsPreorder tt)
      (malformed_row ∷ claimed_row ∷ []) queued 1 60 claimed_row (write_dispatched claimed_row)
      (ap (λ r. r.0) marks) refl (λ e. cc) (ap (λ r. find_row (has_row_id 60) r.1.outbox) marks)
      refl

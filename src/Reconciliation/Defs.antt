-- ===== src/Reconciliation/Defs.antt =====
-- src/modules/transactions/reconciliation-service.ts: the checklists. A finding is the kind of its
-- check; `expected`, `actual` and the texts are left out.
use institutional_tokenizati.Base.{
  ℕ, Bool, true, false, not, ◌&&◌, Option, none, some, List, [], ◌∷◌, ◌++◌, Text, text_eq, to_lower,
  ◌==◌, leb, is_none, find_row, if◌then◌else◌,
}
use institutional_tokenizati.Db.{
  ObservationKind, info, critical, receipt, chain_identity, mint_event, reference_consumed,
  recipient_balance, total_supply, contract_code, token_metadata, eligibility_window, Action, pure,
  try_catch, ◌>>=◌, ◌>>◌,
}
use institutional_tokenizati.Repo.Observations.{ObservationInput, record_observation}
use institutional_tokenizati.Executor.Interface.{SettledOperation, ReconciliationReport}
use institutional_tokenizati.Gateway.{EvmGateway, MintExecutedEvent, TokenChainState}

-- The arguments of ReconciliationService
pub record Reconciler : Type 0 where
  pub gateway : EvmGateway
  pub chain_id : ℕ

-- Check. The severity of a failed check is always CRITICAL.
pub record Check : Type 0 where
  pub kind : ObservationKind
  pub is_matched : Bool

-- `checklist`: the row of a check
unfoldable pub check_input : Reconciler → SettledOperation → Check → ObservationInput
check_input service settled check = record {
  operation_id = some settled.operation.id;
  transaction_attempt_id = some settled.attempt_id;
  kind = check.kind;
  chain_id = service.chain_id;
  block_number = some settled.receipt.block_number;
  block_hash = some settled.receipt.block_hash;
  transaction_hash = some settled.receipt.transaction_hash;
  is_matched = check.is_matched;
  is_canonical = true;
  severity = if check.is_matched then info else critical;
}

-- `ChecklistRun.check`: the findings so far, and those after it
unfoldable pub run_check :
    Reconciler
    → SettledOperation
    → List ObservationKind
    → ObservationKind
    → Bool
    → Action (List ObservationKind)
unfolding check_input
run_check service settled findings kind matched = do
  record_observation (check_input service settled (record { kind = kind; is_matched = matched }))
  pure (if matched then findings else findings ++ (kind ∷ []))

abbrev pub is_empty : {A : Type 0} → List A → Bool
is_empty [] = true
is_empty (_ ∷ _) = false

unfoldable pub report : List ObservationKind → ReconciliationReport
report findings = record { consistent = is_empty findings; findings = findings }

-- What a mint is checked against
pub record MintExpectation : Type 0 where
  pub contract_address : Text
  pub recipient : Text
  pub amount : ℕ
  pub operation_reference : Text

-- `events.find(...) ?? null`
unfoldable pub find_mint_event : Text → List MintExecutedEvent → Option MintExecutedEvent
find_mint_event reference =
    find_row (λ e. text_eq (to_lower e.operation_reference) (to_lower reference))

-- `eventOk`
unfoldable pub event_ok : MintExpectation → Option MintExecutedEvent → Bool
event_ok expected none = false
event_ok expected (some e) =
    text_eq (to_lower e.recipient) (to_lower expected.recipient) && e.amount == expected.amount

unfoldable pub mint_events :
    Reconciler → SettledOperation → MintExpectation → Option MintExecutedEvent
unfolding find_mint_event
mint_events service settled expected =
    find_mint_event expected.operation_reference
      (service.gateway.decode_mint_executed_events expected.contract_address settled.receipt.logs)

-- The end of `reconcileMint`: the supply against its cap
unfoldable pub check_supply :
    Reconciler
    → SettledOperation
    → MintExpectation
    → List ObservationKind
    → Action ReconciliationReport
unfolding run_check report
check_supply service settled expected findings = do
  token ← service.gateway.read_token_state expected.contract_address
  all ← run_check service settled findings total_supply (leb token.total_supply token.supply_cap)
  pure (report all)

-- Before it: the balance of the recipient
unfoldable pub check_balance :
    Reconciler
    → SettledOperation
    → MintExpectation
    → List ObservationKind
    → Action ReconciliationReport
unfolding check_supply
check_balance service settled expected findings = do
  balance ← service.gateway.read_balance_of expected.contract_address expected.recipient
  more ← run_check service settled findings recipient_balance (leb expected.amount balance)
  check_supply service settled expected more

-- Before it: the operation reference
unfoldable pub check_consumed :
    Reconciler
    → SettledOperation
    → MintExpectation
    → List ObservationKind
    → Action ReconciliationReport
unfolding check_balance
check_consumed service settled expected findings = do
  consumed ←
      service.gateway.read_reference_consumed expected.contract_address expected.operation_reference
  more ← run_check service settled findings reference_consumed consumed
  check_balance service settled expected more

-- Before it: the receipt and its event
unfoldable pub check_receipt :
    Reconciler
    → SettledOperation
    → MintExpectation
    → List ObservationKind
    → Action ReconciliationReport
unfolding check_consumed event_ok mint_events
check_receipt service settled expected findings = do
  f2 ← run_check service settled findings receipt (not settled.receipt.is_reverted)
  f3 ←
      run_check service settled f2 mint_event
        (event_ok expected (mint_events service settled expected))
  check_consumed service settled expected f3

unfoldable pub reconcile_mint :
    Reconciler → SettledOperation → MintExpectation → Action ReconciliationReport
unfolding check_receipt
reconcile_mint service settled expected = do
  identity ← service.gateway.get_chain_identity
  f1 ← run_check service settled [] chain_identity (identity == service.chain_id)
  check_receipt service settled expected f1

-- `assertContractDeployed(...).then(() => true).catch(() => false)`
unfoldable pub is_deployed : Reconciler → Text → Action Bool
is_deployed service address =
    try_catch (do service.gateway.assert_contract_deployed address; pure true) (λ e. pure false)

-- What a deployment is checked against
pub record TokenExpectation : Type 0 where
  pub symbol : Text
  pub decimals : ℕ
  pub supply_cap : ℕ

unfoldable pub metadata_ok : TokenExpectation → TokenChainState → Bool
metadata_ok expected token =
    text_eq token.symbol expected.symbol
    && (token.decimals == expected.decimals
        && (token.supply_cap == expected.supply_cap
            && (token.total_supply == 0 && not token.is_paused)))

-- The rest of `reconcileDeployment`, once the code was looked for
unfoldable pub check_code :
    Reconciler
    → SettledOperation
    → TokenExpectation
    → Text
    → List ObservationKind
    → Bool
    → Action ReconciliationReport
unfolding run_check report metadata_ok
check_code service settled expected address findings present = do
  f2 ← run_check service settled findings contract_code present
  if not present then pure (report f2) else (do
    token ← service.gateway.read_token_state address
    f3 ← run_check service settled f2 token_metadata (metadata_ok expected token)
    pure (report f3))

-- Its rest after the receipt's check: `!receiptOk || contractAddress === null` returns
unfoldable pub check_address :
    Reconciler
    → SettledOperation
    → TokenExpectation
    → Option Text
    → Bool
    → List ObservationKind
    → Action ReconciliationReport
unfolding is_deployed check_code report
check_address service settled expected none ok findings = pure (report findings)
check_address service settled expected (some address) ok findings =
    if ok
    then (do
      present ← is_deployed service address
      check_code service settled expected address findings present)
    else pure (report findings)

unfoldable pub reconcile_deployment :
    Reconciler → SettledOperation → TokenExpectation → Action ReconciliationReport
unfolding run_check check_address
reconcile_deployment service settled expected = do
  let ok = not settled.receipt.is_reverted && not (is_none settled.receipt.contract_address)
  findings ← run_check service settled [] receipt ok
  check_address service settled expected settled.receipt.contract_address ok findings

unfoldable pub reconcile_eligibility :
    Reconciler → SettledOperation → Text → Text → ℕ → Action ReconciliationReport
unfolding run_check report
reconcile_eligibility service settled contract_address account expected_eligible_until = do
  f1 ← run_check service settled [] receipt (not settled.receipt.is_reverted)
  on_chain ← service.gateway.read_eligible_until contract_address account
  f2 ← run_check service settled f1 eligibility_window (on_chain == expected_eligible_until)
  pure (report f2)

-- ===== src/Handlers/Mint.antt =====
-- src/modules/operations/handlers/mint-handler.ts.
use institutional_tokenizati.Base.{
  ℕ, ◌+◌, ◌/◌, Bool, true, false, not, Option, none, some, Text, text_eq, ltb,
}
use institutional_tokenizati.Domain.Errors.{
  app_error, asset_not_active, operation_conflict, asset_paused, supply_cap_exceeded,
}
use institutional_tokenizati.Db.{
  Operation, Asset, Wallet, AttemptPurpose, reference_consumed, critical, Action, Done, pure, gets,
  throw, or_throw, throw_if, ◌>>=◌, ◌>>◌,
}
use institutional_tokenizati.Repo.Reference.{find_asset_by_id, find_wallet_by_id}
use institutional_tokenizati.Repo.Observations.{ObservationInput, record_observation}
use institutional_tokenizati.Mints.Proposal.{rebuilt_hash}
use institutional_tokenizati.Transactions.ChainWriter.{EncodedCall}
use institutional_tokenizati.Executor.Interface.{
  OperationHandler, SettledOperation, ReconciliationReport,
}
use institutional_tokenizati.Gateway.{TokenChainState}
use institutional_tokenizati.Compliance.{ComplianceDeps, assert_eligible_for_execution}
use institutional_tokenizati.Reconciliation.{Reconciler, reconcile_mint}

-- The dependencies of the handler; the gateway and the chain are those of the reconciler.
pub record MintDeps : Type 0 where
  pub compliance : ComplianceDeps
  pub reconciliation : Reconciler
  pub mint_deadline_seconds : ℕ

pub record MintTarget : Type 0 where
  pub asset : Asset
  pub wallet : Wallet
  pub contract_address : Text
  pub amount : ℕ
  pub operation_reference : Text

-- The look-up of the operation's wallet
unfoldable pub wallet_of : Operation → Action (Option Wallet)
wallet_of operation = elim operation.wallet_id [ none ↦ pure none | some id ↦ find_wallet_by_id id ]

-- None of the five parts may be missing.
unfoldable pub target_of_parts :
    Option Asset → Option Text → Option Wallet → Option ℕ → Option Text → Option MintTarget
target_of_parts (some asset) (some contract) (some wallet) (some amount) (some reference) =
    some (record {
      asset = asset;
      wallet = wallet;
      contract_address = contract;
      amount = amount;
      operation_reference = reference;
    })
target_of_parts _ _ _ _ _ = none

abbrev pub contract_of : Option Asset → Option Text
contract_of none = none
contract_of (some a) = a.contract_address

-- `resolveTarget`
unfoldable pub resolve_mint_target : Operation → Action MintTarget
unfolding wallet_of target_of_parts
resolve_mint_target operation = do
  asset ← find_asset_by_id operation.asset_id
  wallet ← wallet_of operation
  or_throw
      (target_of_parts asset (contract_of asset) wallet operation.amount
        operation.operation_reference)
      (app_error asset_not_active)

-- What `prepare` notes when the reference was consumed before
unfoldable pub consumed_observation : MintDeps → Operation → ObservationInput
consumed_observation deps operation = record {
  operation_id = some operation.id;
  transaction_attempt_id = none;
  kind = reference_consumed;
  chain_id = deps.reconciliation.chain_id;
  block_number = none;
  block_hash = none;
  transaction_hash = none;
  is_matched = false;
  is_canonical = true;
  severity = critical;
}

unfoldable pub halt_if_consumed : MintDeps → Operation → Bool → Action Done
unfolding consumed_observation
halt_if_consumed deps operation false = pure tt
halt_if_consumed deps operation true = do
  record_observation (consumed_observation deps operation)
  throw (app_error operation_conflict)

-- The end of `prepare`: the token's state, and the call. `Date.now()` is in milliseconds.
unfoldable pub mint_call : MintDeps → MintTarget → TokenChainState → Action EncodedCall
mint_call deps target token = do
  throw_if token.is_paused (app_error asset_paused)
  throw_if (ltb token.supply_cap (token.total_supply + target.amount))
      (app_error supply_cap_exceeded)
  at ← gets λ s. s.clock
  pure (
      deps.reconciliation.gateway.encode_mint_call target.contract_address (record {
        recipient = target.wallet.address;
        amount = target.amount;
        operation_reference = target.operation_reference;
        deadline = at / 1000 + deps.mint_deadline_seconds;
      }))

-- `prepare`, from the reads of the chain on
unfoldable pub check_chain : MintDeps → Operation → MintTarget → Action EncodedCall
unfolding halt_if_consumed mint_call
check_chain deps operation target = do
  deps.reconciliation.gateway.get_chain_identity
  deps.reconciliation.gateway.assert_contract_deployed target.contract_address
  consumed ←
      deps.reconciliation.gateway.read_reference_consumed target.contract_address
        target.operation_reference
  halt_if_consumed deps operation consumed
  token ← deps.reconciliation.gateway.read_token_state target.contract_address
  mint_call deps target token

unfoldable pub prepare_mint : MintDeps → Operation → Action EncodedCall
unfolding resolve_mint_target check_chain
prepare_mint deps operation = do
  target ← resolve_mint_target operation
  throw_if
      (not (
        text_eq (rebuilt_hash deps.compliance.host operation target.asset target.wallet)
          operation.proposal_hash))
      (app_error operation_conflict)
  assert_eligible_for_execution deps.compliance target.wallet target.asset target.amount
  check_chain deps operation target

unfoldable pub assert_mint_executable : MintDeps → Operation → Action Done
unfolding resolve_mint_target
assert_mint_executable deps operation = do
  target ← resolve_mint_target operation
  assert_eligible_for_execution deps.compliance target.wallet target.asset target.amount
  pure tt

unfoldable pub reconcile_mint_operation : MintDeps → SettledOperation → Action ReconciliationReport
unfolding resolve_mint_target
reconcile_mint_operation deps settled = do
  target ← resolve_mint_target settled.operation
  reconcile_mint deps.reconciliation settled (record {
    contract_address = target.contract_address;
    recipient = target.wallet.address;
    amount = target.amount;
    operation_reference = target.operation_reference;
  })

-- MintHandler; it has no `applySuccess`.
unfoldable pub mint_handler : MintDeps → OperationHandler
unfolding prepare_mint assert_mint_executable reconcile_mint_operation
mint_handler deps = record {
  purpose = AttemptPurpose.mint_tokens;
  prepare = prepare_mint deps;
  assert_still_executable = assert_mint_executable deps;
  reconcile = reconcile_mint_operation deps;
  apply_success = λ settled. pure tt;
}

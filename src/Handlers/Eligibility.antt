-- ===== src/Handlers/Eligibility.antt =====
-- src/modules/operations/handlers/eligibility-sync-handler.ts.
use institutional_tokenizati.Base.{ℕ, not, ◌&&◌, Option, none, some, Text, text_eq, is_none}
use institutional_tokenizati.Domain.Canonical.{Host}
use institutional_tokenizati.Domain.Errors.{
  app_error, asset_not_active, compliance_not_eligible, operation_conflict,
}
use institutional_tokenizati.Db.{
  Operation, Asset, Wallet, ComplianceDecision, ComplianceStatus, AttemptPurpose, Action, Done,
  pure, or_throw, throw_if, ◌>>=◌, ◌>>◌, compliance_status_eq,
}
use institutional_tokenizati.Repo.Reference.{find_asset_by_id}
use institutional_tokenizati.Repo.Compliance.{find_decision_by_id, mark_compliance_chain_synced}
use institutional_tokenizati.Transactions.ChainWriter.{EncodedCall}
use institutional_tokenizati.Executor.Interface.{
  OperationHandler, SettledOperation, ReconciliationReport,
}
use institutional_tokenizati.Compliance.{eligible_until_for, hash_eligibility_sync_intent}
use institutional_tokenizati.Reconciliation.{Reconciler, reconcile_eligibility}
use institutional_tokenizati.Handlers.Mint.{wallet_of, contract_of}

pub record EligibilityDeps : Type 0 where
  pub host : Host
  pub reconciliation : Reconciler

-- What `resolveTarget` reads
pub record EligibilityParts : Type 0 where
  pub asset : Asset
  pub contract_address : Text
  pub wallet : Wallet
  pub decision : ComplianceDecision

-- EligibilityTarget
pub record EligibilityTarget : Type 0 where
  pub contract_address : Text
  pub account : Text
  pub eligible_until : ℕ
  pub decision_id : ℕ

unfoldable pub eligibility_parts :
    Option Asset → Option Text → Option Wallet → Option ComplianceDecision → Option EligibilityParts
eligibility_parts (some asset) (some contract) (some wallet) (some decision) =
    some
      (record { asset = asset; contract_address = contract; wallet = wallet; decision = decision })
eligibility_parts _ _ _ _ = none

unfoldable pub decision_of : Operation → Action (Option ComplianceDecision)
decision_of operation = elim operation.compliance_decision_id [
  | none ↦ pure none
  | some id ↦ find_decision_by_id id
]

-- The checks of `resolveTarget`, once all parts are found
unfoldable pub check_parts :
    EligibilityDeps → Operation → EligibilityParts → Action EligibilityTarget
check_parts deps operation parts = do
  throw_if
      (compliance_status_eq parts.decision.status ComplianceStatus.approved
        && not (is_none parts.decision.superseded_at))
      (app_error compliance_not_eligible)
  throw_if (compliance_status_eq parts.decision.status ComplianceStatus.rejected)
      (app_error compliance_not_eligible)
  throw_if
      (not (
        text_eq
          (hash_eligibility_sync_intent deps.host parts.asset parts.wallet parts.decision.id
            (eligible_until_for parts.decision))
          operation.proposal_hash))
      (app_error operation_conflict)
  pure (record {
    contract_address = parts.contract_address;
    account = parts.wallet.address;
    eligible_until = eligible_until_for parts.decision;
    decision_id = parts.decision.id;
  })

-- `resolveTarget`
unfoldable pub resolve_eligibility_target : EligibilityDeps → Operation → Action EligibilityTarget
unfolding eligibility_parts decision_of check_parts wallet_of
resolve_eligibility_target deps operation = do
  asset ← find_asset_by_id operation.asset_id
  wallet ← wallet_of operation
  decision ← decision_of operation
  parts ←
      or_throw (eligibility_parts asset (contract_of asset) wallet decision)
        (app_error asset_not_active)
  check_parts deps operation parts

unfoldable pub prepare_eligibility : EligibilityDeps → Operation → Action EncodedCall
unfolding resolve_eligibility_target
prepare_eligibility deps operation = do
  target ← resolve_eligibility_target deps operation
  deps.reconciliation.gateway.get_chain_identity
  deps.reconciliation.gateway.assert_contract_deployed target.contract_address
  pure (
      deps.reconciliation.gateway.encode_set_eligibility_call target.contract_address target.account
        target.eligible_until)

unfoldable pub reconcile_eligibility_operation :
    EligibilityDeps → SettledOperation → Action ReconciliationReport
unfolding resolve_eligibility_target
reconcile_eligibility_operation deps settled = do
  target ← resolve_eligibility_target deps settled.operation
  reconcile_eligibility deps.reconciliation settled target.contract_address target.account
      target.eligible_until

-- `applySuccess`
unfoldable pub mark_synced : SettledOperation → Action Done
mark_synced settled = elim settled.operation.compliance_decision_id [
  | none ↦ pure tt
  | some id ↦ mark_compliance_chain_synced id settled.receipt.transaction_hash
]

-- EligibilitySyncHandler; it has no `assertStillExecutable`.
unfoldable pub eligibility_handler : EligibilityDeps → OperationHandler
unfolding prepare_eligibility reconcile_eligibility_operation mark_synced
eligibility_handler deps = record {
  purpose = AttemptPurpose.set_eligibility;
  prepare = prepare_eligibility deps;
  assert_still_executable = λ operation. pure tt;
  reconcile = reconcile_eligibility_operation deps;
  apply_success = mark_synced;
}

-- ===== src/Handlers/Deployment.antt =====
-- src/modules/operations/handlers/asset-deployment-handler.ts.
use institutional_tokenizati.Base.{not, ◌||◌, Text, text_eq, is_none}
use institutional_tokenizati.Domain.Canonical.{Host}
use institutional_tokenizati.Domain.Errors.{
  app_error, resource_not_found, operation_conflict, chain_identity_mismatch,
}
use institutional_tokenizati.Db.{
  Operation, Asset, AssetStatus, AttemptPurpose, Action, Done, pure, or_throw, throw_if, ◌>>=◌,
  ◌>>◌, asset_status_eq,
}
use institutional_tokenizati.Repo.Assets.{mark_asset_active}
use institutional_tokenizati.Repo.Reference.{find_asset_by_id}
use institutional_tokenizati.Transactions.ChainWriter.{EncodedCall}
use institutional_tokenizati.Executor.Interface.{
  OperationHandler, SettledOperation, ReconciliationReport,
}
use institutional_tokenizati.Compliance.{hash_asset_deployment_intent}
use institutional_tokenizati.Reconciliation.{Reconciler, reconcile_deployment}

pub record DeploymentDeps : Type 0 where
  pub host : Host
  pub get_signer_address : Action Text
  pub reconciliation : Reconciler

-- `requireProvisioningAsset`
unfoldable pub require_provisioning_asset : DeploymentDeps → Operation → Action Asset
require_provisioning_asset deps operation = do
  found ← find_asset_by_id operation.asset_id
  asset ← or_throw found (app_error resource_not_found)
  throw_if
      (not (asset_status_eq asset.status AssetStatus.provisioning)
        || not (is_none asset.contract_address))
      (app_error operation_conflict)
  throw_if (not (text_eq (hash_asset_deployment_intent deps.host asset) operation.proposal_hash))
      (app_error operation_conflict)
  pure asset

unfoldable pub prepare_deployment : DeploymentDeps → Operation → Action EncodedCall
unfolding require_provisioning_asset
prepare_deployment deps operation = do
  asset ← require_provisioning_asset deps operation
  signer_address ← deps.get_signer_address
  pure (
      deps.reconciliation.gateway.encode_token_deployment (record {
        name = asset.name;
        symbol = asset.symbol;
        decimals = asset.decimals;
        supply_cap = asset.supply_cap;
        admin = signer_address;
        minter = signer_address;
        compliance_officer = signer_address;
        pauser = signer_address;
      }))

unfoldable pub reconcile_deployment_operation :
    DeploymentDeps → SettledOperation → Action ReconciliationReport
reconcile_deployment_operation deps settled = do
  found ← find_asset_by_id settled.operation.asset_id
  asset ← or_throw found (app_error resource_not_found)
  reconcile_deployment deps.reconciliation settled
      (record { symbol = asset.symbol; decimals = asset.decimals; supply_cap = asset.supply_cap })

-- `applySuccess`
unfoldable pub activate_asset : SettledOperation → Action Done
activate_asset settled = do
  contract_address ← or_throw settled.receipt.contract_address (app_error chain_identity_mismatch)
  mark_asset_active settled.operation.asset_id contract_address settled.receipt.transaction_hash

-- AssetDeploymentHandler; it has no `assertStillExecutable`.
unfoldable pub deployment_handler : DeploymentDeps → OperationHandler
unfolding prepare_deployment reconcile_deployment_operation activate_asset
deployment_handler deps = record {
  purpose = AttemptPurpose.deploy_token;
  prepare = prepare_deployment deps;
  assert_still_executable = λ operation. pure tt;
  reconcile = reconcile_deployment_operation deps;
  apply_success = activate_asset;
}

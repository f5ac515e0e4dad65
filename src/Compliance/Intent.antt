-- ===== src/Compliance/Intent.antt =====
-- src/modules/operations/administrative-intent.ts: the intents of administrative operations.
use institutional_tokenizati.Base.{ℕ, ◌/◌, Text, codes, to_lower, if◌then◌else◌}
use institutional_tokenizati.Domain.Canonical.{Host, JsonValue, Fields, canonical_hash, decimal}
use institutional_tokenizati.Db.{
  Asset, Wallet, ComplianceDecision, ComplianceStatus, compliance_status_eq,
}

-- `hashAssetDeploymentIntent`
unfoldable pub hash_asset_deployment_intent : Host → Asset → Text
hash_asset_deployment_intent host asset = canonical_hash host (
    JsonValue.obj (
      Fields.field (codes "kind") (JsonValue.str (codes "DEPLOY_ASSET")) (
        Fields.field (codes "assetId") (JsonValue.str (host.uuid_text asset.id)) (
          Fields.field (codes "chainId") (JsonValue.num asset.chain_id) (
            Fields.field (codes "symbol") (JsonValue.str asset.symbol) (
              Fields.field (codes "name") (JsonValue.str asset.name) (
                Fields.field (codes "decimals") (JsonValue.num asset.decimals) (
                  Fields.field (codes "supplyCap") (JsonValue.str (decimal asset.supply_cap))
                    Fields.end))))))))

-- `eligibleUntilFor`: seconds, and 0 for anything but an approval
unfoldable pub eligible_until_for : ComplianceDecision → ℕ
eligible_until_for decision =
    if compliance_status_eq decision.status ComplianceStatus.approved
    then decision.valid_until / 1000
    else 0

-- `hashEligibilitySyncIntent`
unfoldable pub hash_eligibility_sync_intent : Host → Asset → Wallet → ℕ → ℕ → Text
hash_eligibility_sync_intent host asset wallet decision_id eligible_until = canonical_hash host (
    JsonValue.obj (
      Fields.field (codes "kind") (JsonValue.str (codes "SYNC_ELIGIBILITY")) (
        Fields.field (codes "assetId") (JsonValue.str (host.uuid_text asset.id)) (
          Fields.field (codes "chainId") (JsonValue.num asset.chain_id) (
            Fields.field (codes "walletId") (JsonValue.str (host.uuid_text wallet.id)) (
              Fields.field (codes "walletAddress") (JsonValue.str (to_lower wallet.address)) (
                Fields.field (codes "complianceDecisionId")
                  (JsonValue.str (host.uuid_text decision_id))
                  (Fields.field (codes "eligibleUntil") (JsonValue.str (decimal eligible_until))
                    Fields.end))))))))

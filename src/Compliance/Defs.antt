-- ===== src/Compliance/Defs.antt =====
-- src/modules/compliance/compliance-service.ts: the operations of the service. Metrics are left out.
use institutional_tokenizati.Base.{
  ℕ, Bool, true, false, not, Option, none, some, [], ◌∷◌, ◌==◌, Text, is_none, get_or,
  if◌then◌else◌,
}
use institutional_tokenizati.Domain.Canonical.{Host}
use institutional_tokenizati.Domain.OperationState.{ready, cancelled, state_eq}
use institutional_tokenizati.Domain.Errors.{
  app_error, forbidden, resource_not_found, asset_not_active, operation_conflict,
}
use institutional_tokenizati.Domain.Roles.{Actor, compliance_officer, admin, is_permitted}
use institutional_tokenizati.Db.{
  Operation, Asset, Wallet, ComplianceDecision, ComplianceStatus, sync_eligibility,
  superseded_by_newer_decision, compliance_decision_recorded, Action, Done, pure, or_throw,
  throw_if, transaction, ◌>>=◌, ◌>>◌, compliance_status_eq,
}
use institutional_tokenizati.Repo.Operations.{
  failure, find_operation_by_id, find_live_administrative_operation,
  insert_administrative_operation, transition_operation,
}
use institutional_tokenizati.Repo.Outbox.{enqueue_outbox}
use institutional_tokenizati.Repo.Reference.{
  find_asset_by_id, find_wallet_by_id, record_audit_event,
}
use institutional_tokenizati.Repo.Compliance.{
  supersede_active_decisions, insert_compliance_decision,
}
use institutional_tokenizati.Gateway.{ComplianceProvider, Screening}
use institutional_tokenizati.Compliance.Intent.{eligible_until_for, hash_eligibility_sync_intent}

-- RequestContext
pub record RequestContext : Type 0 where
  pub actor : Actor
  pub correlation_id : ℕ

pub record ComplianceDeps : Type 0 where
  pub host : Host
  pub provider : ComplianceProvider

-- RecordComplianceResult
pub record RecordComplianceResult : Type 0 where
  pub decision : ComplianceDecision
  pub operation_id : Option ℕ

-- `clearLiveEligibilitySync`, from its first look-up on
unfoldable pub cancel_locked : Option Operation → Action Done
cancel_locked none = pure tt
cancel_locked (some locked) = do
  throw_if (not (state_eq locked.state ready)) (app_error operation_conflict)
  transition_operation locked cancelled (failure superseded_by_newer_decision)
  pure tt

unfoldable pub cancel_live : Option Operation → Action Done
unfolding cancel_locked
cancel_live none = pure tt
cancel_live (some live) = do locked ← find_operation_by_id live.id; cancel_locked locked

unfoldable pub clear_live_eligibility_sync : ℕ → ℕ → Action Done
unfolding cancel_live
clear_live_eligibility_sync asset_id wallet_id = do
  live ← find_live_administrative_operation sync_eligibility asset_id (some wallet_id)
  cancel_live live

unfoldable pub enqueue_eligibility_sync :
    ComplianceDeps → Asset → Wallet → ComplianceDecision → ℕ → ℕ → Action Operation
unfolding clear_live_eligibility_sync
enqueue_eligibility_sync deps asset wallet decision requested_by correlation_id = do
  clear_live_eligibility_sync asset.id wallet.id
  operation ←
      insert_administrative_operation sync_eligibility wallet.organization_id asset.id
        (some wallet.id) (some decision.id)
        (hash_eligibility_sync_intent deps.host asset wallet decision.id
          (eligible_until_for decision))
        requested_by correlation_id
  enqueue_outbox operation.id correlation_id
  pure operation

-- `asset === null ? null : await this.enqueueEligibilitySync(...)`
unfoldable pub sync_if_asset :
    ComplianceDeps → Option Asset → Wallet → ComplianceDecision → ℕ → ℕ → Action (Option ℕ)
unfolding enqueue_eligibility_sync
sync_if_asset deps none wallet decision requested_by correlation_id = pure none
sync_if_asset deps (some asset) wallet decision requested_by correlation_id = do
  operation ← enqueue_eligibility_sync deps asset wallet decision requested_by correlation_id
  pure (some operation.id)

-- `wallet === null || wallet.organizationId !== ctx.actor.organizationId`
abbrev pub owned_wallet : Actor → Option Wallet → Option Wallet
owned_wallet actor none = none
owned_wallet actor (some w) = if w.organization_id == actor.organization_id then some w else none

-- The first guards of `recordDecision` and of `revokeDecision`
unfoldable pub require_wallet : RequestContext → ℕ → Action Wallet
require_wallet ctx wallet_id = do
  throw_if (not (is_permitted ctx.actor (compliance_officer ∷ admin ∷ []))) (app_error forbidden)
  found ← find_wallet_by_id wallet_id
  or_throw (owned_wallet ctx.actor found) (app_error resource_not_found)

abbrev pub has_contract : Option Asset → Bool
has_contract none = false
has_contract (some a) = not (is_none a.contract_address)

-- `required ? await findAssetById(...) : null`, and the refusal of an asset without a contract
unfoldable pub deployed_asset : Bool → Option ℕ → Action (Option Asset)
deployed_asset false asset_id = pure none
deployed_asset true none = pure none
deployed_asset true (some asset_id) = do
  asset ← find_asset_by_id asset_id
  throw_if (not (has_contract asset)) (app_error asset_not_active)
  pure asset

-- The transaction of `recordDecision`
unfoldable pub store_decision :
    ComplianceDeps
    → RequestContext
    → Wallet
    → Option ℕ
    → Text
    → Screening
    → Option Asset
    → Action RecordComplianceResult
unfolding sync_if_asset
store_decision deps ctx wallet asset_id subject screening asset = transaction (do
  supersede_active_decisions wallet.id asset_id
  decision ← insert_compliance_decision (record {
    wallet_id = wallet.id;
    asset_id = asset_id;
    status = screening.status;
    subject_reference = subject;
    valid_from = screening.valid_from;
    valid_until = screening.valid_until;
    decided_at = screening.decided_at;
    decided_by = ctx.actor.id;
  })
  operation_id ← sync_if_asset deps asset wallet decision ctx.actor.id ctx.correlation_id
  record_audit_event ctx.actor compliance_decision_recorded decision.id operation_id
  pure (record { decision = decision; operation_id = operation_id }))

unfoldable pub record_decision :
    ComplianceDeps → RequestContext → ℕ → Option ℕ → Option Text → Action RecordComplianceResult
unfolding require_wallet deployed_asset store_decision
record_decision deps ctx wallet_id asset_id subject_reference = do
  wallet ← require_wallet ctx wallet_id
  let subject = get_or subject_reference wallet.investor_reference
  screening ← deps.provider.screen subject wallet.address wallet.chain_id asset_id
  asset ← deployed_asset (compliance_status_eq screening.status ComplianceStatus.approved) asset_id
  store_decision deps ctx wallet asset_id subject screening asset

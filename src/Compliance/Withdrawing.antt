-- ===== src/Compliance/Withdrawing.antt =====
-- src/modules/compliance/compliance-service.ts: revocation, expiry and the check before execution.
use institutional_tokenizati.Base.{
  ℕ, ◌+◌, true, not, Option, none, some, List, [], ◌∷◌, is_none, get_or, option_map, if◌then◌else◌,
}
use institutional_tokenizati.Domain.Errors.{app_error, compliance_not_eligible}
use institutional_tokenizati.Domain.Roles.{system_actor}
use institutional_tokenizati.Db.{
  Asset, Wallet, ComplianceDecision, ComplianceStatus, sync_eligibility, compliance_revoked,
  compliance_expired, Action, Done, pure, gets, or_throw, throw_if, transaction, ◌>>=◌, ◌>>◌,
}
use institutional_tokenizati.Repo.Operations.{find_live_administrative_operation}
use institutional_tokenizati.Repo.Reference.{
  find_asset_by_id, find_wallet_by_id, record_audit_event,
}
use institutional_tokenizati.Repo.Compliance.{
  supersede_active_decisions, insert_compliance_decision, find_active_approval,
  find_latest_revocation, find_lapsed_approvals, mark_decision_expired,
}
use institutional_tokenizati.Compliance.Defs.{
  RequestContext, ComplianceDeps, RecordComplianceResult, sync_if_asset, require_wallet,
  has_contract, deployed_asset,
}

-- A revocation that was made before: its operation, if that is still under way
unfoldable pub repeat_revocation :
    Option Asset → Wallet → ComplianceDecision → Action RecordComplianceResult
repeat_revocation none wallet revocation =
    pure (record { decision = revocation; operation_id = none })
repeat_revocation (some asset) wallet revocation = do
  in_flight ← find_live_administrative_operation sync_eligibility asset.id (some wallet.id)
  pure (record { decision = revocation; operation_id = option_map (λ o. o.id) in_flight })

-- The revocation itself; `live` is the approval that it withdraws
unfoldable pub store_revocation :
    ComplianceDeps
    → RequestContext
    → Wallet
    → Option ℕ
    → Option Asset
    → Option ComplianceDecision
    → Action RecordComplianceResult
unfolding sync_if_asset
store_revocation deps ctx wallet asset_id asset live = do
  if is_none live then pure tt else supersede_active_decisions wallet.id asset_id
  at ← gets λ s. s.clock
  revocation ← insert_compliance_decision (record {
    wallet_id = wallet.id;
    asset_id = asset_id;
    status = ComplianceStatus.revoked;
    subject_reference =
        get_or (option_map (λ d. d.subject_reference) live) wallet.investor_reference;
    valid_from = at;
    valid_until = at + 1000;
    decided_at = at;
    decided_by = ctx.actor.id;
  })
  operation_id ← sync_if_asset deps asset wallet revocation ctx.actor.id ctx.correlation_id
  record_audit_event ctx.actor compliance_revoked revocation.id operation_id
  pure (record { decision = revocation; operation_id = operation_id })

-- `live === null && existingRevocation !== null`
unfoldable pub revoke_or_repeat :
    ComplianceDeps
    → RequestContext
    → Wallet
    → Option ℕ
    → Option Asset
    → Option ComplianceDecision
    → Option ComplianceDecision
    → Action RecordComplianceResult
unfolding repeat_revocation store_revocation
revoke_or_repeat deps ctx wallet asset_id asset none (some revocation) =
    repeat_revocation asset wallet revocation
revoke_or_repeat deps ctx wallet asset_id asset none none =
    store_revocation deps ctx wallet asset_id asset none
revoke_or_repeat deps ctx wallet asset_id asset (some live) existing =
    store_revocation deps ctx wallet asset_id asset (some live)

unfoldable pub revoke_decision :
    ComplianceDeps → RequestContext → ℕ → Option ℕ → Action RecordComplianceResult
unfolding require_wallet deployed_asset revoke_or_repeat
revoke_decision deps ctx wallet_id asset_id = do
  wallet ← require_wallet ctx wallet_id
  asset ← deployed_asset true asset_id
  transaction (do
    live ← find_active_approval wallet.id asset_id
    existing ← find_latest_revocation wallet.id asset_id
    revoke_or_repeat deps ctx wallet asset_id asset live existing)

abbrev pub with_contract : Option Asset → Option Asset
with_contract asset = if has_contract asset then asset else none

-- The transaction that expires one approval. Its correlation id, `compliance-expiry-<id>`, is the
-- decision's number.
unfoldable pub expire_decision :
    ComplianceDeps → Wallet → Option Asset → ComplianceDecision → Action Done
unfolding sync_if_asset
expire_decision deps wallet asset decision = transaction (do
  mark_decision_expired decision.id
  operation_id ←
      sync_if_asset deps (with_contract asset) wallet
        (record decision { status = ComplianceStatus.expired }) decision.decided_by decision.id
  record_audit_event (system_actor 0) compliance_expired decision.id operation_id)

unfoldable pub asset_of : Option ℕ → Action (Option Asset)
asset_of none = pure none
asset_of (some id) = find_asset_by_id id

-- One turn of the loop: how many approvals it expired
unfoldable pub expire_if_wallet :
    ComplianceDeps → ComplianceDecision → Option Asset → Option Wallet → Action ℕ
unfolding expire_decision
expire_if_wallet deps decision asset none = pure 0
expire_if_wallet deps decision asset (some wallet) = do
  expire_decision deps wallet asset decision
  pure 1

unfoldable pub expire_each : ComplianceDeps → List ComplianceDecision → Action ℕ
unfolding asset_of expire_if_wallet
expire_each deps [] = pure 0
expire_each deps (decision ∷ rest) = do
  wallet ← find_wallet_by_id decision.wallet_id
  asset ← asset_of decision.asset_id
  expired ← expire_if_wallet deps decision asset wallet
  others ← expire_each deps rest
  pure (expired + others)

-- `expireLapsedApprovals`, for all that `findLapsedApprovals` lists
unfoldable pub expire_lapsed_approvals : ComplianceDeps → Action ℕ
unfolding expire_each
expire_lapsed_approvals deps = do lapsed ← find_lapsed_approvals; expire_each deps lapsed

-- `assertEligibleForExecution`: the decision's identifier
unfoldable pub assert_eligible_for_execution : ComplianceDeps → Wallet → Asset → ℕ → Action ℕ
assert_eligible_for_execution deps wallet asset amount = do
  found ← find_active_approval wallet.id (some asset.id)
  decision ← or_throw found (app_error compliance_not_eligible)
  eligible ←
      deps.provider.check_eligibility wallet.investor_reference wallet.address asset.chain_id
        asset.id amount
  throw_if (not eligible) (app_error compliance_not_eligible)
  pure decision.id

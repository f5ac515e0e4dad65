-- ===== src/Repo/Reference.antt =====
-- src/db/repositories/asset-repository.ts, wallet-repository.ts and audit-repository.ts: look-ups of
-- assets and wallets, and the audit trail.
use institutional_tokenizati.Base.{ℕ, Option, ◌∷◌, find_row, ◌==◌}
use institutional_tokenizati.Domain.Roles.{Actor}
use institutional_tokenizati.Db.{Action, Done, gets, modify, AuditAction, Asset, Wallet}

unfoldable pub find_asset_by_id : ℕ → Action (Option Asset)
find_asset_by_id id = gets λ s. find_row (λ a. a.id == id) s.assets

unfoldable pub find_wallet_by_id : ℕ → Action (Option Wallet)
find_wallet_by_id id = gets λ s. find_row (λ w. w.id == id) s.wallets

-- `recordAuditEvent`
unfoldable pub record_audit_event : Actor → AuditAction → ℕ → Option ℕ → Action Done
record_audit_event actor action resource_id operation_id = modify λ s. record s {
  audit =
      record {
        actor_type = actor.type;
        actor_id = actor.id;
        action = action;
        resource_id = resource_id;
        operation_id = operation_id;
      }
      ∷ s.audit;
}

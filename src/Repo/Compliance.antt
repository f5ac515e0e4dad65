-- ===== src/Repo/Compliance.antt =====
-- src/db/repositories/compliance-repository.ts: compliance decisions and the windows they cover.
use institutional_tokenizati.Base.{
  ℕ, Bool, true, ◌&&◌, Option, none, some, List, [], ◌∷◌, ◌==◌, ltb, leb, Text, to_lower, is_none,
  option_eq, any, not, find_row, update_rows, select_rows, if◌then◌else◌,
}
use institutional_tokenizati.Domain.Errors.{
  constraint_violation, one_active_per_wallet, validity_window,
}
use institutional_tokenizati.Db.{
  ComplianceDecision, ComplianceStatus, ChainSyncStatus, approved, revoked, Action, Done, pure,
  gets, modify, throw_if, fresh_id, ◌>>=◌, ◌>>◌, compliance_status_eq,
}

pub record InsertComplianceDecisionInput : Type 0 where
  pub wallet_id : ℕ
  pub asset_id : Option ℕ
  pub status : ComplianceStatus
  pub subject_reference : Text
  pub valid_from : ℕ
  pub valid_until : ℕ
  pub decided_at : ℕ
  pub decided_by : ℕ

-- A live approval: APPROVED, and not superseded
abbrev pub is_live_approval : ComplianceDecision → Bool
is_live_approval d = compliance_status_eq d.status approved && is_none d.superseded_at

-- The WHERE of `supersedeActiveDecisions`
abbrev pub is_live_for : ℕ → Option ℕ → ComplianceDecision → Bool
is_live_for wallet_id asset_id d =
    d.wallet_id == wallet_id && (option_eq ◌==◌ d.asset_id asset_id && is_live_approval d)

unfoldable pub write_superseded : ℕ → ComplianceDecision → ComplianceDecision
write_superseded now d = record d { superseded_at = some now }

unfoldable pub supersede_active_decisions : ℕ → Option ℕ → Action Done
unfolding write_superseded
supersede_active_decisions wallet_id asset_id = modify λ s. record s {
  compliance_decisions =
      update_rows (is_live_for wallet_id asset_id) (write_superseded s.now) s.compliance_decisions;
}

unfoldable pub decision_row : ℕ → InsertComplianceDecisionInput → ComplianceDecision
decision_row id input = record {
  id = id;
  wallet_id = input.wallet_id;
  asset_id = input.asset_id;
  status = input.status;
  subject_reference = input.subject_reference;
  valid_from = input.valid_from;
  valid_until = input.valid_until;
  decided_at = input.decided_at;
  decided_by = input.decided_by;
  chain_sync_status = ChainSyncStatus.pending;
  chain_sync_tx_hash = none;
  superseded_at = none;
}

-- The constraint compliance_decisions_validity_window, and the unique index
-- compliance_decisions_one_active_per_wallet of src/db/migrations/0001_init.sql, are checked.
unfoldable pub insert_compliance_decision :
    InsertComplianceDecisionInput → Action ComplianceDecision
unfolding decision_row
insert_compliance_decision input = do
  throw_if (not (ltb input.valid_from input.valid_until)) (constraint_violation validity_window)
  taken ← gets λ s. any (is_live_for input.wallet_id input.asset_id) s.compliance_decisions
  throw_if (taken && compliance_status_eq input.status approved)
      (constraint_violation one_active_per_wallet)
  id ← fresh_id
  modify λ s. record s { compliance_decisions = decision_row id input ∷ s.compliance_decisions }
  pure (decision_row id input)

abbrev pub has_decision_id : ℕ → ComplianceDecision → Bool
has_decision_id id d = d.id == id

unfoldable pub mark_compliance_chain_synced : ℕ → Text → Action Done
mark_compliance_chain_synced decision_id hash = modify λ s. record s {
  compliance_decisions =
      update_rows (has_decision_id decision_id)
        (λ d. record d {
          chain_sync_status = ChainSyncStatus.synced;
          chain_sync_tx_hash = some (to_lower hash);
        })
        s.compliance_decisions;
}

unfoldable pub mark_compliance_chain_sync_failed : ℕ → Action Done
mark_compliance_chain_sync_failed decision_id = modify λ s. record s {
  compliance_decisions =
      update_rows (has_decision_id decision_id)
        (λ d. record d { chain_sync_status = ChainSyncStatus.failed }) s.compliance_decisions;
}

-- `asset_id IS NULL OR asset_id = $1`, or `asset_id IS NULL` where no asset is asked for
unfoldable pub covers_asset : Option ℕ → ComplianceDecision → Bool
covers_asset none d = is_none d.asset_id
covers_asset (some asset_id) d = elim d.asset_id [ none ↦ true | some own ↦ own == asset_id ]

-- The WHERE of `findActiveApproval`, at PostgreSQL's clock: the window is half-open
unfoldable pub is_active_approval : ℕ → Option ℕ → ℕ → ComplianceDecision → Bool
unfolding covers_asset
is_active_approval wallet_id asset_id now d =
    d.wallet_id == wallet_id
    && (is_live_approval d
        && (leb d.valid_from now && (ltb now d.valid_until && covers_asset asset_id d)))

-- ORDER BY decided_at DESC LIMIT 1
unfoldable pub latest_decision : List ComplianceDecision → Option ComplianceDecision
latest_decision [] = none
latest_decision (d ∷ ds) = elim (latest_decision ds) [
  | none ↦ some d
  | some e ↦ some (if ltb d.decided_at e.decided_at then e else d)
]

unfoldable pub find_active_approval : ℕ → Option ℕ → Action (Option ComplianceDecision)
unfolding latest_decision is_active_approval
find_active_approval wallet_id asset_id = gets λ s.
    latest_decision
      (select_rows (is_active_approval wallet_id asset_id s.now) s.compliance_decisions)

abbrev pub is_revocation_of : ℕ → Option ℕ → ComplianceDecision → Bool
is_revocation_of wallet_id asset_id d =
    d.wallet_id == wallet_id
    && (compliance_status_eq d.status revoked && option_eq ◌==◌ d.asset_id asset_id)

unfoldable pub find_latest_revocation : ℕ → Option ℕ → Action (Option ComplianceDecision)
unfolding latest_decision
find_latest_revocation wallet_id asset_id =
    gets λ s.
      latest_decision (select_rows (is_revocation_of wallet_id asset_id) s.compliance_decisions)

-- The WHERE of `findLapsedApprovals`, which is here without its LIMIT
abbrev pub is_lapsed_approval : ℕ → ComplianceDecision → Bool
is_lapsed_approval now d = is_live_approval d && leb d.valid_until now

unfoldable pub find_lapsed_approvals : Action (List ComplianceDecision)
find_lapsed_approvals = gets λ s. select_rows (is_lapsed_approval s.now) s.compliance_decisions

unfoldable pub write_expired : ℕ → ComplianceDecision → ComplianceDecision
write_expired now d = record d { status = ComplianceStatus.expired; superseded_at = some now }

unfoldable pub mark_decision_expired : ℕ → Action Done
unfolding write_expired
mark_decision_expired decision_id = modify λ s. record s {
  compliance_decisions =
      update_rows (has_decision_id decision_id) (write_expired s.now) s.compliance_decisions;
}

unfoldable pub find_decision_by_id : ℕ → Action (Option ComplianceDecision)
find_decision_by_id id = gets λ s. find_row (has_decision_id id) s.compliance_decisions

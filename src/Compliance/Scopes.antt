-- ===== src/Compliance/Scopes.antt =====
-- src/db/repositories/compliance-repository.ts: `supersedeActiveDecisions` and the scopes of approvals.
use institutional_tokenizati.Base.{
  ℕ, ◌≡◌, ◌↔◌, true, none, refl, ap, ◌∙◌, Bool, false, Option, some, List, [], ◌∷◌, arith, any,
  find_row, update_rows, find_row-update_rows, option_map, touch, ◌==◌, Bool-cases, inl, inr,
}
use institutional_tokenizati.Db.{
  Store, ComplianceDecision, ComplianceStatus, modify, compliance_status_eq,
}
use institutional_tokenizati.Repo.Compliance.{
  is_live_for, write_superseded, supersede_active_decisions, has_decision_id,
}

none_live :
    (wallet_id : ℕ) (asset_id : Option ℕ) (now : ℕ) (ds : List ComplianceDecision)
    → any
        (is_live_for wallet_id asset_id)
        (update_rows (is_live_for wallet_id asset_id) (write_superseded now) ds)
      ≡ false
unfolding update_rows write_superseded
none_live wallet_id asset_id now [] = refl
none_live wallet_id asset_id now (d ∷ ds) = elim (Bool-cases (is_live_for wallet_id asset_id d)) [
  | inl h ↦ rw h (ground (arith, none_live wallet_id asset_id now ds))
  | inr h ↦ rw h (rw h (none_live wallet_id asset_id now ds))
]

touched_id :
    (q : ComplianceDecision → Bool) (now : ℕ) (d : ComplianceDecision)
    → (write_superseded now d).id ≡ d.id
unfolding write_superseded
touched_id q now d = refl

-- A live approval of the scope: of this wallet, and of this asset or, with none, of all assets
pub record IsInScope (wallet_id : ℕ) (asset_id : Option ℕ) (d : ComplianceDecision) : Type 0 where
  pub of_wallet : d.wallet_id ≡ wallet_id
  pub of_asset : d.asset_id ≡ asset_id
  pub is_approved : d.status ≡ ComplianceStatus.approved
  pub not_superseded : d.superseded_at ≡ none

IsInScope-iff :
    (wallet_id : ℕ) (asset_id : Option ℕ) (d : ComplianceDecision)
    → (is_live_for wallet_id asset_id d ≡ true) ↔ IsInScope wallet_id asset_id d
unfolding compliance_status_eq
IsInScope-iff wallet_id asset_id d = (
  λ h. record {
    of_wallet = ground (arith, h);
    of_asset = ground (arith, h);
    is_approved = ground (arith, h);
    not_superseded = ground (arith, h);
  },
  λ h. ground (arith, h.of_wallet, h.of_asset, h.is_approved, h.not_superseded),
)

-- Superseding a scope, a wallet with one asset or with none, leaves no live approval in that scope.
-- Each decision that was one has the time of the call as its end, and is otherwise as it was; each
-- decision outside the scope, of another wallet, of another asset or for all assets, or not live,
-- is as it was: so one that covers a wallet for all assets stays live when the approvals for one
-- asset are superseded.
pub supersede_clears_scope :
    (wallet_id : ℕ) (asset_id : Option ℕ) (s : Store)
    → (any
          (is_live_for wallet_id asset_id)
          (supersede_active_decisions wallet_id asset_id s).1.compliance_decisions
        ≡ false)
      × ((d : ComplianceDecision)
          → find_row (has_decision_id d.id) s.compliance_decisions ≡ some d
          → IsInScope wallet_id asset_id d
          → find_row
              (has_decision_id d.id)
              (supersede_active_decisions wallet_id asset_id s).1.compliance_decisions
            ≡ some (record d { superseded_at = some s.now }))
      × ((d : ComplianceDecision)
          → find_row (has_decision_id d.id) s.compliance_decisions ≡ some d
          → ¬ IsInScope wallet_id asset_id d
          → find_row
              (has_decision_id d.id)
              (supersede_active_decisions wallet_id asset_id s).1.compliance_decisions
            ≡ some d)
unfolding supersede_active_decisions modify write_superseded
supersede_clears_scope wallet_id asset_id s = (
  none_live wallet_id asset_id s.now s.compliance_decisions,
  λ d f h. now_has d f ∙ ap some (rw ((IsInScope-iff wallet_id asset_id d).1 h) refl),
  λ d f h. now_has d f ∙ ap some (elsewhere_kept d h),
)
  where
    now_has :
        (d : ComplianceDecision)
        → find_row (has_decision_id d.id) s.compliance_decisions ≡ some d
        → find_row
            (has_decision_id d.id)
            (supersede_active_decisions wallet_id asset_id s).1.compliance_decisions
          ≡ some (touch (is_live_for wallet_id asset_id) (write_superseded s.now) d)
    now_has d f =
        find_row-update_rows (has_decision_id d.id) (is_live_for wallet_id asset_id)
          (write_superseded s.now) s.compliance_decisions
          (λ a. ap (λ i. i == d.id) (touched_id (is_live_for wallet_id asset_id) s.now a))
        ∙ ap (option_map (touch (is_live_for wallet_id asset_id) (write_superseded s.now))) f

    elsewhere_kept :
        (d : ComplianceDecision)
        → ¬ IsInScope wallet_id asset_id d
        → touch (is_live_for wallet_id asset_id) (write_superseded s.now) d ≡ d
    elsewhere_kept d other = elim (Bool-cases (is_live_for wallet_id asset_id d)) [
      | inl h ↦ absurd (other ((IsInScope-iff wallet_id asset_id d).0 h))
      | inr h ↦ rw h refl
    ]

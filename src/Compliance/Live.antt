-- ===== src/Compliance/Live.antt =====
-- src/db/repositories/compliance-repository.ts and src/modules/compliance/compliance-service.ts: what
-- an active approval is.
use mathlib.Core.Path.{subst}
use institutional_tokenizati.Base.{
  IsRow, newest, older, leb, ==_iff, ◌⊎◌, ℕ, ◌≤◌, ◌<◌, ◌≡◌, ap, ◌∙◌, inl, inr, Bool, true, not,
  none, some, List, [], ◌∷◌, arith, select_rows, Bool-cases, Option-cases,
}
use institutional_tokenizati.Db.{
  Store, ComplianceDecision, ComplianceStatus, Asset, Wallet, ok, gets, ◌>>=◌, compliance_status_eq,
}
use institutional_tokenizati.Db.Atomic.{>>=-ok, throw_if_ok, or_throw_ok}
use institutional_tokenizati.Repo.Compliance.{
  is_active_approval, latest_decision, find_active_approval,
}
use institutional_tokenizati.Compliance.Defs.{ComplianceDeps}
use institutional_tokenizati.Compliance.Withdrawing.{assert_eligible_for_execution}

-- An approval of a wallet, for this asset or for all assets, that is live and whose window holds
-- `now`: its start is in it, its end not.
pub record IsLive (wallet_id asset_id now : ℕ) (d : ComplianceDecision) : Type 0 where
  pub of_wallet : d.wallet_id ≡ wallet_id
  pub of_asset : (d.asset_id ≡ none) ⊎ (d.asset_id ≡ some asset_id)
  pub is_approved : d.status ≡ ComplianceStatus.approved
  pub not_superseded : d.superseded_at ≡ none
  pub started : d.valid_from ≤ now
  pub not_over : now < d.valid_until

latest_passes :
    (p : ComplianceDecision → Bool) (ds : List ComplianceDecision) (d : ComplianceDecision)
    → latest_decision (select_rows p ds) ≡ some d
    → p d ≡ true
unfolding latest_decision select_rows
latest_passes p [] d = λ e. ground arith
latest_passes p (x ∷ ds) d = elim (Bool-cases (p x)) [
  | inr miss ↦ rw miss (λ e. latest_passes p ds d e)
  | inl hit ↦ elim (Option-cases (latest_decision (select_rows p ds))) [
    | inl n ↦ rw hit (rw n (λ e. ground (arith, e, hit)))
    | inr (y, f) ↦ rw hit (rw f (λ e. ground (arith, e, hit, latest_passes p ds y f)))
  ]
]

latest_IsRow :
    (p : ComplianceDecision → Bool) (ds : List ComplianceDecision) (d : ComplianceDecision)
    → latest_decision (select_rows p ds) ≡ some d
    → IsRow d ds
unfolding latest_decision select_rows
latest_IsRow p [] d = λ e. cc
latest_IsRow p (x ∷ ds) d = elim (Bool-cases (p x)) [
  | inr miss ↦ rw miss (λ e. older (latest_IsRow p ds d e))
  | inl hit ↦ elim (Option-cases (latest_decision (select_rows p ds))) [
    | inl n ↦ rw hit (rw n (λ e. subst (λ y. IsRow y (x ∷ ds)) (ground (arith, e)) newest))
    | inr (y, f) ↦ rw hit (
        rw f (λ e. elim (Bool-cases (leb y.decided_at x.decided_at)) [
          | inl le ↦ subst (λ z. IsRow z (x ∷ ds)) (ground (arith, e, le)) newest
          | inr gt ↦ older (latest_IsRow p ds d (f ∙ ground (arith, e, gt)))
        ]))
  ]
]

active_IsLive :
    (wallet_id asset_id now : ℕ) (d : ComplianceDecision)
    → is_active_approval wallet_id (some asset_id) now d ≡ true
    → IsLive wallet_id asset_id now d
unfolding is_active_approval compliance_status_eq
active_IsLive wallet_id asset_id now d h = record {
  of_wallet = ground (arith, h);
  of_asset = elim (Option-cases d.asset_id) [
    | inl n ↦ inl n
    | inr (a, e) ↦ inr (ground (arith, h, e, ==_iff a asset_id))
  ];
  is_approved = ground (arith, h);
  not_superseded = ground (arith, h);
  started = ground (arith, h);
  not_over = ground (arith, h);
}

-- The check before an execution passed: an approval on record that is live now covers the wallet and
-- the asset, and the provider was asked afresh.
pub record IsEligible (deps : ComplianceDeps) (wallet : Wallet) (asset : Asset) (amount : ℕ)
    (s : Store) : Type 0 where
  pub decision : ComplianceDecision
  pub on_record : IsRow decision s.compliance_decisions
  pub live : IsLive wallet.id asset.id s.now decision
  pub answered :
      (u : Store) × (deps.provider.check_eligibility wallet.investor_reference wallet.address
          asset.chain_id asset.id amount s
        ≡ (ok true, u))

pub assert_eligible_for_execution-IsEligible :
    (deps : ComplianceDeps) (wallet : Wallet) (asset : Asset) (amount : ℕ) (s : Store) (id : ℕ)
    → (assert_eligible_for_execution deps wallet asset amount s).0 ≡ ok id
    → IsEligible deps wallet asset amount s
unfolding assert_eligible_for_execution find_active_approval gets ◌>>=◌
assert_eligible_for_execution-IsEligible deps wallet asset amount s id e =
    let rows =
      select_rows (is_active_approval wallet.id (some asset.id) s.now) s.compliance_decisions in
    let (d, found, e1) = or_throw_ok (latest_decision rows) _ _ s id e in
    let (answer, t, i, e2) =
      >>=-ok
        (deps.provider.check_eligibility wallet.investor_reference wallet.address asset.chain_id
          asset.id amount)
        _ s id e1 in
    let (granted, _) = throw_if_ok (not answer) _ _ t id e2 in
    record {
      decision = d;
      on_record = latest_IsRow _ s.compliance_decisions d found;
      live = active_IsLive wallet.id asset.id s.now d (latest_passes _ _ d found);
      answered = (t, i ∙ ap (λ b. (ok b, t)) (ground (arith, granted)));
    }

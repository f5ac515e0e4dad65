-- ===== src/Handlers/Granted.antt =====
-- src/modules/operations/handlers/eligibility-sync-handler.ts: when eligibility is granted on chain.
use institutional_tokenizati.Base.{
  ◌/◌, ◌≡◌, ◌≢◌, ◌<◌, ap, ◌∙◌, not, ◌&&◌, none, arith, text_eq, text_eq_iff, is_none,
}
use institutional_tokenizati.Db.{
  Store, Operation, ComplianceStatus, ok, pure, compliance_status_eq, ◌>>=◌,
}
use institutional_tokenizati.Db.Atomic.{throw_if_ok}
use institutional_tokenizati.Compliance.{eligible_until_for, hash_eligibility_sync_intent}
use institutional_tokenizati.Handlers.Eligibility.{
  EligibilityDeps, EligibilityParts, EligibilityTarget, check_parts,
}

-- The write is the one that was requested.
pub record IsRequested (deps : EligibilityDeps) (operation : Operation) (parts : EligibilityParts)
    (target : EligibilityTarget) : Type 0 where
  pub account : target.account ≡ parts.wallet.address
  pub contract_address : target.contract_address ≡ parts.contract_address
  pub of_decision : target.decision_id ≡ parts.decision.id
  pub same_intent :
      hash_eligibility_sync_intent deps.host parts.asset parts.wallet parts.decision.id
        target.eligible_until
      ≡ operation.proposal_hash

-- An eligibility write that passed the checks of its handler is the one that was requested, and it
-- grants eligibility only on a decision that is APPROVED and not superseded, up to the end of that
-- decision's window in seconds; for any other decision it withdraws eligibility.
pub granted_on_live_approval :
    (deps : EligibilityDeps) (operation : Operation) (parts : EligibilityParts) (s : Store)
    (target : EligibilityTarget)
    → (check_parts deps operation parts s).0 ≡ ok target
    → IsRequested deps operation parts target
      × (0 < target.eligible_until
          → (parts.decision.status ≡ ComplianceStatus.approved)
            × (parts.decision.superseded_at ≡ none)
            × (target.eligible_until ≡ parts.decision.valid_until / 1000))
      × (parts.decision.status ≢ ComplianceStatus.approved → target.eligible_until ≡ 0)
unfolding check_parts eligible_until_for compliance_status_eq pure ◌>>=◌
granted_on_live_approval deps operation parts s target e =
    let (a, e1) =
      throw_if_ok
        (compliance_status_eq parts.decision.status ComplianceStatus.approved
          && not (is_none parts.decision.superseded_at))
        _ _ s target e in
    let (b, e2) =
      throw_if_ok (compliance_status_eq parts.decision.status ComplianceStatus.rejected) _ _ s
        target e1 in
    let (c, e3) =
      throw_if_ok
        (not (
          text_eq
            (hash_eligibility_sync_intent deps.host parts.asset parts.wallet parts.decision.id
              (eligible_until_for parts.decision))
            operation.proposal_hash))
        _ _ s target e2 in
    let until : target.eligible_until ≡ eligible_until_for parts.decision = ground (arith, e3) in
    (
      record {
        account = ground (arith, e3);
        contract_address = ground (arith, e3);
        of_decision = ground (arith, e3);
        same_intent =
            ap
              (λ n.
                hash_eligibility_sync_intent deps.host parts.asset parts.wallet parts.decision.id n)
              until
            ∙ (text_eq_iff _ _).0 (ground (arith, c));
      },
      λ p. ground (arith, a, until, p),
      λ n. ground (arith, n, until),
    )

-- ===== src/Handlers/Cleared.antt =====
-- src/modules/operations/handlers/mint-handler.ts: what a mint passed when its call was built.
use mathlib.Core.Path.{subst}
use institutional_tokenizati.Base.{
  ℕ, ◌+◌, ◌/◌, ◌≤◌, ◌≡◌, refl, sym, ap, ◌∙◌, Bool, true, false, not, arith, text_eq, text_eq_iff,
  ltb,
}
use institutional_tokenizati.Repo.Observations.{record_observation}
use institutional_tokenizati.Compliance.{assert_eligible_for_execution}
use institutional_tokenizati.Db.{Store, Done, Operation, ok, pure, gets, throw, ◌>>=◌}
use institutional_tokenizati.Db.Atomic.{>>=-ok, throw_if_ok}
use institutional_tokenizati.Mints.Proposal.{rebuilt_hash}
use institutional_tokenizati.Transactions.ChainWriter.{EncodedCall}
use institutional_tokenizati.Gateway.{TokenChainState}
use institutional_tokenizati.Compliance.Live.{IsEligible, assert_eligible_for_execution-IsEligible}
use institutional_tokenizati.Reconciliation.Consistent.{Said}
use institutional_tokenizati.Handlers.Mint.{
  MintDeps, MintTarget, resolve_mint_target, halt_if_consumed, mint_call, check_chain, prepare_mint,
}
use institutional_tokenizati.Handlers.Target.{IsTarget, resolve_mint_target-IsReadOnly, resolved}

-- The call that `prepare` of a mint returned, and what it passed before.
pub record IsCleared (deps : MintDeps) (operation : Operation) (call : EncodedCall) (s : Store)
    : Type 0 where
  pub target : MintTarget
  pub token : TokenChainState
  pub deadline : ℕ
  pub on_record : IsTarget operation s target
  pub same_intent :
      rebuilt_hash deps.compliance.host operation target.asset target.wallet
      ≡ operation.proposal_hash
  pub eligible : IsEligible deps.compliance target.wallet target.asset target.amount s
  pub unused :
      Said
        (deps.reconciliation.gateway.read_reference_consumed target.contract_address
          target.operation_reference)
        false
  pub state : Said (deps.reconciliation.gateway.read_token_state target.contract_address) token
  pub not_paused : token.is_paused ≡ false
  pub within_cap : token.total_supply + target.amount ≤ token.supply_cap
  pub encoded :
      call
      ≡ deps.reconciliation.gateway.encode_mint_call target.contract_address (record {
        recipient = target.wallet.address;
        amount = target.amount;
        operation_reference = target.operation_reference;
        deadline = deadline;
      })

module _ (deps : MintDeps) (operation : Operation) where
  halted :
      (b : Bool) (s : Store) (r : Done) → (halt_if_consumed deps operation b s).0 ≡ ok r → b ≡ false
  unfolding halt_if_consumed record_observation throw ◌>>=◌
  halted true s r e = ground (arith, e)
  halted false s r e = refl

  abbrev Chained : MintTarget → EncodedCall → Type 0
  Chained target call =
      (token : TokenChainState) × (deadline : ℕ) × Said
        (deps.reconciliation.gateway.read_reference_consumed target.contract_address
          target.operation_reference)
        false
      × Said (deps.reconciliation.gateway.read_token_state target.contract_address) token
      × (token.is_paused ≡ false)
      × (token.total_supply + target.amount ≤ token.supply_cap)
      × (call
          ≡ deps.reconciliation.gateway.encode_mint_call target.contract_address (record {
            recipient = target.wallet.address;
            amount = target.amount;
            operation_reference = target.operation_reference;
            deadline = deadline;
          }))

  called :
      (target : MintTarget) (token : TokenChainState) (s : Store) (call : EncodedCall)
      → (mint_call deps target token s).0 ≡ ok call
      → (token.is_paused ≡ false)
        × (token.total_supply + target.amount ≤ token.supply_cap)
        × (call
            ≡ deps.reconciliation.gateway.encode_mint_call target.contract_address (record {
              recipient = target.wallet.address;
              amount = target.amount;
              operation_reference = target.operation_reference;
              deadline = s.clock / 1000 + deps.mint_deadline_seconds;
            }))
  unfolding mint_call gets pure ◌>>=◌
  called target token s call e =
      let (p, e1) = throw_if_ok token.is_paused _ _ s call e in
      let (c, e2) =
        throw_if_ok (ltb token.supply_cap (token.total_supply + target.amount)) _ _ s call e1 in
      (p, ground (arith, c), ground (arith, e2))

  chain_checked :
      (target : MintTarget) (s : Store) (call : EncodedCall)
      → (check_chain deps operation target s).0 ≡ ok call
      → Chained target call
  unfolding check_chain
  chain_checked target s call e =
      let (_, s1, _, e1) = >>=-ok deps.reconciliation.gateway.get_chain_identity _ s call e in
      let (_, s2, _, e2) =
        >>=-ok (deps.reconciliation.gateway.assert_contract_deployed target.contract_address) _ s1
          call e1 in
      let (used, s3, i, e3) =
        >>=-ok
          (deps.reconciliation.gateway.read_reference_consumed target.contract_address
            target.operation_reference)
          _ s2 call e2 in
      let (u, s4, j, e4) = >>=-ok (halt_if_consumed deps operation used) _ s3 call e3 in
      let (token, s5, k, e5) =
        >>=-ok (deps.reconciliation.gateway.read_token_state target.contract_address) _ s4 call
          e4 in
      let unused = halted used s3 u (ap (λ q. q.0) j) in
      let (awake, cap, encoded) = called target token s5 call e5 in
      (token, _, (s2, s3, i ∙ ap (λ b. (ok b, s3)) unused), (s4, s5, k), awake, cap, encoded)

  -- A mint whose preparation returned a call was cleared in every respect at that time: its target is
  -- on record, the rebuilt intent has the hash that was approved, an approval on record that is live
  -- now covers the wallet and the asset and the provider agreed afresh, the reference was not consumed, the token was not
  -- paused and its supply with the amount is within the cap; the call mints the operation's own amount
  -- under its own reference to the wallet on record.
  pub prepared-IsCleared :
      (s : Store) (call : EncodedCall)
      → (prepare_mint deps operation s).0 ≡ ok call
      → IsCleared deps operation call s
  unfolding prepare_mint
  prepared-IsCleared s call e =
      let (target, t, i, e1) = >>=-ok (resolve_mint_target operation) _ s call e in
      let same : t ≡ s = sym (ap (λ q. q.1) i) ∙ (resolve_mint_target-IsReadOnly operation).at s in
      let (h, e2) =
        throw_if_ok
          (not (
            text_eq (rebuilt_hash deps.compliance.host operation target.asset target.wallet)
              operation.proposal_hash))
          _ _ t call e1 in
      let (id, u, j, e3) =
        >>=-ok
          (assert_eligible_for_execution deps.compliance target.wallet target.asset target.amount) _
          t call e2 in
      let (token, deadline, unused, state, awake, cap, encoded) = chain_checked target u call e3 in
      record {
        target = target;
        token = token;
        deadline = deadline;
        on_record = resolved operation s target (ap (λ q. q.0) i);
        same_intent =
            (text_eq_iff (rebuilt_hash deps.compliance.host operation target.asset target.wallet)
                operation.proposal_hash).0
              (ground (arith, h));
        eligible =
            subst (IsEligible deps.compliance target.wallet target.asset target.amount) same (
              assert_eligible_for_execution-IsEligible deps.compliance target.wallet target.asset
                target.amount t id (ap (λ q. q.0) j));
        unused = unused;
        state = state;
        not_paused = awake;
        within_cap = cap;
        encoded = encoded;
      }

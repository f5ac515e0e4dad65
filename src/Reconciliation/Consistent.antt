-- ===== src/Reconciliation/Consistent.antt =====
-- src/modules/transactions/reconciliation-service.ts: what a consistent report of a mint rests on.
use mathlib.Core.Path.{subst}
use institutional_tokenizati.Base.{
  IsRow, find_row-IsRow, find_row_sound, ℕ, ◌≤◌, ◌≡◌, refl, ap, Bool, true, false, not, Option,
  none, some, List, [], ◌∷◌, ◌++◌, to_lower, arith, text_eq_iff, ==_iff, &&_iff, leb, ◌==◌,
}
use institutional_tokenizati.Db.{
  Store, ObservationKind, receipt, chain_identity, mint_event, reference_consumed,
  recipient_balance, total_supply, Action, ok, pure, ◌>>=◌,
}
use institutional_tokenizati.Db.Atomic.{>>=-ok}
use institutional_tokenizati.Repo.Observations.{record_observation}
use institutional_tokenizati.Executor.Interface.{SettledOperation, ReconciliationReport}
use institutional_tokenizati.Gateway.{MintExecutedEvent, TokenChainState}
use institutional_tokenizati.Reconciliation.Defs.{
  Reconciler, MintExpectation, run_check, report, reconcile_mint, event_ok, mint_events,
  find_mint_event,
}

not_nil : {A : Type 0} (xs : List A) (x : A) → xs ++ (x ∷ []) ≡ [] → ⊥
not_nil [] x e = cc
not_nil (y ∷ xs) x e = cc

-- A check that leaves no finding was matched, and there was none before it.
checked :
    (service : Reconciler) (settled : SettledOperation) (fs gs : List ObservationKind)
    (kind : ObservationKind) (matched : Bool) (s : Store)
    → (run_check service settled fs kind matched s).0 ≡ ok gs
    → gs ≡ []
    → (matched ≡ true) × (fs ≡ [])
unfolding run_check record_observation pure ◌>>=◌
checked service settled fs gs kind true s e n = (refl, ground (arith, e, n))
checked service settled fs gs kind false s e n = absurd (not_nil fs kind (ground (arith, e, n)))

reported :
    (fs : List ObservationKind) (s : Store) (r : ReconciliationReport)
    → (pure (report fs) s).0 ≡ ok r
    → r.consistent ≡ true
    → fs ≡ []
unfolding report pure
reported [] s r e c = refl
reported (k ∷ fs) s r e c = ground (arith, e, c)

-- A read of the chain at some store on the way
abbrev pub Said : {A : Type 0} → Action A → A → Type 0
Said read a = (t : Store) × (u : Store) × (read t ≡ (ok a, u))

module _ (service : Reconciler) (settled : SettledOperation) (expected : MintExpectation) where
  abbrev Holds : (List ObservationKind → Action ReconciliationReport) → Type 0 → Type 0
  Holds rest Evidence =
      (fs : List ObservationKind) (s : Store) (r : ReconciliationReport)
      → (rest fs s).0 ≡ ok r
      → r.consistent ≡ true
      → (fs ≡ []) × Evidence

  -- A read, the check of what it returned, and the rest
  after_read :
      {A : Type 0} (read : Action A) (kind : ObservationKind) (test : A → Bool)
      (rest : List ObservationKind → Action ReconciliationReport) (Evidence : Type 0)
      → Holds rest Evidence
      → Holds
          (λ fs. read >>= λ a. run_check service settled fs kind (test a) >>= rest)
          (((a : A) × Said read a × (test a ≡ true)) × Evidence)
  after_read read kind test rest Evidence k fs s r e c =
      let (a, t, i, e1) = >>=-ok read _ s r e in
      let (gs, u, j, e2) = >>=-ok (run_check service settled fs kind (test a)) rest t r e1 in
      let (n, more) = k gs u r e2 c in
      let (m, none_before) = checked service settled fs gs kind (test a) t (ap (λ q. q.0) j) n in
      (none_before, ((a, (s, t, i), m), more))

  after_check :
      (kind : ObservationKind) (matched : Bool)
      (rest : List ObservationKind → Action ReconciliationReport) (Evidence : Type 0)
      → Holds rest Evidence
      → Holds
          (λ fs. run_check service settled fs kind matched >>= rest)
          ((matched ≡ true) × Evidence)
  after_check kind matched rest Evidence k fs s r e c =
      let (gs, u, j, e2) = >>=-ok (run_check service settled fs kind matched) rest s r e in
      let (n, more) = k gs u r e2 c in
      let (m, none_before) = checked service settled fs gs kind matched s (ap (λ q. q.0) j) n in
      (none_before, (m, more))

  last : Holds (λ fs. pure (report fs)) (Unit {0})
  last fs s r e c = (reported fs s r e c, tt)

  -- What the chain said when a mint was reconciled
  pub record IsMinted : Type 0 where
    pub event : MintExecutedEvent
    pub balance : ℕ
    pub token : TokenChainState
    pub on_chain : Said service.gateway.get_chain_identity service.chain_id
    pub not_reverted : settled.receipt.is_reverted ≡ false
    pub in_logs :
        IsRow event (
          service.gateway.decode_mint_executed_events expected.contract_address
            settled.receipt.logs)
    pub of_reference : to_lower event.operation_reference ≡ to_lower expected.operation_reference
    pub emitted : mint_events service settled expected ≡ some event
    pub to_recipient : to_lower event.recipient ≡ to_lower expected.recipient
    pub of_amount : event.amount ≡ expected.amount
    pub consumed :
        Said
          (service.gateway.read_reference_consumed expected.contract_address
            expected.operation_reference)
          true
    pub held :
        Said (service.gateway.read_balance_of expected.contract_address expected.recipient) balance
    pub enough : expected.amount ≤ balance
    pub state : Said (service.gateway.read_token_state expected.contract_address) token
    pub capped : token.total_supply ≤ token.supply_cap

  event_matches :
      (o : Option MintExecutedEvent)
      → event_ok expected o ≡ true
      → (e : MintExecutedEvent) × (o ≡ some e)
        × (to_lower e.recipient ≡ to_lower expected.recipient)
        × (e.amount ≡ expected.amount)
  unfolding event_ok
  event_matches none h = ground arith
  event_matches (some e) h =
      let (a, b) = (&&_iff _ _).0 h in (e, refl, (text_eq_iff _ _).0 a, (==_iff _ _).0 b)

  -- A report of a mint that is consistent rests on the chain in every respect: the endpoint serves
  -- the right chain, the receipt is not reverted, the logs hold the event of this operation reference
  -- with the approved recipient and amount, the reference is consumed, the recipient holds at least
  -- the amount, and the supply is within the cap.
  pub consistent-IsMinted :
      (s : Store) (r : ReconciliationReport)
      → (reconcile_mint service settled expected s).0 ≡ ok r
      → r.consistent ≡ true
      → IsMinted
  unfolding reconcile_mint mint_events find_mint_event
  consistent-IsMinted s r e c =
      let (
        _,
        ((identity, i, m1), (m2, (m3, ((used, j, m4), ((balance, k, m5), ((token, l, m6), _)))))),
      ) =
        after_read service.gateway.get_chain_identity chain_identity
          (λ identity. identity == service.chain_id) _ _
          (after_check receipt (not settled.receipt.is_reverted) _ _ (
            after_check mint_event (event_ok expected (mint_events service settled expected)) _ _ (
              after_read
                (service.gateway.read_reference_consumed expected.contract_address
                  expected.operation_reference)
                reference_consumed (λ b. b) _ _
                (after_read
                  (service.gateway.read_balance_of expected.contract_address expected.recipient)
                  recipient_balance (λ balance. leb expected.amount balance) _ _
                  (after_read (service.gateway.read_token_state expected.contract_address)
                    total_supply (λ token. leb token.total_supply token.supply_cap) _ _ last)))))
          [] s r e c in
      let (event, found, recipient, amount) = event_matches _ m3 in
      record {
        event = event;
        balance = balance;
        token = token;
        on_chain =
            subst (Said service.gateway.get_chain_identity)
              ((==_iff identity service.chain_id).0 m1) i;
        not_reverted = ground (arith, m2);
        in_logs = find_row-IsRow _ _ event (found);
        of_reference = (text_eq_iff _ _).0 (find_row_sound _ _ event (found));
        emitted = found;
        to_recipient = recipient;
        of_amount = amount;
        consumed = subst (Said _) m4 j;
        held = k;
        enough = ground (arith, m5);
        state = l;
        capped = ground (arith, m6);
      }

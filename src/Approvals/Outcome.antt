-- ===== src/Approvals/Outcome.antt =====
-- src/modules/approvals/approval-service.ts: what a decision does to the operation, and what
-- becomes of a request whose intent changed.
use institutional_tokenizati.Base.{
  ap, ◌∙◌, ==_iff, find_row_sound, ℕ, ◌≡◌, ◌≢◌, refl, sym, true, false, none, some, [], ◌∷◌, arith,
  ◌==◌, find_row, text_eq, suc, ◌⊎◌, inl, inr,
}
use institutional_tokenizati.Domain.Canonical.{Host}
use institutional_tokenizati.Domain.ApprovalState.{
  ApprovalRequestState, ApprovalDecisionKind, ApprovalOutcome, pending_outcome, approved_outcome,
  rejected_outcome, request_state_eq,
}
use institutional_tokenizati.Domain.OperationState.{
  OperationState, pending_approval, ready, cancelled, state_eq,
}
use institutional_tokenizati.Domain.Roles.{Actor, admin, approver, is_permitted}
use institutional_tokenizati.Domain.Errors.{app_error, operation_conflict}
use institutional_tokenizati.Db.{
  Store, ApprovalRequest, Operation, Asset, Wallet, OutboxRow, OutboxStatus, Result, ok, err,
  transaction, ◌>>=◌, approval_rejected,
}
use institutional_tokenizati.Repo.Operations.{
  Patch, no_patch, failure, find_operation_by_id, transition_operation,
}
use institutional_tokenizati.Repo.Operations.Laws.{transition_state, transition_stores}
use institutional_tokenizati.Repo.Approvals.{find_approval_request_by_id, close_approval_request}
use institutional_tokenizati.Repo.Outbox.{enqueue_outbox}
use institutional_tokenizati.Repo.Reference.{find_asset_by_id, record_audit_event}
use institutional_tokenizati.Mints.Proposal.{rebuilt_hash}
use institutional_tokenizati.Approvals.Defs.{
  RecordApprovalResult, conclude, decide, record_decision, supersede_unless, supersede,
}
use institutional_tokenizati.Approvals.TwoPerson.{recorded_effect, written}
use institutional_tokenizati.Approvals.Guards.{wallet_row, find_wallet_of_lem}

-- The row that `enqueue_outbox` writes for an operation
abbrev pub work_item : ℕ → ℕ → Operation → OutboxRow
work_item id at operation = record {
  id = id;
  aggregate_id = operation.id;
  payload_operation_id = some operation.id;
  status = OutboxStatus.pending;
  attempts = 0;
  available_at = at;
  correlation_id = operation.correlation_id;
  claim_token = none;
  claim_expires_at = none;
}

transition_keeps :
    (o : Operation) (to : OperationState) (p : Patch) (s : Store)
    → ((transition_operation o to p s).1.outbox ≡ s.outbox)
      × ((transition_operation o to p s).1.next_id ≡ s.next_id)
      × ((transition_operation o to p s).1.now ≡ s.now)
unfolding transition_operation ◌>>=◌
transition_keeps o to p s = ground arith

-- What the conclusion from a tally has done to the outbox when it returns
abbrev Enqueues : Operation → OperationState → Store → Store → Type 0
Enqueues operation st s t =
    ((st ≡ ready) × (t.outbox ≡ work_item s.next_id s.now operation ∷ s.outbox))
    ⊎ ((st ≢ ready) × (t.outbox ≡ s.outbox))

conclude_outbox :
    (actor : Actor) (request : ApprovalRequest) (operation : Operation) (outcome : ApprovalOutcome)
    (s : Store) (a : ApprovalRequestState) (st : OperationState)
    → operation.state ≡ pending_approval
    → (conclude actor request operation outcome s).0 ≡ ok (a, st)
    → Enqueues operation st s (conclude actor request operation outcome s).1
unfolding conclude close_approval_request enqueue_outbox record_audit_event ◌>>=◌
conclude_outbox actor request operation (pending_outcome n) s a st w h = inr (ground arith, refl)
conclude_outbox actor request operation approved_outcome s a st w h = inl (go _ refl)
  where
    t : Store
    t = (close_approval_request request.id ApprovalRequestState.approved s).1

    go :
        (x : Result Operation)
        → (transition_operation operation ready no_patch t).0 ≡ x
        → (st ≡ ready)
          × ((conclude actor request operation approved_outcome s).1.outbox
              ≡ work_item s.next_id s.now operation ∷ s.outbox)
    go (ok row) e = ground (
      arith,
      transition_state operation ready no_patch t row e,
      transition_keeps operation ready no_patch t,
    )
    go (err x) e = ground arith
conclude_outbox actor request operation rejected_outcome s a st w h = inr (go _ refl)
  where
    t : Store
    t = (close_approval_request request.id ApprovalRequestState.rejected s).1

    go :
        (x : Result Operation)
        → (transition_operation operation cancelled (failure approval_rejected) t).0 ≡ x
        → (st ≢ ready) × ((conclude actor request operation rejected_outcome s).1.outbox ≡ s.outbox)
    go (ok row) e = ground (
      arith,
      transition_state operation cancelled (failure approval_rejected) t row e,
      transition_keeps operation cancelled (failure approval_rejected) t,
    )
    go (err x) e = ground arith

-- The stored operation has this state.
abbrev StoredIn : ℕ → OperationState → Store → Type 0
StoredIn id st t =
    (row : Operation) × (find_row (λ o. o.id == id) t.operations ≡ some row) × (row.state ≡ st)

conclude_stores :
    (actor : Actor) (request : ApprovalRequest) (operation : Operation) (outcome : ApprovalOutcome)
    (s : Store) (a : ApprovalRequestState) (st : OperationState) (id : ℕ)
    → operation.state ≡ pending_approval
    → find_row (λ o. o.id == id) s.operations ≡ some operation
    → (conclude actor request operation outcome s).0 ≡ ok (a, st)
    → StoredIn id st (conclude actor request operation outcome s).1
unfolding conclude close_approval_request enqueue_outbox record_audit_event ◌>>=◌
conclude_stores actor request operation (pending_outcome n) s a st id w f h =
    (operation, f, ground arith)
conclude_stores actor request operation approved_outcome s a st id w f h = go _ refl
  where
    t : Store
    t = (close_approval_request request.id ApprovalRequestState.approved s).1

    go :
        (x : Result Operation)
        → (transition_operation operation ready no_patch t).0 ≡ x
        → StoredIn id st (conclude actor request operation approved_outcome s).1
    go (ok row) e =
        let (q, g, k) = transition_stores operation ready no_patch id t row f e in
        (
          q,
          ground (arith, e, g),
          k ∙ sym (ground (arith, e, h, transition_state operation ready no_patch t row e)),
        )
    go (err x) e = absurd (ground (arith, e, h))
conclude_stores actor request operation rejected_outcome s a st id w f h = go _ refl
  where
    t : Store
    t = (close_approval_request request.id ApprovalRequestState.rejected s).1

    go :
        (x : Result Operation)
        → (transition_operation operation cancelled (failure approval_rejected) t).0 ≡ x
        → StoredIn id st (conclude actor request operation rejected_outcome s).1
    go (ok row) e =
        let (q, g, k) =
          transition_stores operation cancelled (failure approval_rejected) id t row f e in
        (
          q,
          ground (arith, e, g),
          k
              ∙ sym (
                  ground (
                    arith,
                    e,
                    h,
                    transition_state operation cancelled (failure approval_rejected) t row e,
                  )),
        )
    go (err x) e = absurd (ground (arith, e, h))

module _ (host : Host) (actor : Actor) (request_id : ℕ) (decision : ApprovalDecisionKind)
    (s : Store) where
  -- The operation is stored as READY exactly when, in the same commit, one work item for it is added
  -- to the outbox; a decision that stores it in another state adds none. The state that is reported
  -- is the stored one.
  pub ready_with_work_item :
      (r : RecordApprovalResult)
      → (record_decision host actor request_id decision s).0 ≡ ok r
      → (operation : Operation) × (operation.id ≡ r.operation_id)
        × (find_row (λ o. o.id == r.operation_id) s.operations ≡ some operation)
        × ((row : Operation) × (find_row
                (λ o. o.id == r.operation_id)
                (record_decision host actor request_id decision s).1.operations
              ≡ some row)
            × (row.state ≡ r.operation_state))
        × (((r.operation_state ≡ ready)
              × ((record_decision host actor request_id decision s).1.outbox
                  ≡ work_item (suc s.next_id) s.now operation ∷ s.outbox))
            ⊎ ((r.operation_state ≢ ready)
                × ((record_decision host actor request_id decision s).1.outbox ≡ s.outbox)))
  ready_with_work_item r h =
      let (p, _, _, c, i, t) = recorded_effect host actor request_id decision s r h in
      let same : p.request.operation_id ≡ r.operation_id = sym (
        i
        ∙ (==_iff p.operation.id p.request.operation_id).0 (
            find_row_sound (λ o. o.id == p.request.operation_id) s.operations p.operation
              p.found_operation)) in
      let found : find_row (λ o. o.id == r.operation_id) s.operations ≡ some p.operation =
        ap (λ id. find_row (λ o. o.id == id) s.operations) (sym same) ∙ p.found_operation in
      (
        p.operation,
        sym i,
        found,
        rw t (
            conclude_stores actor p.request p.operation _
              (written host actor request_id decision s p) r.approval_request_state
              r.operation_state r.operation_id p.awaiting found c),
        rw t (
            conclude_outbox actor p.request p.operation _
              (written host actor request_id decision s p) r.approval_request_state
              r.operation_state p.awaiting c),
      )

  -- When the rebuilt intent no longer has the proposed hash, the decision is refused with a
  -- conflict and the whole store is as before: the closing of the request as superseded, and its
  -- audit event, are undone with the transaction, so the request stays pending.
  pub superseding_is_undone :
      (request : ApprovalRequest) (operation : Operation) (asset : Asset) (wallet : Wallet)
      → is_permitted actor (approver ∷ admin ∷ []) ≡ true
      → find_row (λ q. q.id == request_id) s.requests ≡ some request
      → find_row (λ o. o.id == request.operation_id) s.operations ≡ some operation
      → find_row (λ a. a.id == operation.asset_id) s.assets ≡ some asset
      → wallet_row operation.wallet_id s ≡ some wallet
      → operation.organization_id ≡ actor.organization_id
      → request.state ≡ ApprovalRequestState.pending
      → request.requested_by ≢ actor.id
      → operation.state ≡ pending_approval
      → text_eq (rebuilt_hash host operation asset wallet) request.proposal_hash ≡ false
      → record_decision host actor request_id decision s ≡ (err (app_error operation_conflict), s)
  unfolding record_decision decide supersede_unless supersede transaction
      find_approval_request_by_id find_operation_by_id find_asset_by_id close_approval_request
      record_audit_event request_state_eq state_eq ◌>>=◌
  superseding_is_undone request operation asset wallet p f fo fa fw org o n w d =
      ground (arith, find_wallet_of_lem operation.wallet_id s)

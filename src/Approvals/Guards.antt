-- ===== src/Approvals/Guards.antt =====
-- src/modules/approvals/approval-service.ts: what a recorded decision has passed.
use institutional_tokenizati.Base.{
  ℕ, ◌≡◌, refl, ◌≢◌, some, none, arith, text_eq, false, true, ◌==◌, find_row, Option, suc, ◌∷◌, any,
  select_rows, ap, ◌∙◌,
}
use institutional_tokenizati.Domain.OperationState.{pending_approval, state_eq}
use institutional_tokenizati.Domain.Canonical.{Host}
use institutional_tokenizati.Domain.Roles.{Actor}
use institutional_tokenizati.Domain.ApprovalState.{
  ApprovalRequestState, ApprovalDecisionKind, request_state_eq, ApprovalOutcome,
}
use institutional_tokenizati.Db.{
  Store, ApprovalRequest, Operation, Asset, Wallet, ok, ◌>>=◌, decision_recorded,
}
use institutional_tokenizati.Repo.Operations.{find_operation_by_id}
use institutional_tokenizati.Repo.Approvals.{
  find_approval_request_by_id, insert_approval_decision, list_decisions, same_approver,
}
use institutional_tokenizati.Repo.Reference.{
  find_asset_by_id, find_wallet_by_id, record_audit_event,
}
use institutional_tokenizati.Mints.Proposal.{rebuilt_hash}
use institutional_tokenizati.Approvals.Defs.{
  RecordApprovalResult, decide, supersede_unless, register, find_wallet_of, conclude, tally,
}

module _ (host : Host) (actor : Actor) (request_id : ℕ) (decision : ApprovalDecisionKind)
    (s : Store) (request : ApprovalRequest) (operation : Operation) (asset : Asset)
    (wallet : Wallet) where
  pub decide_passes :
      find_row (λ r. r.id == request_id) s.requests ≡ some request
      → find_row (λ o. o.id == request.operation_id) s.operations ≡ some operation
      → find_row (λ a. a.id == operation.asset_id) s.assets ≡ some asset
      → find_wallet_of operation.wallet_id s ≡ (ok (some wallet), s)
      → (r : RecordApprovalResult) → (decide host actor request_id decision s).0 ≡ ok r
      → (request.state ≡ ApprovalRequestState.pending)
        × (request.requested_by ≢ actor.id)
        × (operation.state ≡ pending_approval)
        × (text_eq (rebuilt_hash host operation asset wallet) request.proposal_hash ≡ true)
        × (decide host actor request_id decision s ≡ register actor decision request operation s)
  unfolding decide find_approval_request_by_id find_operation_by_id find_asset_by_id
      supersede_unless ◌>>=◌ request_state_eq state_eq
  decide_passes f fo fa fw r h = ground arith

-- The wallet that an operation names
abbrev pub wallet_row : Option ℕ → Store → Option Wallet
wallet_row none s = none
wallet_row (some id) s = find_row (λ w. w.id == id) s.wallets

pub find_wallet_of_lem :
    (id : Option ℕ) (s : Store) → find_wallet_of id s ≡ (ok (wallet_row id s), s)
unfolding find_wallet_of find_wallet_by_id ◌>>=◌
find_wallet_of_lem none s = refl
find_wallet_of_lem (some id) s = refl

module _ (host : Host) (actor : Actor) (request_id : ℕ) (decision : ApprovalDecisionKind)
    (s : Store) (r : RecordApprovalResult)
    (recorded : (decide host actor request_id decision s).0 ≡ ok r) where
  decide_request : find_row (λ q. q.id == request_id) s.requests ≢ none
  unfolding decide find_approval_request_by_id ◌>>=◌
  decide_request e = ground arith

  module _ (request : ApprovalRequest)
      (found : find_row (λ q. q.id == request_id) s.requests ≡ some request) where
    decide_operation : find_row (λ o. o.id == request.operation_id) s.operations ≢ none
    unfolding decide find_approval_request_by_id find_operation_by_id ◌>>=◌
    decide_operation e = ground arith

    module _ (operation : Operation)
        (found_operation : find_row (λ o. o.id == request.operation_id) s.operations
          ≡ some operation) where
      decide_asset : find_row (λ a. a.id == operation.asset_id) s.assets ≢ none
      unfolding decide find_approval_request_by_id find_operation_by_id find_asset_by_id ◌>>=◌
      decide_asset e = ground (arith, find_wallet_of_lem operation.wallet_id s)

      decide_wallet : wallet_row operation.wallet_id s ≢ none
      unfolding decide find_approval_request_by_id find_operation_by_id find_asset_by_id ◌>>=◌
      decide_wallet e = ground (arith, find_wallet_of_lem operation.wallet_id s)

-- What a recorded decision has found and passed
pub record Passed (host : Host) (actor : Actor) (request_id : ℕ) (s : Store) : Type 0 where
  pub request : ApprovalRequest
  pub operation : Operation
  pub asset : Asset
  pub wallet : Wallet
  pub found_request : find_row (λ q. q.id == request_id) s.requests ≡ some request
  pub found_operation : find_row (λ o. o.id == request.operation_id) s.operations ≡ some operation
  pub found_asset : find_row (λ a. a.id == operation.asset_id) s.assets ≡ some asset
  pub found_wallet : wallet_row operation.wallet_id s ≡ some wallet
  pub is_open : request.state ≡ ApprovalRequestState.pending
  pub not_requester : request.requested_by ≢ actor.id
  pub awaiting : operation.state ≡ pending_approval
  pub same_intent : text_eq (rebuilt_hash host operation asset wallet) request.proposal_hash ≡ true

some_of : {A : Type 0} (o : Option A) → o ≢ none → (a : A) × (o ≡ some a)
some_of none h = absurd (h refl)
some_of (some a) h = (a, refl)

pub decide-Passed :
    (host : Host) (actor : Actor) (request_id : ℕ) (decision : ApprovalDecisionKind) (s : Store)
    (r : RecordApprovalResult)
    → (decide host actor request_id decision s).0 ≡ ok r
    → (p : Passed host actor request_id s) × (decide host actor request_id decision s
        ≡ register actor decision p.request p.operation s)
decide-Passed host actor request_id decision s r h =
    let (q, fq) = some_of _ (decide_request host actor request_id decision s r h) in
    let (o, fo) = some_of _ (decide_operation host actor request_id decision s r h q fq) in
    let (a, fa) = some_of _ (decide_asset host actor request_id decision s r h q fq o fo) in
    let (w, fw) = some_of _ (decide_wallet host actor request_id decision s r h q fq o fo) in
    let wallet : find_wallet_of o.wallet_id s ≡ (ok (some w), s) =
      find_wallet_of_lem o.wallet_id s ∙ ap (λ x. (ok x, s)) fw in
    let (p, n, t, i, e) =
      decide_passes host actor request_id decision s q o a w fq fo fa wallet r h in
    (
      record {
        request = q;
        operation = o;
        asset = a;
        wallet = w;
        found_request = fq;
        found_operation = fo;
        found_asset = fa;
        found_wallet = fw;
        is_open = p;
        not_requester = n;
        awaiting = t;
        same_intent = i;
      },
      e,
    )

-- The store once the decision and its audit event are written.
abbrev pub registered : Actor → ApprovalDecisionKind → ApprovalRequest → Operation → Store → Store
registered actor decision request operation s = record s {
  decisions =
      record {
        id = s.next_id;
        approval_request_id = request.id;
        approver_id = actor.id;
        operation_requested_by = request.requested_by;
        decision = decision;
        proposal_hash = request.proposal_hash;
      }
      ∷ s.decisions;
  next_id = suc s.next_id;
  audit =
      record {
        actor_type = actor.type;
        actor_id = actor.id;
        action = decision_recorded;
        resource_id = request.id;
        operation_id = some operation.id;
      }
      ∷ s.audit;
}

-- The outcome that the tally then gives
abbrev pub outcome_of : ApprovalRequest → Store → ApprovalOutcome
outcome_of request t =
    tally request.required_approvals
      (select_rows (λ d. d.approval_request_id == request.id) t.decisions)

-- A decision that is registered is the approver's first on the request, not the requester's own,
-- and what follows is the conclusion from the tally.
pub register_passes :
    (actor : Actor) (decision : ApprovalDecisionKind) (request : ApprovalRequest)
    (operation : Operation) (s : Store) (r : RecordApprovalResult)
    → (register actor decision request operation s).0 ≡ ok r
    → let t = registered actor decision request operation s in
      (actor.id ≢ request.requested_by)
      × (any (same_approver request.id actor.id) s.decisions ≡ false)
      × ((conclude actor request operation (outcome_of request t) t).0
          ≡ ok (r.approval_request_state, r.operation_state))
      × (r.operation_id ≡ operation.id)
      × ((register actor decision request operation s).1
          ≡ (conclude actor request operation (outcome_of request t) t).1)
unfolding register insert_approval_decision list_decisions record_audit_event ◌>>=◌
register_passes actor decision request operation s r h = ground arith

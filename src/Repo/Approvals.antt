-- ===== src/Repo/Approvals.antt =====
-- src/db/repositories/approval-repository.ts: approval requests and the decisions on them.
use institutional_tokenizati.Base.{
  ℕ, Bool, ◌&&◌, Option, List, ◌∷◌, Text, ◌==◌, find_row, update_rows, select_rows, any,
}
use institutional_tokenizati.Domain.ApprovalState.{
  ApprovalRequestState, ApprovalDecisionKind, pending, request_state_eq,
}
use institutional_tokenizati.Domain.MintProposal.{MintProposalSnapshot}
use institutional_tokenizati.Domain.Errors.{
  constraint_violation, one_per_approver, no_self_approval,
}
use institutional_tokenizati.Db.{
  ApprovalRequest, ApprovalDecision, Action, Done, pure, gets, modify, throw_if, fresh_id, ◌>>=◌,
  ◌>>◌,
}

unfoldable pub insert_approval_request :
    ℕ → ℕ → MintProposalSnapshot → Text → ℕ → Action ApprovalRequest
insert_approval_request operation_id required snapshot hash requested_by = do
  id ← fresh_id
  let row : ApprovalRequest = record {
    id = id;
    operation_id = operation_id;
    state = pending;
    required_approvals = required;
    proposal_snapshot = snapshot;
    proposal_hash = hash;
    requested_by = requested_by;
  }
  modify λ s. record s { requests = row ∷ s.requests }
  pure row

-- `findApprovalRequestById`, and `lockApprovalRequest`
unfoldable pub find_approval_request_by_id : ℕ → Action (Option ApprovalRequest)
find_approval_request_by_id id = gets λ s. find_row (λ r. r.id == id) s.requests

unfoldable pub find_open_approval_request_for_operation : ℕ → Action (Option ApprovalRequest)
find_open_approval_request_for_operation operation_id = gets λ s.
    find_row (λ r. r.operation_id == operation_id && request_state_eq r.state pending) s.requests

unfoldable pub close_approval_request : ℕ → ApprovalRequestState → Action Done
close_approval_request id state = modify λ s. record s {
  requests = update_rows (λ r. r.id == id) (λ r. record r { state = state }) s.requests;
}

-- A decision of the same approver on the same request: the unique index
abbrev pub same_approver : ℕ → ℕ → ApprovalDecision → Bool
same_approver request_id approver_id d =
    d.approval_request_id == request_id && d.approver_id == approver_id

-- `insertApprovalDecision`, with the CHECK and the UNIQUE constraint of the table
unfoldable pub insert_approval_decision :
    ℕ → ℕ → ℕ → ApprovalDecisionKind → Text → Action ApprovalDecision
insert_approval_decision request_id approver_id requested_by decision hash = do
  throw_if (approver_id == requested_by) (constraint_violation no_self_approval)
  duplicate ← gets λ s. any (same_approver request_id approver_id) s.decisions
  throw_if duplicate (constraint_violation one_per_approver)
  id ← fresh_id
  let row : ApprovalDecision = record {
    id = id;
    approval_request_id = request_id;
    approver_id = approver_id;
    operation_requested_by = requested_by;
    decision = decision;
    proposal_hash = hash;
  }
  modify λ s. record s { decisions = row ∷ s.decisions }
  pure row

-- `listDecisions`, newest first
unfoldable pub list_decisions : ℕ → Action (List ApprovalDecision)
list_decisions request_id =
    gets λ s. select_rows (λ d. d.approval_request_id == request_id) s.decisions

-- ===== src/Approvals/Defs.antt =====
-- src/modules/approvals/approval-service.ts: `recordDecision`, step by step.
use institutional_tokenizati.Base.{
  ℕ, Bool, true, false, not, Option, none, some, List, [], ◌∷◌, text_eq, ◌==◌, length, any, map,
  select_rows, if◌then◌else◌,
}
use institutional_tokenizati.Domain.OperationState.{
  OperationState, pending_approval, ready, state_eq,
}
use institutional_tokenizati.Domain.ApprovalState.{
  ApprovalRequestState, ApprovalDecisionKind, approve, reject, ApprovalOutcome, pending_outcome,
  approved_outcome, rejected_outcome, request_state_eq, evaluate_approval_outcome,
}
use institutional_tokenizati.Domain.Roles.{Actor, admin, approver, is_permitted}
use institutional_tokenizati.Domain.Canonical.{Host}
use institutional_tokenizati.Domain.Errors.{
  Fault, app_error, constraint_violation, plain_error, one_per_approver, no_self_approval,
  one_active_per_wallet, validity_window, live_nonce, transaction_hash_key, resource_not_found,
  forbidden, approval_request_closed, self_approval_not_allowed, invalid_state_transition,
  operation_conflict, approval_already_recorded,
}
use institutional_tokenizati.Db.{
  Operation, ApprovalRequest, ApprovalDecision, Wallet, Action, Done, pure, throw, or_throw,
  transaction, try_catch, throw_if, ◌>>=◌, ◌>>◌, approval_rejected, decision_recorded,
  operation_approved, operation_cancelled, request_superseded,
}
use institutional_tokenizati.Repo.Operations.{
  no_patch, failure, find_operation_by_id, transition_operation,
}
use institutional_tokenizati.Repo.Approvals.{
  find_approval_request_by_id, close_approval_request, insert_approval_decision, list_decisions,
}
use institutional_tokenizati.Repo.Outbox.{enqueue_outbox}
use institutional_tokenizati.Repo.Reference.{
  find_asset_by_id, find_wallet_by_id, record_audit_event,
}
use institutional_tokenizati.Mints.Proposal.{rebuilt_hash}

pub record RecordApprovalResult : Type 0 where
  pub approval_request_id : ℕ
  pub operation_id : ℕ
  pub approval_request_state : ApprovalRequestState
  pub operation_state : OperationState
  pub approvals_recorded : ℕ
  pub required_approvals : ℕ

abbrev pub not_found : Fault
not_found = app_error resource_not_found

unfoldable pub is_approve : ApprovalDecisionKind → Bool
is_approve approve = true
is_approve reject = false

-- The identities of the approvals among the decisions
unfoldable pub approver_ids_of : List ApprovalDecision → List ℕ
unfolding is_approve
approver_ids_of decisions =
    map (λ d. d.approver_id) (select_rows (λ d. is_approve d.decision) decisions)

-- The tally of the recorded decisions
unfoldable pub tally : ℕ → List ApprovalDecision → ApprovalOutcome
unfolding approver_ids_of is_approve
tally required decisions = evaluate_approval_outcome (record {
  required_approvals = required;
  approver_ids = approver_ids_of decisions;
  has_rejection = any (λ d. not (is_approve d.decision)) decisions;
})

-- `operation.walletId === null ? null : await findWalletById(...)`
unfoldable pub find_wallet_of : Option ℕ → Action (Option Wallet)
find_wallet_of none = pure none
find_wallet_of (some id) = find_wallet_by_id id

-- The intent changed: the request is closed, and the caller told.
unfoldable pub supersede : Actor → ApprovalRequest → Action Done
supersede actor request = do
  close_approval_request request.id ApprovalRequestState.superseded
  record_audit_event actor request_superseded request.id (some request.operation_id)
  throw (app_error operation_conflict)

-- `if (rebuilt.hash !== request.proposalHash) { ... }`
unfoldable pub supersede_unless : Bool → Actor → ApprovalRequest → Action Done
unfolding supersede
supersede_unless same actor request = if same then pure tt else supersede actor request

-- The `catch` around the insertion of a decision
unfoldable pub decision_fault : Fault → Fault
decision_fault (constraint_violation one_per_approver) = app_error approval_already_recorded
decision_fault (constraint_violation no_self_approval) = app_error self_approval_not_allowed
decision_fault (constraint_violation live_nonce) = constraint_violation live_nonce
decision_fault (constraint_violation transaction_hash_key) =
    constraint_violation transaction_hash_key
decision_fault (constraint_violation one_active_per_wallet) =
    constraint_violation one_active_per_wallet
decision_fault (constraint_violation validity_window) = constraint_violation validity_window
decision_fault (app_error c) = app_error c
decision_fault plain_error = plain_error

-- What follows from the outcome of the tally: the states of the request and of the operation
unfoldable pub conclude :
    Actor
    → ApprovalRequest
    → Operation
    → ApprovalOutcome
    → Action (ApprovalRequestState × OperationState)
conclude actor request operation (pending_outcome n) = pure (request.state, operation.state)
conclude actor request operation approved_outcome = do
  close_approval_request request.id ApprovalRequestState.approved
  row ← transition_operation operation ready no_patch
  enqueue_outbox operation.id operation.correlation_id
  record_audit_event actor operation_approved operation.id (some operation.id)
  pure (ApprovalRequestState.approved, row.state)
conclude actor request operation rejected_outcome = do
  close_approval_request request.id ApprovalRequestState.rejected
  row ← transition_operation operation OperationState.cancelled (failure approval_rejected)
  record_audit_event actor operation_cancelled operation.id (some operation.id)
  pure (ApprovalRequestState.rejected, row.state)

-- From the insertion of the decision to the answer
unfoldable pub register :
    Actor → ApprovalDecisionKind → ApprovalRequest → Operation → Action RecordApprovalResult
register actor decision request operation = do
  try_catch
      (insert_approval_decision request.id actor.id request.requested_by decision
        request.proposal_hash)
      (λ e. throw (decision_fault e))
  decisions ← list_decisions request.id
  record_audit_event actor decision_recorded request.id (some operation.id)
  states ← conclude actor request operation (tally request.required_approvals decisions)
  pure (record {
    approval_request_id = request.id;
    operation_id = operation.id;
    approval_request_state = states.0;
    operation_state = states.1;
    approvals_recorded = length (approver_ids_of decisions);
    required_approvals = request.required_approvals;
  })

-- The body of the transaction
unfoldable pub decide : Host → Actor → ℕ → ApprovalDecisionKind → Action RecordApprovalResult
decide host actor request_id decision = do
  locked ← find_approval_request_by_id request_id
  request ← or_throw locked not_found
  throw_if (not (request_state_eq request.state ApprovalRequestState.pending))
      (app_error approval_request_closed)
  throw_if (request.requested_by == actor.id) (app_error self_approval_not_allowed)
  locked_operation ← find_operation_by_id request.operation_id
  operation ← or_throw locked_operation not_found
  throw_if (not (state_eq operation.state pending_approval)) (app_error invalid_state_transition)
  found_asset ← find_asset_by_id operation.asset_id
  found_wallet ← find_wallet_of operation.wallet_id
  asset ← or_throw found_asset not_found
  wallet ← or_throw found_wallet not_found
  supersede_unless (text_eq (rebuilt_hash host operation asset wallet) request.proposal_hash) actor
      request
  register actor decision request operation

-- `ApprovalService.recordDecision`
unfoldable pub record_decision :
    Host → Actor → ℕ → ApprovalDecisionKind → Action RecordApprovalResult
record_decision host actor request_id decision = do
  throw_if (not (is_permitted actor (approver ∷ admin ∷ []))) (app_error forbidden)
  found ← find_approval_request_by_id request_id
  preview ← or_throw found not_found
  found_operation ← find_operation_by_id preview.operation_id
  operation_preview ← or_throw found_operation not_found
  throw_if (not (operation_preview.organization_id == actor.organization_id)) not_found
  transaction (decide host actor request_id decision)

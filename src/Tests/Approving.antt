-- ===== src/Tests/Approving.antt =====
-- The second approval of a mint.
use institutional_tokenizati.Base.{
  ◌==◌, ◌≡◌, ◌≢◌, ◌⊎◌, refl, Bool, true, false, some, [], ◌∷◌, arith, ◌==◌, find_row, text_eq,
  select_rows,
}
use institutional_tokenizati.Domain.Canonical.{canonical_hash}
use institutional_tokenizati.Domain.OperationState.{ready, state_eq, can_transition_operation}
use institutional_tokenizati.Domain.ApprovalState.{
  ApprovalRequestState, approve, request_state_eq, evaluate_approval_outcome, distinct,
}
use institutional_tokenizati.Domain.MintProposal.{hash_mint_proposal}
use institutional_tokenizati.Domain.Roles.{admin, approver, is_permitted}
use institutional_tokenizati.Domain.Errors.{app_error, operation_conflict}
use institutional_tokenizati.Db.{Operation, ok, err, ◌>>=◌}
use institutional_tokenizati.Db.Atomic.{IsAtomic}
use institutional_tokenizati.Repo.Operations.{
  find_operation_by_id, transition_operation, advanced, apply_patch,
}
use institutional_tokenizati.Repo.Approvals.{
  find_approval_request_by_id, close_approval_request, insert_approval_decision, list_decisions,
}
use institutional_tokenizati.Repo.Outbox.{enqueue_outbox}
use institutional_tokenizati.Repo.Reference.{
  find_asset_by_id, find_wallet_by_id, record_audit_event,
}
use institutional_tokenizati.Mints.Proposal.{rebuilt_hash}
use institutional_tokenizati.Approvals.{
  RecordApprovalResult, record_decision, decide, register, conclude, supersede_unless,
  find_wallet_of, tally, approver_ids_of, is_approve,
}
use institutional_tokenizati.Approvals.Decisions.{IsSound}
use institutional_tokenizati.Approvals.Atomicity.{record_decision-IsAtomic}
use institutional_tokenizati.Approvals.Guards.{Passed}
use institutional_tokenizati.Approvals.TwoPerson.{recorded_decision_guards, record_decision-IsSound}
use institutional_tokenizati.Approvals.Outcome.{
  work_item, ready_with_work_item, superseding_is_undone,
}
use institutional_tokenizati.Tests.Fixtures.{
  host, second_approver, mint, request_with, asset, wallet, store, store_with,
}

abbrev answer : RecordApprovalResult
answer = record {
  approval_request_id = 5;
  operation_id = 1;
  approval_request_state = ApprovalRequestState.approved;
  operation_state = ready;
  approvals_recorded = 2;
  required_approvals = 2;
}

second_approval : (record_decision host second_approver 5 approve store).0 ≡ ok answer
unfolding record_decision is_permitted find_approval_request_by_id find_operation_by_id find_row
    decide request_state_eq state_eq find_asset_by_id find_wallet_of find_wallet_by_id rebuilt_hash
    hash_mint_proposal canonical_hash supersede_unless register insert_approval_decision
    list_decisions select_rows record_audit_event tally approver_ids_of is_approve
    evaluate_approval_outcome distinct conclude close_approval_request transition_operation
    can_transition_operation advanced apply_patch enqueue_outbox ◌>>=◌
second_approval = refl

store-IsSound : IsSound store
unfolding find_row
store-IsSound = record { sound = ((λ e. ground arith, refl), tt); once = (refl, tt) }

is_refused : text_eq (rebuilt_hash host mint asset wallet) (1 ∷ []) ≡ false
unfolding rebuilt_hash hash_mint_proposal canonical_hash
is_refused = refl

has_role_example : is_permitted second_approver (approver ∷ admin ∷ []) ≡ true
unfolding is_permitted
has_role_example = refl

recorded_decision_guards_example :
    (is_permitted second_approver (approver ∷ admin ∷ []) ≡ true)
    × Passed host second_approver 5 store
recorded_decision_guards_example =
    recorded_decision_guards host second_approver 5 approve store answer second_approval

record_decision-IsSound_example : IsSound (record_decision host second_approver 5 approve store).1
record_decision-IsSound_example =
    record_decision-IsSound host second_approver 5 approve store store-IsSound

record_decision-IsAtomic_example : IsAtomic (record_decision host second_approver 5 approve)
record_decision-IsAtomic_example = record_decision-IsAtomic host second_approver 5 approve

ready_with_work_item_example :
    (operation : Operation) × (operation.id ≡ 1)
    × (find_row (λ o. o.id == 1) store.operations ≡ some operation)
    × ((row : Operation) × (find_row
            (λ o. o.id == 1)
            (record_decision host second_approver 5 approve store).1.operations
          ≡ some row)
        × (row.state ≡ ready))
    × (((ready ≡ ready)
          × ((record_decision host second_approver 5 approve store).1.outbox
              ≡ work_item 101 5000 operation ∷ []))
        ⊎ ((ready ≢ ready)
            × ((record_decision host second_approver 5 approve store).1.outbox ≡ [])))
ready_with_work_item_example =
    ready_with_work_item host second_approver 5 approve store answer second_approval

finds_row : {A : Type 0} (p : A → Bool) (x : A) → p x ≡ true → find_row p (x ∷ []) ≡ some x
unfolding find_row
finds_row p x h = ground arith

superseding_is_undone_example :
    record_decision host second_approver 5 approve (store_with (1 ∷ []))
    ≡ (err (app_error operation_conflict), store_with (1 ∷ []))
superseding_is_undone_example =
    superseding_is_undone host second_approver 5 approve (store_with (1 ∷ []))
      (request_with (1 ∷ [])) mint asset wallet has_role_example
      (finds_row _ (request_with (1 ∷ [])) refl) (finds_row _ mint refl) (finds_row _ asset refl)
      (finds_row _ wallet refl) refl refl (λ e. ground arith) refl is_refused

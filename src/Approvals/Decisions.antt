-- ===== src/Approvals/Decisions.antt =====
-- src/modules/approvals/approval-service.ts: the recorded decisions, and that they stay sound.
use institutional_tokenizati.Base.{
  ℕ, ◌≡◌, ◌≢◌, refl, ◌∙◌, false, Option, none, some, List, [], ◌∷◌, arith, ◌==◌, any, find_row,
  update_rows, find_row-update_rows, option_map, touch,
}
use institutional_tokenizati.Domain.ApprovalState.{
  ApprovalRequestState, ApprovalOutcome, pending_outcome, approved_outcome, rejected_outcome,
}
use institutional_tokenizati.Domain.OperationState.{OperationState}
use institutional_tokenizati.Domain.Roles.{Actor}
use institutional_tokenizati.Db.{
  Store, ApprovalRequest, ApprovalDecision, Operation, ◌>>=◌, AuditAction,
}
use institutional_tokenizati.Db.Within.{Within, IsPreorder, Within-modify, within_rules}
use institutional_tokenizati.Repo.Operations.{
  Patch, transition_operation, update_observed, record_operation_transition,
}
use institutional_tokenizati.Repo.Approvals.{same_approver, close_approval_request}
use institutional_tokenizati.Repo.Outbox.{enqueue_outbox}
use institutional_tokenizati.Repo.Reference.{record_audit_event}
use institutional_tokenizati.Approvals.Defs.{conclude}

-- Who requested the operation of a request; the requests of a store are closed, never rewritten.
abbrev pub requester_of : ℕ → Store → Option ℕ
requester_of id s = option_map (λ q. q.requested_by) (find_row (λ q. q.id == id) s.requests)

-- One row against the request it belongs to: nobody decides on their own request.
abbrev pub IsSoundRow : Store → ApprovalDecision → Type 0
IsSoundRow s d =
    (d.approver_id ≢ d.operation_requested_by)
    × (requester_of d.approval_request_id s ≡ some d.operation_requested_by)

abbrev pub AllSound : Store → List ApprovalDecision → Type 0
AllSound s [] = Unit {0}
AllSound s (d ∷ ds) = IsSoundRow s d × AllSound s ds

-- No approver has two rows on one request.
abbrev pub IsOnce : List ApprovalDecision → Type 0
IsOnce [] = Unit {0}
IsOnce (d ∷ ds) = (any (same_approver d.approval_request_id d.approver_id) ds ≡ false) × IsOnce ds

pub record IsSound (s : Store) : Type 0 where
  pub sound : AllSound s s.decisions
  pub once : IsOnce s.decisions

-- The decisions, and who requested what, are as they were.
pub record KeepsDecisions (s t : Store) : Type 0 where
  pub decisions : t.decisions ≡ s.decisions
  pub requesters : (id : ℕ) → requester_of id t ≡ requester_of id s

KeepsDecisions-preorder : IsPreorder KeepsDecisions
KeepsDecisions-preorder = record {
  same = λ s. record { decisions = refl; requesters = λ id. refl };
  join = λ s t u h k. record {
    decisions = k.decisions ∙ h.decisions;
    requesters = λ id. k.requesters id ∙ h.requesters id;
  };
}

close_approval_request-KeepsDecisions :
    (id : ℕ) (state : ApprovalRequestState)
    → Within KeepsDecisions (close_approval_request id state)
unfolding close_approval_request
close_approval_request-KeepsDecisions id state =
    Within-modify KeepsDecisions-preorder _
      λ s. record { decisions = refl; requesters = λ j. closing s j }
  where
    requested :
        (o : Option ApprovalRequest)
        → option_map
            (λ q. q.requested_by)
            (option_map (touch (λ r. r.id == id) (λ r. record r { state = state })) o)
          ≡ option_map (λ q. q.requested_by) o
    requested none = refl
    requested (some q) = ground arith

    closing :
        (s : Store) (j : ℕ)
        → option_map
            (λ q. q.requested_by)
            (find_row
              (λ q. q.id == j)
              (update_rows (λ r. r.id == id) (λ r. record r { state = state }) s.requests))
          ≡ requester_of j s
    closing s j =
        rw
          (find_row-update_rows (λ q. q.id == j) (λ r. r.id == id) (λ r. record r { state = state })
            s.requests (λ a. refl))
          (requested _)

enqueue_outbox-KeepsDecisions : (o c : ℕ) → Within KeepsDecisions (enqueue_outbox o c)
unfolding enqueue_outbox ◌>>=◌
enqueue_outbox-KeepsDecisions o c = record {
  at = λ s. record { decisions = refl; requesters = λ j. refl };
}

record_audit_event-KeepsDecisions :
    (a : Actor) (x : AuditAction) (i : ℕ) (o : Option ℕ)
    → Within KeepsDecisions (record_audit_event a x i o)
unfolding record_audit_event
record_audit_event-KeepsDecisions a x i o =
    Within-modify KeepsDecisions-preorder _ λ s. record { decisions = refl; requesters = λ j. refl }

update_observed-KeepsDecisions :
    (o : Operation) (to : OperationState) (p : Patch)
    → Within KeepsDecisions (update_observed o to p)
unfolding update_observed ◌>>=◌
update_observed-KeepsDecisions o to p = record {
  at = λ s. record { decisions = refl; requesters = λ j. refl };
}

record_operation_transition-KeepsDecisions :
    (i : ℕ) (f : Option OperationState) (to : OperationState)
    → Within KeepsDecisions (record_operation_transition i f to)
unfolding record_operation_transition
record_operation_transition-KeepsDecisions i f to =
    Within-modify KeepsDecisions-preorder _ λ s. record { decisions = refl; requesters = λ j. refl }

transition_operation-KeepsDecisions :
    (o : Operation) (to : OperationState) (p : Patch)
    → Within KeepsDecisions (transition_operation o to p)
unfolding transition_operation
transition_operation-KeepsDecisions o to p =
    search
      (
        within_rules, KeepsDecisions-preorder, update_observed-KeepsDecisions,
        record_operation_transition-KeepsDecisions,
      )
      depth 14

pub conclude-KeepsDecisions :
    (actor : Actor) (request : ApprovalRequest) (operation : Operation) (outcome : ApprovalOutcome)
    → Within KeepsDecisions (conclude actor request operation outcome)
unfolding conclude
conclude-KeepsDecisions actor request operation (pending_outcome n) =
    search (within_rules, KeepsDecisions-preorder)
conclude-KeepsDecisions actor request operation approved_outcome =
    search
      (
        within_rules, KeepsDecisions-preorder, close_approval_request-KeepsDecisions,
        transition_operation-KeepsDecisions, enqueue_outbox-KeepsDecisions,
        record_audit_event-KeepsDecisions,
      )
      depth 14
conclude-KeepsDecisions actor request operation rejected_outcome =
    search
      (
        within_rules, KeepsDecisions-preorder, close_approval_request-KeepsDecisions,
        transition_operation-KeepsDecisions, record_audit_event-KeepsDecisions,
      )
      depth 14

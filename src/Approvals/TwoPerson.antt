-- ===== src/Approvals/TwoPerson.antt =====
-- src/modules/approvals/approval-service.ts: the two-person rule.
use institutional_tokenizati.Base.{
  ℕ, ◌≡◌, ◌≢◌, refl, sym, ap, ◌∙◌, true, false, some, List, [], ◌∷◌, arith, ◌==◌, any, find_row,
  find_row_sound, select_rows, ==_iff,
}
use institutional_tokenizati.Domain.Canonical.{Host}
use institutional_tokenizati.Domain.ApprovalState.{ApprovalRequestState, ApprovalDecisionKind}
use institutional_tokenizati.Domain.OperationState.{OperationState}
use institutional_tokenizati.Domain.Roles.{Actor, admin, approver, is_permitted}
use institutional_tokenizati.Db.{
  Store, ApprovalRequest, ApprovalDecision, Operation, Result, ok, err, transaction, ◌>>=◌,
}
use institutional_tokenizati.Repo.Approvals.{find_approval_request_by_id, same_approver}
use institutional_tokenizati.Repo.Operations.{find_operation_by_id}
use institutional_tokenizati.Approvals.Defs.{
  RecordApprovalResult, approver_ids_of, conclude, decide, record_decision,
}
use institutional_tokenizati.Approvals.Atomicity.{record_decision-IsAtomic}
use institutional_tokenizati.Approvals.Guards.{
  Passed, decide-Passed, register_passes, registered, outcome_of,
}
use institutional_tokenizati.Approvals.Decisions.{
  IsSound, AllSound, requester_of, KeepsDecisions, conclude-KeepsDecisions,
}

-- The approvers of a request so far
abbrev pub approvers : ℕ → Store → List ℕ
approvers request_id s =
    approver_ids_of (select_rows (λ d. d.approval_request_id == request_id) s.decisions)

AllSound-move :
    (s t : Store) (ds : List ApprovalDecision)
    → ((id : ℕ) → requester_of id t ≡ requester_of id s)
    → AllSound s ds
    → AllSound t ds
AllSound-move s t [] h k = tt
AllSound-move s t (d ∷ ds) h k =
    ((k.0.0, h d.approval_request_id ∙ k.0.1), AllSound-move s t ds h k.1)

module _ (host : Host) (actor : Actor) (request_id : ℕ) (decision : ApprovalDecisionKind)
    (s : Store) (r : RecordApprovalResult) where
  -- A decision that is recorded passed the role check, and ran as its transaction.
  record_decision_passes :
      (record_decision host actor request_id decision s).0 ≡ ok r
      → (is_permitted actor (approver ∷ admin ∷ []) ≡ true)
        × (record_decision host actor request_id decision s
            ≡ decide host actor request_id decision s)
  unfolding record_decision transaction find_approval_request_by_id find_operation_by_id ◌>>=◌
  record_decision_passes h = ground arith

  -- A decision is recorded only for an actor with the role of an approver or administrator, on a
  -- pending request that another actor made, whose operation awaits approval, and only while the
  -- proposal rebuilt from the current rows has the hash that was proposed.
  pub recorded_decision_guards :
      (record_decision host actor request_id decision s).0 ≡ ok r
      → (is_permitted actor (approver ∷ admin ∷ []) ≡ true) × Passed host actor request_id s
  recorded_decision_guards h =
      let (permitted, e) = record_decision_passes h in
      (permitted, (decide-Passed host actor request_id decision s r (sym (ap (λ x. x.0) e) ∙ h)).0)

requester-found :
    (s : Store) (request : ApprovalRequest) (id : ℕ)
    → find_row (λ q. q.id == id) s.requests ≡ some request
    → requester_of request.id s ≡ some request.requested_by
requester-found s request id found =
    let same : request.id ≡ id =
      (==_iff request.id id).0 (find_row_sound (λ q. q.id == id) s.requests request found) in
    rw same (rw found)

module _ (host : Host) (actor : Actor) (request_id : ℕ) (decision : ApprovalDecisionKind)
    (s : Store) where
  registered-IsSound :
      (request : ApprovalRequest) (operation : Operation) (t : Store)
      → find_row (λ q. q.id == request_id) s.requests ≡ some request
      → actor.id ≢ request.requested_by
      → any (same_approver request.id actor.id) s.decisions ≡ false
      → KeepsDecisions (registered actor decision request operation s) t
      → IsSound s
      → IsSound t
  registered-IsSound request operation t found ne fresh keeps valid =
      let own : requester_of request.id s ≡ some request.requested_by =
        requester-found s request request_id found in
      record {
        sound = rw keeps.decisions (
          (ne, keeps.requesters request.id ∙ own),
          AllSound-move s t s.decisions keeps.requesters valid.sound,
        );
        once = rw keeps.decisions (fresh, valid.once);
      }

  -- The store once the decision is written, and what follows from the tally
  abbrev pub written : Passed host actor request_id s → Store
  written p = registered actor decision p.request p.operation s

  abbrev pub concluded :
      Passed host actor request_id s → Result (ApprovalRequestState × OperationState) × Store
  concluded p = conclude actor p.request p.operation (outcome_of p.request (written p)) (written p)

  pub recorded_effect :
      (r : RecordApprovalResult)
      → (record_decision host actor request_id decision s).0 ≡ ok r
      → (p : Passed host actor request_id s) × (actor.id ≢ p.request.requested_by)
        × (any (same_approver p.request.id actor.id) s.decisions ≡ false)
        × ((concluded p).0 ≡ ok (r.approval_request_state, r.operation_state))
        × (r.operation_id ≡ p.operation.id)
        × ((record_decision host actor request_id decision s).1 ≡ (concluded p).1)
  recorded_effect r h =
      let (_, run) = record_decision_passes host actor request_id decision s r h in
      let (p, e) = decide-Passed host actor request_id decision s r (sym (ap (λ y. y.0) run) ∙ h) in
      let all = run ∙ e in
      let (ne, fresh, c, i, t) =
        register_passes actor decision p.request p.operation s r (sym (ap (λ y. y.0) all) ∙ h) in
      (p, ne, fresh, c, i, ap (λ y. y.1) all ∙ t)

  concluded-KeepsDecisions :
      (p : Passed host actor request_id s) → KeepsDecisions (written p) (concluded p).1
  concluded-KeepsDecisions p =
      (conclude-KeepsDecisions actor p.request p.operation (outcome_of p.request (written p))).at
        (written p)

  recorded-IsSound :
      (x : Result RecordApprovalResult)
      → (record_decision host actor request_id decision s).0 ≡ x
      → IsSound s
      → IsSound (record_decision host actor request_id decision s).1
  recorded-IsSound (err e) h valid =
      rw ((record_decision-IsAtomic host actor request_id decision).at s e h) valid
  recorded-IsSound (ok r) h valid =
      let (p, ne, fresh, _, _, t) = recorded_effect r h in
      rw t (
        registered-IsSound p.request p.operation (concluded p).1 p.found_request ne fresh
          (concluded-KeepsDecisions p) valid)

  -- Recording a decision, or failing to, keeps the recorded decisions sound: nobody decides on a
  -- request of their own, and no approver has two decisions on one request.
  pub record_decision-IsSound :
      IsSound s → IsSound (record_decision host actor request_id decision s).1
  record_decision-IsSound valid = recorded-IsSound _ refl valid

-- ===== src/Tests/Lifecycle.antt =====
-- Runs of the state machine and of the tally.
use institutional_tokenizati.Base.{
  List, length, ℕ, ◌+◌, ◌≤◌, ◌<◌, ◌≡◌, ◌↔◌, refl, true, false, [], ◌∷◌,
}
use institutional_tokenizati.Domain.OperationState.{
  OperationState, pending_approval, ready, preparing, signing, signed, broadcasting, submitted,
  included, succeeded, cancelled, is_terminal_operation_state, can_transition_operation,
}
use institutional_tokenizati.Domain.OperationState.Graph.{
  Run, here, step, terminal_iff_stuck, never_signs_again, is_past_signing, visits, succeeded_visits,
  terminal_reachable,
}
use institutional_tokenizati.Domain.ApprovalState.{
  ApprovalTallyInput, approved_outcome, rejected_outcome, pending_outcome,
  evaluate_approval_outcome,
}
use institutional_tokenizati.Domain.ApprovalState.Tally.{IsRoll, outcome_meaning}

abbrev to_broadcasting : Run pending_approval broadcasting
unfolding can_transition_operation
to_broadcasting =
    step {t = signed}
      (step {t = signing}
        (step {t = preparing} (step {t = ready} (step {t = pending_approval} here refl) refl) refl)
        refl)
      refl

abbrev whole : Run pending_approval succeeded
unfolding can_transition_operation
whole =
    step {t = included} (step {t = submitted} (step {t = broadcasting} to_broadcasting refl) refl)
      refl

abbrev settles : Run broadcasting succeeded
unfolding can_transition_operation
settles = step {t = included} (step {t = submitted} (step {t = broadcasting} here refl) refl) refl

terminal_iff_stuck_example :
    (is_terminal_operation_state cancelled ≡ true)
    ↔ ((t : OperationState) → can_transition_operation cancelled t ≡ false)
terminal_iff_stuck_example = terminal_iff_stuck cancelled

never_signs_again_example : is_past_signing succeeded ≡ true
never_signs_again_example = never_signs_again refl settles

succeeded_visits_example :
    (visits signed whole ≡ true)
    × (visits broadcasting whole ≡ true)
    × (visits included whole ≡ true)
succeeded_visits_example = succeeded_visits whole

abbrev votes : ApprovalTallyInput
votes = record { required_approvals = 2; approver_ids = 8 ∷ 9 ∷ 8 ∷ []; has_rejection = false }

outcome_meaning_example :
    (roll : List ℕ) × IsRoll votes.approver_ids roll
    × ((evaluate_approval_outcome votes ≡ rejected_outcome) ↔ (votes.has_rejection ≡ true))
    × ((evaluate_approval_outcome votes ≡ approved_outcome)
        ↔ ((votes.has_rejection ≡ false) × (votes.required_approvals ≤ length roll)))
    × ((n : ℕ)
        → evaluate_approval_outcome votes ≡ pending_outcome n
        → (0 < n) × (length roll + n ≡ votes.required_approvals))
outcome_meaning_example = outcome_meaning votes

terminal_reachable_example :
    (t : OperationState) × (is_terminal_operation_state t ≡ true) × Run submitted t
terminal_reachable_example = terminal_reachable submitted

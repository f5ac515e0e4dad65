-- ===== src/Domain/ApprovalState/Defs.antt =====
-- src/domain/approval-state.ts: the states of an approval request and the tally.
use institutional_tokenizati.Base.{
  ℕ, ◌+◌, ◌-◌, Bool, true, false, List, [], ◌∷◌, any, ◌==◌, leb, if◌then◌else◌,
}

pub data ApprovalRequestState : Type 0 where
  pending approved rejected superseded cancelled : ApprovalRequestState

pub data ApprovalDecisionKind : Type 0 where
  approve reject : ApprovalDecisionKind

-- REQUIRED_MINT_APPROVALS
abbrev pub required_mint_approvals : ℕ
required_mint_approvals = 2

unfoldable pub request_state_eq : ApprovalRequestState → ApprovalRequestState → Bool
request_state_eq pending pending = true
request_state_eq approved approved = true
request_state_eq rejected rejected = true
request_state_eq superseded superseded = true
request_state_eq cancelled cancelled = true
request_state_eq _ _ = false

-- ALLOWED_TRANSITIONS
unfoldable pub allowed_request_transitions : ApprovalRequestState → List ApprovalRequestState
allowed_request_transitions pending = approved ∷ rejected ∷ superseded ∷ cancelled ∷ []
allowed_request_transitions approved = []
allowed_request_transitions rejected = []
allowed_request_transitions superseded = []
allowed_request_transitions cancelled = []

unfoldable pub can_transition_approval_request : ApprovalRequestState → ApprovalRequestState → Bool
unfolding request_state_eq allowed_request_transitions
can_transition_approval_request from to =
    any (request_state_eq to) (allowed_request_transitions from)

unfoldable pub is_approval_request_open : ApprovalRequestState → Bool
unfolding request_state_eq
is_approval_request_open state = request_state_eq state pending

-- `new Set(ids).size`: an identity counts where it occurs for the last time.
unfoldable pub distinct : List ℕ → ℕ
distinct [] = 0
distinct (x ∷ xs) = (if any (λ y. x == y) xs then 0 else 1) + distinct xs

pub record ApprovalTallyInput : Type 0 where
  pub required_approvals : ℕ
  pub approver_ids : List ℕ
  pub has_rejection : Bool

pub data ApprovalOutcome : Type 0 where
  pending_outcome : ℕ → ApprovalOutcome
  approved_outcome : ApprovalOutcome
  rejected_outcome : ApprovalOutcome

unfoldable pub evaluate_approval_outcome : ApprovalTallyInput → ApprovalOutcome
evaluate_approval_outcome input =
    let distinct_approvers = distinct input.approver_ids in
    if input.has_rejection
    then rejected_outcome
    else if leb input.required_approvals distinct_approvers
    then approved_outcome
    else pending_outcome (input.required_approvals - distinct_approvers)

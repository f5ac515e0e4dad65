-- ===== src/Domain/ApprovalState/Tally.antt =====
-- src/domain/approval-state.ts: what `evaluateApprovalOutcome` promises.
use institutional_tokenizati.Base.{
  ℕ, ◌+◌, ◌≤◌, ◌<◌, ◌≡◌, ◌≢◌, Bool, true, false, List, [], ◌∷◌, ◌↔◌, inl, inr, any, arith, ◌==◌,
  length, Bool-cases, refl, ==_iff, ◌∙◌,
}
use institutional_tokenizati.Domain.ApprovalState.Defs.{
  ApprovalTallyInput, pending_outcome, approved_outcome, rejected_outcome, distinct,
  evaluate_approval_outcome,
}

-- The identity is among the recorded ones.
abbrev pub occurs : ℕ → List ℕ → Bool
occurs a = any (λ y. a == y)

-- A second row of the same approver does not count.
pub distinct_duplicate :
    (a : ℕ) (xs : List ℕ) → occurs a xs ≡ true → distinct (a ∷ xs) ≡ distinct xs
unfolding distinct
distinct_duplicate a xs h = ground arith

-- With two distinct identities or more there are two members that differ.
two_members :
    (xs : List ℕ)
    → 2 ≤ distinct xs
    → (a : ℕ) × (b : ℕ) × (a ≢ b) × (occurs a xs ≡ true) × (occurs b xs ≡ true)
unfolding distinct
two_members [] h = absurd (omega arith)
two_members (x ∷ []) h = absurd (ground arith)
two_members (x ∷ y ∷ ys) h = elim (Bool-cases (occurs x (y ∷ ys))) [
  | inl seen ↦
      let (a, b, ne, ma, mb) = two_members (y ∷ ys) (ground arith) in
      (a, b, ne, ground arith, ground arith)
  | inr fresh ↦ (x, y, ground arith, ground arith, ground arith)
]

outcome_cases :
    (input : ApprovalTallyInput)
    → ((evaluate_approval_outcome input ≡ rejected_outcome) ↔ (input.has_rejection ≡ true))
      × ((evaluate_approval_outcome input ≡ approved_outcome) ↔ (
          (input.has_rejection ≡ false) × (input.required_approvals ≤ distinct input.approver_ids)))
      × ((n : ℕ)
          → evaluate_approval_outcome input ≡ pending_outcome n
          → (0 < n) × (distinct input.approver_ids + n ≡ input.required_approvals))
unfolding evaluate_approval_outcome
outcome_cases input = (ground arith, ground arith, λ n h. ground arith)

-- Nobody is in the list twice.
pub HasNoTwice : List ℕ → Type 0
HasNoTwice [] = Unit {0}
HasNoTwice (a ∷ xs) = (occurs a xs ≡ false) × HasNoTwice xs

-- The list has the recorded identities, each of them once.
pub record IsRoll (recorded roll : List ℕ) : Type 0 where
  pub once : HasNoTwice roll
  pub same : (a : ℕ) → occurs a roll ≡ occurs a recorded

listed :
    (recorded : List ℕ) → (roll : List ℕ) × IsRoll recorded roll × (length roll ≡ distinct recorded)
unfolding distinct HasNoTwice
listed [] = ([], record { once = tt; same = λ a. refl }, refl)
listed (x ∷ xs) =
    let (roll, is, n) = listed xs in
    elim (Bool-cases (occurs x xs)) [
      | inl seen ↦ (
        roll,
        record { once = is.once; same = λ a. ground (arith, is.same a, ==_iff a x, seen) },
        ground (arith, n, seen),
      )
      | inr fresh ↦ (
        x ∷ roll,
        record { once = (is.same x ∙ fresh, is.once); same = λ a. ground (arith, is.same a) },
        ground (arith, n, fresh),
      )
    ]

-- What each outcome means, with the recorded approvers listed once each: a rejection decides
-- alone; without one the outcome is approved exactly when the list is as long as the threshold at
-- least, and a pending outcome names exactly the number of approvers that are missing.
pub outcome_meaning :
    (input : ApprovalTallyInput)
    → (roll : List ℕ) × IsRoll input.approver_ids roll
      × ((evaluate_approval_outcome input ≡ rejected_outcome) ↔ (input.has_rejection ≡ true))
      × ((evaluate_approval_outcome input ≡ approved_outcome)
          ↔ ((input.has_rejection ≡ false) × (input.required_approvals ≤ length roll)))
      × ((n : ℕ)
          → evaluate_approval_outcome input ≡ pending_outcome n
          → (0 < n) × (length roll + n ≡ input.required_approvals))
outcome_meaning input =
    let (roll, is, n) = listed input.approver_ids in
    let (rejected, approved, missing) = outcome_cases input in
    (roll, is, rejected, rw n approved, rw n missing)

-- Under a threshold of two or more, an approval rests on two different identities, however
-- often each of them is recorded.
pub approved_by_two :
    (input : ApprovalTallyInput)
    → 2 ≤ input.required_approvals
    → evaluate_approval_outcome input ≡ approved_outcome
    → (a : ℕ) × (b : ℕ) × (a ≢ b)
      × (occurs a input.approver_ids ≡ true)
      × (occurs b input.approver_ids ≡ true)
approved_by_two input h e =
    two_members input.approver_ids (omega (arith, ((outcome_cases input).1.0 e).1))

pub distinct-le-length : (xs : List ℕ) → distinct xs ≤ length xs
unfolding distinct
distinct-le-length [] = omega arith
distinct-le-length (x ∷ xs) = ground (arith, distinct-le-length xs)

-- ===== src/Domain/OperationState/Graph.antt =====
-- src/domain/operation-state.ts: what the table of transitions promises about whole lifecycles.
use institutional_tokenizati.Base.{◌≡◌, refl, Bool, true, false, ◌↔◌, ◌⊎◌, inl, inr, ◌||◌, arith}
use institutional_tokenizati.Domain.OperationState.Defs.{
  OperationState, pending_approval, ready, preparing, signing, signed, broadcasting,
  broadcast_unknown, submitted, included, succeeded, reverted, failed, cancelled, state_eq,
  can_transition_operation, is_terminal_operation_state,
}

-- A lifecycle: a run of allowed transitions.
pub data Run (s : OperationState) : OperationState → Type 0 where
  here : Run s s
  step : {t u : OperationState} → Run s t → can_transition_operation t u ≡ true → Run s u

step_from_terminal :
    (s t : OperationState)
    → is_terminal_operation_state s ≡ true
    → can_transition_operation s t ≡ true
    → ⊥
unfolding is_terminal_operation_state can_transition_operation
step_from_terminal s t h k = ground arith

-- A state is terminal exactly when no transition leaves it.
pub terminal_iff_stuck :
    (s : OperationState)
    → (is_terminal_operation_state s ≡ true)
      ↔ ((t : OperationState) → can_transition_operation s t ≡ false)
unfolding is_terminal_operation_state can_transition_operation
terminal_iff_stuck s = (
  λ h t. ground arith,
  λ h. ground (
    arith,
    h failed,
    h included,
    h succeeded,
    h preparing,
    h signing,
    h signed,
    h broadcasting,
    h submitted,
  ),
)

-- A run that starts in a terminal state never leaves it.
pub terminal_absorbs :
    {s t : OperationState} → is_terminal_operation_state s ≡ true → Run s t → t ≡ s
terminal_absorbs h here = refl
terminal_absorbs {s} h (step {t = t} {u = u} r k) =
    let e = terminal_absorbs h r in absurd (step_from_terminal t u (cc) k)

-- Once bytes may have been sent.
abbrev pub is_past_signing : OperationState → Bool
is_past_signing pending_approval = false
is_past_signing ready = false
is_past_signing preparing = false
is_past_signing signing = false
is_past_signing signed = false
is_past_signing cancelled = false
is_past_signing _ = true

past_signing_step :
    (s t : OperationState)
    → is_past_signing s ≡ true
    → can_transition_operation s t ≡ true
    → is_past_signing t ≡ true
unfolding can_transition_operation
past_signing_step s t h k = ground arith

-- From broadcasting on, no run leads back to a state in which a worker would prepare or sign
-- another transaction for the same operation, and it can no longer be cancelled.
pub never_signs_again :
    {s t : OperationState} → is_past_signing s ≡ true → Run s t → is_past_signing t ≡ true
never_signs_again h here = h
never_signs_again h (step {t = t} {u = u} r k) = past_signing_step t u (never_signs_again h r) k

-- Whether a run passes through a state.
pub visits : {s t : OperationState} → OperationState → Run s t → Bool
visits {t} m here = state_eq m t
visits {t} m (step r k) = state_eq m t || visits m r

-- The states that a lifecycle reaches only through `m`.
abbrev comes_after : OperationState → OperationState → Bool
comes_after signed signed = true
comes_after signed broadcasting = true
comes_after signed broadcast_unknown = true
comes_after signed submitted = true
comes_after signed included = true
comes_after signed succeeded = true
comes_after signed reverted = true
comes_after broadcasting broadcasting = true
comes_after broadcasting broadcast_unknown = true
comes_after broadcasting submitted = true
comes_after broadcasting included = true
comes_after broadcasting succeeded = true
comes_after broadcasting reverted = true
comes_after included included = true
comes_after included succeeded = true
comes_after included reverted = true
comes_after _ _ = false

comes_after_step :
    (m t u : OperationState)
    → comes_after m u ≡ true
    → can_transition_operation t u ≡ true
    → (state_eq m u ≡ true) ⊎ (comes_after m t ≡ true)
unfolding can_transition_operation
comes_after_step signed t u h k = ground arith
comes_after_step broadcasting t u h k = ground arith
comes_after_step included t u h k = ground arith
comes_after_step _ t u h k = ground arith

visits_of_comes_after :
    {t : OperationState} (m : OperationState) (r : Run pending_approval t)
    → comes_after m t ≡ true
    → visits m r ≡ true
unfolding visits
visits_of_comes_after m here h = ground arith
visits_of_comes_after m (step {t = t} {u = u} r k) h = elim (comes_after_step m t u h k) [
  | inl e ↦ ground arith
  | inr e ↦ ground (arith, visits_of_comes_after m r e)
]

-- An operation that has succeeded was signed, handed to a node and included before: no lifecycle
-- from its creation skips one of these.
pub succeeded_visits :
    (r : Run pending_approval succeeded)
    → (visits signed r ≡ true) × (visits broadcasting r ≡ true) × (visits included r ≡ true)
succeeded_visits r = (
  visits_of_comes_after signed r refl,
  visits_of_comes_after broadcasting r refl,
  visits_of_comes_after included r refl,
)

-- Every state has a way to a terminal one.
pub terminal_reachable :
    (s : OperationState) → (t : OperationState) × (is_terminal_operation_state t ≡ true) × Run s t
unfolding is_terminal_operation_state can_transition_operation
terminal_reachable pending_approval = (failed, refl, step here refl)
terminal_reachable ready = (failed, refl, step here refl)
terminal_reachable preparing = (failed, refl, step here refl)
terminal_reachable signing = (failed, refl, step here refl)
terminal_reachable signed = (failed, refl, step here refl)
terminal_reachable broadcasting = (failed, refl, step here refl)
terminal_reachable broadcast_unknown = (failed, refl, step here refl)
terminal_reachable submitted = (succeeded, refl, step (step {u = included} here refl) refl)
terminal_reachable included = (succeeded, refl, step here refl)
terminal_reachable succeeded = (succeeded, refl, here)
terminal_reachable reverted = (reverted, refl, here)
terminal_reachable failed = (failed, refl, here)
terminal_reachable cancelled = (cancelled, refl, here)

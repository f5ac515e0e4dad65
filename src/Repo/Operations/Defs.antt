-- ===== src/Repo/Operations/Defs.antt =====
-- src/db/repositories/operation-repository.ts: operations and their timeline.
use institutional_tokenizati.Base.{
  ℕ, Bool, not, ◌&&◌, ◌||◌, Option, none, some, List, [], ◌∷◌, find_row, update_rows, select_rows,
  count_rows, ◌==◌, ltb, is_none, option_eq, Text, if◌then◌else◌,
}
use institutional_tokenizati.Domain.OperationState.{
  OperationState, ready, preparing, signing, signed, broadcasting, broadcast_unknown, submitted,
  included, state_eq, includes_state, can_transition_operation, terminal_operation_states,
}
use institutional_tokenizati.Domain.Errors.{app_error, invalid_state_transition, operation_conflict}
use institutional_tokenizati.Db.{
  Operation, OperationType, FailureCode, Action, Done, pure, gets, or_throw, modify, throw_if,
  fresh_id, ◌>>=◌, ◌>>◌, operation_type_eq,
}

-- `findOperationById`, and `lockOperation`: the lock orders transactions, which the model runs one
-- after another.
unfoldable pub find_operation_by_id : ℕ → Action (Option Operation)
find_operation_by_id id = gets λ s. find_row (λ o. o.id == id) s.operations

-- `recordOperationTransition`
unfoldable pub record_operation_transition :
    ℕ → Option OperationState → OperationState → Action Done
record_operation_transition operation_id from to = modify λ s. record s {
  transitions =
      record { operation_id = operation_id; from_state = from; to_state = to } ∷ s.transitions;
}

-- TransitionPatch, by the fields that its callers give together
pub data Patch : Type 0 where
  no_patch : Patch
  failure : FailureCode → Patch
  claim : ℕ → Patch

unfoldable pub apply_patch : Patch → ℕ → Operation → Operation
apply_patch no_patch at o = o
apply_patch (failure code) at o = record o { failure_code = some code }
apply_patch (claim worker) at o = record o { claimed_by = some worker; claimed_at = some at }

-- The row that the guarded UPDATE of `transitionOperation` writes
unfoldable pub advanced : OperationState → Patch → ℕ → Operation → Operation
advanced to patch at o = apply_patch patch at (record o { state = to; state_updated_at = at })

-- The WHERE of that UPDATE: the observed row, in the observed state
abbrev pub is_observed : Operation → Operation → Bool
is_observed operation o = o.id == operation.id && state_eq o.state operation.state

unfoldable pub update_observed : Operation → OperationState → Patch → Action (Option Operation)
update_observed operation to patch = do
  at ← gets λ s. s.clock
  row ← gets λ s. find_row (is_observed operation) s.operations
  modify λ s. record s {
    operations = update_rows (is_observed operation) (advanced to patch at) s.operations;
  }
  pure (elim row [ none ↦ none | some o ↦ some (advanced to patch at o) ])

unfoldable pub transition_operation : Operation → OperationState → Patch → Action Operation
unfolding update_observed record_operation_transition
transition_operation operation to patch = do
  throw_if (not (can_transition_operation operation.state to)) (app_error invalid_state_transition)
  updated ← update_observed operation to patch
  row ← or_throw updated (app_error operation_conflict)
  record_operation_transition operation.id (some operation.state) to
  pure row

-- the two guards of `claimReadyOperation`
unfoldable pub claim_locked : Option Operation → ℕ → Action (Option Operation)
unfolding transition_operation
claim_locked none worker_id = pure none
claim_locked (some operation) worker_id =
    if state_eq operation.state ready
    then (do row ← transition_operation operation preparing (claim worker_id); pure (some row))
    else pure none

unfoldable pub claim_ready_operation : ℕ → ℕ → Action (Option Operation)
unfolding find_operation_by_id claim_locked
claim_ready_operation operation_id worker_id = do
  operation ← find_operation_by_id operation_id
  claim_locked operation worker_id

-- `releaseClaim`
unfoldable pub release_claim : ℕ → Action Done
release_claim operation_id = modify λ s. record s {
  operations =
      update_rows (λ o. o.id == operation_id)
        (λ o. record o { claimed_by = none; claimed_at = none }) s.operations;
}

-- `insertAdministrativeOperation`: born READY
unfoldable pub insert_administrative_operation :
    OperationType → ℕ → ℕ → Option ℕ → Option ℕ → Text → ℕ → ℕ → Action Operation
unfolding record_operation_transition
insert_administrative_operation type organization_id asset_id wallet_id decision_id proposal_hash
      requested_by correlation_id =
    do
      id ← fresh_id
      at ← gets λ s. s.now
      let row : Operation = record {
        id = id;
        organization_id = organization_id;
        type = type;
        state = ready;
        asset_id = asset_id;
        wallet_id = wallet_id;
        amount = none;
        operation_reference = none;
        compliance_decision_id = decision_id;
        proposal_hash = proposal_hash;
        required_approvals = 0;
        requested_by = requested_by;
        correlation_id = correlation_id;
        failure_code = none;
        claimed_by = none;
        claimed_at = none;
        state_updated_at = at;
      }
      modify λ s. record s { operations = row ∷ s.operations }
      record_operation_transition id none ready
      pure row

-- `findLiveAdministrativeOperation`
unfoldable pub find_live_administrative_operation :
    OperationType → ℕ → Option ℕ → Action (Option Operation)
unfolding operation_type_eq includes_state
find_live_administrative_operation type asset_id wallet_id = gets λ s.
    find_row
      (λ o.
        operation_type_eq o.type type
        && (o.asset_id == asset_id
            && (option_eq ◌==◌ o.wallet_id wallet_id
                && not (includes_state terminal_operation_states o.state))))
      s.operations

-- the states that `findStaleOperations` lists
abbrev pub swept_states : List OperationState
swept_states =
    ready ∷ preparing ∷ signing ∷ signed ∷ broadcasting ∷ broadcast_unknown ∷ submitted ∷ included
    ∷ []

-- `findStaleOperations`, without its ORDER BY and LIMIT
unfoldable pub find_stale_operations : ℕ → Action (List Operation)
find_stale_operations stale_before = gets λ s.
    select_rows (λ o. includes_state swept_states o.state && ltb o.state_updated_at stale_before)
      s.operations

-- `findUnclaimedReadyOperations`, without its LIMIT
unfoldable pub find_unclaimed_ready_operations : Action (List Operation)
find_unclaimed_ready_operations =
    gets λ s. select_rows (λ o. state_eq o.state ready && is_none o.claimed_by) s.operations

-- `findInFlightOperations`, without its LIMIT
unfoldable pub find_in_flight_operations : Action (List Operation)
find_in_flight_operations = gets λ s.
    select_rows
      (λ o.
        state_eq o.state broadcast_unknown
        || (state_eq o.state submitted || state_eq o.state included))
      s.operations

-- `countOperationsByState`, at one state
unfoldable pub count_operations_by_state : OperationState → Action ℕ
count_operations_by_state state = gets λ s. count_rows (λ o. state_eq o.state state) s.operations

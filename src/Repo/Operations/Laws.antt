-- ===== src/Repo/Operations/Laws.antt =====
-- src/db/repositories/operation-repository.ts: what a transition of an operation does.
use institutional_tokenizati.Base.{
  ap, ◌∙◌, ◌==◌, ==_refl, ==_iff, find_row_sound, find_row_refined, find_row-update_rows, touch, ℕ,
  ◌≡◌, refl, true, Option, none, some, ◌∷◌, arith, find_row, update_rows, option_map,
}
use institutional_tokenizati.Domain.OperationState.{
  OperationState, can_transition_operation, state_eq_refl,
}
use institutional_tokenizati.Db.{Store, Operation, ok, ◌>>=◌}
use institutional_tokenizati.Repo.Operations.Defs.{
  Patch, no_patch, failure, claim, apply_patch, advanced, is_observed, transition_operation,
}

-- The store after a transition: the row is rewritten, and the timeline has one more entry.
abbrev pub moved : Operation → OperationState → Patch → Store → Store
moved operation to patch s = record s {
  operations = update_rows (is_observed operation) (advanced to patch s.clock) s.operations;
  transitions =
      record { operation_id = operation.id; from_state = some operation.state; to_state = to }
      ∷ s.transitions;
}

-- A transition that returns is in the table, found the row as it was observed, and rewrote it.
pub transition_returns :
    (operation : Operation) (to : OperationState) (patch : Patch) (s : Store) (row : Operation)
    → (transition_operation operation to patch s).0 ≡ ok row
    → (can_transition_operation operation.state to ≡ true)
      × (option_map (advanced to patch s.clock) (find_row (is_observed operation) s.operations)
          ≡ some row)
      × ((transition_operation operation to patch s).1 ≡ moved operation to patch s)
unfolding transition_operation ◌>>=◌
transition_returns operation to patch s row h = ground arith

-- Where the table has the transition and the row is as it was observed, it returns.
pub transition_runs :
    (operation : Operation) (to : OperationState) (patch : Patch) (s : Store) (o : Operation)
    → can_transition_operation operation.state to ≡ true
    → find_row (is_observed operation) s.operations ≡ some o
    → transition_operation operation to patch s
      ≡ (ok (advanced to patch s.clock o), moved operation to patch s)
unfolding transition_operation ◌>>=◌
transition_runs operation to patch s o h k = ground arith

pub advanced_state :
    (to : OperationState) (patch : Patch) (at : ℕ) (o : Operation)
    → ((advanced to patch at o).state ≡ to) × ((advanced to patch at o).id ≡ o.id)
unfolding advanced apply_patch
advanced_state to no_patch at o = (refl, refl)
advanced_state to (failure c) at o = (refl, refl)
advanced_state to (claim w) at o = (refl, refl)

option_map_state :
    (to : OperationState) (patch : Patch) (at : ℕ) (o : Option Operation) (row : Operation)
    → option_map (advanced to patch at) o ≡ some row
    → row.state ≡ to
option_map_state to patch at none row h = cc
option_map_state to patch at (some o) row h = ground (arith, advanced_state to patch at o)

-- The row that a transition returns is in the new state.
pub transition_state :
    (operation : Operation) (to : OperationState) (patch : Patch) (s : Store) (row : Operation)
    → (transition_operation operation to patch s).0 ≡ ok row
    → row.state ≡ to
transition_state operation to patch s row h =
    option_map_state to patch s.clock _ row (transition_returns operation to patch s row h).1

observed_itself : (o : Operation) → is_observed o o ≡ true
observed_itself o = ground (arith, ==_refl o.id, state_eq_refl o.state)

observed_id :
    (o : Operation) (id : ℕ) (x : Operation)
    → o.id ≡ id
    → is_observed o x ≡ true
    → (x.id == id) ≡ true
observed_id o id x e h = ground (arith, e, h)

-- The operation with an identifier is the one that a transition of it observes.
pub find_observed :
    (o : Operation) (id : ℕ) (s : Store)
    → find_row (λ x. x.id == id) s.operations ≡ some o
    → find_row (is_observed o) s.operations ≡ some o
find_observed o id s h =
    let same : o.id ≡ id = (==_iff o.id id).0 (find_row_sound (λ x. x.id == id) s.operations o h) in
    find_row_refined (λ x. x.id == id) (is_observed o) s.operations o
      (λ x k. observed_id o id x same k) (observed_itself o) h

-- After a transition of the operation with an identifier, its row is the rewritten one.
pub moved_row :
    (o : Operation) (to : OperationState) (patch : Patch) (id : ℕ) (s : Store)
    → find_row (λ x. x.id == id) s.operations ≡ some o
    → find_row (λ x. x.id == id) (moved o to patch s).operations
      ≡ some (advanced to patch s.clock o)
moved_row o to patch id s h =
    find_row-update_rows (λ x. x.id == id) (is_observed o) (advanced to patch s.clock) s.operations
      (λ a. ap (λ i. i == id) (advanced_state to patch s.clock a).1)
    ∙ (ap (option_map (touch (is_observed o) (advanced to patch s.clock))) h
        ∙ ap some (rw (observed_itself o) refl))

-- The stored row of an operation after a transition that returned
pub transition_stores :
    (o : Operation) (to : OperationState) (patch : Patch) (id : ℕ) (s : Store) (row : Operation)
    → find_row (λ x. x.id == id) s.operations ≡ some o
    → (transition_operation o to patch s).0 ≡ ok row
    → (q : Operation) × (find_row (λ x. x.id == id) (transition_operation o to patch s).1.operations
        ≡ some q)
      × (q.state ≡ to)
transition_stores o to patch id s row h e = (
  advanced to patch s.clock o,
  ap (λ t. find_row (λ x. x.id == id) t.operations) (transition_returns o to patch s row e).2
      ∙ moved_row o to patch id s h,
  (advanced_state to patch s.clock o).0,
)

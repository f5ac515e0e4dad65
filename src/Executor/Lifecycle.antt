-- ===== src/Executor/Lifecycle.antt =====
-- src/domain/operation-state.ts and src/db/repositories/operation-repository.ts: the abstract view of
-- the operations, where each is a state on the graph of transitions and a fixed instruction, and
-- which writes follow it.
use institutional_tokenizati.Base.{
  ℕ, ◌≡◌, refl, ap, ◌∙◌, inl, inr, Bool, true, false, Option, some, Text, arith, ◌==◌, find_row,
  update_rows, find_row-update_rows, option_map, touch, Bool-cases, &&_iff,
}
use institutional_tokenizati.Domain.OperationState.{
  OperationState, state_eq_iff, can_transition_operation,
}
use institutional_tokenizati.Domain.OperationState.Graph.{Run, here, step}
use institutional_tokenizati.Db.{Store, Operation, OperationType, Action, ◌>>=◌}
use institutional_tokenizati.Db.Within.{
  Within, IsPreorder, Within-bind, Within-gets, Within-modify, Within-pure, Within-or_throw,
  Within-throw_if,
}
use institutional_tokenizati.Repo.Operations.{
  Patch, no_patch, failure, claim, apply_patch, advanced, is_observed, transition_operation,
  update_observed, record_operation_transition,
}

-- What an operation is to do, and on whose authority
pub record Instruction : Type 0 where
  pub organization_id : ℕ
  pub type : OperationType
  pub asset_id : ℕ
  pub wallet_id : Option ℕ
  pub amount : Option ℕ
  pub operation_reference : Option Text
  pub compliance_decision_id : Option ℕ
  pub proposal_hash : Text
  pub required_approvals : ℕ
  pub requested_by : ℕ

abbrev pub instruction : Operation → Instruction
instruction o = record {
  organization_id = o.organization_id;
  type = o.type;
  asset_id = o.asset_id;
  wallet_id = o.wallet_id;
  amount = o.amount;
  operation_reference = o.operation_reference;
  compliance_decision_id = o.compliance_decision_id;
  proposal_hash = o.proposal_hash;
  required_approvals = o.required_approvals;
  requested_by = o.requested_by;
}

abbrev pub has_operation_id : ℕ → Operation → Bool
has_operation_id id o = o.id == id

-- A later row of an operation: the same instruction, in a state that the table leads to
pub record IsLater (o p : Operation) : Type 0 where
  pub run : Run o.state p.state
  pub same : instruction p ≡ instruction o

-- Every operation is still there, and is later.
pub record Follows (s t : Store) : Type 0 where
  pub keeps :
      (id : ℕ) (o : Operation)
      → find_row (has_operation_id id) s.operations ≡ some o
      → (p : Operation) × (find_row (has_operation_id id) t.operations ≡ some p) × IsLater o p

run_join : {a b c : OperationState} → Run a b → Run b c → Run a c
run_join r here = r
run_join r (step q k) = step (run_join r q) k

IsLater-refl : (o : Operation) → IsLater o o
IsLater-refl o = record { run = here; same = refl }

pub Follows-IsPreorder : IsPreorder Follows
Follows-IsPreorder = record {
  same = λ s. record { keeps = λ id o h. (o, h, IsLater-refl o) };
  join = λ s t u h k. record {
    keeps = λ id o e.
        let (p, f, later) = h.keeps id o e in
        let (q, g, last) = k.keeps id p f in
        (q, g, record { run = run_join later.run last.run; same = last.same ∙ later.same });
  };
}

-- A step that leaves the operations
pub record SameOperations (s t : Store) : Type 0 where
  pub same : t.operations ≡ s.operations

pub SameOperations-IsPreorder : IsPreorder SameOperations
SameOperations-IsPreorder = record {
  same = λ s. record { same = refl };
  join = λ s t u h k. record { same = k.same ∙ h.same };
}

pub Follows-same : (s t : Store) → t.operations ≡ s.operations → Follows s t
Follows-same s t e = record {
  keeps = λ id o h. (o, ap (find_row (has_operation_id id)) e ∙ h, IsLater-refl o);
}

pub Within-Follows : {A : Type 0} (m : Action A) → Within SameOperations m → Within Follows m
Within-Follows m h = record { at = λ s. Follows-same s (m s).1 (h.at s).same }

advanced_id :
    (to : OperationState) (patch : Patch) (at : ℕ) (o : Operation)
    → (advanced to patch at o).id ≡ o.id
unfolding advanced apply_patch
advanced_id to no_patch at o = refl
advanced_id to (failure c) at o = refl
advanced_id to (claim w) at o = refl

advanced-IsLater :
    (to : OperationState) (patch : Patch) (at : ℕ) (o : Operation)
    → can_transition_operation o.state to ≡ true
    → IsLater o (advanced to patch at o)
unfolding advanced apply_patch
advanced-IsLater to no_patch at o h = record { run = step here h; same = refl }
advanced-IsLater to (failure c) at o h = record { run = step here h; same = refl }
advanced-IsLater to (claim w) at o h = record { run = step here h; same = refl }

touch-IsLater :
    (operation : Operation) (to : OperationState) (patch : Patch) (at : ℕ) (o : Operation)
    → can_transition_operation operation.state to ≡ true
    → IsLater o (touch (is_observed operation) (advanced to patch at) o)
touch-IsLater operation to patch at o can = elim (Bool-cases (is_observed operation o)) [
  | inl h ↦
      let e : o.state ≡ operation.state =
        (state_eq_iff o.state operation.state).0 ((&&_iff _ _).0 h).1 in
      rw h (advanced-IsLater to patch at o (ap (λ x. can_transition_operation x to) e ∙ can))
  | inr h ↦ rw h (IsLater-refl o)
]

touch_id :
    (operation : Operation) (to : OperationState) (patch : Patch) (at : ℕ) (o : Operation)
    → (touch (is_observed operation) (advanced to patch at) o).id ≡ o.id
touch_id operation to patch at o = elim (Bool-cases (is_observed operation o)) [
  | inl h ↦ rw h (advanced_id to patch at o)
  | inr h ↦ rw h refl
]

update_follows :
    (operation : Operation) (to : OperationState) (patch : Patch) (at : ℕ) (s : Store)
    → can_transition_operation operation.state to ≡ true
    → Follows s (record s {
      operations = update_rows (is_observed operation) (advanced to patch at) s.operations;
    })
update_follows operation to patch at s can = record {
  keeps = λ id o h. (
    touch (is_observed operation) (advanced to patch at) o,
    find_row-update_rows (has_operation_id id) (is_observed operation) (advanced to patch at)
          s.operations (λ a. ap (λ i. i == id) (advanced_id to patch at a))
        ∙ ap (option_map (touch (is_observed operation) (advanced to patch at))) h,
    touch-IsLater operation to patch at o can,
  );
}

update_observed-Follows :
    (operation : Operation) (to : OperationState) (patch : Patch)
    → can_transition_operation operation.state to ≡ true
    → Within Follows (update_observed operation to patch)
unfolding update_observed
update_observed-Follows operation to patch can =
    Within-bind Follows-IsPreorder _ _ (Within-gets Follows-IsPreorder _) (λ at.
      Within-bind Follows-IsPreorder _ _ (Within-gets Follows-IsPreorder _) (λ row.
        Within-bind Follows-IsPreorder _ _
          (Within-modify Follows-IsPreorder _ (λ s. update_follows operation to patch at s can))
          (λ _. Within-pure Follows-IsPreorder _)))

refused :
    (operation : Operation) (to : OperationState) (patch : Patch) (s : Store)
    → can_transition_operation operation.state to ≡ false
    → (transition_operation operation to patch s).1 ≡ s
unfolding transition_operation ◌>>=◌
refused operation to patch s h = ground arith

-- A transition, whether it returns or throws
pub transition_operation-Follows :
    (operation : Operation) (to : OperationState) (patch : Patch)
    → Within Follows (transition_operation operation to patch)
unfolding transition_operation record_operation_transition
transition_operation-Follows operation to patch =
    elim (Bool-cases (can_transition_operation operation.state to)) [
      | inl can ↦ Within-bind Follows-IsPreorder _ _ (Within-throw_if Follows-IsPreorder _ _) (λ _.
          Within-bind Follows-IsPreorder _ _ (update_observed-Follows operation to patch can)
            (λ updated.
              Within-bind Follows-IsPreorder _ _ (Within-or_throw Follows-IsPreorder updated _)
                (λ row.
                  Within-bind Follows-IsPreorder _ _
                    (Within-modify Follows-IsPreorder _ (λ s. Follows-same s _ refl))
                    (λ _. Within-pure Follows-IsPreorder row))))
      | inr not_allowed ↦ record {
        at = λ s.
            Follows-same s _ (ap (λ t. t.operations) (refused operation to patch s not_allowed));
      }
    ]

-- ===== src/Executor/Success.antt =====
-- src/modules/operations/operation-executor.ts: what SUCCEEDED means.
use mathlib.Core.Path.{subst}
use institutional_tokenizati.Base.{
  ℕ, ◌≡◌, refl, sym, ap, ◌∙◌, inl, inr, true, false, some, arith, find_row, ◌==◌, Bool-cases,
  option_map, touch, find_row-update_rows, ==_refl,
}
use institutional_tokenizati.Domain.OperationState.{
  OperationState, state_eq, state_eq_iff, state_eq_refl, is_terminal_operation_state,
}
use institutional_tokenizati.Domain.OperationState.Graph.{terminal_absorbs}
use institutional_tokenizati.Db.{
  Store, Operation, AttemptStatus, Result, ok, err, Action, pure, transaction, ◌>>=◌, commit,
}
use institutional_tokenizati.Db.Atomic.{>>=-eq-ok}
use institutional_tokenizati.Repo.Operations.{Patch, transition_operation, is_observed, advanced}
use institutional_tokenizati.Repo.Operations.Laws.{transition_returns, moved, advanced_state}
use institutional_tokenizati.Executor.Interface.{ExecutorDeps, OperationHandler, SettledOperation}
use institutional_tokenizati.Executor.Settlement.{settle_effects, settle_row}
use institutional_tokenizati.Executor.Lifecycle.{Follows, has_operation_id}
use institutional_tokenizati.Executor.Refinement.{settle_effects-Follows}
use institutional_tokenizati.Executor.Moves.{FollowingDeps, FollowingHandler}

-- The row of the operation is in a state.
abbrev pub IsIn : ℕ → OperationState → Store → Type 0
IsIn id state s =
    (p : Operation) × (find_row (has_operation_id id) s.operations ≡ some p) × (p.state ≡ state)

stays_in :
    (id : ℕ) (state : OperationState) (s t : Store)
    → is_terminal_operation_state state ≡ true
    → IsIn id state s
    → Follows s t
    → IsIn id state t
stays_in id state s t final (o, h, k) f =
    let (p, e, later) = f.keeps id o h in
    (p, e, terminal_absorbs (ap is_terminal_operation_state k ∙ final) later.run ∙ k)

-- A transition that returns leaves the observed row in the new state.
transition_is_in :
    (o : Operation) (to : OperationState) (patch : Patch) (s : Store) (row : Operation)
    → find_row (has_operation_id o.id) s.operations ≡ some o
    → (transition_operation o to patch s).0 ≡ ok row
    → IsIn o.id to (transition_operation o to patch s).1
transition_is_in o to patch s row h k =
    let (can, found, store) = transition_returns o to patch s row k in
    let e : find_row (has_operation_id o.id) (moved o to patch s).operations
        ≡ some (touch (is_observed o) (advanced to patch s.clock) o) =
      find_row-update_rows (has_operation_id o.id) (is_observed o) (advanced to patch s.clock)
        s.operations (λ a. ap (λ i. i == o.id) (advanced_state to patch s.clock a).1)
      ∙ ap (option_map (touch (is_observed o) (advanced to patch s.clock))) h in
    let own : is_observed o o ≡ true = ground (arith, state_eq_refl o.state, ==_refl o.id) in
    (
      touch (is_observed o) (advanced to patch s.clock) o,
      ap (λ t. find_row (has_operation_id o.id) t.operations) store ∙ e,
      rw own (advanced_state to patch s.clock o).0,
    )

pub committed :
    {A : Type 0} (m : Action A) (s : Store) (a : A)
    → (transaction m s).0 ≡ ok a
    → ((m s).0 ≡ ok a) × (transaction m s ≡ m s)
unfolding transaction
committed m s a h = go (m s) h
  where
    go : (r : Result _ × Store) → (commit s r).0 ≡ ok a → (r.0 ≡ ok a) × (commit s r ≡ r)
    go (ok b, t) k = (k, refl)
    go (err e, t) k = cc

module _ (deps : ExecutorDeps) (following : FollowingDeps deps) where
  row_same :
      (h : OperationHandler) (settled : SettledOperation) (to : OperationState)
      (status : AttemptStatus) (patch : Patch) (o : Operation) (s : Store)
      → state_eq o.state to ≡ true
      → settle_row deps h settled o to status patch s ≡ (ok tt, s)
  unfolding settle_row pure
  row_same h settled to status patch o s e = ground arith

  row_other :
      (h : OperationHandler) (settled : SettledOperation) (to : OperationState)
      (status : AttemptStatus) (patch : Patch) (o : Operation) (s : Store)
      → state_eq o.state to ≡ false
      → settle_row deps h settled o to status patch s
        ≡ (transition_operation o to patch >>= λ _. settle_effects deps h settled o to status) s
  unfolding settle_row
  row_other h settled to status patch o s e = rw e refl

  pub settle_row_is_in :
      (h : OperationHandler) (settled : SettledOperation) (to : OperationState)
      (status : AttemptStatus) (patch : Patch) (o : Operation) (s : Store)
      → FollowingHandler h
      → is_terminal_operation_state to ≡ true
      → find_row (has_operation_id o.id) s.operations ≡ some o
      → (settle_row deps h settled o to status patch s).0 ≡ ok tt
      → IsIn o.id to (settle_row deps h settled o to status patch s).1
  settle_row_is_in h settled to status patch o s k final f e =
      elim (Bool-cases (state_eq o.state to)) [
        | inl same ↦ (
          o,
          ap (λ r. find_row (has_operation_id o.id) r.1.operations)
                (row_same h settled to status patch o s same)
              ∙ f,
          (state_eq_iff o.state to).0 same,
        )
        | inr other ↦
            let split = row_other h settled to status patch o s other in
            let (row, t, e1, e2) =
              >>=-eq-ok (transition_operation o to patch)
                (λ _. settle_effects deps h settled o to status) s tt
                (ap (λ r. r.0) (sym split) ∙ e) in
            let moved_in : IsIn o.id to t =
              subst (IsIn o.id to) (ap (λ r. r.1) e1)
                (transition_is_in o to patch s row f (ap (λ r. r.0) e1)) in
            subst (IsIn o.id to) (sym (ap (λ r. r.1) (split ∙ e2))) (
              stays_in o.id to t _ final moved_in
                ((settle_effects-Follows deps following h settled o to status k).at t))
      ]

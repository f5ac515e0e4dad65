-- ===== src/Executor/Settled.antt =====
-- src/modules/operations/operation-executor.ts: `settle` is all or nothing.
use mathlib.Core.Path.{subst}
use institutional_tokenizati.Base.{
  ℕ, ◌≡◌, refl, sym, ap, ◌∙◌, inl, inr, true, none, some, arith, find_row, find_row_sound, ==_iff,
  Option-cases,
}
use institutional_tokenizati.Domain.OperationState.{OperationState, is_terminal_operation_state}
use institutional_tokenizati.Db.{
  Store, Operation, AttemptStatus, ok, err, pure, transaction, or_throw, ◌>>=◌, throw,
}
use institutional_tokenizati.Db.Atomic.{IsAtomic, atomic_rules, >>=-eq-ok}
use institutional_tokenizati.Domain.Errors.{Fault}
use institutional_tokenizati.Repo.Operations.{Patch, find_operation_by_id}
use institutional_tokenizati.Transactions.Confirmation.{TransactionReceiptView}
use institutional_tokenizati.Executor.Interface.{
  ExecutorDeps, OperationHandler, SettledOperation, ReconciliationReport, handler_for,
}
use institutional_tokenizati.Executor.Settlement.{
  settle, settle_row, reconcile_receipt, reconcile_found,
}
use institutional_tokenizati.Executor.Lifecycle.{has_operation_id}
use institutional_tokenizati.Executor.Moves.{FollowingDeps}
use institutional_tokenizati.Executor.Success.{IsIn, committed, settle_row_is_in}

module _ (deps : ExecutorDeps) (following : FollowingDeps deps) where
  settle_found :
      (h : OperationHandler) (settled : SettledOperation) (to : OperationState)
      (status : AttemptStatus) (patch : Patch) (s : Store) (o : Operation)
      → deps.handlers settled.operation.type ≡ some h
      → find_row (has_operation_id settled.operation.id) s.operations ≡ some o
      → settle deps settled to status patch s
        ≡ transaction (settle_row deps h settled o to status patch) s
  unfolding settle handler_for find_operation_by_id or_throw pure transaction ◌>>=◌
  settle_found h settled to status patch s o e f = rw e (rw f refl)

  settle_needs_handler :
      (settled : SettledOperation) (to : OperationState) (status : AttemptStatus) (patch : Patch)
      (s : Store)
      → deps.handlers settled.operation.type ≡ none
      → (settle deps settled to status patch s).0 ≡ ok tt
      → ⊥
  unfolding settle handler_for or_throw throw pure ◌>>=◌
  settle_needs_handler settled to status patch s h = rw h (λ e. ground arith)

  settle_needs_row :
      (settled : SettledOperation) (to : OperationState) (status : AttemptStatus) (patch : Patch)
      (s : Store) (h : OperationHandler)
      → deps.handlers settled.operation.type ≡ some h
      → find_row (has_operation_id settled.operation.id) s.operations ≡ none
      → (settle deps settled to status patch s).0 ≡ ok tt
      → ⊥
  unfolding settle handler_for find_operation_by_id or_throw throw pure transaction ◌>>=◌
  settle_needs_row settled to status patch s h e f = rw e (rw f (λ k. ground arith))

  pub settle_is_in :
      (settled : SettledOperation) (to : OperationState) (status : AttemptStatus) (patch : Patch)
      (s : Store)
      → is_terminal_operation_state to ≡ true
      → (settle deps settled to status patch s).0 ≡ ok tt
      → IsIn settled.operation.id to (settle deps settled to status patch s).1
  settle_is_in settled to status patch s final e =
      elim (Option-cases (deps.handlers settled.operation.type)) [
        | inl n ↦ absurd (settle_needs_handler settled to status patch s n e)
        | inr (h, eh) ↦
            elim (Option-cases (find_row (has_operation_id settled.operation.id) s.operations)) [
              | inl n ↦ absurd (settle_needs_row settled to status patch s h eh n e)
              | inr (o, eo) ↦
                  let split = settle_found h settled to status patch s o eh eo in
                  let (c, d) = committed _ s tt (ap (λ r. r.0) (sym split) ∙ e) in
                  let own : o.id ≡ settled.operation.id =
                    (==_iff o.id settled.operation.id).0
                      (find_row_sound (has_operation_id settled.operation.id) s.operations o eo) in
                  let inner =
                    settle_row_is_in deps following h settled to status patch o s
                      (following.handlers settled.operation.type h eh) final
                      (ap (λ i. find_row (has_operation_id i) s.operations) own ∙ eo) c in
                  subst (λ i. IsIn i to (settle deps settled to status patch s).1) own
                    (subst (IsIn o.id to) (sym (ap (λ r. r.1) (split ∙ d))) inner)
            ]
      ]

  reconciled_operation :
      (attempt : ℕ) (receipt : TransactionReceiptView) (o : Operation) (s : Store)
      (settled : SettledOperation) (report : ReconciliationReport)
      → (reconcile_found deps attempt receipt o s).0 ≡ ok (settled, report)
      → settled.operation ≡ o
  unfolding reconcile_found pure
  reconciled_operation attempt receipt o s settled report e =
      let (h, t, e1, e2) = >>=-eq-ok (handler_for deps o) _ s (settled, report) e in
      let (r, u, e3, e4) =
        >>=-eq-ok (h.reconcile _) _ t (settled, report) (ap (λ q. q.0) (sym e2) ∙ e) in
      ground (arith, ap (λ q. q.0) (sym (e2 ∙ e4)) ∙ e)

  pub reconciled_row :
      (id attempt : ℕ) (receipt : TransactionReceiptView) (s : Store) (settled : SettledOperation)
      (report : ReconciliationReport)
      → (reconcile_receipt deps id attempt receipt s).0 ≡ ok (settled, report)
      → settled.operation.id ≡ id
  unfolding reconcile_receipt find_operation_by_id or_throw throw pure ◌>>=◌
  reconciled_row id attempt receipt s settled report =
      elim (Option-cases (find_row (has_operation_id id) s.operations)) [
        | inl n ↦ rw n (λ e. absurd (ground arith))
        | inr (o, f) ↦ rw f (λ e.
            ap (λ x. x.id) (reconciled_operation attempt receipt o s settled report e)
            ∙ (==_iff o.id id).0 (find_row_sound (has_operation_id id) s.operations o f))
      ]

  settle-IsAtomic :
      (settled : SettledOperation) (to : OperationState) (status : AttemptStatus) (patch : Patch)
      → IsAtomic (settle deps settled to status patch)
  unfolding settle handler_for
  settle-IsAtomic settled to status patch = search (atomic_rules) depth 20

  -- Settling is all or nothing. When it returns, the operation is in the final state that was asked
  -- for, with all that the transaction did; when it throws, at whatever step, the store is as it was,
  -- so that the effect of a success never stands without the success. The handlers are to move
  -- operations along the graph only.
  pub settle_all_or_nothing :
      (settled : SettledOperation) (to : OperationState) (status : AttemptStatus) (patch : Patch)
      (s : Store)
      → is_terminal_operation_state to ≡ true
      → ((settle deps settled to status patch s).0 ≡ ok tt
          → IsIn settled.operation.id to (settle deps settled to status patch s).1)
        × ((e : Fault)
            → (settle deps settled to status patch s).0 ≡ err e
            → (settle deps settled to status patch s).1 ≡ s)
  settle_all_or_nothing settled to status patch s final =
      (settle_is_in settled to status patch s final, (settle-IsAtomic settled to status patch).at s)

-- ===== src/Executor/Finality.antt =====
-- src/modules/operations/operation-executor.ts: SUCCEEDED is only claimed of a finalized receipt.
use mathlib.Core.Path.{subst}
use institutional_tokenizati.Base.{
  ℕ, suc, ◌≡◌, refl, sym, ap, ◌∙◌, ◌⊎◌, inl, inr, true, Option, none, some, Text, arith, find_row,
  Bool-cases, Option-cases, get_or,
}
use institutional_tokenizati.Domain.OperationState.{
  OperationState, state_eq_iff, is_terminal_operation_state,
}
use institutional_tokenizati.Db.{
  Store, AttemptStatus, Action, ok, pure, throw, or_throw, gets, ◌>>=◌,
}
use institutional_tokenizati.Db.Atomic.{>>=-eq-ok}
use institutional_tokenizati.Repo.Operations.{no_patch, find_operation_by_id}
use institutional_tokenizati.Transactions.Confirmation.{
  TransactionReceiptView, ConfirmationOutcome, await_confirmation,
}
use institutional_tokenizati.Executor.Interface.{
  ExecutorDeps, ExecutionResult, SettledOperation, ReconciliationReport, Watch,
}
use institutional_tokenizati.Executor.Settlement.{
  record_reorg, record_inclusion, reconcile_receipt, settle, conclude, on_confirmation,
  settled_result, observe_and_finalize,
}
use institutional_tokenizati.Executor.Lifecycle.{has_operation_id}
use institutional_tokenizati.Executor.Moves.{FollowingDeps}
use institutional_tokenizati.Executor.Success.{IsIn}
use institutional_tokenizati.Executor.Settled.{settle_is_in, reconciled_row}

-- The handler found the receipt consistent with the chain, at some store on the way.
pub record IsReconciled (deps : ExecutorDeps) (id attempt : ℕ) (receipt : TransactionReceiptView)
    : Type 0 where
  pub before : Store
  pub after : Store
  pub settled : SettledOperation
  pub report : ReconciliationReport
  pub reported : reconcile_receipt deps id attempt receipt before ≡ (ok (settled, report), after)
  pub consistent : report.consistent ≡ true

-- The wait that started at this store ended with a finalized receipt, and the handler found it
-- consistent with the chain.
pub record IsConfirmed (deps : ExecutorDeps) (id attempt : ℕ) (hash : Text) (s : Store)
    : Type 0 where
  pub watch : Watch
  pub after : Store
  pub receipt : TransactionReceiptView
  pub watched : deps.watch hash s ≡ (ok watch, after)
  pub finalized :
      await_confirmation watch.polls deps.confirmation watch.start (suc watch.turns)
      ≡ some (ConfirmationOutcome.finalized receipt)
  pub reconciled : IsReconciled deps id attempt receipt

succeeded_final : is_terminal_operation_state OperationState.succeeded ≡ true
unfolding is_terminal_operation_state
succeeded_final = refl

-- A chain that ends in `pure` returns that value.
ends_with :
    {A B : Type 0} (m : Action A) (b c : B) (s : Store) → ((m >>= λ _. pure b) s).0 ≡ ok c → b ≡ c
unfolding pure
ends_with m b c s e =
    let (a, t, e1, e2) = >>=-eq-ok m (λ _. pure b) s c e in
    ground (arith, ap (λ r. r.0) (sym e2) ∙ e)

module _ (deps : ExecutorDeps) (following : FollowingDeps deps) where
  concluded :
      (hash h : Text) (settled : SettledOperation) (s : Store)
      → ((settle deps settled OperationState.succeeded AttemptStatus.confirmed no_patch >>= λ _.
            pure (ExecutionResult.succeeded hash))
          s).0
        ≡ ok (ExecutionResult.succeeded h)
      → IsIn settled.operation.id OperationState.succeeded
          ((settle deps settled OperationState.succeeded AttemptStatus.confirmed no_patch >>= λ _.
              pure (ExecutionResult.succeeded hash))
            s).1
  unfolding pure
  concluded hash h settled s e =
      let (a, t, e1, e2) = >>=-eq-ok _ _ s (ExecutionResult.succeeded h) e in
      subst (IsIn settled.operation.id OperationState.succeeded)
        (ap (λ r. r.1) e1 ∙ sym (ap (λ r. r.1) e2))
        (settle_is_in deps following settled OperationState.succeeded AttemptStatus.confirmed
          no_patch s succeeded_final (ap (λ r. r.0) e1))

  conclude_success :
      (hash h : Text) (settled : SettledOperation) (report : ReconciliationReport) (s : Store)
      → (conclude deps hash settled report s).0 ≡ ok (ExecutionResult.succeeded h)
      → (report.consistent ≡ true)
        × IsIn settled.operation.id OperationState.succeeded (conclude deps hash settled report s).1
  unfolding conclude pure
  conclude_success hash h settled report s = elim (Bool-cases report.consistent) [
    | inl holds ↦ rw holds (λ e. (refl, concluded hash h settled s e))
    | inr fails ↦ rw fails (λ e. absurd (ground arith))
  ]

  reverted_is_not :
      (hash h : Text) (id attempt : ℕ) (receipt : TransactionReceiptView) (s : Store)
      → (on_confirmation deps id attempt hash (ConfirmationOutcome.reverted receipt) s).0
        ≡ ok (ExecutionResult.succeeded h)
      → ⊥
  unfolding on_confirmation
  reverted_is_not hash h id attempt receipt s e =
      let (_, t, e1, e2) = >>=-eq-ok (record_inclusion id attempt receipt) _ s _ e in
      let (x, u, e3, e4) =
        >>=-eq-ok (reconcile_receipt deps id attempt receipt) _ t _ (ap (λ r. r.0) (sym e2) ∙ e) in
      let q =
        ends_with _ (ExecutionResult.reverted hash) (ExecutionResult.succeeded h) u
          (ap (λ r. r.0) (sym (e2 ∙ e4)) ∙ e) in
      absurd (ground arith)

  finalized_success :
      (hash h : Text) (id attempt : ℕ) (receipt : TransactionReceiptView) (s : Store)
      → (on_confirmation deps id attempt hash (ConfirmationOutcome.finalized receipt) s).0
        ≡ ok (ExecutionResult.succeeded h)
      → IsReconciled deps id attempt receipt
        × IsIn id OperationState.succeeded
            (on_confirmation deps id attempt hash (ConfirmationOutcome.finalized receipt) s).1
  unfolding on_confirmation
  finalized_success hash h id attempt receipt s e =
      let (_, t, e1, e2) = >>=-eq-ok (record_inclusion id attempt receipt) _ s _ e in
      let (x, u, e3, e4) =
        >>=-eq-ok (reconcile_receipt deps id attempt receipt) _ t _ (ap (λ r. r.0) (sym e2) ∙ e) in
      let (c, i) = conclude_success hash h x.0 x.1 u (ap (λ r. r.0) (sym (e2 ∙ e4)) ∙ e) in
      let own = reconciled_row deps following id attempt receipt t x.0 x.1 (ap (λ r. r.0) e3) in
      (
        record {
          before = t;
          after = u;
          settled = x.0;
          report = x.1;
          reported = e3;
          consistent = c;
        },
        subst (IsIn id OperationState.succeeded) (sym (ap (λ r. r.1) (e2 ∙ e4)))
            (subst (λ k. IsIn k OperationState.succeeded (conclude deps hash x.0 x.1 u).1) own i),
      )

  confirmed_success :
      (hash h : Text) (id attempt : ℕ) (out : ConfirmationOutcome) (s : Store)
      → (on_confirmation deps id attempt hash out s).0 ≡ ok (ExecutionResult.succeeded h)
      → ((receipt : TransactionReceiptView) × (out ≡ ConfirmationOutcome.finalized receipt)
          × IsReconciled deps id attempt receipt)
        × IsIn id OperationState.succeeded (on_confirmation deps id attempt hash out s).1
  unfolding on_confirmation record_reorg pure
  confirmed_success hash h id attempt ConfirmationOutcome.pending s e = absurd (ground arith)
  confirmed_success hash h id attempt (ConfirmationOutcome.orphaned r) s e =
      let q = ends_with _ (ExecutionResult.pending _) (ExecutionResult.succeeded h) s e in
      absurd (ground arith)
  confirmed_success hash h id attempt (ConfirmationOutcome.included r) s e =
      let q = ends_with _ (ExecutionResult.pending _) (ExecutionResult.succeeded h) s e in
      absurd (ground arith)
  confirmed_success hash h id attempt (ConfirmationOutcome.reverted r) s e =
      absurd (reverted_is_not hash h id attempt r s e)
  confirmed_success hash h id attempt (ConfirmationOutcome.finalized r) s e =
      let (i, k) = finalized_success hash h id attempt r s e in ((r, refl, i), k)

  out_of :
      (o : Option ConfirmationOutcome) (receipt : TransactionReceiptView)
      → get_or o ConfirmationOutcome.pending ≡ ConfirmationOutcome.finalized receipt
      → o ≡ some (ConfirmationOutcome.finalized receipt)
  out_of none receipt e = ground arith
  out_of (some out) receipt e = ap some e

  watched_success :
      (hash h : Text) (id attempt : ℕ) (s : Store)
      → ((deps.watch hash >>= λ watch. on_confirmation deps id attempt hash (
            get_or
              (await_confirmation watch.polls deps.confirmation watch.start (suc watch.turns))
              ConfirmationOutcome.pending))
          s).0
        ≡ ok (ExecutionResult.succeeded h)
      → IsIn id OperationState.succeeded
          ((deps.watch hash >>= λ watch. on_confirmation deps id attempt hash (
              get_or
                (await_confirmation watch.polls deps.confirmation watch.start (suc watch.turns))
                ConfirmationOutcome.pending))
            s).1
        × IsConfirmed deps id attempt hash s
  watched_success hash h id attempt s e =
      let (w, t, e1, e2) = >>=-eq-ok (deps.watch hash) _ s _ e in
      let ((r, o, i), k) = confirmed_success hash h id attempt _ t (ap (λ q. q.0) (sym e2) ∙ e) in
      (
        subst (IsIn id OperationState.succeeded) (sym (ap (λ q. q.1) e2)) k,
        record {
          watch = w;
          after = t;
          receipt = r;
          watched = e1;
          finalized = out_of _ r o;
          reconciled = i;
        },
      )

  settled_success :
      (state : OperationState) (hash h : Text)
      → settled_result state hash ≡ ExecutionResult.succeeded h
      → state ≡ OperationState.succeeded
  unfolding settled_result
  settled_success state hash h e = ground (arith, state_eq_iff state OperationState.succeeded)

  -- The executor only reports SUCCEEDED when the operation is recorded as SUCCEEDED in the store that
  -- it leaves, and either that was so before, or the wait ended with a finalized receipt which the
  -- operation's handler found consistent with the chain. The handlers and the other workers are to
  -- move operations along the graph only.
  pub success_is_proved :
      (operation_id attempt_id : ℕ) (hash h : Text) (s : Store)
      → (observe_and_finalize deps operation_id attempt_id hash s).0
        ≡ ok (ExecutionResult.succeeded h)
      → IsIn operation_id OperationState.succeeded
          (observe_and_finalize deps operation_id attempt_id hash s).1
        × (IsIn operation_id OperationState.succeeded s
            ⊎ IsConfirmed deps operation_id attempt_id hash s)
  unfolding observe_and_finalize find_operation_by_id or_throw throw gets pure ◌>>=◌
  success_is_proved id attempt hash h s =
      elim (Option-cases (find_row (has_operation_id id) s.operations)) [
        | inl n ↦ rw n (λ e. absurd (ground arith))
        | inr (o, f) ↦ elim (Bool-cases (is_terminal_operation_state o.state)) [
          | inl over ↦ rw f (
              rw over (λ e.
                let ended = settled_success o.state hash h (ground (arith, e)) in
                ((o, f, ended), inl (o, refl, ended))))
          | inr open_still ↦ rw f (
              rw open_still (λ e. let (k, c) = watched_success hash h id attempt s e in (k, inr c)))
        ]
      ]

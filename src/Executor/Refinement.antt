-- ===== src/Executor/Refinement.antt =====
-- src/modules/operations/operation-executor.ts: the executor refines the graph of transitions.
use institutional_tokenizati.Base.{ℕ, Option, none, some, Text}
use institutional_tokenizati.Domain.OperationState.{OperationState}
use institutional_tokenizati.Db.{Store, Operation, Attempt, AttemptStatus, FailureCode}
use institutional_tokenizati.Db.Within.{
  Within, Within-bind, Within-pure, Within-or_throw, Within-gets, within_rules,
}
use institutional_tokenizati.Repo.Operations.{Patch, find_operation_by_id}
use institutional_tokenizati.Repo.Attempts.{find_latest_attempt_for_operation}
use institutional_tokenizati.Transactions.Confirmation.{ConfirmationOutcome, TransactionReceiptView}
use institutional_tokenizati.Transactions.ChainWriter.{ChainWriteOutcome}
use institutional_tokenizati.Executor.Interface.{
  ExecutorDeps, OperationHandler, SettledOperation, ReconciliationReport,
}
use institutional_tokenizati.Executor.Settlement.{
  record_reorg, settle_effects, settle_row, settle, reconcile_receipt, reconcile_found, conclude,
  on_confirmation, observe_and_finalize, fail_prepared, fail_locked, fail_operation,
}
use institutional_tokenizati.Executor.Pipeline.{
  after_write, run_pipeline, run_claimed, execute_operation, resume_pending_signature,
}
use institutional_tokenizati.Executor.Lifecycle.{
  Follows, Follows-IsPreorder, Within-Follows, transition_operation-Follows,
}
use institutional_tokenizati.Executor.Unmoved.{unmoved_rules}
use institutional_tokenizati.Executor.Moves.{
  FollowingHandler, FollowingDeps, found_handler, move_from-Follows, record_inclusion-Follows,
  claim_ready_operation-Follows, operation_hooks-FollowingHooks,
}
use institutional_tokenizati.Executor.Writing.{execute-Follows, resume_signature-Follows}

module _ (deps : ExecutorDeps) (following : FollowingDeps deps) where
  record_reorg-Follows :
      (id attempt : ℕ) (receipt : TransactionReceiptView)
      → Within Follows (record_reorg deps id attempt receipt)
  unfolding record_reorg find_operation_by_id
  record_reorg-Follows id attempt receipt =
      search (within_rules, Follows-IsPreorder, Within-Follows, unmoved_rules, move_from-Follows)
        depth 30

  pub settle_effects-Follows :
      (h : OperationHandler) (settled : SettledOperation) (o : Operation) (to : OperationState)
      (status : AttemptStatus)
      → FollowingHandler h
      → Within Follows (settle_effects deps h settled o to status)
  unfolding settle_effects
  settle_effects-Follows h settled o to status k =
      search (within_rules, Follows-IsPreorder, Within-Follows, unmoved_rules, k.apply_success)
        depth 30

  settle_row-Follows :
      (h : OperationHandler) (settled : SettledOperation) (o : Operation) (to : OperationState)
      (status : AttemptStatus) (patch : Patch)
      → FollowingHandler h
      → Within Follows (settle_row deps h settled o to status patch)
  unfolding settle_row
  settle_row-Follows h settled o to status patch k =
      search
        (within_rules, Follows-IsPreorder, transition_operation-Follows, settle_effects-Follows, k)
        depth 30

  settle-Follows :
      (settled : SettledOperation) (to : OperationState) (status : AttemptStatus) (patch : Patch)
      → Within Follows (settle deps settled to status patch)
  unfolding settle find_operation_by_id
  settle-Follows settled to status patch =
      found_handler deps following settled.operation _
        (λ h k. search (within_rules, Follows-IsPreorder, settle_row-Follows, k) depth 20)

  reconcile_receipt-Follows :
      (id attempt : ℕ) (receipt : TransactionReceiptView)
      → Within Follows (reconcile_receipt deps id attempt receipt)
  unfolding reconcile_receipt reconcile_found find_operation_by_id
  reconcile_receipt-Follows id attempt receipt =
      Within-bind Follows-IsPreorder _ _ (Within-gets Follows-IsPreorder _) (λ found.
        Within-bind Follows-IsPreorder _ _ (Within-or_throw Follows-IsPreorder found _) (λ o.
          found_handler deps following o _ (λ h k.
            Within-bind Follows-IsPreorder _ _ (k.reconcile _)
              (λ report. Within-pure Follows-IsPreorder _))))

  conclude-Follows :
      (hash : Text) (settled : SettledOperation) (report : ReconciliationReport)
      → Within Follows (conclude deps hash settled report)
  unfolding conclude
  conclude-Follows hash settled report =
      search (within_rules, Follows-IsPreorder, settle-Follows) depth 20

  on_confirmation-Follows :
      (id attempt : ℕ) (hash : Text) (out : ConfirmationOutcome)
      → Within Follows (on_confirmation deps id attempt hash out)
  unfolding on_confirmation
  on_confirmation-Follows id attempt hash ConfirmationOutcome.pending =
      Within-pure Follows-IsPreorder _
  on_confirmation-Follows id attempt hash (ConfirmationOutcome.orphaned r) =
      record_reorg-Follows id attempt r
  on_confirmation-Follows id attempt hash (ConfirmationOutcome.included r) =
      search (within_rules, Follows-IsPreorder, record_inclusion-Follows) depth 20
  on_confirmation-Follows id attempt hash (ConfirmationOutcome.reverted r) =
      Within-bind Follows-IsPreorder _ _ (record_inclusion-Follows id attempt r) (λ _.
        Within-bind Follows-IsPreorder _ _ (reconcile_receipt-Follows id attempt r) (λ x.
          Within-bind Follows-IsPreorder _ _ (settle-Follows x.0 _ _ _)
            (λ _. Within-pure Follows-IsPreorder _)))
  on_confirmation-Follows id attempt hash (ConfirmationOutcome.finalized r) =
      Within-bind Follows-IsPreorder _ _ (record_inclusion-Follows id attempt r) (λ _.
        Within-bind Follows-IsPreorder _ _ (reconcile_receipt-Follows id attempt r)
          (λ x. conclude-Follows hash x.0 x.1))

  pub observe_and_finalize-Follows :
      (id attempt : ℕ) (hash : Text) → Within Follows (observe_and_finalize deps id attempt hash)
  unfolding observe_and_finalize find_operation_by_id
  observe_and_finalize-Follows id attempt hash =
      search (within_rules, Follows-IsPreorder, following.watch, on_confirmation-Follows) depth 20

  fail_prepared-Follows :
      (o : Option Attempt) (code : FailureCode) → Within Follows (fail_prepared o code)
  unfolding fail_prepared
  fail_prepared-Follows none code = Within-pure Follows-IsPreorder tt
  fail_prepared-Follows (some a) code =
      search (within_rules, Follows-IsPreorder, Within-Follows, unmoved_rules) depth 20

  fail_locked-Follows :
      (operation : Operation) (code : FailureCode) (o : Option Operation)
      → Within Follows (fail_locked deps operation code o)
  unfolding fail_locked find_latest_attempt_for_operation
  fail_locked-Follows operation code none = Within-pure Follows-IsPreorder tt
  fail_locked-Follows operation code (some o) =
      search
        (
          within_rules, Follows-IsPreorder, Within-Follows, unmoved_rules,
          transition_operation-Follows, fail_prepared-Follows,
        )
        depth 20

  fail_operation-Follows :
      (operation : Operation) (code : FailureCode)
      → Within Follows (fail_operation deps operation code)
  unfolding fail_operation find_operation_by_id
  fail_operation-Follows operation code =
      search (within_rules, Follows-IsPreorder, fail_locked-Follows) depth 20

  after_write-Follows :
      (id : ℕ) (out : ChainWriteOutcome) → Within Follows (after_write deps id out)
  unfolding after_write
  after_write-Follows id (ChainWriteOutcome.has_failed a c) = Within-pure Follows-IsPreorder _
  after_write-Follows id (ChainWriteOutcome.signature_pending a r) =
      Within-pure Follows-IsPreorder _
  after_write-Follows id (ChainWriteOutcome.is_unknown a h) = Within-pure Follows-IsPreorder _
  after_write-Follows id (ChainWriteOutcome.is_submitted a h) = observe_and_finalize-Follows id a h

  run_pipeline-Follows : (o : Operation) → Within Follows (run_pipeline deps o)
  unfolding run_pipeline
  run_pipeline-Follows o = found_handler deps following o _ (λ h k.
      Within-bind Follows-IsPreorder _ _ (k.prepare o) (λ call.
        Within-bind Follows-IsPreorder _ _
          (execute-Follows deps.writer _ following.ports
            (operation_hooks-FollowingHooks deps following o.id) _)
          (λ out. after_write-Follows o.id out)))

  run_claimed-Follows : (id : ℕ) (o : Option Operation) → Within Follows (run_claimed deps id o)
  unfolding run_claimed find_operation_by_id
  run_claimed-Follows id none = search (within_rules, Follows-IsPreorder) depth 20
  run_claimed-Follows id (some o) =
      search (within_rules, Follows-IsPreorder, run_pipeline-Follows, fail_operation-Follows) depth
        20

  pub execute_operation-Follows :
      (id worker : ℕ) → Within Follows (execute_operation deps id worker)
  unfolding execute_operation
  execute_operation-Follows id worker =
      search (within_rules, Follows-IsPreorder, claim_ready_operation-Follows, run_claimed-Follows)
        depth 20

  pub resume_pending_signature-Follows :
      (id : ℕ) (attempt : Attempt) → Within Follows (resume_pending_signature deps id attempt)
  unfolding resume_pending_signature
  resume_pending_signature-Follows id attempt =
      Within-bind Follows-IsPreorder _ _
        (resume_signature-Follows deps.writer _ following.ports
          (operation_hooks-FollowingHooks deps following id) attempt)
        (λ out. after_write-Follows id out)

  -- Whatever the handlers, the signer and the node answer or throw, and whether the call returns or
  -- throws: an execution, a resumed signature and an observation leave every operation in place,
  -- with the same instruction, in a state that the table of transitions leads to from its old one.
  -- The handlers and the other workers are to do so too.
  pub executor_refines_lifecycle :
      (s : Store) (operation_id worker_id attempt_id : ℕ) (attempt : Attempt) (hash : Text)
      → Follows s (execute_operation deps operation_id worker_id s).1
        × Follows s (resume_pending_signature deps operation_id attempt s).1
        × Follows s (observe_and_finalize deps operation_id attempt_id hash s).1
  executor_refines_lifecycle s operation_id worker_id attempt_id attempt hash = (
    (execute_operation-Follows operation_id worker_id).at s,
    (resume_pending_signature-Follows operation_id attempt).at s,
    (observe_and_finalize-Follows operation_id attempt_id hash).at s,
  )

-- ===== src/Executor/Moves.antt =====
-- src/modules/operations/operation-executor.ts: the moves of the hooks, the claim and the
-- inclusion.
use institutional_tokenizati.Base.{ℕ, ◌≡◌, refl, Option, none, some, Text}
use institutional_tokenizati.Domain.OperationState.{OperationState}
use institutional_tokenizati.Domain.Errors.{plain_error}
use institutional_tokenizati.Db.{Operation, OperationType, Action, or_throw, ◌>>=◌}
use institutional_tokenizati.Db.Within.{
  Within, Within-bind, Within-pure, Within-throw_if, within_rules,
}
use institutional_tokenizati.Repo.Operations.{
  Patch, find_operation_by_id, claim_locked, claim_ready_operation,
}
use institutional_tokenizati.Transactions.Confirmation.{TransactionReceiptView}
use institutional_tokenizati.Executor.Interface.{
  ExecutorDeps, OperationHandler, SettledOperation, handler_for,
}
use institutional_tokenizati.Executor.Hooks.{
  step_operation, assert_executable, assert_broadcast_allowed, operation_hooks, advance_locked,
  advance, replacement_hooks,
}
use institutional_tokenizati.Executor.Settlement.{move_from, record_inclusion}
use institutional_tokenizati.Executor.Lifecycle.{
  Follows, Follows-IsPreorder, Within-Follows, transition_operation-Follows,
}
use institutional_tokenizati.Executor.Unmoved.{unmoved_rules}
use institutional_tokenizati.Executor.Writing.{FollowingHooks, FollowingPorts}

pub step_operation-Follows :
    (id : ℕ) (to : OperationState) (patch : Patch) → Within Follows (step_operation id to patch)
unfolding step_operation find_operation_by_id
step_operation-Follows id to patch =
    search (within_rules, Follows-IsPreorder, transition_operation-Follows) depth 20

advance_locked-Follows :
    (to : OperationState) (o : Option Operation) → Within Follows (advance_locked to o)
unfolding advance_locked
advance_locked-Follows to none = Within-pure Follows-IsPreorder tt
advance_locked-Follows to (some o) =
    search (within_rules, Follows-IsPreorder, transition_operation-Follows) depth 20

pub advance-Follows : (id : ℕ) (to : OperationState) → Within Follows (advance id to)
unfolding advance find_operation_by_id
advance-Follows id to = search (within_rules, Follows-IsPreorder, advance_locked-Follows) depth 20

pub move_from-Follows :
    (from to : OperationState) (o : Operation) → Within Follows (move_from from to o)
unfolding move_from
move_from-Follows from to o =
    search (within_rules, Follows-IsPreorder, transition_operation-Follows) depth 20

claim_locked-Follows : (o : Option Operation) (worker : ℕ) → Within Follows (claim_locked o worker)
unfolding claim_locked
claim_locked-Follows none worker = Within-pure Follows-IsPreorder none
claim_locked-Follows (some o) worker =
    search (within_rules, Follows-IsPreorder, transition_operation-Follows) depth 20

pub claim_ready_operation-Follows :
    (id worker : ℕ) → Within Follows (claim_ready_operation id worker)
unfolding claim_ready_operation find_operation_by_id
claim_ready_operation-Follows id worker =
    search (within_rules, Follows-IsPreorder, claim_locked-Follows) depth 20

pub record_inclusion-Follows :
    (id attempt : ℕ) (receipt : TransactionReceiptView)
    → Within Follows (record_inclusion id attempt receipt)
unfolding record_inclusion find_operation_by_id
record_inclusion-Follows id attempt receipt =
    search (within_rules, Follows-IsPreorder, Within-Follows, unmoved_rules, move_from-Follows)
      depth 20

-- A handler moves operations along the graph only.
pub record FollowingHandler (h : OperationHandler) : Type 0 where
  pub prepare : (o : Operation) → Within Follows (h.prepare o)
  pub assert_still_executable : (o : Operation) → Within Follows (h.assert_still_executable o)
  pub reconcile : (x : SettledOperation) → Within Follows (h.reconcile x)
  pub apply_success : (x : SettledOperation) → Within Follows (h.apply_success x)

-- What the executor is given does so.
pub record FollowingDeps (deps : ExecutorDeps) : Type 0 where
  pub ports : FollowingPorts deps.writer.ports
  pub watch : (hash : Text) → Within Follows (deps.watch hash)
  pub handlers :
      (type : OperationType) (h : OperationHandler)
      → deps.handlers type ≡ some h
      → FollowingHandler h

module _ (deps : ExecutorDeps) (following : FollowingDeps deps) where
  with_handler :
      {B : Type 0} (o : Option OperationHandler) (f : OperationHandler → Action B)
      → ((h : OperationHandler) → o ≡ some h → FollowingHandler h)
      → ((h : OperationHandler) → FollowingHandler h → Within Follows (f h))
      → Within Follows (or_throw o plain_error >>= f)
  unfolding or_throw ◌>>=◌
  with_handler none f g k = record { at = λ s. Follows-IsPreorder.same s }
  with_handler (some h) f g k = record { at = λ s. (k h (g h refl)).at s }

  pub found_handler :
      {B : Type 0} (operation : Operation) (f : OperationHandler → Action B)
      → ((h : OperationHandler) → FollowingHandler h → Within Follows (f h))
      → Within Follows (handler_for deps operation >>= f)
  unfolding handler_for
  found_handler operation f k = with_handler _ f (following.handlers operation.type) k

  assert_executable-Follows : (o : Operation) → Within Follows (assert_executable deps o)
  unfolding assert_executable
  assert_executable-Follows o =
      Within-bind Follows-IsPreorder _ _ (Within-throw_if Follows-IsPreorder _ _)
        (λ _. found_handler o _ (λ h k. k.assert_still_executable o))

  assert_broadcast_allowed-Follows : (id : ℕ) → Within Follows (assert_broadcast_allowed deps id)
  unfolding assert_broadcast_allowed find_operation_by_id
  assert_broadcast_allowed-Follows id =
      search
        (within_rules, Follows-IsPreorder, Within-Follows, unmoved_rules, assert_executable-Follows)
        depth 20

  pub operation_hooks-FollowingHooks : (id : ℕ) → FollowingHooks (operation_hooks deps id)
  unfolding operation_hooks
  operation_hooks-FollowingHooks id = record {
    on_prepared = λ a. step_operation-Follows id _ _;
    on_signed = λ a. step_operation-Follows id _ _;
    assert_broadcast_allowed = assert_broadcast_allowed-Follows id;
    on_broadcasting = λ a. step_operation-Follows id _ _;
    on_submitted = λ a h. step_operation-Follows id _ _;
    on_broadcast_unknown = λ a. step_operation-Follows id _ _;
    on_failed = λ a c. step_operation-Follows id _ _;
  }

  pub replacement_hooks-FollowingHooks : (id : ℕ) → FollowingHooks (replacement_hooks deps id)
  unfolding replacement_hooks
  replacement_hooks-FollowingHooks id = record {
    on_prepared = λ a. Within-pure Follows-IsPreorder tt;
    on_signed = λ a. Within-pure Follows-IsPreorder tt;
    assert_broadcast_allowed = assert_broadcast_allowed-Follows id;
    on_broadcasting = λ a. Within-pure Follows-IsPreorder tt;
    on_submitted = λ a h. advance-Follows id _;
    on_broadcast_unknown = λ a. advance-Follows id _;
    on_failed = λ a c. Within-pure Follows-IsPreorder tt;
  }

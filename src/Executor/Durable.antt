-- ===== src/Executor/Durable.antt =====
-- src/modules/operations/operation-executor.ts: the executor's hooks change no stored bytes, so the
-- chain writer sends durable bytes only when the executor and the replacement sweep call it.
use institutional_tokenizati.Base.{ℕ, ◌≡◌, refl, Option, none, some}
use institutional_tokenizati.Domain.Errors.{plain_error}
use institutional_tokenizati.Domain.OperationState.{OperationState}
use institutional_tokenizati.Domain.Roles.{Actor}
use institutional_tokenizati.Db.{
  Store, Operation, OperationType, Attempt, AuditAction, ReplacementReason, modify, or_throw, ◌>>=◌,
}
use institutional_tokenizati.Db.Within.{
  Within, Within-bind, Within-pure, Within-gets, Within-modify, Within-throw_if, within_rules,
}
use institutional_tokenizati.Repo.Operations.{
  Patch, find_operation_by_id, transition_operation, update_observed, record_operation_transition,
}
use institutional_tokenizati.Repo.Reference.{record_audit_event}
use institutional_tokenizati.Transactions.Intent.{FeeEstimate}
use institutional_tokenizati.Transactions.ChainWriter.{
  ChainWriteIntent, execute, resume_signature, replace_fees,
}
use institutional_tokenizati.Transactions.ChainWriter.Steady.{
  AllDurable, IsSteady, IsSteady-IsPreorder, leaves_attempts,
}
use institutional_tokenizati.Transactions.ChainWriter.Sends.{SteadyHooks, LoggedPorts}
use institutional_tokenizati.Transactions.ChainWriter.Durability.{every_write_is_durable}
use institutional_tokenizati.Executor.Interface.{ExecutorDeps, OperationHandler, handler_for}
use institutional_tokenizati.Executor.Hooks.{
  step_operation, assert_executable, assert_broadcast_allowed, operation_hooks, advance_locked,
  advance, replacement_hooks,
}

-- A write to a table that is neither the attempts nor what was sent
beside :
    (f : Store → Store)
    → ((s : Store) → (f s).attempts ≡ s.attempts)
    → ((s : Store) → (f s).sent ≡ s.sent)
    → Within IsSteady (modify f)
beside f a e = Within-modify IsSteady-IsPreorder f (λ s. leaves_attempts s (f s) (a s) (e s))

update_observed-IsSteady :
    (o : Operation) (to : OperationState) (patch : Patch)
    → Within IsSteady (update_observed o to patch)
unfolding update_observed
update_observed-IsSteady o to patch =
    Within-bind IsSteady-IsPreorder _ _ (Within-gets IsSteady-IsPreorder _) (λ at.
      Within-bind IsSteady-IsPreorder _ _ (Within-gets IsSteady-IsPreorder _) (λ row.
        Within-bind IsSteady-IsPreorder _ _ (beside _ (λ s. refl) (λ s. refl))
          (λ _. Within-pure IsSteady-IsPreorder _)))

record_operation_transition-IsSteady :
    (id : ℕ) (from : Option OperationState) (to : OperationState)
    → Within IsSteady (record_operation_transition id from to)
unfolding record_operation_transition
record_operation_transition-IsSteady id from to = beside _ (λ s. refl) (λ s. refl)

record_audit_event-IsSteady :
    (actor : Actor) (action : AuditAction) (resource : ℕ) (operation : Option ℕ)
    → Within IsSteady (record_audit_event actor action resource operation)
unfolding record_audit_event
record_audit_event-IsSteady actor action resource operation = beside _ (λ s. refl) (λ s. refl)

transition_operation-IsSteady :
    (o : Operation) (to : OperationState) (patch : Patch)
    → Within IsSteady (transition_operation o to patch)
unfolding transition_operation
transition_operation-IsSteady o to patch =
    search
      (
        within_rules, IsSteady-IsPreorder, update_observed-IsSteady,
        record_operation_transition-IsSteady,
      )
      depth 20

step_operation-IsSteady :
    (id : ℕ) (to : OperationState) (patch : Patch) → Within IsSteady (step_operation id to patch)
unfolding step_operation find_operation_by_id
step_operation-IsSteady id to patch =
    search (within_rules, IsSteady-IsPreorder, transition_operation-IsSteady) depth 20

advance_locked-IsSteady :
    (to : OperationState) (o : Option Operation) → Within IsSteady (advance_locked to o)
unfolding advance_locked
advance_locked-IsSteady to none = Within-pure IsSteady-IsPreorder _
advance_locked-IsSteady to (some o) =
    search (within_rules, IsSteady-IsPreorder, transition_operation-IsSteady) depth 20

advance-IsSteady : (id : ℕ) (to : OperationState) → Within IsSteady (advance id to)
unfolding advance find_operation_by_id
advance-IsSteady id to =
    search (within_rules, IsSteady-IsPreorder, advance_locked-IsSteady) depth 20

-- The handlers' last check before a send changes no stored bytes.
pub record SteadyHandlers (deps : ExecutorDeps) : Type 0 where
  pub assert_still_executable :
      (type : OperationType) (h : OperationHandler)
      → deps.handlers type ≡ some h
      → (o : Operation) → Within IsSteady (h.assert_still_executable o)

module _ (deps : ExecutorDeps) (steady : SteadyHandlers deps) where
  with_handler :
      (found : Option OperationHandler) (o : Operation)
      → ((h : OperationHandler) → found ≡ some h → Within IsSteady (h.assert_still_executable o))
      → Within IsSteady (or_throw found plain_error >>= λ h. h.assert_still_executable o)
  unfolding or_throw ◌>>=◌
  with_handler none o g = record { at = λ s. IsSteady-IsPreorder.same s }
  with_handler (some h) o g = record { at = λ s. (g h refl).at s }

  assert_executable-IsSteady : (o : Operation) → Within IsSteady (assert_executable deps o)
  unfolding assert_executable handler_for
  assert_executable-IsSteady o =
      Within-bind IsSteady-IsPreorder _ _ (Within-throw_if IsSteady-IsPreorder _ _)
        (λ _. with_handler _ o (λ h e. steady.assert_still_executable o.type h e o))

  assert_broadcast_allowed-IsSteady : (id : ℕ) → Within IsSteady (assert_broadcast_allowed deps id)
  unfolding assert_broadcast_allowed find_operation_by_id
  assert_broadcast_allowed-IsSteady id =
      search
        (within_rules, IsSteady-IsPreorder, record_audit_event-IsSteady, assert_executable-IsSteady)
        depth 20

  operation_hooks-SteadyHooks : (id : ℕ) → SteadyHooks (operation_hooks deps id)
  unfolding operation_hooks
  operation_hooks-SteadyHooks id = record {
    on_prepared = λ a. step_operation-IsSteady id _ _;
    on_signed = λ a. step_operation-IsSteady id _ _;
    assert_broadcast_allowed = assert_broadcast_allowed-IsSteady id;
    on_broadcasting = λ a. step_operation-IsSteady id _ _;
    on_submitted = λ a h. step_operation-IsSteady id _ _;
    on_broadcast_unknown = λ a. step_operation-IsSteady id _ _;
    on_failed = λ a c. step_operation-IsSteady id _ _;
  }

  replacement_hooks-SteadyHooks : (id : ℕ) → SteadyHooks (replacement_hooks deps id)
  unfolding replacement_hooks
  replacement_hooks-SteadyHooks id = record {
    on_prepared = λ a. Within-pure IsSteady-IsPreorder _;
    on_signed = λ a. Within-pure IsSteady-IsPreorder _;
    assert_broadcast_allowed = assert_broadcast_allowed-IsSteady id;
    on_broadcasting = λ a. Within-pure IsSteady-IsPreorder _;
    on_submitted = λ a h. advance-IsSteady id _;
    on_broadcast_unknown = λ a. advance-IsSteady id _;
    on_failed = λ a c. Within-pure IsSteady-IsPreorder _;
  }

  -- The chain writer, called with the hooks by which the executor and the replacement sweep move an
  -- operation, hands the node only bytes that a non-replaced attempt on record held at that moment:
  -- for a first write, a resumed signature and a fee replacement, returning or throwing. Signer and
  -- node may do anything, the other workers send such bytes only, and the handlers' last check
  -- changes no stored bytes.
  pub executor_sends_stored_bytes :
      LoggedPorts deps.writer.ports
      → (s : Store) (id : ℕ) (intent : ChainWriteIntent) (attempt : Attempt) (fees : FeeEstimate)
        (reason : ReplacementReason)
      → AllDurable s.sent
      → AllDurable (execute deps.writer intent (operation_hooks deps id) s).1.sent
        × AllDurable (resume_signature deps.writer (operation_hooks deps id) attempt s).1.sent
        × AllDurable
            (replace_fees deps.writer (replacement_hooks deps id) attempt fees reason s).1.sent
  executor_sends_stored_bytes ports s id intent attempt fees reason h =
      let first =
        every_write_is_durable deps.writer (operation_hooks deps id) ports
          (operation_hooks-SteadyHooks id) s intent attempt fees reason h in
      let later =
        every_write_is_durable deps.writer (replacement_hooks deps id) ports
          (replacement_hooks-SteadyHooks id) s intent attempt fees reason h in
      (first.0, first.1, later.2)

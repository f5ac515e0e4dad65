-- ===== src/Tests/Executing.antt =====
-- The executor and the recovery sweep on concrete operations.
use mathlib.Core.Path.{subst}
use institutional_tokenizati.Base.{
  ◌≡◌, ◌≢◌, ◌⊎◌, inl, refl, ap, get_or, true, none, some, [], ◌∷◌, codes, to_lower, arith, find_row,
  update_rows, select_rows, count_rows,
}
use institutional_tokenizati.Domain.Errors.{Fault, operation_conflict}
use institutional_tokenizati.Domain.OperationState.{
  OperationState, ready, state_eq, includes_state, is_terminal_operation_state,
  can_transition_operation, allowed_transitions,
}
use institutional_tokenizati.Domain.OperationState.Graph.{Run, here, step}
use institutional_tokenizati.Domain.Roles.{system_actor}
use institutional_tokenizati.Db.{
  Store, Operation, AttemptPurpose, AttemptStatus, error_code, ok, err, pure, or_throw, gets,
  modify, transaction, ◌>>=◌, attempt_status_eq,
}
use institutional_tokenizati.Db.Within.{Within, Within-pure}
use institutional_tokenizati.Repo.Operations.{
  no_patch, find_operation_by_id, transition_operation, update_observed, advanced, apply_patch,
  record_operation_transition,
}
use institutional_tokenizati.Repo.Attempts.{
  record_receipt, write_receipt, update_attempts, update_attempt_status, write_status,
}
use institutional_tokenizati.Repo.Reference.{record_audit_event}
use institutional_tokenizati.Transactions.Confirmation.{
  await_confirmation, after_wait, wait_for_receipt, observe, judge, is_canonical, is_final,
}
use institutional_tokenizati.Executor.Interface.{
  ExecutorDeps, ExecutionResult, OperationHandler, SettledOperation, handler_for,
}
use institutional_tokenizati.Executor.Settlement.{
  observe_and_finalize, on_confirmation, record_inclusion, move_from, reconcile_receipt,
  reconcile_found, conclude, settle, settle_row, settle_effects, fail_operation,
}
use institutional_tokenizati.Executor.Pipeline.{
  execute_operation, run_claimed, resume_pending_signature,
}
use institutional_tokenizati.Executor.Lifecycle.{Follows, Follows-IsPreorder, has_operation_id}
use institutional_tokenizati.Executor.Moves.{FollowingHandler, FollowingDeps}
use institutional_tokenizati.Executor.Refinement.{executor_refines_lifecycle}
use institutional_tokenizati.Executor.Outcomes.{
  duplicate_delivery_skipped, failure_spares_in_flight, IsPastSigning,
}
use institutional_tokenizati.Executor.Success.{IsIn}
use institutional_tokenizati.Executor.Settled.{settle_all_or_nothing}
use institutional_tokenizati.Executor.Finality.{IsConfirmed, success_is_proved}
use institutional_tokenizati.Recovery.{
  RecoveryDeps, sweep, resolve_in_flight, abandon_unbroadcast, recovery_fuel,
}
use institutional_tokenizati.Recovery.Refinement.{sweep_refines_lifecycle}
use institutional_tokenizati.Recovery.Ends.{HashedBytes, recovery_ends}
use institutional_tokenizati.Tests.Fixtures.{mint, stuck, store}
use institutional_tokenizati.Tests.Chain.{receipt, polls, policy}
use institutional_tokenizati.Tests.Sending.{deps}

abbrev pub handler : OperationHandler
handler = record {
  purpose = AttemptPurpose.mint_tokens;
  prepare = λ o. pure (record { to_address = some (codes "0xcc"); calldata = codes "0x01" });
  assert_still_executable = λ o. pure tt;
  reconcile = λ x. pure (record { consistent = true; findings = [] });
  apply_success = λ x. pure tt;
}

abbrev pub executor : ExecutorDeps
executor = record {
  writer = deps;
  handlers = λ type. some handler;
  watch = λ hash. pure (record { polls = polls; start = 0; turns = 10 });
  confirmation = policy;
  actor = system_actor 50;
}

pub quiet : {A : Type 0} (a : A) → Within Follows (pure a)
quiet a = Within-pure Follows-IsPreorder a

following_handler : FollowingHandler handler
following_handler = record {
  prepare = λ o. quiet _;
  assert_still_executable = λ o. quiet _;
  reconcile = λ x. quiet _;
  apply_success = λ x. quiet _;
}

pub following : FollowingDeps executor
following = record {
  ports = record {
    get_signer_address = quiet _;
    get_chain_identity = quiet _;
    simulate = λ a c. quiet _;
    get_fee_estimate = quiet _;
    get_transaction_count = λ a. quiet _;
    request_signature = λ r. quiet _;
    fetch_signature = λ id. quiet _;
    broadcast_raw_transaction = λ b. quiet _;
  };
  watch = λ hash. quiet _;
  handlers = λ type h e. subst FollowingHandler (some_handler h e) following_handler;
}
  where
    some_handler : (h : OperationHandler) → some handler ≡ some h → handler ≡ h
    some_handler h e = ap (λ o. get_or o handler) e

-- The mint, broadcast and on the chain
abbrev sent_mint : Operation
sent_mint = record mint { state = OperationState.submitted }

abbrev pub sent_store : Store
sent_store = record store { operations = sent_mint ∷ [] }

executor_refines_lifecycle_example :
    Follows sent_store (execute_operation executor 1 5 sent_store).1
    × Follows sent_store (resume_pending_signature executor 1 stuck sent_store).1
    × Follows sent_store (observe_and_finalize executor 1 30 (codes "0xbeef") sent_store).1
executor_refines_lifecycle_example =
    executor_refines_lifecycle executor following sent_store 1 5 30 stuck (codes "0xbeef")

succeeds :
    (observe_and_finalize executor 1 30 (codes "0xbeef") sent_store).0
    ≡ ok (ExecutionResult.succeeded (codes "0xbeef"))
unfolding observe_and_finalize find_operation_by_id or_throw gets pure ◌>>=◌ find_row
    is_terminal_operation_state includes_state state_eq on_confirmation await_confirmation
    after_wait wait_for_receipt observe judge is_canonical is_final record_inclusion move_from
    transaction transition_operation update_observed advanced apply_patch
    record_operation_transition can_transition_operation allowed_transitions update_rows modify
    record_receipt update_attempts write_receipt select_rows count_rows to_lower reconcile_receipt
    reconcile_found handler_for conclude settle settle_row settle_effects update_attempt_status
    write_status attempt_status_eq record_audit_event
succeeds = refl

success_is_proved_example :
    IsIn 1 OperationState.succeeded
      (observe_and_finalize executor 1 30 (codes "0xbeef") sent_store).1
    × (IsIn 1 OperationState.succeeded sent_store
        ⊎ IsConfirmed executor 1 30 (codes "0xbeef") sent_store)
success_is_proved_example =
    success_is_proved executor following 1 30 (codes "0xbeef") (codes "0xbeef") sent_store succeeds

mint_found : find_row (has_operation_id 1) store.operations ≡ some mint
unfolding find_row
mint_found = refl

abbrev ready_mint : Operation
ready_mint = record mint { state = ready }

abbrev ready_store : Store
ready_store = record store { operations = ready_mint ∷ [] }

ready_found : find_row (has_operation_id 1) ready_store.operations ≡ some ready_mint
unfolding find_row
ready_found = refl

duplicate_delivery_skipped_example :
    (claimed : Operation) × (t : Store) × (claimed.state ≡ OperationState.preparing)
    × (find_row (has_operation_id 1) t.operations ≡ some claimed)
    × (execute_operation executor 1 5 ready_store ≡ run_claimed executor 1 (some claimed) t)
    × (execute_operation executor 1 6 t
        ≡ (ok (ExecutionResult.skipped (some OperationState.preparing)), t))
    × ((u : Store) (p : Operation)
        → find_row (has_operation_id 1) u.operations ≡ some p
        → p.state ≢ ready
        → execute_operation executor 1 6 u ≡ (ok (ExecutionResult.skipped (some p.state)), u))
    × ((u : Store)
        → IsPastSigning 1 (execute_operation executor 1 5 ready_store).1
        → Follows (execute_operation executor 1 5 ready_store).1 u
        → (p : Operation) × (find_row (has_operation_id 1) u.operations ≡ some p)
          × (execute_operation executor 1 6 u ≡ (ok (ExecutionResult.skipped (some p.state)), u)))
duplicate_delivery_skipped_example =
    duplicate_delivery_skipped executor 1 5 6 ready_store ready_mint ready_found refl

sent_found : find_row (has_operation_id 1) sent_store.operations ≡ some sent_mint
unfolding find_row
sent_found = refl

in_flight : Run OperationState.broadcasting OperationState.submitted
unfolding can_transition_operation allowed_transitions includes_state state_eq
in_flight = step here refl

failure_spares_in_flight_example :
    fail_operation executor sent_mint (error_code operation_conflict) sent_store
    ≡ (ok tt, sent_store)
failure_spares_in_flight_example =
    failure_spares_in_flight executor sent_mint (error_code operation_conflict) sent_store sent_mint
      OperationState.broadcasting sent_found (inl refl) in_flight

abbrev settled : SettledOperation
settled = record { operation = sent_mint; attempt_id = 30; receipt = receipt }

final : is_terminal_operation_state OperationState.reverted ≡ true
unfolding is_terminal_operation_state includes_state state_eq
final = refl

settle_all_or_nothing_example :
    ((settle executor settled OperationState.reverted AttemptStatus.reverted no_patch sent_store).0
        ≡ ok tt
      → IsIn 1 OperationState.reverted
          (settle executor settled OperationState.reverted AttemptStatus.reverted no_patch
            sent_store).1)
    × ((e : Fault)
        → (settle executor settled OperationState.reverted AttemptStatus.reverted no_patch
            sent_store).0
          ≡ err e
        → (settle executor settled OperationState.reverted AttemptStatus.reverted no_patch
            sent_store).1
          ≡ sent_store)
settle_all_or_nothing_example =
    settle_all_or_nothing executor following settled OperationState.reverted AttemptStatus.reverted
      no_patch sent_store final

abbrev recovery : RecoveryDeps
recovery = record {
  executor = executor;
  get_transaction_receipt = λ hash. pure (some receipt);
  queue_add = λ id correlation. pure tt;
  stale_after_ms = 1000;
  actor = system_actor 51;
}

sweep_refines_lifecycle_example :
    Follows sent_store (sweep recovery sent_store).1
    × (IsPastSigning 1 sent_store → IsPastSigning 1 (sweep recovery sent_store).1)
sweep_refines_lifecycle_example =
    sweep_refines_lifecycle recovery
      (record {
        executor = following;
        get_transaction_receipt = λ hash. quiet _;
        queue_add = λ id correlation. quiet _;
      })
      sent_store 1

hashed : HashedBytes 1 store
unfolding find_row
hashed a e n = ground (arith, e, n)

recovery_ends_example :
    ((resolve_in_flight recovery recovery_fuel mint store).0 ≢ ok none)
    × ((abandon_unbroadcast recovery recovery_fuel mint store).0 ≢ ok none)
recovery_ends_example = recovery_ends recovery mint store hashed

-- ===== src/Tests/Replacing.antt =====
-- The replacement sweep on a transaction that is stuck, with a lane that stands still behind it, and
-- the chain writer under the hooks of the executor.
use institutional_tokenizati.Base.{none, ◌≡◌, ap, get_or, some}
use institutional_tokenizati.Domain.Roles.{system_actor}
use institutional_tokenizati.Db.{Operation, pure, stuck_no_inclusion}
use institutional_tokenizati.Executor.Lifecycle.{Follows}
use institutional_tokenizati.Executor.Outcomes.{IsPastSigning}
use institutional_tokenizati.Replacements.{ReplacementDeps, replacement_sweep}
use institutional_tokenizati.Replacements.Refinement.{replacement_refines_lifecycle}
use mathlib.Core.Path.{subst}
use institutional_tokenizati.Db.Within.{Within, Within-pure}
use institutional_tokenizati.Transactions.ChainWriter.{execute, resume_signature, replace_fees}
use institutional_tokenizati.Transactions.ChainWriter.Steady.{
  AllDurable, IsSteady, IsSteady-IsPreorder,
}
use institutional_tokenizati.Executor.Interface.{OperationHandler}
use institutional_tokenizati.Executor.Hooks.{operation_hooks, replacement_hooks}
use institutional_tokenizati.Executor.Durable.{SteadyHandlers, executor_sends_stored_bytes}
use institutional_tokenizati.Tests.Fixtures.{stuck, store}
use institutional_tokenizati.Tests.Sending.{write, higher, logged_ports, nothing_sent}
use institutional_tokenizati.Tests.Executing.{executor, handler, quiet, following, sent_store}

abbrev replacement : ReplacementDeps
replacement = record {
  executor = executor;
  get_transaction_receipt = λ hash. pure none;
  get_latest_count = λ address. pure 40;
  stuck_after_ms = 10;
  max_replacements = 3;
  fee_bump_percent = 12;
  actor = system_actor 52;
}

replacement_refines_lifecycle_example :
    Follows sent_store (replacement_sweep replacement sent_store).1
    × (IsPastSigning 1 sent_store → IsPastSigning 1 (replacement_sweep replacement sent_store).1)
replacement_refines_lifecycle_example =
    replacement_refines_lifecycle replacement
      (record {
        executor = following;
        get_transaction_receipt = λ hash. quiet _;
        get_latest_count = λ address. quiet _;
      })
      sent_store 1

steady : SteadyHandlers executor
steady = record {
  assert_still_executable =
      λ type h e. subst IsSteadyCheck (some_handler h e) (λ o. Within-pure IsSteady-IsPreorder _);
}
  where
    IsSteadyCheck : OperationHandler → Type 0
    IsSteadyCheck h = (o : Operation) → Within IsSteady (h.assert_still_executable o)

    some_handler : (h : OperationHandler) → some handler ≡ some h → handler ≡ h
    some_handler h e = ap (λ o. get_or o handler) e

executor_sends_stored_bytes_example :
    AllDurable (execute executor.writer write (operation_hooks executor 1) store).1.sent
    × AllDurable (resume_signature executor.writer (operation_hooks executor 1) stuck store).1.sent
    × AllDurable
        (replace_fees executor.writer
          (replacement_hooks executor 1)
          stuck
          higher
          stuck_no_inclusion
          store).1.sent
executor_sends_stored_bytes_example =
    executor_sends_stored_bytes executor steady logged_ports store 1 write stuck higher
      stuck_no_inclusion nothing_sent

-- ===== src/Recovery/Refinement.antt =====
-- src/modules/transactions/recovery-service.ts: the sweep refines the graph of transitions.
use institutional_tokenizati.Base.{
  ℕ, zero, suc, Bool, true, false, Option, none, some, List, [], ◌∷◌, Text,
}
use institutional_tokenizati.Domain.OperationState.{
  OperationState, pending_approval, ready, preparing, signing, signed, broadcasting,
  broadcast_unknown, submitted, included, cancelled,
}
use institutional_tokenizati.Db.{Store, Operation, Attempt, Action}
use institutional_tokenizati.Db.Within.{
  Within, Within-bind, Within-pure, Within-gets, Within-try_catch, within_rules,
}
use institutional_tokenizati.Repo.Operations.{find_operation_by_id, find_stale_operations}
use institutional_tokenizati.Repo.Attempts.{find_latest_attempt_for_operation}
use institutional_tokenizati.Repo.Signers.{find_signer_request_for_attempt}
use institutional_tokenizati.Transactions.Confirmation.{TransactionReceiptView}
use institutional_tokenizati.Executor.Lifecycle.{
  Follows, Follows-IsPreorder, Within-Follows, transition_operation-Follows,
}
use institutional_tokenizati.Executor.Unmoved.{unmoved_rules}
use institutional_tokenizati.Executor.Writing.{broadcast-Follows}
use institutional_tokenizati.Executor.Refinement.{
  observe_and_finalize-Follows, resume_pending_signature-Follows,
}
use institutional_tokenizati.Executor.Outcomes.{IsPastSigning, stays_past}
use institutional_tokenizati.Recovery.Defs.{
  RecoveryDeps, RecoveryResult, RecoverySummary, finalize_attempt, finalize, resume_attempt,
  resume_signing, abandon_locked, abandon_attempt,
}
use institutional_tokenizati.Recovery.InFlight.{
  rebroadcast_bytes, after_lookup, resolve_signed, abandon_or, resolve_or, abandon_unbroadcast,
  resolve_in_flight,
}
use institutional_tokenizati.Recovery.Sweep.{
  abandon_as_failed, resumed_or_abandon, resolve_as, finalize_as, recover_state, recover_one,
  sweep_each, sweep,
}
use institutional_tokenizati.Recovery.Moves.{
  FollowingRecovery, fail_abandoned-Follows, mark_rebroadcast-Follows, advance_to_submitted-Follows,
  rebroadcast_hooks-FollowingHooks,
}

module _ (deps : RecoveryDeps) (following : FollowingRecovery deps) where
  finalize_attempt-Follows :
      (o : Operation) (p : Option (Attempt × Text)) → Within Follows (finalize_attempt deps o p)
  unfolding finalize_attempt
  finalize_attempt-Follows o none = Within-pure Follows-IsPreorder _
  finalize_attempt-Follows o (some (a, hash)) =
      Within-bind Follows-IsPreorder _ _
        (observe_and_finalize-Follows deps.executor following.executor o.id a.id hash)
        (λ r. Within-pure Follows-IsPreorder _)

  finalize-Follows : (o : Operation) → Within Follows (finalize deps o)
  unfolding finalize find_latest_attempt_for_operation
  finalize-Follows o = search (within_rules, Follows-IsPreorder, finalize_attempt-Follows) depth 20

  resume_attempt-Follows :
      (o : Operation) (a : Option Attempt) → Within Follows (resume_attempt deps o a)
  unfolding resume_attempt find_signer_request_for_attempt
  resume_attempt-Follows o none = Within-pure Follows-IsPreorder none
  resume_attempt-Follows o (some a) =
      search
        (within_rules, Follows-IsPreorder, resume_pending_signature-Follows, following.executor)
        depth 20

  resume_signing-Follows : (o : Operation) → Within Follows (resume_signing deps o)
  unfolding resume_signing find_latest_attempt_for_operation
  resume_signing-Follows o =
      search (within_rules, Follows-IsPreorder, resume_attempt-Follows) depth 20

  abandon_locked-Follows :
      (o : Operation) (a : Option Attempt) (c : Option Operation)
      → Within Follows (abandon_locked deps o a c)
  unfolding abandon_locked
  abandon_locked-Follows o a none = Within-pure Follows-IsPreorder tt
  abandon_locked-Follows o a (some c) =
      search
        (
          within_rules, Follows-IsPreorder, Within-Follows, unmoved_rules,
          transition_operation-Follows, fail_abandoned-Follows,
        )
        depth 20

  abandon_attempt-Follows :
      (o : Operation) (a : Option Attempt) → Within Follows (abandon_attempt deps o a)
  unfolding abandon_attempt find_operation_by_id
  abandon_attempt-Follows o a =
      search (within_rules, Follows-IsPreorder, abandon_locked-Follows) depth 20

  rebroadcast_bytes-Follows :
      (o : Operation) (a : Attempt) (bytes hash : Text)
      → Within Follows (rebroadcast_bytes deps o a bytes hash)
  unfolding rebroadcast_bytes find_operation_by_id
  rebroadcast_bytes-Follows o a bytes hash =
      search
        (
          within_rules, Follows-IsPreorder, mark_rebroadcast-Follows, broadcast-Follows,
          following.executor.ports, rebroadcast_hooks-FollowingHooks,
        )
        depth 20

  after_lookup-Follows :
      (o : Operation) (a : Attempt) (bytes hash : Text) (r : Option TransactionReceiptView)
      → Within Follows (after_lookup deps o a bytes hash r)
  unfolding after_lookup
  after_lookup-Follows o a bytes hash none = rebroadcast_bytes-Follows o a bytes hash
  after_lookup-Follows o a bytes hash (some r) =
      search (within_rules, Follows-IsPreorder, advance_to_submitted-Follows, finalize-Follows)
        depth 20

  resolve_signed-Follows :
      (o : Operation) (a : Attempt) (bytes hash : Text)
      → Within Follows (resolve_signed deps o a bytes hash)
  unfolding resolve_signed
  resolve_signed-Follows o a bytes hash =
      search
        (within_rules, Follows-IsPreorder, following.get_transaction_receipt, after_lookup-Follows)
        depth 20

  abandon_or-Follows :
      (o : Operation) (a : Option Attempt) (b : Bool) (resolve : Action (Option RecoveryResult))
      → Within Follows resolve
      → Within Follows (abandon_or deps o a b resolve)
  unfolding abandon_or
  abandon_or-Follows o a true resolve h = search (within_rules, Follows-IsPreorder, h) depth 20
  abandon_or-Follows o a false resolve h =
      search (within_rules, Follows-IsPreorder, abandon_attempt-Follows) depth 20

  resolve_or-Follows :
      (o : Operation) (p : Option (Attempt × Text × Text)) (abandon : Action (Option Bool))
      → Within Follows abandon
      → Within Follows (resolve_or deps o p abandon)
  unfolding resolve_or
  resolve_or-Follows o none abandon h = search (within_rules, Follows-IsPreorder, h) depth 20
  resolve_or-Follows o (some (a, bytes, hash)) abandon h =
      search (within_rules, Follows-IsPreorder, resolve_signed-Follows) depth 20

  both_follow :
      (fuel : ℕ) (o : Operation)
      → Within Follows (abandon_unbroadcast deps fuel o)
        × Within Follows (resolve_in_flight deps fuel o)
  unfolding abandon_unbroadcast find_latest_attempt_for_operation
  both_follow zero o = (Within-pure Follows-IsPreorder none, Within-pure Follows-IsPreorder none)
  both_follow (suc fuel) o =
      let (abandon, resolve) = both_follow fuel o in
      (
        Within-bind Follows-IsPreorder _ _ (Within-gets Follows-IsPreorder _)
            (λ a. abandon_or-Follows o a _ _ resolve),
        Within-bind Follows-IsPreorder _ _ (Within-gets Follows-IsPreorder _)
            (λ a. resolve_or-Follows o _ _ abandon),
      )

  abandon_as_failed-Follows : (o : Operation) → Within Follows (abandon_as_failed deps o)
  unfolding abandon_as_failed
  abandon_as_failed-Follows o =
      Within-bind Follows-IsPreorder _ _ (both_follow _ o).0 (λ r. Within-pure Follows-IsPreorder _)

  resolve_as-Follows : (o : Operation) → Within Follows (resolve_as deps o)
  unfolding resolve_as
  resolve_as-Follows o =
      Within-bind Follows-IsPreorder _ _ (both_follow _ o).1 (λ r. Within-pure Follows-IsPreorder _)

  finalize_as-Follows : (o : Operation) → Within Follows (finalize_as deps o)
  unfolding finalize_as
  finalize_as-Follows o = search (within_rules, Follows-IsPreorder, finalize-Follows) depth 20

  resumed_or_abandon-Follows :
      (o : Operation) (r : Option RecoveryResult) → Within Follows (resumed_or_abandon deps o r)
  unfolding resumed_or_abandon
  resumed_or_abandon-Follows o none = abandon_as_failed-Follows o
  resumed_or_abandon-Follows o (some r) = Within-pure Follows-IsPreorder r

  recover_state-Follows :
      (o : Operation) (state : OperationState) → Within Follows (recover_state deps o state)
  unfolding recover_state
  recover_state-Follows o ready =
      search (within_rules, Follows-IsPreorder, following.queue_add) depth 20
  recover_state-Follows o signing =
      search (within_rules, Follows-IsPreorder, resume_signing-Follows, resumed_or_abandon-Follows)
        depth 20
  recover_state-Follows o preparing = abandon_as_failed-Follows o
  recover_state-Follows o signed = resolve_as-Follows o
  recover_state-Follows o broadcasting = resolve_as-Follows o
  recover_state-Follows o broadcast_unknown = resolve_as-Follows o
  recover_state-Follows o submitted = finalize_as-Follows o
  recover_state-Follows o included = finalize_as-Follows o
  recover_state-Follows o pending_approval = Within-pure Follows-IsPreorder _
  recover_state-Follows o OperationState.succeeded = Within-pure Follows-IsPreorder _
  recover_state-Follows o OperationState.reverted = Within-pure Follows-IsPreorder _
  recover_state-Follows o OperationState.failed = Within-pure Follows-IsPreorder _
  recover_state-Follows o cancelled = Within-pure Follows-IsPreorder _

  sweep_each-Follows :
      (os : List Operation) (c : RecoverySummary) → Within Follows (sweep_each deps os c)
  unfolding sweep_each recover_one
  sweep_each-Follows [] c = Within-pure Follows-IsPreorder c
  sweep_each-Follows (o ∷ os) c =
      Within-bind Follows-IsPreorder _ _
        (Within-try_catch Follows-IsPreorder _ _ (recover_state-Follows o o.state)
          (λ e. Within-pure Follows-IsPreorder _))
        (λ r. sweep_each-Follows os _)

  sweep-Follows : Within Follows (sweep deps)
  unfolding sweep find_stale_operations
  sweep-Follows = search (within_rules, Follows-IsPreorder, sweep_each-Follows) depth 20

  -- Whatever the chain, the signer and the queue answer or throw: a recovery sweep leaves every
  -- operation in place, with the same instruction, in a state that the table of transitions leads to
  -- from its old one, and so also an operation past its signature never gets back before it. The
  -- handlers and the other workers are to do so too.
  pub sweep_refines_lifecycle :
      (s : Store) (id : ℕ)
      → Follows s (sweep deps s).1 × (IsPastSigning id s → IsPastSigning id (sweep deps s).1)
  sweep_refines_lifecycle s id = let f = sweep-Follows.at s in (f, λ h. stays_past id s _ h f)

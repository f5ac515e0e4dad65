-- ===== src/Recovery/Moves.antt =====
-- src/modules/transactions/recovery-service.ts: the moves of single steps of the sweep.
use institutional_tokenizati.Base.{ℕ, Option, none, some, Text}
use institutional_tokenizati.Domain.OperationState.{OperationState}
use institutional_tokenizati.Db.{Operation, Attempt}
use institutional_tokenizati.Db.Within.{Within, Within-pure, within_rules}
use institutional_tokenizati.Repo.Operations.{find_operation_by_id}
use institutional_tokenizati.Executor.Lifecycle.{
  Follows, Follows-IsPreorder, Within-Follows, transition_operation-Follows,
}
use institutional_tokenizati.Executor.Unmoved.{unmoved_rules}
use institutional_tokenizati.Executor.Writing.{FollowingHooks}
use institutional_tokenizati.Executor.Moves.{FollowingDeps, move_from-Follows}
use institutional_tokenizati.Recovery.Defs.{RecoveryDeps, fail_abandoned}
use institutional_tokenizati.Recovery.InFlight.{
  move_locked, move_if, rebroadcast_hooks, mark_rebroadcast, submit_locked, advance_to_submitted,
}

pub fail_abandoned-Follows : (a : Option Attempt) → Within Follows (fail_abandoned a)
unfolding fail_abandoned
fail_abandoned-Follows none = Within-pure Follows-IsPreorder tt
fail_abandoned-Follows (some a) = search (Within-Follows, unmoved_rules) depth 20

move_locked-Follows :
    (from to : OperationState) (o : Option Operation) → Within Follows (move_locked from to o)
unfolding move_locked
move_locked-Follows from to none = Within-pure Follows-IsPreorder tt
move_locked-Follows from to (some o) = move_from-Follows from to o

move_if-Follows : (id : ℕ) (from to : OperationState) → Within Follows (move_if id from to)
unfolding move_if find_operation_by_id
move_if-Follows id from to = search (within_rules, Follows-IsPreorder, move_locked-Follows) depth 20

pub rebroadcast_hooks-FollowingHooks : (id : ℕ) → FollowingHooks (rebroadcast_hooks id)
unfolding rebroadcast_hooks
rebroadcast_hooks-FollowingHooks id = record {
  on_prepared = λ a. Within-pure Follows-IsPreorder tt;
  on_signed = λ a. Within-pure Follows-IsPreorder tt;
  assert_broadcast_allowed = Within-pure Follows-IsPreorder tt;
  on_broadcasting = λ a. Within-pure Follows-IsPreorder tt;
  on_submitted = λ a h. move_if-Follows id _ _;
  on_broadcast_unknown = λ a. move_if-Follows id _ _;
  on_failed = λ a c. Within-pure Follows-IsPreorder tt;
}

pub mark_rebroadcast-Follows :
    (a : Attempt) (o : Option Operation) → Within Follows (mark_rebroadcast a o)
unfolding mark_rebroadcast
mark_rebroadcast-Follows a none = Within-pure Follows-IsPreorder tt
mark_rebroadcast-Follows a (some o) =
    search
      (
        within_rules, Follows-IsPreorder, Within-Follows, unmoved_rules,
        transition_operation-Follows,
      )
      depth 20

submit_locked-Follows : (o : Option Operation) → Within Follows (submit_locked o)
unfolding submit_locked
submit_locked-Follows none = Within-pure Follows-IsPreorder tt
submit_locked-Follows (some o) =
    search (within_rules, Follows-IsPreorder, transition_operation-Follows) depth 20

pub advance_to_submitted-Follows : (o : Operation) → Within Follows (advance_to_submitted o)
unfolding advance_to_submitted find_operation_by_id
advance_to_submitted-Follows o =
    search (within_rules, Follows-IsPreorder, submit_locked-Follows) depth 20

-- What the sweep is given moves operations along the graph only.
pub record FollowingRecovery (deps : RecoveryDeps) : Type 0 where
  pub executor : FollowingDeps deps.executor
  pub get_transaction_receipt : (hash : Text) → Within Follows (deps.get_transaction_receipt hash)
  pub queue_add : (id correlation : ℕ) → Within Follows (deps.queue_add id correlation)

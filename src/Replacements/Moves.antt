-- ===== src/Replacements/Moves.antt =====
-- src/modules/transactions/replacement-service.ts: the moves of single steps of the sweep.
use institutional_tokenizati.Base.{ℕ, Bool, true, false, Option, none, some, Text}
use institutional_tokenizati.Db.{Attempt}
use institutional_tokenizati.Db.Within.{Within, Within-pure, within_rules}
use institutional_tokenizati.Repo.Operations.{find_operation_by_id}
use institutional_tokenizati.Repo.Attempts.{find_attempt_by_id}
use institutional_tokenizati.Transactions.Confirmation.{ConfirmationOutcome, TransactionReceiptView}
use institutional_tokenizati.Executor.Lifecycle.{Follows, Follows-IsPreorder, Within-Follows}
use institutional_tokenizati.Executor.Unmoved.{unmoved_rules}
use institutional_tokenizati.Executor.Writing.{FollowingHooks}
use institutional_tokenizati.Executor.Moves.{FollowingDeps}
use institutional_tokenizati.Replacements.Stuck.{ReplacementDeps, may_replace, empty_hooks}
use institutional_tokenizati.Replacements.Lane.{confirm_attempt, confirm_receipt, confirm_outcome}

-- What the sweep is given moves operations along the graph only.
pub record FollowingReplacement (deps : ReplacementDeps) : Type 0 where
  pub executor : FollowingDeps deps.executor
  pub get_transaction_receipt : (hash : Text) → Within Follows (deps.get_transaction_receipt hash)
  pub get_latest_count : (address : Text) → Within Follows (deps.get_latest_count address)

pub empty_hooks-FollowingHooks : FollowingHooks empty_hooks
empty_hooks-FollowingHooks = record {
  on_prepared = λ a. Within-pure Follows-IsPreorder _;
  on_signed = λ a. Within-pure Follows-IsPreorder _;
  assert_broadcast_allowed = Within-pure Follows-IsPreorder _;
  on_broadcasting = λ a. Within-pure Follows-IsPreorder _;
  on_submitted = λ a h. Within-pure Follows-IsPreorder _;
  on_broadcast_unknown = λ a. Within-pure Follows-IsPreorder _;
  on_failed = λ a c. Within-pure Follows-IsPreorder _;
}

pub may_replace-Follows : (id : Option ℕ) → Within Follows (may_replace id)
unfolding may_replace find_operation_by_id
may_replace-Follows none = Within-pure Follows-IsPreorder _
may_replace-Follows (some id) = search (within_rules, Follows-IsPreorder) depth 20

confirm_attempt-Follows :
    (view : TransactionReceiptView) (final : Bool) (a : Option Attempt)
    → Within Follows (confirm_attempt view final a)
unfolding confirm_attempt
confirm_attempt-Follows view final none = Within-pure Follows-IsPreorder _
confirm_attempt-Follows view final (some a) =
    search (within_rules, Follows-IsPreorder, Within-Follows, unmoved_rules) depth 20

confirm_receipt-Follows :
    (id : ℕ) (view : TransactionReceiptView) (final : Bool)
    → Within Follows (confirm_receipt id view final)
unfolding confirm_receipt find_attempt_by_id
confirm_receipt-Follows id view final =
    search (within_rules, Follows-IsPreorder, confirm_attempt-Follows) depth 20

pub confirm_outcome-Follows :
    (id : ℕ) (out : ConfirmationOutcome) → Within Follows (confirm_outcome id out)
unfolding confirm_outcome
confirm_outcome-Follows id ConfirmationOutcome.pending = Within-pure Follows-IsPreorder _
confirm_outcome-Follows id (ConfirmationOutcome.orphaned v) = Within-pure Follows-IsPreorder _
confirm_outcome-Follows id (ConfirmationOutcome.included v) = confirm_receipt-Follows id v false
confirm_outcome-Follows id (ConfirmationOutcome.reverted v) = confirm_receipt-Follows id v false
confirm_outcome-Follows id (ConfirmationOutcome.finalized v) = confirm_receipt-Follows id v true

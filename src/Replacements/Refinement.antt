-- ===== src/Replacements/Refinement.antt =====
-- src/modules/transactions/replacement-service.ts: the sweep refines the graph of transitions.
use institutional_tokenizati.Base.{ℕ, Option, none, some, List, [], ◌∷◌, Text}
use institutional_tokenizati.Db.{Store, Attempt}
use institutional_tokenizati.Db.Within.{Within, Within-bind, Within-pure, Within-gets, within_rules}
use institutional_tokenizati.Repo.Attempts.{find_live_attempt_at_nonce, find_stuck_attempts}
use institutional_tokenizati.Repo.Nonces.{read_reserved_nonce}
use institutional_tokenizati.Transactions.Intent.{FeeEstimate}
use institutional_tokenizati.Transactions.ChainWriter.{ChainWriteOutcome}
use institutional_tokenizati.Executor.Lifecycle.{Follows, Follows-IsPreorder, Within-Follows}
use institutional_tokenizati.Executor.Unmoved.{unmoved_rules}
use institutional_tokenizati.Executor.Writing.{
  FollowingHooks, broadcast-Follows, resume_signature-Follows, replace_fees-Follows,
  cancel_nonce-Follows,
}
use institutional_tokenizati.Executor.Moves.{replacement_hooks-FollowingHooks}
use institutional_tokenizati.Executor.Refinement.{observe_and_finalize-Follows}
use institutional_tokenizati.Executor.Outcomes.{IsPastSigning, stays_past}
use institutional_tokenizati.Replacements.Stuck.{
  ReplacementDeps, empty_hooks, hooks_for, bumped_fees, observe_replacement, after_replacement,
  try_replace, replace_unmined, replace_one, replace_each, replace_stuck_transactions,
}
use institutional_tokenizati.Replacements.Lane.{
  confirm_recovery, confirm_if_submitted, resume_or_send, resume_recovery, try_cancel, after_cancel,
  cancel_blocking, recover_blocking, recover_reserved, recover_blocked_lane, replacement_sweep,
}
use institutional_tokenizati.Replacements.Moves.{
  FollowingReplacement, empty_hooks-FollowingHooks, may_replace-Follows, confirm_outcome-Follows,
}

module _ (deps : ReplacementDeps) (following : FollowingReplacement deps) where
  hooks_for-FollowingHooks : (id : Option ℕ) → FollowingHooks (hooks_for deps id)
  unfolding hooks_for
  hooks_for-FollowingHooks none = empty_hooks-FollowingHooks
  hooks_for-FollowingHooks (some id) =
      replacement_hooks-FollowingHooks deps.executor following.executor id

  bumped_fees-Follows : (a : Attempt) → Within Follows (bumped_fees deps a)
  unfolding bumped_fees
  bumped_fees-Follows a =
      search (within_rules, Follows-IsPreorder, following.executor.ports.get_fee_estimate) depth 20

  observe_replacement-Follows :
      (part : Option (ℕ × Text)) (id : Option ℕ) → Within Follows (observe_replacement deps part id)
  unfolding observe_replacement
  observe_replacement-Follows none id = Within-pure Follows-IsPreorder _
  observe_replacement-Follows (some part) none = Within-pure Follows-IsPreorder _
  observe_replacement-Follows (some (a, hash)) (some id) =
      Within-bind Follows-IsPreorder _ _
        (observe_and_finalize-Follows deps.executor following.executor id a hash)
        (λ r. Within-pure Follows-IsPreorder _)

  after_replacement-Follows :
      (a : Attempt) (out : Option ChainWriteOutcome) → Within Follows (after_replacement deps a out)
  unfolding after_replacement
  after_replacement-Follows a none = Within-pure Follows-IsPreorder _
  after_replacement-Follows a (some out) =
      search
        (
          within_rules, Follows-IsPreorder, Within-Follows, unmoved_rules,
          observe_replacement-Follows,
        )
        depth 20

  try_replace-Follows :
      (a : Attempt) (fees : FeeEstimate) → Within Follows (try_replace deps a fees)
  unfolding try_replace
  try_replace-Follows a fees =
      search
        (
          within_rules, Follows-IsPreorder, replace_fees-Follows, following.executor.ports,
          hooks_for-FollowingHooks,
        )
        depth 20

  replace_unmined-Follows : (a : Attempt) → Within Follows (replace_unmined deps a)
  unfolding replace_unmined
  replace_unmined-Follows a =
      search
        (
          within_rules, Follows-IsPreorder, may_replace-Follows, bumped_fees-Follows,
          try_replace-Follows, after_replacement-Follows,
        )
        depth 20

  replace_one-Follows :
      (a : Attempt) (hash : Option Text) → Within Follows (replace_one deps a hash)
  unfolding replace_one
  replace_one-Follows a none = Within-pure Follows-IsPreorder _
  replace_one-Follows a (some hash) =
      search
        (
          within_rules, Follows-IsPreorder, following.get_transaction_receipt,
          replace_unmined-Follows,
        )
        depth 20

  replace_each-Follows : (xs : List Attempt) → Within Follows (replace_each deps xs)
  unfolding replace_each
  replace_each-Follows [] = Within-pure Follows-IsPreorder _
  replace_each-Follows (a ∷ xs) = Within-bind Follows-IsPreorder _ _ (replace_one-Follows a _) (λ r.
      Within-bind Follows-IsPreorder _ _ (replace_each-Follows xs)
        (λ n. Within-pure Follows-IsPreorder _))

  confirm_recovery-Follows : (id : ℕ) (hash : Text) → Within Follows (confirm_recovery deps id hash)
  unfolding confirm_recovery
  confirm_recovery-Follows id hash =
      search (within_rules, Follows-IsPreorder, following.executor.watch, confirm_outcome-Follows)
        depth 20

  confirm_if_submitted-Follows :
      (part : Option (ℕ × Text)) → Within Follows (confirm_if_submitted deps part)
  unfolding confirm_if_submitted
  confirm_if_submitted-Follows none = Within-pure Follows-IsPreorder _
  confirm_if_submitted-Follows (some (a, hash)) =
      search (within_rules, Follows-IsPreorder, confirm_recovery-Follows) depth 20

  resume_or_send-Follows :
      (a : Attempt) (bytes : Option Text) → Within Follows (resume_or_send deps a bytes)
  unfolding resume_or_send
  resume_or_send-Follows a none =
      resume_signature-Follows deps.executor.writer empty_hooks following.executor.ports
        empty_hooks-FollowingHooks a
  resume_or_send-Follows a (some bytes) =
      broadcast-Follows deps.executor.writer empty_hooks following.executor.ports
        empty_hooks-FollowingHooks a bytes _

  resume_recovery-Follows : (a : Attempt) → Within Follows (resume_recovery deps a)
  unfolding resume_recovery
  resume_recovery-Follows a =
      search
        (within_rules, Follows-IsPreorder, resume_or_send-Follows, confirm_if_submitted-Follows)
        depth 20

  try_cancel-Follows : (a : Attempt) (fees : FeeEstimate) → Within Follows (try_cancel deps a fees)
  unfolding try_cancel
  try_cancel-Follows a fees =
      search
        (
          within_rules, Follows-IsPreorder, cancel_nonce-Follows, following.executor.ports,
          empty_hooks-FollowingHooks,
        )
        depth 20

  after_cancel-Follows :
      (a : Attempt) (out : Option ChainWriteOutcome) → Within Follows (after_cancel deps a out)
  unfolding after_cancel
  after_cancel-Follows a none = Within-pure Follows-IsPreorder _
  after_cancel-Follows a (some out) =
      search
        (
          within_rules, Follows-IsPreorder, Within-Follows, unmoved_rules,
          confirm_if_submitted-Follows,
        )
        depth 20

  cancel_blocking-Follows : (a : Attempt) → Within Follows (cancel_blocking deps a)
  unfolding cancel_blocking
  cancel_blocking-Follows a =
      search
        (
          within_rules, Follows-IsPreorder, bumped_fees-Follows, try_cancel-Follows,
          after_cancel-Follows,
        )
        depth 20

  recover_blocking-Follows : (a : Option Attempt) → Within Follows (recover_blocking deps a)
  unfolding recover_blocking
  recover_blocking-Follows none = Within-pure Follows-IsPreorder _
  recover_blocking-Follows (some a) =
      search (within_rules, Follows-IsPreorder, resume_recovery-Follows, cancel_blocking-Follows)
        depth 20

  recover_reserved-Follows :
      (address : Text) (reserved : Option ℕ)
      → Within Follows (recover_reserved deps address reserved)
  unfolding recover_reserved find_live_attempt_at_nonce
  recover_reserved-Follows address none = Within-pure Follows-IsPreorder _
  recover_reserved-Follows address (some n) =
      search
        (within_rules, Follows-IsPreorder, following.get_latest_count, recover_blocking-Follows)
        depth 20

  replace_stuck_transactions-Follows : Within Follows (replace_stuck_transactions deps)
  unfolding replace_stuck_transactions find_stuck_attempts
  replace_stuck_transactions-Follows =
      search (within_rules, Follows-IsPreorder, replace_each-Follows) depth 20

  recover_blocked_lane-Follows : Within Follows (recover_blocked_lane deps)
  unfolding recover_blocked_lane read_reserved_nonce
  recover_blocked_lane-Follows =
      Within-bind Follows-IsPreorder _ _ following.executor.ports.get_signer_address (λ address.
        Within-bind Follows-IsPreorder _ _ (Within-gets Follows-IsPreorder _)
          (λ reserved. recover_reserved-Follows address reserved))

  replacement_sweep-Follows : Within Follows (replacement_sweep deps)
  unfolding replacement_sweep
  replacement_sweep-Follows =
      search
        (
          within_rules, Follows-IsPreorder, replace_stuck_transactions-Follows,
          recover_blocked_lane-Follows,
        )
        depth 20

  -- Whatever the chain and the signer answer or throw: a sweep that replaces stuck transactions and
  -- recovers a blocked lane leaves every operation in place, with the same instruction, in a state
  -- that the table of transitions leads to from its old one, and so an operation past its signature
  -- never gets back before it. The handlers and the other workers are to do so too.
  pub replacement_refines_lifecycle :
      (s : Store) (id : ℕ)
      → Follows s (replacement_sweep deps s).1
        × (IsPastSigning id s → IsPastSigning id (replacement_sweep deps s).1)
  replacement_refines_lifecycle s id =
      let f = replacement_sweep-Follows.at s in (f, λ h. stays_past id s _ h f)

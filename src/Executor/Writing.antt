-- ===== src/Executor/Writing.antt =====
-- src/modules/transactions/chain-writer.ts: every write of the writer moves operations only as its
-- hooks and its ports do.
use institutional_tokenizati.Base.{ℕ, Option, none, some, Text}
use institutional_tokenizati.Db.{Attempt, SignerRequest, FailureCode, ReplacementReason}
use institutional_tokenizati.Db.Within.{
  Within, Within-bind, Within-pure, Within-or_throw, Within-try_catch, within_rules,
}
use institutional_tokenizati.Repo.Attempts.{find_attempt_by_id}
use institutional_tokenizati.Repo.Signers.{find_signer_request_for_attempt}
use institutional_tokenizati.Transactions.Intent.{FeeEstimate, TransactionIntent}
use institutional_tokenizati.Transactions.Verifier.{
  UnsignedTransactionRequest, Verification, verified, mismatch,
}
use institutional_tokenizati.Transactions.ChainWriter.{
  Deps, Ports, ChainWriteHooks, ChainWriteIntent, EncodedCall, SignerReply, still_pending,
  has_signed, has_rejected, NodeReply, accepted, errored, BroadcastErrorClass, already_known,
  deterministic_rejection, ambiguous, fail_attempt, mark_submitted, on_broadcast_error, after_send,
  send, broadcast, store_signature, refusal_to_broadcast, commit_broadcasting, release_signed,
  settle_verified, settle_signature, ask_signer, resume_outstanding, resume_signature, prepare,
  execute, supersede, sign_replacement, replace_fees, cancel_nonce,
}
use institutional_tokenizati.Executor.Lifecycle.{Follows, Follows-IsPreorder, Within-Follows}
use institutional_tokenizati.Executor.Unmoved.{unmoved_rules}

-- The hooks move operations along the graph only.
pub record FollowingHooks (hooks : ChainWriteHooks) : Type 0 where
  pub on_prepared : (a : Attempt) → Within Follows (hooks.on_prepared a)
  pub on_signed : (a : Attempt) → Within Follows (hooks.on_signed a)
  pub assert_broadcast_allowed : Within Follows hooks.assert_broadcast_allowed
  pub on_broadcasting : (a : Attempt) → Within Follows (hooks.on_broadcasting a)
  pub on_submitted : (a : Attempt) (h : Text) → Within Follows (hooks.on_submitted a h)
  pub on_broadcast_unknown : (a : Attempt) → Within Follows (hooks.on_broadcast_unknown a)
  pub on_failed : (a : Attempt) (c : FailureCode) → Within Follows (hooks.on_failed a c)

-- While a call of the gateway or the signer runs, other workers do so too.
pub record FollowingPorts (ports : Ports) : Type 0 where
  pub get_signer_address : Within Follows ports.get_signer_address
  pub get_chain_identity : Within Follows ports.get_chain_identity
  pub simulate : (a : Text) (c : EncodedCall) → Within Follows (ports.simulate a c)
  pub get_fee_estimate : Within Follows ports.get_fee_estimate
  pub get_transaction_count : (a : Text) → Within Follows (ports.get_transaction_count a)
  pub request_signature :
      (r : UnsignedTransactionRequest) → Within Follows (ports.request_signature r)
  pub fetch_signature : (id : ℕ) → Within Follows (ports.fetch_signature id)
  pub broadcast_raw_transaction : (b : Text) → Within Follows (ports.broadcast_raw_transaction b)

module _ (deps : Deps) (hooks : ChainWriteHooks) (ports : FollowingPorts deps.ports)
    (following : FollowingHooks hooks) where
  fail_attempt-Follows :
      (attempt : Attempt) (code : FailureCode) → Within Follows (fail_attempt hooks attempt code)
  unfolding fail_attempt
  fail_attempt-Follows attempt code =
      search (within_rules, Follows-IsPreorder, Within-Follows, unmoved_rules, following.on_failed)
        depth 20

  mark_submitted-Follows :
      (attempt : Attempt) (hash : Text) → Within Follows (mark_submitted hooks attempt hash)
  unfolding mark_submitted
  mark_submitted-Follows attempt hash =
      search
        (within_rules, Follows-IsPreorder, Within-Follows, unmoved_rules, following.on_submitted)
        depth 20

  on_broadcast_error-Follows :
      (attempt : Attempt) (hash : Text) (class : BroadcastErrorClass)
      → Within Follows (on_broadcast_error hooks attempt hash class)
  unfolding on_broadcast_error
  on_broadcast_error-Follows attempt hash already_known = mark_submitted-Follows attempt hash
  on_broadcast_error-Follows attempt hash deterministic_rejection =
      search (within_rules, Follows-IsPreorder, fail_attempt-Follows) depth 20
  on_broadcast_error-Follows attempt hash ambiguous =
      search
        (
          within_rules, Follows-IsPreorder, Within-Follows, unmoved_rules,
          following.on_broadcast_unknown,
        )
        depth 20

  after_send-Follows :
      (attempt : Attempt) (hash : Text) (reply : NodeReply)
      → Within Follows (after_send hooks attempt hash reply)
  unfolding after_send
  after_send-Follows attempt hash accepted = mark_submitted-Follows attempt hash
  after_send-Follows attempt hash (errored m) = on_broadcast_error-Follows attempt hash _

  pub broadcast-Follows :
      (attempt : Attempt) (bytes hash : Text)
      → Within Follows (broadcast deps hooks attempt bytes hash)
  unfolding broadcast send find_attempt_by_id
  broadcast-Follows attempt bytes hash =
      search
        (
          within_rules, Follows-IsPreorder, Within-Follows, unmoved_rules,
          ports.broadcast_raw_transaction, after_send-Follows,
        )
        depth 20

  store_signature-Follows :
      (attempt : Attempt) (id : ℕ) (bytes hash : Text)
      → Within Follows (store_signature hooks attempt id bytes hash)
  unfolding store_signature
  store_signature-Follows attempt id bytes hash =
      search (within_rules, Follows-IsPreorder, Within-Follows, unmoved_rules, following.on_signed)
        depth 20

  refusal_to_broadcast-Follows : Within Follows (refusal_to_broadcast hooks)
  unfolding refusal_to_broadcast
  refusal_to_broadcast-Follows =
      Within-try_catch Follows-IsPreorder _ _
        (Within-bind Follows-IsPreorder _ _ following.assert_broadcast_allowed
          (λ _. Within-pure Follows-IsPreorder none))
        (λ e. Within-pure Follows-IsPreorder _)

  commit_broadcasting-Follows :
      (attempt : Attempt) → Within Follows (commit_broadcasting hooks attempt)
  unfolding commit_broadcasting
  commit_broadcasting-Follows attempt =
      search
        (within_rules, Follows-IsPreorder, Within-Follows, unmoved_rules, following.on_broadcasting)
        depth 20

  release_signed-Follows :
      (attempt : Attempt) (bytes hash : Text) (refusal : Option FailureCode)
      → Within Follows (release_signed deps hooks attempt bytes hash refusal)
  unfolding release_signed
  release_signed-Follows attempt bytes hash (some code) =
      search (within_rules, Follows-IsPreorder, fail_attempt-Follows) depth 20
  release_signed-Follows attempt bytes hash none =
      search (within_rules, Follows-IsPreorder, commit_broadcasting-Follows, broadcast-Follows)
        depth 20

  settle_verified-Follows :
      (attempt : Attempt) (id : ℕ) (bytes : Text) (v : Verification)
      → Within Follows (settle_verified deps hooks attempt id bytes v)
  unfolding settle_verified
  settle_verified-Follows attempt id bytes (mismatch refusal) =
      search (within_rules, Follows-IsPreorder, fail_attempt-Follows) depth 20
  settle_verified-Follows attempt id bytes (verified hash signer) =
      search
        (
          within_rules, Follows-IsPreorder, store_signature-Follows, refusal_to_broadcast-Follows,
          release_signed-Follows,
        )
        depth 20

  settle_signature-Follows :
      (attempt : Attempt) (request : UnsignedTransactionRequest) (id provider : ℕ)
      (reply : SignerReply)
      → Within Follows (settle_signature deps hooks attempt request id provider reply)
  unfolding settle_signature
  settle_signature-Follows attempt request id provider (still_pending _) =
      Within-pure Follows-IsPreorder _
  settle_signature-Follows attempt request id provider (has_rejected _ code) =
      search (within_rules, Follows-IsPreorder, Within-Follows, unmoved_rules, fail_attempt-Follows)
        depth 20
  settle_signature-Follows attempt request id provider (has_signed _ bytes hash) =
      settle_verified-Follows attempt id bytes _

  ask_signer-Follows :
      (attempt : Attempt) (operation_id : Option ℕ) (request : UnsignedTransactionRequest)
      → Within Follows (ask_signer deps hooks attempt operation_id request)
  unfolding ask_signer
  ask_signer-Follows attempt operation_id request =
      search
        (
          within_rules, Follows-IsPreorder, Within-Follows, unmoved_rules, ports.request_signature,
          settle_signature-Follows,
        )
        depth 20

  resume_outstanding-Follows :
      (attempt : Attempt) (o : Option SignerRequest)
      → Within Follows (resume_outstanding deps hooks attempt o)
  unfolding resume_outstanding
  resume_outstanding-Follows attempt none = Within-pure Follows-IsPreorder _
  resume_outstanding-Follows attempt (some r) =
      search
        (
          within_rules, Follows-IsPreorder, Within-Follows, unmoved_rules, fail_attempt-Follows,
          ports.fetch_signature, settle_signature-Follows,
        )
        depth 20

  pub resume_signature-Follows :
      (attempt : Attempt) → Within Follows (resume_signature deps hooks attempt)
  unfolding resume_signature find_signer_request_for_attempt
  resume_signature-Follows attempt =
      search (within_rules, Follows-IsPreorder, resume_outstanding-Follows) depth 20

  prepare-Follows :
      (signer : Text) (intent : ChainWriteIntent) (count gas : ℕ) (fees : FeeEstimate)
      → Within Follows (prepare deps hooks signer intent count gas fees)
  unfolding prepare
  prepare-Follows signer intent count gas fees =
      search
        (within_rules, Follows-IsPreorder, Within-Follows, unmoved_rules, following.on_prepared)
        depth 20

  pub execute-Follows : (intent : ChainWriteIntent) → Within Follows (execute deps intent hooks)
  unfolding execute
  execute-Follows intent = Within-bind Follows-IsPreorder _ _ ports.get_signer_address (λ signer.
      Within-bind Follows-IsPreorder _ _ ports.get_chain_identity (λ _.
        Within-bind Follows-IsPreorder _ _ (ports.simulate signer intent.call) (λ simulation.
          Within-bind Follows-IsPreorder _ _ (Within-or_throw Follows-IsPreorder simulation _)
            (λ estimate. Within-bind Follows-IsPreorder _ _ ports.get_fee_estimate (λ fees.
              search
                (
                  within_rules, Follows-IsPreorder, ports.get_transaction_count, prepare-Follows,
                  ask_signer-Follows,
                )
                depth 20)))))

  sign_replacement-Follows :
      (previous : Attempt) (candidate : TransactionIntent) (print : Text) (gas : ℕ)
      (fees : FeeEstimate) (reason : ReplacementReason)
      → Within Follows (sign_replacement deps hooks previous candidate print gas fees reason)
  unfolding sign_replacement supersede
  sign_replacement-Follows previous candidate print gas fees reason =
      search
        (
          within_rules, Follows-IsPreorder, Within-Follows, unmoved_rules, following.on_prepared,
          ask_signer-Follows,
        )
        depth 30

  pub replace_fees-Follows :
      (previous : Attempt) (fees : FeeEstimate) (reason : ReplacementReason)
      → Within Follows (replace_fees deps hooks previous fees reason)
  unfolding replace_fees
  replace_fees-Follows previous fees reason =
      search (within_rules, Follows-IsPreorder, sign_replacement-Follows) depth 20

  pub cancel_nonce-Follows :
      (blocked : Attempt) (fees : FeeEstimate) (reason : ReplacementReason)
      → Within Follows (cancel_nonce deps hooks blocked fees reason)
  unfolding cancel_nonce
  cancel_nonce-Follows blocked fees reason =
      Within-bind Follows-IsPreorder _ _ ports.get_signer_address
        (λ signer. search (within_rules, Follows-IsPreorder, sign_replacement-Follows) depth 20)

-- ===== src/Transactions/ChainWriter/Durability.antt =====
-- src/modules/transactions/chain-writer.ts: every write of the writer, from the first call to the
-- last, hands the node durable bytes only.
use institutional_tokenizati.Base.{ℕ, Option, none, some, Text}
use institutional_tokenizati.Db.{Store, Attempt, SignerRequest, FailureCode, ReplacementReason}
use institutional_tokenizati.Db.Within.{
  Within, Within-bind, Within-pure, Within-or_throw, within_rules,
}
use institutional_tokenizati.Repo.Signers.{find_signer_request_for_attempt}
use institutional_tokenizati.Transactions.Intent.{FeeEstimate, TransactionIntent}
use institutional_tokenizati.Transactions.Verifier.{
  UnsignedTransactionRequest, Verification, verified, mismatch,
}
use institutional_tokenizati.Transactions.ChainWriter.Interface.{
  Deps, ChainWriteHooks, ChainWriteIntent, SignerReply, still_pending, has_signed, has_rejected,
}
use institutional_tokenizati.Transactions.ChainWriter.Sending.{fail_attempt}
use institutional_tokenizati.Transactions.ChainWriter.Signature.{
  settle_verified, settle_signature, refusal_to_broadcast, release_signed, ask_signer,
  resume_outstanding, resume_signature,
}
use institutional_tokenizati.Transactions.ChainWriter.Writes.{
  prepare, execute, supersede, sign_replacement, replace_fees, cancel_nonce,
}
use institutional_tokenizati.Transactions.ChainWriter.Steady.{
  Logged, AllDurable, Logged-IsPreorder, Within-Logged,
}
use institutional_tokenizati.Transactions.ChainWriter.Sends.{
  SteadyHooks, LoggedPorts, fail_attempt-IsSteady, refusal_to_broadcast-IsSteady, then_logs,
  release_logs,
}
use institutional_tokenizati.Transactions.ChainWriter.Persisting.{store_signature_then}
use institutional_tokenizati.Transactions.ChainWriter.Logs.{
  mark_signer_request_rejected-Logged, record_signer_request-Logged,
  expire_lapsed_signer_request-Logged, reserve_nonce-Logged, insert_prepared_attempt-Logged,
  retire_attempt_for_replacement-Logged, link_attempt_replacement-Logged,
}

module _ (deps : Deps) (hooks : ChainWriteHooks) (ports : LoggedPorts deps.ports)
    (steady : SteadyHooks hooks) where
  failing-Logged :
      (attempt : Attempt) (code : FailureCode) → Within Logged (fail_attempt hooks attempt code)
  failing-Logged attempt code =
      Within-Logged _ (fail_attempt-IsSteady deps hooks ports steady attempt code)

  settle_verified-Logged :
      (attempt : Attempt) (signer_request_id : ℕ) (bytes : Text) (v : Verification)
      → Within Logged (settle_verified deps hooks attempt signer_request_id bytes v)
  unfolding settle_verified
  settle_verified-Logged attempt signer_request_id bytes (mismatch refusal) =
      search (within_rules, Logged-IsPreorder, failing-Logged) depth 20
  settle_verified-Logged attempt signer_request_id bytes (verified hash signer) = record {
    at = λ s.
        store_signature_then hooks steady attempt signer_request_id bytes hash _ s (λ t stored.
          then_logs deps hooks ports steady attempt.id bytes (refusal_to_broadcast hooks)
            (release_signed deps hooks attempt bytes hash) t
            (refusal_to_broadcast-IsSteady deps hooks ports steady) stored
            (λ refusal u kept.
              release_logs deps hooks ports steady attempt bytes hash refusal u kept));
  }

  settle_signature-Logged :
      (attempt : Attempt) (request : UnsignedTransactionRequest)
      (signer_request_id provider_request_id : ℕ) (reply : SignerReply)
      → Within Logged
          (settle_signature deps hooks attempt request signer_request_id provider_request_id reply)
  unfolding settle_signature
  settle_signature-Logged attempt request signer_request_id provider_request_id (still_pending id) =
      Within-pure Logged-IsPreorder _
  settle_signature-Logged attempt request signer_request_id provider_request_id
        (has_rejected id code) =
      search (within_rules, Logged-IsPreorder, failing-Logged, mark_signer_request_rejected-Logged)
        depth 20
  settle_signature-Logged attempt request signer_request_id provider_request_id
        (has_signed id bytes hash) =
      settle_verified-Logged attempt signer_request_id bytes _

  ask_signer-Logged :
      (attempt : Attempt) (operation_id : Option ℕ) (request : UnsignedTransactionRequest)
      → Within Logged (ask_signer deps hooks attempt operation_id request)
  unfolding ask_signer
  ask_signer-Logged attempt operation_id request =
      search
        (
          within_rules, Logged-IsPreorder, ports.request_signature, record_signer_request-Logged,
          settle_signature-Logged,
        )
        depth 20

  resume_outstanding-Logged :
      (attempt : Attempt) (o : Option SignerRequest)
      → Within Logged (resume_outstanding deps hooks attempt o)
  unfolding resume_outstanding
  resume_outstanding-Logged attempt none = Within-pure Logged-IsPreorder _
  resume_outstanding-Logged attempt (some r) =
      search
        (
          within_rules, Logged-IsPreorder, failing-Logged, expire_lapsed_signer_request-Logged,
          ports.fetch_signature, settle_signature-Logged,
        )
        depth 20

  resume_signature-Logged :
      (attempt : Attempt) → Within Logged (resume_signature deps hooks attempt)
  unfolding resume_signature find_signer_request_for_attempt
  resume_signature-Logged attempt =
      search (within_rules, Logged-IsPreorder, resume_outstanding-Logged) depth 20

  prepare-Logged :
      (signer : Text) (intent : ChainWriteIntent) (count gas : ℕ) (fees : FeeEstimate)
      → Within Logged (prepare deps hooks signer intent count gas fees)
  unfolding prepare
  prepare-Logged signer intent count gas fees =
      search
        (
          within_rules, Logged-IsPreorder, reserve_nonce-Logged, insert_prepared_attempt-Logged,
          Within-Logged, steady.on_prepared,
        )
        depth 20

  execute-Logged : (intent : ChainWriteIntent) → Within Logged (execute deps intent hooks)
  unfolding execute
  execute-Logged intent = Within-bind Logged-IsPreorder _ _ ports.get_signer_address (λ signer.
      Within-bind Logged-IsPreorder _ _ ports.get_chain_identity (λ _.
        Within-bind Logged-IsPreorder _ _ (ports.simulate signer intent.call) (λ simulation.
          Within-bind Logged-IsPreorder _ _ (Within-or_throw Logged-IsPreorder simulation _)
            (λ estimate. Within-bind Logged-IsPreorder _ _ ports.get_fee_estimate (λ fees.
              search
                (
                  within_rules, Logged-IsPreorder, ports.get_transaction_count, prepare-Logged,
                  ask_signer-Logged,
                )
                depth 20)))))

  sign_replacement-Logged :
      (previous : Attempt) (candidate : TransactionIntent) (fingerprint : Text) (gas : ℕ)
      (fees : FeeEstimate) (reason : ReplacementReason)
      → Within Logged (sign_replacement deps hooks previous candidate fingerprint gas fees reason)
  unfolding sign_replacement supersede
  sign_replacement-Logged previous candidate fingerprint gas fees reason =
      search
        (
          within_rules, Logged-IsPreorder, retire_attempt_for_replacement-Logged,
          insert_prepared_attempt-Logged, link_attempt_replacement-Logged, Within-Logged,
          steady.on_prepared, ask_signer-Logged,
        )
        depth 30

  replace_fees-Logged :
      (previous : Attempt) (fees : FeeEstimate) (reason : ReplacementReason)
      → Within Logged (replace_fees deps hooks previous fees reason)
  unfolding replace_fees
  replace_fees-Logged previous fees reason =
      search (within_rules, Logged-IsPreorder, sign_replacement-Logged) depth 20

  cancel_nonce-Logged :
      (blocked : Attempt) (fees : FeeEstimate) (reason : ReplacementReason)
      → Within Logged (cancel_nonce deps hooks blocked fees reason)
  unfolding cancel_nonce
  cancel_nonce-Logged blocked fees reason =
      Within-bind Logged-IsPreorder _ _ ports.get_signer_address
        (λ signer. search (within_rules, Logged-IsPreorder, sign_replacement-Logged) depth 20)

  -- Whatever the signer and the node answer or throw, and whether the write returns or throws: if
  -- all that the node was handed so far was on record in an attempt that was not replaced when it
  -- was handed over, then so is all that a first write, a resumed one, a replacement or a nonce
  -- recovery hands over. The hooks are to change no stored bytes, and other workers to hand over
  -- durable bytes only.
  pub every_write_is_durable :
      (s : Store) (intent : ChainWriteIntent) (attempt : Attempt) (fees : FeeEstimate)
      (reason : ReplacementReason)
      → AllDurable s.sent
      → AllDurable (execute deps intent hooks s).1.sent
        × AllDurable (resume_signature deps hooks attempt s).1.sent
        × AllDurable (replace_fees deps hooks attempt fees reason s).1.sent
        × AllDurable (cancel_nonce deps hooks attempt fees reason s).1.sent
  every_write_is_durable s intent attempt fees reason h = (
    ((execute-Logged intent).at s).sent h,
    ((resume_signature-Logged attempt).at s).sent h,
    ((replace_fees-Logged attempt fees reason).at s).sent h,
    ((cancel_nonce-Logged attempt fees reason).at s).sent h,
  )

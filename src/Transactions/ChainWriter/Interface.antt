-- ===== src/Transactions/ChainWriter/Interface.antt =====
-- src/modules/transactions/chain-writer.ts: what the writer is given, and what it returns. The
-- gateway (src/ports/evm-gateway.ts) and the signer (src/ports/signer-provider.ts) are parameters:
-- a call may throw, and other workers may change the store while it runs.
use institutional_tokenizati.Base.{ℕ, Option, Text}
use institutional_tokenizati.Domain.Canonical.{Host}
use institutional_tokenizati.Db.{Attempt, AttemptPurpose, FailureCode, Action, Done}
use institutional_tokenizati.Transactions.Intent.{FeeEstimate}
use institutional_tokenizati.Transactions.Verifier.{Codec, UnsignedTransactionRequest}

-- SignerRequestState of src/ports/signer-provider.ts
pub data SignerReply : Type 0 where
  still_pending : ℕ → SignerReply
  has_signed : ℕ → Text → Text → SignerReply
  has_rejected : ℕ → FailureCode → SignerReply

-- What `broadcastRawTransaction` does: it returns, or throws an error with a message.
pub data NodeReply : Type 0 where
  accepted : NodeReply
  errored : Text → NodeReply

pub record EncodedCall : Type 0 where
  pub to_address : Option Text
  pub calldata : Text

pub record Ports : Type 0 where
  pub get_signer_address : Action Text
  pub get_chain_identity : Action Done
  pub simulate : Text → EncodedCall → Action (Option ℕ)  -- the gas estimate, or a revert
  pub get_fee_estimate : Action FeeEstimate
  pub get_transaction_count : Text → Action ℕ
  pub request_signature : UnsignedTransactionRequest → Action SignerReply
  pub fetch_signature : ℕ → Action SignerReply
  pub broadcast_raw_transaction : Text → Action NodeReply

-- ChainWriteHooks; one that is absent does nothing. Messages are left out.
pub record ChainWriteHooks : Type 0 where
  pub on_prepared : Attempt → Action Done
  pub on_signed : Attempt → Action Done
  pub assert_broadcast_allowed : Action Done
  pub on_broadcasting : Attempt → Action Done
  pub on_submitted : Attempt → Text → Action Done
  pub on_broadcast_unknown : Attempt → Action Done
  pub on_failed : Attempt → FailureCode → Action Done

pub record ChainWriteIntent : Type 0 where
  pub purpose : AttemptPurpose
  pub call : EncodedCall
  pub operation_id : Option ℕ
  pub asset_id : Option ℕ
  pub wallet_id : Option ℕ

pub data ChainWriteOutcome : Type 0 where
  is_submitted : ℕ → Text → ChainWriteOutcome
  signature_pending : ℕ → ℕ → ChainWriteOutcome
  is_unknown : ℕ → Text → ChainWriteOutcome
  has_failed : ℕ → FailureCode → ChainWriteOutcome

-- ChainWriterDeps, with what the host and viem give
pub record Deps : Type 0 where
  pub host : Host
  pub codec : Codec
  pub ports : Ports
  pub chain_id : ℕ
  pub signer_request_timeout_ms : ℕ
  pub max_replacements : ℕ

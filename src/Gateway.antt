-- ===== src/Gateway.antt =====
-- src/ports/evm-gateway.ts and src/ports/compliance-provider.ts: the reads of the chain and of the
-- compliance provider, which are parameters. A call may throw, and other workers may change the
-- store while it runs.
use institutional_tokenizati.Base.{ℕ, Bool, Option, List, Text}
use institutional_tokenizati.Db.{Action, Done, ComplianceStatus}
use institutional_tokenizati.Transactions.ChainWriter.{EncodedCall}

pub record MintExecutedEvent : Type 0 where
  pub operation_reference : Text
  pub recipient : Text
  pub amount : ℕ

pub record TokenChainState : Type 0 where
  pub is_paused : Bool
  pub total_supply : ℕ
  pub supply_cap : ℕ
  pub decimals : ℕ
  pub symbol : Text

pub record MintCall : Type 0 where
  pub recipient : Text
  pub amount : ℕ
  pub operation_reference : Text
  pub deadline : ℕ

pub record TokenDeployment : Type 0 where
  pub name : Text
  pub symbol : Text
  pub decimals : ℕ
  pub supply_cap : ℕ
  pub admin : Text
  pub minter : Text
  pub compliance_officer : Text
  pub pauser : Text

pub record EvmGateway : Type 0 where
  pub get_chain_identity : Action ℕ
  pub assert_contract_deployed : Text → Action Done
  pub decode_mint_executed_events : Text → List Text → List MintExecutedEvent
  pub read_token_state : Text → Action TokenChainState
  pub read_balance_of : Text → Text → Action ℕ
  pub read_reference_consumed : Text → Text → Action Bool
  pub read_eligible_until : Text → Text → Action ℕ
  pub encode_token_deployment : TokenDeployment → EncodedCall
  pub encode_mint_call : Text → MintCall → EncodedCall
  pub encode_set_eligibility_call : Text → Text → ℕ → EncodedCall

-- ComplianceDecisionResult, without its labels
pub record Screening : Type 0 where
  pub status : ComplianceStatus
  pub valid_from : ℕ
  pub valid_until : ℕ
  pub decided_at : ℕ

pub record ComplianceProvider : Type 0 where
  pub screen : Text → Text → ℕ → Option ℕ → Action Screening  -- subject, address, chain, asset
  pub check_eligibility : Text → Text → ℕ → ℕ → ℕ → Action Bool  -- and amount: `eligible`

-- ===== src/Tests/Fixtures.antt =====
-- A store with one mint that awaits its second approval, and who acts on it.
use institutional_tokenizati.Base.{true, none, some, [], ◌∷◌, Text, codes}
use institutional_tokenizati.Domain.Canonical.{Host}
use institutional_tokenizati.Domain.OperationState.{OperationState}
use institutional_tokenizati.Domain.ApprovalState.{ApprovalRequestState, ApprovalDecisionKind}
use institutional_tokenizati.Domain.MintProposal.{MintProposalSnapshot}
use institutional_tokenizati.Domain.Roles.{Actor, ActorType, AppRole}
use institutional_tokenizati.Db.{
  Store, Operation, OperationType, ApprovalRequest, ApprovalDecision, Asset, Wallet, NonceLane,
  Attempt, AttemptStatus, AttemptPurpose, AssetStatus, ComplianceDecision, ComplianceStatus,
  ChainSyncStatus,
}

abbrev pub host : Host
host = record { sha256_hex = λ t. []; uuid_text = λ n. n ∷ [] }

abbrev pub second_approver : Actor
second_approver = record {
  type = ActorType.user;
  id = 9;
  organization_id = 1;
  roles = AppRole.approver ∷ [];
}

abbrev pub mint : Operation
mint = record {
  id = 1;
  organization_id = 1;
  type = OperationType.mint;
  state = OperationState.pending_approval;
  asset_id = 2;
  wallet_id = some 3;
  amount = some 1000;
  operation_reference = some (codes "0xab");
  compliance_decision_id = some 4;
  proposal_hash = [];
  required_approvals = 2;
  requested_by = 7;
  correlation_id = 6;
  failure_code = none;
  claimed_by = none;
  claimed_at = none;
  state_updated_at = 0;
}

abbrev pub snapshot : MintProposalSnapshot
snapshot = record {
  asset_id = 2;
  chain_id = 1;
  contract_address = [];
  wallet_id = 3;
  recipient_address = [];
  amount = [];
  operation_reference = [];
  policy_version = 1;
  required_approvals = 2;
}

abbrev pub request_with : Text → ApprovalRequest
request_with hash = record {
  id = 5;
  operation_id = 1;
  state = ApprovalRequestState.pending;
  required_approvals = 2;
  proposal_snapshot = snapshot;
  proposal_hash = hash;
  requested_by = 7;
}

abbrev pub first_decision : ApprovalDecision
first_decision = record {
  id = 20;
  approval_request_id = 5;
  approver_id = 8;
  operation_requested_by = 7;
  decision = ApprovalDecisionKind.approve;
  proposal_hash = [];
}

abbrev pub asset : Asset
asset = record {
  id = 2;
  organization_id = 1;
  symbol = codes "BND";
  name = codes "Bond";
  decimals = 2;
  supply_cap = 100000;
  chain_id = 1;
  contract_address = some (codes "0xcc");
  deployment_tx_hash = none;
  status = AssetStatus.active;
  policy_version = 1;
  created_by = 7;
}

abbrev pub wallet : Wallet
wallet = record {
  id = 3;
  organization_id = 1;
  chain_id = 1;
  address = codes "0xdd";
  investor_reference = [];
  is_registered = true;
}

abbrev pub approval : ComplianceDecision
approval = record {
  id = 4;
  wallet_id = 3;
  asset_id = some 2;
  status = ComplianceStatus.approved;
  subject_reference = [];
  valid_from = 1000;
  valid_until = 9000;
  decided_at = 1000;
  decided_by = 12;
  chain_sync_status = ChainSyncStatus.synced;
  chain_sync_tx_hash = none;
  superseded_at = none;
}

abbrev pub lane : NonceLane
lane = record { chain_id = 1; signer_address = codes "0xee"; next_nonce = 41 }

-- An attempt that was broadcast and is stuck
abbrev pub stuck : Attempt
stuck = record {
  id = 30;
  operation_id = some 1;
  asset_id = some 2;
  wallet_id = some 3;
  purpose = AttemptPurpose.mint_tokens;
  chain_id = 1;
  from_address = codes "0xee";
  to_address = some (codes "0xcc");
  nonce = 40;
  value = 0;
  calldata = codes "0x01";
  gas_limit = 90000;
  max_fee_per_gas = 100;
  max_priority_fee_per_gas = 10;
  request_hash = [];
  signed_raw_transaction = some (codes "0x02aa");
  transaction_hash = some (codes "0xbeef");
  status = AttemptStatus.submitted;
  broadcast_attempts = 1;
  block_number = none;
  block_hash = none;
  gas_used = none;
  receipt_status = none;
  contract_address = none;
  error_code = none;
  intent_fingerprint = some [];
  replaces_attempt_id = none;
  replaced_by_attempt_id = none;
  replacement_reason = none;
  replacement_number = 0;
  updated_at = 0;
}

abbrev pub store_with : Text → Store
store_with hash = record {
  operations = mint ∷ [];
  transitions = [];
  attempts = stuck ∷ [];
  nonces = lane ∷ [];
  requests = request_with hash ∷ [];
  decisions = first_decision ∷ [];
  idempotency_keys = [];
  signer_requests = [];
  outbox = [];
  audit = [];
  assets = asset ∷ [];
  wallets = wallet ∷ [];
  compliance_decisions = approval ∷ [];
  observations = [];
  sent = [];
  next_id = 100;
  now = 5000;
  clock = 5001;
}

abbrev pub store : Store
store = store_with []

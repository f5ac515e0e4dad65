-- ===== src/Mints/Proposal.antt =====
-- src/modules/operations/mint-service.ts: the proposal rebuilt from the current rows.
use institutional_tokenizati.Base.{[], Text, get_or, option_map}
use institutional_tokenizati.Domain.Canonical.{Host, decimal}
use institutional_tokenizati.Domain.MintProposal.{MintProposalSnapshot, hash_mint_proposal}
use institutional_tokenizati.Db.{Operation, Asset, Wallet}

-- The `snapshot` of `rebuildMintProposal`; a missing text column is the empty text.
unfoldable pub rebuilt_snapshot : Operation → Asset → Wallet → MintProposalSnapshot
rebuilt_snapshot operation asset wallet = record {
  asset_id = asset.id;
  chain_id = asset.chain_id;
  contract_address = get_or asset.contract_address [];
  wallet_id = wallet.id;
  recipient_address = wallet.address;
  amount = get_or (option_map decimal operation.amount) [];
  operation_reference = get_or operation.operation_reference [];
  policy_version = asset.policy_version;
  required_approvals = operation.required_approvals;
}

-- The `hash` of `rebuildMintProposal`
unfoldable pub rebuilt_hash : Host → Operation → Asset → Wallet → Text
unfolding rebuilt_snapshot hash_mint_proposal
rebuilt_hash host operation asset wallet =
    hash_mint_proposal host (rebuilt_snapshot operation asset wallet)

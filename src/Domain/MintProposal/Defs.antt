-- ===== src/Domain/MintProposal/Defs.antt =====
-- src/domain/mint-proposal.ts: the snapshot of a mint and its hash.
use institutional_tokenizati.Base.{ℕ, ◌++◌, Text, codes, to_lower}
use institutional_tokenizati.Domain.Canonical.{Host, JsonValue, Fields, canonical_hash}

-- Identifiers are numbers, which `Host.uuid_text` spells. `kind` is always 'MINT'.
pub record MintProposalSnapshot : Type 0 where
  pub asset_id : ℕ
  pub chain_id : ℕ
  pub contract_address : Text
  pub wallet_id : ℕ
  pub recipient_address : Text
  pub amount : Text
  pub operation_reference : Text
  pub policy_version : ℕ
  pub required_approvals : ℕ

unfoldable pub mint_proposal_json : Host → MintProposalSnapshot → JsonValue
mint_proposal_json host snapshot = JsonValue.obj (
    Fields.field (codes "kind") (JsonValue.str (codes "MINT")) (
      Fields.field (codes "assetId") (JsonValue.str (host.uuid_text snapshot.asset_id)) (
        Fields.field (codes "chainId") (JsonValue.num snapshot.chain_id) (
          Fields.field (codes "contractAddress")
            (JsonValue.str (to_lower snapshot.contract_address))
            (Fields.field (codes "walletId") (JsonValue.str (host.uuid_text snapshot.wallet_id)) (
              Fields.field (codes "recipientAddress")
                (JsonValue.str (to_lower snapshot.recipient_address))
                (Fields.field (codes "amount") (JsonValue.str snapshot.amount) (
                  Fields.field (codes "operationReference")
                    (JsonValue.str (to_lower snapshot.operation_reference))
                    (Fields.field (codes "policyVersion") (JsonValue.num snapshot.policy_version) (
                      Fields.field (codes "requiredApprovals")
                        (JsonValue.num snapshot.required_approvals) Fields.end))))))))))

unfoldable pub hash_mint_proposal : Host → MintProposalSnapshot → Text
unfolding canonical_hash mint_proposal_json
hash_mint_proposal host snapshot = canonical_hash host (mint_proposal_json host snapshot)

-- The bytes32 handed to `mintWithReference`.
unfoldable pub derive_operation_reference : Host → ℕ → Text
derive_operation_reference host operation_id =
    codes "0x" ++ host.sha256_hex (codes "ito:mint:" ++ host.uuid_text operation_id)

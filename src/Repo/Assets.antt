-- ===== src/Repo/Assets.antt =====
-- src/db/repositories/asset-repository.ts: the rows of the assets.
use institutional_tokenizati.Base.{
  ℕ, Bool, ◌&&◌, Option, none, some, ◌∷◌, ◌==◌, Text, text_eq, to_lower, find_row, update_rows,
}
use institutional_tokenizati.Db.{
  Asset, AssetStatus, Action, Done, pure, gets, modify, fresh_id, ◌>>=◌, ◌>>◌,
}

pub record InsertAssetInput : Type 0 where
  pub organization_id : ℕ
  pub symbol : Text
  pub name : Text
  pub decimals : ℕ
  pub supply_cap : ℕ
  pub chain_id : ℕ
  pub created_by : ℕ

unfoldable pub insert_provisioning_asset : InsertAssetInput → Action Asset
insert_provisioning_asset input = do
  id ← fresh_id
  let row : Asset = record {
    id = id;
    organization_id = input.organization_id;
    symbol = input.symbol;
    name = input.name;
    decimals = input.decimals;
    supply_cap = input.supply_cap;
    chain_id = input.chain_id;
    contract_address = none;
    deployment_tx_hash = none;
    status = AssetStatus.provisioning;
    policy_version = 1;
    created_by = input.created_by;
  }
  modify λ s. record s { assets = row ∷ s.assets }
  pure row

abbrev pub has_asset_id : ℕ → Asset → Bool
has_asset_id id a = a.id == id

unfoldable pub mark_asset_active : ℕ → Text → Text → Action Done
mark_asset_active asset_id contract_address deployment_tx_hash = modify λ s. record s {
  assets =
      update_rows (has_asset_id asset_id)
        (λ a. record a {
          contract_address = some (to_lower contract_address);
          deployment_tx_hash = some (to_lower deployment_tx_hash);
          status = AssetStatus.active;
        })
        s.assets;
}

unfoldable pub mark_asset_failed : ℕ → Action Done
mark_asset_failed asset_id = modify λ s. record s {
  assets =
      update_rows (has_asset_id asset_id) (λ a. record a { status = AssetStatus.failed }) s.assets;
}

unfoldable pub find_asset_by_symbol : ℕ → Text → Action (Option Asset)
find_asset_by_symbol organization_id symbol =
    gets
      λ s. find_row (λ a. a.organization_id == organization_id && text_eq a.symbol symbol) s.assets

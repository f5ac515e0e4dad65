-- ===== src/Repo/Nonces.antt =====
-- src/db/repositories/transaction-repository.ts: the reservation of nonces.
use institutional_tokenizati.Base.{
  ℕ, ◌+◌, Bool, ◌&&◌, Option, List, ◌∷◌, Text, text_eq, to_lower, ltb, ◌==◌, find_row, update_rows,
  option_map, is_none, if◌then◌else◌,
}
use institutional_tokenizati.Domain.Errors.{app_error, plain_error, nonce_divergence}
use institutional_tokenizati.Db.{
  NonceLane, Action, pure, gets, or_throw, modify, throw_if, ◌>>=◌, ◌>>◌,
}

abbrev pub is_lane : ℕ → Text → NonceLane → Bool
is_lane chain_id address lane = lane.chain_id == chain_id && text_eq lane.signer_address address

-- INSERT ... ON CONFLICT DO NOTHING
unfoldable pub open_lane : ℕ → Text → ℕ → List NonceLane → List NonceLane
open_lane chain_id address chain_nonce lanes =
    if is_none (find_row (is_lane chain_id address) lanes)
    then record { chain_id = chain_id; signer_address = address; next_nonce = chain_nonce } ∷ lanes
    else lanes

unfoldable pub take_nonce : ℕ → Text → ℕ → List NonceLane → List NonceLane
take_nonce chain_id address nonce lanes =
    update_rows (is_lane chain_id address) (λ lane. record lane { next_nonce = nonce + 1 }) lanes

-- `reserveNonce`, run inside the transaction of its caller
unfoldable pub reserve_nonce : ℕ → Text → ℕ → Action ℕ
unfolding open_lane take_nonce
reserve_nonce chain_id signer chain_nonce = do
  let address = to_lower signer
  modify λ s. record s { nonces = open_lane chain_id address chain_nonce s.nonces }
  row ← gets λ s. find_row (is_lane chain_id address) s.nonces
  existing ← or_throw row plain_error
  throw_if (ltb existing.next_nonce chain_nonce) (app_error nonce_divergence)
  modify λ s. record s { nonces = take_nonce chain_id address existing.next_nonce s.nonces }
  pure existing.next_nonce

-- `readReservedNonce`
unfoldable pub read_reserved_nonce : ℕ → Text → Action (Option ℕ)
read_reserved_nonce chain_id signer = gets λ s.
    option_map (λ lane. lane.next_nonce) (find_row (is_lane chain_id (to_lower signer)) s.nonces)

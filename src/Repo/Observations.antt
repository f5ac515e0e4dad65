-- ===== src/Repo/Observations.antt =====
-- src/db/repositories/transaction-repository.ts: what was observed on the chain.
use institutional_tokenizati.Base.{
  ℕ, Bool, false, not, ◌&&◌, Option, some, List, ◌∷◌, ◌==◌, Text, to_lower, option_map, option_eq,
  update_rows, select_rows, count_rows,
}
use institutional_tokenizati.Db.{
  Observation, ObservationKind, ObservationSeverity, Action, Done, pure, gets, modify, ◌>>=◌, ◌>>◌,
}

-- ObservationInput; `canonical` is given by every caller here
pub record ObservationInput : Type 0 where
  pub operation_id : Option ℕ
  pub transaction_attempt_id : Option ℕ
  pub kind : ObservationKind
  pub chain_id : ℕ
  pub block_number : Option ℕ
  pub block_hash : Option Text
  pub transaction_hash : Option Text
  pub is_matched : Bool
  pub is_canonical : Bool
  pub severity : ObservationSeverity

unfoldable pub observation_row : ObservationInput → Observation
observation_row input = record {
  operation_id = input.operation_id;
  transaction_attempt_id = input.transaction_attempt_id;
  kind = input.kind;
  chain_id = input.chain_id;
  block_number = input.block_number;
  block_hash = option_map to_lower input.block_hash;
  transaction_hash = option_map to_lower input.transaction_hash;
  is_matched = input.is_matched;
  is_canonical = input.is_canonical;
  severity = input.severity;
  is_open = not input.is_matched;
}

unfoldable pub record_observation : ObservationInput → Action Done
unfolding observation_row
record_observation input =
    modify λ s. record s { observations = observation_row input ∷ s.observations }

-- `listOpenFindings`, without its LIMIT
unfoldable pub list_open_findings : Action (List Observation)
list_open_findings = gets λ s. select_rows (λ o. o.is_open) s.observations

unfoldable pub list_observations : ℕ → Action (List Observation)
list_observations operation_id =
    gets λ s. select_rows (λ o. option_eq ◌==◌ o.operation_id (some operation_id)) s.observations

-- The WHERE of `invalidateAttemptObservations`
abbrev pub is_canonical_of : ℕ → Observation → Bool
is_canonical_of attempt_id o =
    option_eq ◌==◌ o.transaction_attempt_id (some attempt_id) && o.is_canonical

unfoldable pub write_historical : Observation → Observation
write_historical o = record o { is_canonical = false }

-- How many rows it changed
unfoldable pub invalidate_attempt_observations : ℕ → Action ℕ
unfolding write_historical
invalidate_attempt_observations attempt_id = do
  rows ← gets λ s. count_rows (is_canonical_of attempt_id) s.observations
  modify λ s. record s {
    observations = update_rows (is_canonical_of attempt_id) write_historical s.observations;
  }
  pure rows

-- ===== src/Repo/Idempotency.antt =====
-- src/db/repositories/idempotency-repository.ts: the claims on idempotency keys.
use institutional_tokenizati.Base.{
  ℕ, Bool, true, false, not, ◌&&◌, Option, none, some, ◌∷◌, Text, text_eq, ◌==◌, find_row,
  update_rows, select_rows,
}
use institutional_tokenizati.Domain.Canonical.{JsonValue}
use institutional_tokenizati.Db.{
  IdempotencyRow, IdempotencyStatus, Action, Done, pure, gets, modify, fresh_id, ◌>>=◌, ◌>>◌,
}

pub record IdempotencyIdentity : Type 0 where
  pub scope : ℕ
  pub organization_id : ℕ
  pub actor_id : ℕ
  pub idempotency_key : Text

-- The columns of the unique index
abbrev pub is_identity : IdempotencyIdentity → IdempotencyRow → Bool
is_identity identity row =
    row.scope == identity.scope
    && (row.organization_id == identity.organization_id
        && (row.actor_id == identity.actor_id
            && text_eq row.idempotency_key identity.idempotency_key))

unfoldable pub find_idempotency_record : IdempotencyIdentity → Action (Option IdempotencyRow)
find_idempotency_record identity = gets λ s. find_row (is_identity identity) s.idempotency_keys

unfoldable pub claimed_row : ℕ → IdempotencyIdentity → Text → IdempotencyRow
claimed_row id identity request_hash = record {
  id = id;
  scope = identity.scope;
  organization_id = identity.organization_id;
  actor_id = identity.actor_id;
  idempotency_key = identity.idempotency_key;
  request_hash = request_hash;
  status = IdempotencyStatus.in_progress;
  response_status = none;
  response_body = none;
  resource_type = none;
  resource_id = none;
}

unfoldable pub insert_claim : IdempotencyIdentity → Text → Action (Bool × IdempotencyRow)
unfolding claimed_row
insert_claim identity request_hash = do
  id ← fresh_id
  let row : IdempotencyRow = claimed_row id identity request_hash
  modify λ s. record s { idempotency_keys = row ∷ s.idempotency_keys }
  pure (true, row)

-- INSERT ... ON CONFLICT DO NOTHING, and the look-up of the row that was in the way
unfoldable pub claim_idempotency_key : IdempotencyIdentity → Text → Action (Bool × IdempotencyRow)
unfolding find_idempotency_record insert_claim
claim_idempotency_key identity request_hash = do
  existing ← find_idempotency_record identity
  elim existing [ none ↦ insert_claim identity request_hash | some row ↦ pure (false, row) ]

unfoldable pub completed_row : ℕ → JsonValue → Text → Text → IdempotencyRow → IdempotencyRow
completed_row status body resource_type resource_id r = record r {
  status = IdempotencyStatus.completed;
  response_status = some status;
  response_body = some body;
  resource_type = some resource_type;
  resource_id = some resource_id;
}

unfoldable pub complete_idempotency_key : ℕ → ℕ → JsonValue → Text → Text → Action Done
complete_idempotency_key id status body resource_type resource_id = modify λ s. record s {
  idempotency_keys =
      update_rows (λ r. r.id == id) (completed_row status body resource_type resource_id)
        s.idempotency_keys;
}

-- `releaseIdempotencyKey`: DELETE
unfoldable pub release_idempotency_key : ℕ → Action Done
release_idempotency_key id =
    modify
      λ s. record s { idempotency_keys = select_rows (λ r. not (r.id == id)) s.idempotency_keys }

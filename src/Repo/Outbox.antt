-- ===== src/Repo/Outbox.antt =====
-- src/db/repositories/outbox-repository.ts: the transactional outbox and its leases.
pub mod Leases
use institutional_tokenizati.Base.{
  ℕ, zero, suc, ◌+◌, Bool, false, ◌&&◌, ◌||◌, Option, none, some, List, [], ◌∷◌, ◌==◌, ltb, leb,
  any, update_rows, select_rows, option_eq, if◌then◌else◌, map,
}
use institutional_tokenizati.Db.{
  OutboxRow, OutboxStatus, Action, Done, pure, gets, modify, fresh_id, ◌>>=◌, ◌>>◌,
}

-- `enqueueOutbox` of an 'operation.ready' row
unfoldable pub enqueue_outbox : ℕ → ℕ → Action Done
enqueue_outbox operation_id correlation_id = do
  id ← fresh_id
  modify λ s. record s {
    outbox =
        record {
          id = id;
          aggregate_id = operation_id;
          payload_operation_id = some operation_id;
          status = OutboxStatus.pending;
          attempts = 0;
          available_at = s.now;
          correlation_id = correlation_id;
          claim_token = none;
          claim_expires_at = none;
        }
        ∷ s.outbox;
  }

abbrev pub has_lapsed : Option ℕ → ℕ → Bool
has_lapsed none now = false
has_lapsed (some at) now = leb at now

-- The WHERE of the candidates
unfoldable pub is_due : ℕ → OutboxRow → Bool
is_due now row = elim row.status [
  | OutboxStatus.pending ↦ leb row.available_at now
  | OutboxStatus.claimed ↦ has_lapsed row.claim_expires_at now
  | OutboxStatus.dispatched ↦ false
  | OutboxStatus.failed ↦ false
]

unfoldable pub take : ℕ → List OutboxRow → List OutboxRow
take zero rows = []
take (suc n) [] = []
take (suc n) (r ∷ rows) = r ∷ take n rows

-- ORDER BY available_at, id
abbrev pub is_before : OutboxRow → OutboxRow → Bool
is_before r q =
    ltb r.available_at q.available_at || (r.available_at == q.available_at && leb r.id q.id)

unfoldable pub insert_by_due : OutboxRow → List OutboxRow → List OutboxRow
insert_by_due r [] = r ∷ []
insert_by_due r (q ∷ rows) = if is_before r q then r ∷ q ∷ rows else q ∷ insert_by_due r rows

unfoldable pub sort_by_due : List OutboxRow → List OutboxRow
unfolding insert_by_due
sort_by_due [] = []
sort_by_due (r ∷ rows) = insert_by_due r (sort_by_due rows)

unfoldable pub write_claim : ℕ → ℕ → OutboxRow → OutboxRow
write_claim token expires row = record row {
  status = OutboxStatus.claimed;
  claim_token = some token;
  claim_expires_at = some expires;
  attempts = row.attempts + 1;
}

abbrev pub in_rows : List OutboxRow → OutboxRow → Bool
in_rows rows row = any (λ c. c.id == row.id) rows

-- `claimPendingOutbox`: the token, and the rows as the UPDATE leaves them
unfoldable pub claim_pending_outbox : ℕ → ℕ → Action (ℕ × List OutboxRow)
unfolding is_due take sort_by_due write_claim
claim_pending_outbox limit lease = do
  token ← fresh_id
  at ← gets λ s. s.now
  candidates ← gets λ s. take limit (sort_by_due (select_rows (is_due at) s.outbox))
  modify λ s. record s {
    outbox = update_rows (in_rows candidates) (write_claim token (at + lease)) s.outbox;
  }
  pure (token, map (write_claim token (at + lease)) candidates)

-- Only the holder of the claim may complete it.
abbrev pub holds_claim : ℕ → ℕ → OutboxRow → Bool
holds_claim id token row = row.id == id && option_eq ◌==◌ row.claim_token (some token)

unfoldable pub write_dispatched : OutboxRow → OutboxRow
write_dispatched row = record row {
  status = OutboxStatus.dispatched;
  claim_token = none;
  claim_expires_at = none;
}

unfoldable pub mark_outbox_dispatched : List ℕ → ℕ → Action Done
unfolding write_dispatched
mark_outbox_dispatched ids token = modify λ s. record s {
  outbox = update_rows (λ row. any (λ id. holds_claim id token row) ids) write_dispatched s.outbox;
}

unfoldable pub write_rescheduled : ℕ → OutboxRow → OutboxRow
write_rescheduled at row = record row {
  status = OutboxStatus.pending;
  available_at = at;
  claim_token = none;
  claim_expires_at = none;
}

unfoldable pub reschedule_outbox : ℕ → ℕ → ℕ → Action Done
unfolding write_rescheduled
reschedule_outbox id token retry_after = modify λ s. record s {
  outbox = update_rows (holds_claim id token) (write_rescheduled (s.now + retry_after)) s.outbox;
}

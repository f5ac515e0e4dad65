-- ===== src/Tests/Leasing.antt =====
-- Two dispatchers on one row of the outbox.
use institutional_tokenizati.Base.{
  ◌≡◌, refl, false, none, some, [], ◌∷◌, arith, any, update_rows, select_rows,
}
use institutional_tokenizati.Db.{Store, OutboxRow, OutboxStatus, ok, ◌>>=◌}
use institutional_tokenizati.Repo.Outbox.{
  is_due, take, insert_by_due, sort_by_due, write_claim, claim_pending_outbox,
}
use institutional_tokenizati.Repo.Outbox.Leases.{with_id, leased_rows_not_claimed}
use institutional_tokenizati.Tests.Fixtures.{store}

abbrev row : OutboxRow
row = record {
  id = 60;
  aggregate_id = 1;
  payload_operation_id = some 1;
  status = OutboxStatus.pending;
  attempts = 0;
  available_at = 4000;
  correlation_id = 6;
  claim_token = none;
  claim_expires_at = none;
}

abbrev claimed : OutboxRow
claimed = record row {
  status = OutboxStatus.claimed;
  attempts = 1;
  claim_token = some 100;
  claim_expires_at = some 35000;
}

abbrev before : Store
before = record store { outbox = row ∷ [] }

abbrev after : Store
after = record store { outbox = claimed ∷ []; next_id = 101 }

abbrev later : Store
later = record after { now = 6000 }

first_claim : claim_pending_outbox 10 30000 before ≡ (ok (100, claimed ∷ []), after)
unfolding claim_pending_outbox is_due take insert_by_due sort_by_due write_claim update_rows
    select_rows ◌>>=◌
first_claim = refl

second_claim : claim_pending_outbox 10 30000 later ≡ (ok (101, []), record later { next_id = 102 })
unfolding claim_pending_outbox is_due take insert_by_due sort_by_due write_claim update_rows
    select_rows ◌>>=◌
second_claim = refl

leased_rows_not_claimed_example : any (with_id 60) [] ≡ false
leased_rows_not_claimed_example =
    leased_rows_not_claimed 10 30000 10 30000 before after later (record later { next_id = 102 })
      100 101 (claimed ∷ []) [] 60 first_claim refl (omega arith) second_claim refl

-- ===== src/Idempotency/Replay.antt =====
-- src/modules/idempotency/idempotency-service.ts: one effect per key, and the same answer again.
use institutional_tokenizati.Base.{
  ℕ, suc, ◌<◌, ◌≡◌, ◌≢◌, refl, sym, ap, ◌∙◌, true, false, not, none, some, List, [], ◌∷◌, arith,
  ◌==◌, text_eq_refl, text_eq_iff, find_row, update_rows, select_rows,
}
use institutional_tokenizati.Domain.Canonical.{Host, JsonValue, canonical_hash}
use institutional_tokenizati.Domain.Errors.{
  Fault, app_error, idempotency_conflict, idempotency_in_progress,
}
use institutional_tokenizati.Db.{
  Store, IdempotencyRow, IdempotencyStatus, Action, ok, err, transaction, try_catch, ◌>>=◌,
}
use institutional_tokenizati.Db.Within.{Within}
use institutional_tokenizati.Repo.Idempotency.{
  IdempotencyIdentity, is_identity, find_idempotency_record, claim_idempotency_key, insert_claim,
  claimed_row, completed_row, complete_idempotency_key, release_idempotency_key,
}
use institutional_tokenizati.Idempotency.Defs.{
  IdempotentResult, IdempotentOutcome, stored_result, answer_existing, perform, run_claimed,
  execute,
}

-- The business effect leaves the table of keys alone.
pub record KeepsKeys (s t : Store) : Type 0 where
  pub keys : t.idempotency_keys ≡ s.idempotency_keys

module _ (host : Host) (identity : IdempotencyIdentity) (request : JsonValue)
    (work : Action IdempotentResult) (s : Store) where
  -- A key that another request has used for another payload, answered or not, is refused as a
  -- conflict, and one that is held for the same payload and not answered as in progress. The effect
  -- does not run and nothing changes.
  pub busy_key_refused :
      (row : IdempotencyRow)
      → find_row (is_identity identity) s.idempotency_keys ≡ some row
      → (row.request_hash ≢ canonical_hash host request
          → execute host identity request work s ≡ (err (app_error idempotency_conflict), s))
        × (row.request_hash ≡ canonical_hash host request
            → row.status ≢ IdempotencyStatus.completed
            → execute host identity request work s ≡ (err (app_error idempotency_in_progress), s))
  unfolding execute claim_idempotency_key find_idempotency_record answer_existing ◌>>=◌
  busy_key_refused row f = (
    λ other. ground (arith, f, text_eq_iff row.request_hash (canonical_hash host request)),
    λ same n. ground (arith, f, n, text_eq_iff row.request_hash (canonical_hash host request)),
  )

-- The row of a new claim, and the store with it
abbrev new_row : Host → IdempotencyIdentity → JsonValue → Store → IdempotencyRow
new_row host identity request s = claimed_row s.next_id identity (canonical_hash host request)

abbrev with_claim : Host → IdempotencyIdentity → JsonValue → Store → Store
with_claim host identity request s = record s {
  next_id = suc s.next_id;
  idempotency_keys = new_row host identity request s ∷ s.idempotency_keys;
}

-- The row of a claim, with the answer
abbrev answered : IdempotentResult → IdempotencyRow → IdempotencyRow
answered r = completed_row r.status r.body r.resource_type r.resource_id

run_claimed_returns :
    (row : IdempotencyRow) (work : Action IdempotentResult) (t : Store) (out : IdempotentOutcome)
    → (run_claimed row work t).0 ≡ ok out
    → (out.replayed ≡ false)
      × ((work t).0 ≡ ok out.result)
      × ((run_claimed row work t).1.idempotency_keys
          ≡ update_rows (λ r. r.id == row.id) (answered out.result) (work t).1.idempotency_keys)
unfolding run_claimed perform complete_idempotency_key transaction try_catch ◌>>=◌
run_claimed_returns row work t out h = ground arith

module _ (host : Host) (identity : IdempotencyIdentity) (request : JsonValue)
    (work : Action IdempotentResult) (s : Store) where
  execute_fresh :
      find_row (is_identity identity) s.idempotency_keys ≡ none
      → execute host identity request work s
        ≡ run_claimed (new_row host identity request s) work (with_claim host identity request s)
  unfolding execute claim_idempotency_key find_idempotency_record insert_claim ◌>>=◌
  execute_fresh n = ground arith

  -- A completed row answers for the work, at the same payload.
  execute_completed :
      (row : IdempotencyRow) (r : IdempotentResult)
      → find_row (is_identity identity) s.idempotency_keys ≡ some (answered r row)
      → row.request_hash ≡ canonical_hash host request
      → execute host identity request work s ≡ (ok (record { result = r; replayed = true }), s)
  unfolding execute claim_idempotency_key find_idempotency_record answer_existing completed_row
      stored_result ◌>>=◌
  execute_completed row r f e = ground (arith, text_eq_refl row.request_hash)

identity_of_new_row :
    (host : Host) (identity : IdempotencyIdentity) (request : JsonValue) (s : Store)
    (r : IdempotentResult)
    → (is_identity identity (answered r (new_row host identity request s)) ≡ true)
      × ((new_row host identity request s).id ≡ s.next_id)
      × ((new_row host identity request s).request_hash ≡ canonical_hash host request)
unfolding claimed_row completed_row
identity_of_new_row host identity request s r =
    ground (arith, text_eq_refl identity.idempotency_key)

find_answered :
    (identity : IdempotencyIdentity) (row : IdempotencyRow) (r : IdempotentResult)
    (rows : List IdempotencyRow)
    → is_identity identity (answered r row) ≡ true
    → find_row (is_identity identity) (update_rows (λ q. q.id == row.id) (answered r) (row ∷ rows))
      ≡ some (answered r row)
unfolding find_row update_rows
find_answered identity row r rows h = ground arith

module _ (host : Host) (identity : IdempotencyIdentity) (request : JsonValue)
    (work : Action IdempotentResult) (s : Store) where
  -- One effect for each key: once a request has succeeded on a key that was free, by an effect
  -- that leaves the table of keys alone, the same request on that key gives the same answer, marked
  -- as replayed, whatever effect it brings, and changes nothing.
  pub replay_same_answer :
      (again : Action IdempotentResult) (out : IdempotentOutcome)
      → find_row (is_identity identity) s.idempotency_keys ≡ none
      → Within KeepsKeys work
      → (execute host identity request work s).0 ≡ ok out
      → let t = (execute host identity request work s).1 in
        (out.replayed ≡ false)
        × (execute host identity request again t
            ≡ (ok (record { result = out.result; replayed = true }), t))
  replay_same_answer again out n keeps h =
      let row = new_row host identity request s in
      let run = execute_fresh host identity request work s n in
      let (fresh, _, keys) =
        run_claimed_returns row work (with_claim host identity request s) out
          (sym (ap (λ x. x.0) run) ∙ h) in
      let (same, _, hash) = identity_of_new_row host identity request s out.result in
      let stored =
        ap (λ x. x.1.idempotency_keys) run
        ∙ (keys
            ∙ ap (update_rows (λ r. r.id == row.id) (answered out.result))
                (keeps.at (with_claim host identity request s)).keys) in
      (
        fresh,
        execute_completed host identity request again _ row out.result
            (rw stored (find_answered identity row out.result s.idempotency_keys same)) hash,
      )

-- The identifiers of the table are all below the next one to be given out.
abbrev pub AllBelow : ℕ → List IdempotencyRow → Type 0
AllBelow n [] = Unit {0}
AllBelow n (r ∷ rs) = (r.id < n) × AllBelow n rs

release_others :
    (n : ℕ) (rows : List IdempotencyRow)
    → AllBelow n rows
    → select_rows (λ r. not (r.id == n)) rows ≡ rows
unfolding select_rows
release_others n [] h = refl
release_others n (r ∷ rs) h = ground (arith, release_others n rs h.1)

run_claimed_throws :
    (row : IdempotencyRow) (work : Action IdempotentResult) (t : Store) (e : Fault)
    → (work t).0 ≡ err e
    → run_claimed row work t ≡ (
      err e,
      record t { idempotency_keys = select_rows (λ r. not (r.id == row.id)) t.idempotency_keys },
    )
unfolding run_claimed perform release_idempotency_key transaction try_catch ◌>>=◌
run_claimed_throws row work t e h = ground arith

select_new_row :
    (row : IdempotencyRow) (rows : List IdempotencyRow)
    → AllBelow row.id rows
    → select_rows (λ r. not (r.id == row.id)) (row ∷ rows) ≡ rows
unfolding select_rows
select_new_row row rows h = ground (arith, release_others row.id rows h)

-- An effect that throws on a free key leaves no trace: its writes are undone and the claim is
-- released, so only the supply of identifiers has moved and the key is free again.
pub failed_effect_releases :
    (host : Host) (identity : IdempotencyIdentity) (request : JsonValue)
    (work : Action IdempotentResult) (s : Store) (e : Fault)
    → find_row (is_identity identity) s.idempotency_keys ≡ none
    → AllBelow s.next_id s.idempotency_keys
    → (work (with_claim host identity request s)).0 ≡ err e
    → execute host identity request work s ≡ (err e, record s { next_id = suc s.next_id })
unfolding claimed_row
failed_effect_releases host identity request work s e n below h =
    execute_fresh host identity request work s n
    ∙ (run_claimed_throws (new_row host identity request s) work
          (with_claim host identity request s) e h
        ∙ ap (λ rows. (err e, record s { next_id = suc s.next_id; idempotency_keys = rows }))
            (select_new_row (new_row host identity request s) s.idempotency_keys below))

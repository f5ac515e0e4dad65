-- ===== src/Tests/Keys.antt =====
-- One idempotency key, used twice, and used by an effect that throws.
use institutional_tokenizati.Base.{
  ◌≡◌, ◌≢◌, refl, true, false, none, some, [], ◌∷◌, codes, find_row,
}
use institutional_tokenizati.Domain.Canonical.{JsonValue, canonical_hash}
use institutional_tokenizati.Domain.Errors.{
  app_error, plain_error, idempotency_conflict, idempotency_in_progress,
}
use institutional_tokenizati.Db.{Store, Action, IdempotencyStatus, ok, err, pure, throw, ◌>>=◌}
use institutional_tokenizati.Db.Within.{Within}
use institutional_tokenizati.Repo.Idempotency.{
  IdempotencyIdentity, is_identity, claimed_row, find_idempotency_record, claim_idempotency_key,
  insert_claim, complete_idempotency_key,
}
use institutional_tokenizati.Idempotency.{IdempotentResult, execute, perform, run_claimed}
use institutional_tokenizati.Idempotency.Replay.{
  KeepsKeys, busy_key_refused, replay_same_answer, failed_effect_releases,
}
use institutional_tokenizati.Tests.Fixtures.{host, store}

abbrev identity : IdempotencyIdentity
identity = record { scope = 1; organization_id = 1; actor_id = 7; idempotency_key = codes "k" }

abbrev created : IdempotentResult
created = record {
  status = 201;
  body = JsonValue.bool true;
  resource_type = codes "operation";
  resource_id = codes "1";
}

abbrev work : Action IdempotentResult
work = pure created

work_keeps : Within KeepsKeys work
unfolding pure
work_keeps = record { at = λ s. record { keys = refl } }

key_is_free : find_row (is_identity identity) store.idempotency_keys ≡ none
unfolding find_row
key_is_free = refl

first_answer :
    (execute host identity JsonValue.null work store).0
    ≡ ok (record { result = created; replayed = false })
unfolding execute claim_idempotency_key find_idempotency_record insert_claim run_claimed perform
    complete_idempotency_key find_row ◌>>=◌
first_answer = refl

abbrev after_first : Store
after_first = (execute host identity JsonValue.null work store).1

replay_same_answer_example :
    (false ≡ false)
    × (execute host identity JsonValue.null (throw plain_error) after_first
        ≡ (ok (record { result = created; replayed = true }), after_first))
replay_same_answer_example =
    replay_same_answer host identity JsonValue.null work store (throw plain_error)
      (record { result = created; replayed = false }) key_is_free work_keeps first_answer

throws :
    (throw {A = IdempotentResult} plain_error
      (record store { next_id = 101; idempotency_keys = claimed_row 100 identity [] ∷ [] })).0
    ≡ err plain_error
unfolding throw
throws = refl

failed_effect_releases_example :
    execute host identity JsonValue.null (throw plain_error) store
    ≡ (err plain_error, record store { next_id = 101 })
unfolding canonical_hash
failed_effect_releases_example =
    failed_effect_releases host identity JsonValue.null (throw plain_error) store plain_error
      key_is_free tt throws

abbrev held : Store
held = record store { idempotency_keys = claimed_row 50 identity (1 ∷ []) ∷ [] }

key_is_held :
    find_row (is_identity identity) held.idempotency_keys ≡ some (claimed_row 50 identity (1 ∷ []))
unfolding find_row claimed_row
key_is_held = refl

busy_key_refused_example :
    ((claimed_row 50 identity (1 ∷ [])).request_hash ≢ canonical_hash host JsonValue.null
      → execute host identity JsonValue.null work held
        ≡ (err (app_error idempotency_conflict), held))
    × ((claimed_row 50 identity (1 ∷ [])).request_hash ≡ canonical_hash host JsonValue.null
        → (claimed_row 50 identity (1 ∷ [])).status ≢ IdempotencyStatus.completed
        → execute host identity JsonValue.null work held
          ≡ (err (app_error idempotency_in_progress), held))
busy_key_refused_example =
    busy_key_refused host identity JsonValue.null work held (claimed_row 50 identity (1 ∷ []))
      key_is_held

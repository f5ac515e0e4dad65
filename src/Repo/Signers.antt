-- ===== src/Repo/Signers.antt =====
-- src/db/repositories/signer-request-repository.ts: one signature request per attempt.
use institutional_tokenizati.Base.{
  ℕ, ◌+◌, Bool, ◌&&◌, Option, none, some, List, ◌∷◌, Text, ◌==◌, ltb, leb, find_row, update_rows,
  count_rows, is_none, if◌then◌else◌,
}
use institutional_tokenizati.Domain.Errors.{plain_error}
use institutional_tokenizati.Db.{
  SignerRequest, SignerRequestState, FailureCode, signer_request_timeout, Action, Done, pure, gets,
  or_throw, modify, fresh_id, ◌>>=◌, ◌>>◌, signer_state_eq,
}

abbrev pub is_for_attempt : ℕ → SignerRequest → Bool
is_for_attempt attempt_id r = r.transaction_attempt_id == attempt_id

-- `recordSignerRequest`: ON CONFLICT (transaction_attempt_id) DO UPDATE of the status
unfoldable pub upsert_signer_request : SignerRequest → List SignerRequest → List SignerRequest
upsert_signer_request row rows =
    if is_none (find_row (is_for_attempt row.transaction_attempt_id) rows)
    then row ∷ rows
    else update_rows (is_for_attempt row.transaction_attempt_id)
        (λ r. record r { status = row.status }) rows

unfoldable pub record_signer_request :
    ℕ → Option ℕ → ℕ → SignerRequestState → Text → Action SignerRequest
unfolding upsert_signer_request
record_signer_request attempt_id operation_id provider_request_id status fingerprint = do
  id ← fresh_id
  at ← gets λ s. s.now
  let row : SignerRequest = record {
    id = id;
    transaction_attempt_id = attempt_id;
    operation_id = operation_id;
    provider_request_id = provider_request_id;
    status = status;
    request_fingerprint = fingerprint;
    requested_at = at;
    rejection_code = none;
  }
  modify λ s. record s { signer_requests = upsert_signer_request row s.signer_requests }
  stored ← gets λ s. find_row (is_for_attempt attempt_id) s.signer_requests
  or_throw stored plain_error

unfoldable pub mark_signer_request_signed : ℕ → Action Done
mark_signer_request_signed id = modify λ s. record s {
  signer_requests =
      update_rows (λ r. r.id == id) (λ r. record r { status = SignerRequestState.signed })
        s.signer_requests;
}

unfoldable pub mark_signer_request_rejected : ℕ → FailureCode → Action Done
mark_signer_request_rejected id code = modify λ s. record s {
  signer_requests =
      update_rows (λ r. r.id == id)
        (λ r. record r { status = SignerRequestState.rejected; rejection_code = some code })
        s.signer_requests;
}

-- the WHERE of `expireLapsedSignerRequest`
abbrev pub is_lapsed : ℕ → ℕ → ℕ → SignerRequest → Bool
is_lapsed id timeout now r =
    r.id == id
    && (signer_state_eq r.status SignerRequestState.pending && leb (r.requested_at + timeout) now)

-- Whether this caller moved the request out of PENDING
unfoldable pub expire_lapsed_signer_request : ℕ → ℕ → Action Bool
expire_lapsed_signer_request id timeout = do
  rows ← gets λ s. count_rows (is_lapsed id timeout s.now) s.signer_requests
  modify λ s. record s {
    signer_requests =
        update_rows (is_lapsed id timeout s.now)
          (λ r. record r {
            status = SignerRequestState.expired;
            rejection_code = some signer_request_timeout;
          })
          s.signer_requests;
  }
  pure (ltb 0 rows)

unfoldable pub find_signer_request_for_attempt : ℕ → Action (Option SignerRequest)
find_signer_request_for_attempt attempt_id =
    gets λ s. find_row (is_for_attempt attempt_id) s.signer_requests

unfoldable pub count_pending_signer_requests : Action ℕ
count_pending_signer_requests =
    gets
      λ s. count_rows (λ r. signer_state_eq r.status SignerRequestState.pending) s.signer_requests

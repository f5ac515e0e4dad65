-- ===== src/Transactions/ChainWriter/Outcomes.antt =====
-- src/modules/transactions/chain-writer.ts: when a broadcast may be taken for failed.
use institutional_tokenizati.Base.{
  ℕ, ◌≡◌, ◌≢◌, refl, ap, ◌∙◌, ◌⊎◌, inl, inr, true, ◌∷◌, Text, codes, to_lower, to_lower_idem,
  includes, arith, find_row, Bool-cases,
}
use institutional_tokenizati.Db.{
  Store, Attempt, FailureCode, attempt_superseded, broadcast_rejected, Result, ok, err, ◌>>=◌,
  continue,
}
use institutional_tokenizati.Repo.Attempts.{has_id, find_attempt_by_id}
use institutional_tokenizati.Transactions.ChainWriter.Interface.{
  Deps, ChainWriteHooks, has_failed, NodeReply, accepted, errored,
}
use institutional_tokenizati.Transactions.ChainWriter.Sending.{
  BroadcastErrorClass, already_known, deterministic_rejection, ambiguous, classify_broadcast_error,
  mark_submitted, on_broadcast_error, after_send, note_dispatch, send, is_superseded, broadcast,
}

-- The class of an error does not depend on the case of its message, and a message that says that
-- the nonce is too low is never taken for a proof that the broadcast failed.
pub nonce_too_low_is_no_failure :
    (message : Text)
    → (classify_broadcast_error (to_lower message) ≡ classify_broadcast_error message)
      × (includes (to_lower message) (codes "nonce too low") ≡ true
          → classify_broadcast_error message ≢ deterministic_rejection)
unfolding classify_broadcast_error
nonce_too_low_is_no_failure message = (rw (to_lower_idem message) refl, λ h e. ground arith)

-- The store with the dispatch noted
abbrev pub handed : Text → Store → Store
handed bytes s = record s { sent = record { bytes = bytes; rows = s.attempts } ∷ s.sent }

module _ (deps : Deps) (hooks : ChainWriteHooks) (attempt : Attempt) (hash : Text) where
  submitted_only :
      (s : Store) (id : ℕ) (code : FailureCode)
      → (mark_submitted hooks attempt hash s).0 ≢ ok (has_failed id code)
  unfolding mark_submitted ◌>>=◌
  submitted_only s id code h = ground arith

  rejected_only :
      (s : Store) (class : BroadcastErrorClass) (id : ℕ) (code : FailureCode)
      → (on_broadcast_error hooks attempt hash class s).0 ≡ ok (has_failed id code)
      → (class ≡ deterministic_rejection) × (code ≡ broadcast_rejected)
  unfolding on_broadcast_error ◌>>=◌
  rejected_only s already_known id code h = absurd (submitted_only s id code h)
  rejected_only s deterministic_rejection id code h = (refl, ground arith)
  rejected_only s ambiguous id code h = ground arith

  replied :
      (s : Store) (reply : NodeReply) (id : ℕ) (code : FailureCode)
      → (after_send hooks attempt hash reply s).0 ≡ ok (has_failed id code)
      → (message : Text) × (reply ≡ errored message)
        × (classify_broadcast_error message ≡ deterministic_rejection)
        × (code ≡ broadcast_rejected)
  unfolding after_send
  replied s accepted id code h = absurd (submitted_only s id code h)
  replied s (errored message) id code h =
      let (c, k) = rejected_only s _ id code h in (message, refl, c, k)

  -- The writer reports a broadcast as failed in two cases only: the attempt is gone or replaced,
  -- and then nothing is sent and nothing changes; or the node answered with an error that proves
  -- that it refused the bytes.
  pub failed_broadcast_is_proved :
      (bytes : Text) (s : Store) (id : ℕ) (code : FailureCode)
      → (broadcast deps hooks attempt bytes hash s).0 ≡ ok (has_failed id code)
      → ((is_superseded (find_row (has_id attempt.id) s.attempts) ≡ true)
          × ((broadcast deps hooks attempt bytes hash s).1 ≡ s)
          × (code ≡ attempt_superseded))
        ⊎ ((message : Text) × ((deps.ports.broadcast_raw_transaction bytes (handed bytes s)).0
              ≡ ok (errored message))
            × (classify_broadcast_error message ≡ deterministic_rejection)
            × (code ≡ broadcast_rejected))
  unfolding broadcast find_attempt_by_id send note_dispatch ◌>>=◌
  failed_broadcast_is_proved bytes s id code h =
      elim (Bool-cases (is_superseded (find_row (has_id attempt.id) s.attempts))) [
        | inl b ↦ inl (b, ground (arith, b), ground (arith, b, h))
        | inr b ↦ inr (
            answer (deps.ports.broadcast_raw_transaction bytes (handed bytes s)) refl
              (ground (arith, b, h)))
      ]
    where
      answer :
          (r : Result NodeReply × Store)
          → deps.ports.broadcast_raw_transaction bytes (handed bytes s) ≡ r
          → (continue r (after_send hooks attempt hash)).0 ≡ ok (has_failed id code)
          → (message : Text) × ((deps.ports.broadcast_raw_transaction bytes (handed bytes s)).0
              ≡ ok (errored message))
            × (classify_broadcast_error message ≡ deterministic_rejection)
            × (code ≡ broadcast_rejected)
      answer (ok reply, t) e k =
          let (message, m, c, q) = replied t reply id code k in
          (message, ap (λ x. x.0) e ∙ ap ok m, c, q)
      answer (err x, t) e k = ground arith

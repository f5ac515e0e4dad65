-- ===== src/Transactions/ChainWriter/Sending.antt =====
-- src/modules/transactions/chain-writer.ts: `broadcast` and what it calls.
use institutional_tokenizati.Base.{
  Bool, true, false, ◌||◌, Option, none, some, ◌∷◌, Text, codes, to_lower, includes, if◌then◌else◌,
}
use institutional_tokenizati.Db.{
  Attempt, AttemptStatus, FailureCode, broadcast_rejected, broadcast_ambiguous, attempt_superseded,
  Action, Done, pure, modify, transaction, ◌>>=◌, ◌>>◌, attempt_status_eq, replaced,
  broadcast_unknown, submitted,
}
use institutional_tokenizati.Repo.Attempts.{find_attempt_by_id, update_attempt_status}
use institutional_tokenizati.Transactions.ChainWriter.Interface.{
  Deps, ChainWriteHooks, ChainWriteOutcome, is_submitted, is_unknown, has_failed, NodeReply,
  accepted, errored,
}

pub data BroadcastErrorClass : Type 0 where
  already_known deterministic_rejection ambiguous : BroadcastErrorClass

-- The first test of `classifyBroadcastError`
unfoldable pub is_known_message : Text → Bool
is_known_message message =
    includes message (codes "already known")
    || (includes message (codes "already imported")
        || includes message (codes "transaction already exists"))

-- Its last test
unfoldable pub is_rejection_message : Text → Bool
is_rejection_message message =
    includes message (codes "intrinsic gas too low")
    || (includes message (codes "exceeds block gas limit")
        || (includes message (codes "invalid sender")
            || (includes message (codes "rlp")
                || (includes message (codes "invalid signature")
                    || (includes message (codes "insufficient funds")
                        || (includes message (codes "max fee per gas less than block base fee")
                            || includes message (codes "transaction type not supported")))))))

-- `classifyBroadcastError` of the error's message
unfoldable pub classify_broadcast_error : Text → BroadcastErrorClass
unfolding is_known_message is_rejection_message
classify_broadcast_error text =
    let message = to_lower text in
    if is_known_message message
    then already_known
    else if includes message (codes "nonce too low")
    then ambiguous
    else if is_rejection_message message
    then deterministic_rejection
    else ambiguous

unfoldable pub fail_attempt : ChainWriteHooks → Attempt → FailureCode → Action Done
fail_attempt hooks attempt code = transaction (do
  update_attempt_status attempt.id AttemptStatus.failed (some code) false
  hooks.on_failed attempt code)

unfoldable pub mark_submitted : ChainWriteHooks → Attempt → Text → Action ChainWriteOutcome
mark_submitted hooks attempt hash = do
  transaction
      (do update_attempt_status attempt.id submitted none false; hooks.on_submitted attempt hash)
  pure (is_submitted attempt.id hash)

-- `catch (error)` of the broadcast, by the class of the error
unfoldable pub on_broadcast_error :
    ChainWriteHooks → Attempt → Text → BroadcastErrorClass → Action ChainWriteOutcome
unfolding mark_submitted fail_attempt
on_broadcast_error hooks attempt hash already_known = mark_submitted hooks attempt hash
on_broadcast_error hooks attempt hash deterministic_rejection = do
  fail_attempt hooks attempt broadcast_rejected
  pure (has_failed attempt.id broadcast_rejected)
on_broadcast_error hooks attempt hash ambiguous = do
  transaction (do
    update_attempt_status attempt.id broadcast_unknown (some broadcast_ambiguous) false
    hooks.on_broadcast_unknown attempt)
  pure (is_unknown attempt.id hash)

unfoldable pub after_send : ChainWriteHooks → Attempt → Text → NodeReply → Action ChainWriteOutcome
unfolding mark_submitted on_broadcast_error
after_send hooks attempt hash accepted = mark_submitted hooks attempt hash
after_send hooks attempt hash (errored message) =
    on_broadcast_error hooks attempt hash (classify_broadcast_error message)

-- Handing bytes to the node: the store notes the bytes and the attempts as they are.
unfoldable pub note_dispatch : Text → Action Done
note_dispatch bytes =
    modify λ s. record s { sent = record { bytes = bytes; rows = s.attempts } ∷ s.sent }

unfoldable pub send : Deps → ChainWriteHooks → Attempt → Text → Text → Action ChainWriteOutcome
unfolding note_dispatch after_send
send deps hooks attempt bytes hash = do
  note_dispatch bytes
  reply ← deps.ports.broadcast_raw_transaction bytes
  after_send hooks attempt hash reply

-- `current === null || current.status === REPLACED`
unfoldable pub is_superseded : Option Attempt → Bool
is_superseded none = true
is_superseded (some current) = attempt_status_eq current.status replaced

unfoldable pub broadcast : Deps → ChainWriteHooks → Attempt → Text → Text → Action ChainWriteOutcome
unfolding send is_superseded
broadcast deps hooks attempt bytes hash = do
  current ← find_attempt_by_id attempt.id
  if is_superseded current
      then pure (has_failed attempt.id attempt_superseded)
      else send deps hooks attempt bytes hash

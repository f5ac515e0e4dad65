-- ===== src/Dispatch/Defs.antt =====
-- src/modules/outbox/outbox-dispatcher.ts: `dispatchOnce` and `publish`. The timer, the flag that
-- keeps one dispatcher from running twice at once and the metrics are left out.
use institutional_tokenizati.Base.{ℕ, Option, none, some, List, [], ◌∷◌, length}
use institutional_tokenizati.Domain.Errors.{plain_error}
use institutional_tokenizati.Db.{
  OutboxRow, Action, Done, pure, throw, transaction, try_catch, ◌>>=◌, ◌>>◌,
}
use institutional_tokenizati.Repo.Outbox.{
  claim_pending_outbox, mark_outbox_dispatched, reschedule_outbox,
}

-- The job of an outbox row
pub record Job : Type 0 where
  pub operation_id : ℕ
  pub outbox_id : ℕ
  pub correlation_id : ℕ

-- The queue is a parameter: `queue.add` may throw. The lease is that of `claimPendingOutbox`.
pub record DispatcherDeps : Type 0 where
  pub queue_add : Job → Action Done
  pub batch_size : ℕ
  pub lease : ℕ
  pub retry_after_ms : ℕ

-- `publish` of an 'operation.ready' row
unfoldable pub publish_payload : DispatcherDeps → OutboxRow → Option ℕ → Action Done
publish_payload deps row none = throw plain_error
publish_payload deps row (some operation_id) = deps.queue_add (record {
  operation_id = operation_id;
  outbox_id = row.id;
  correlation_id = row.correlation_id;
})

unfoldable pub publish : DispatcherDeps → OutboxRow → Action Done
unfolding publish_payload
publish deps row = publish_payload deps row row.payload_operation_id

-- One turn of the loop: the identifiers to mark
unfoldable pub publish_or_reschedule : DispatcherDeps → ℕ → OutboxRow → Action (List ℕ)
unfolding publish
publish_or_reschedule deps token row =
    try_catch (do publish deps row; pure (row.id ∷ []))
      (λ e. do reschedule_outbox row.id token deps.retry_after_ms; pure [])

abbrev pub with_id : List ℕ → List ℕ → List ℕ
with_id [] dispatched = dispatched
with_id (id ∷ ids) dispatched = id ∷ with_id ids dispatched

unfoldable pub publish_each : DispatcherDeps → ℕ → List OutboxRow → Action (List ℕ)
unfolding publish_or_reschedule
publish_each deps token [] = pure []
publish_each deps token (row ∷ rest) = do
  done ← publish_or_reschedule deps token row
  others ← publish_each deps token rest
  pure (with_id done others)

-- The part of `dispatchOnce` after the claim
unfoldable pub dispatch_claimed : DispatcherDeps → ℕ → List OutboxRow → Action ℕ
unfolding publish_each
dispatch_claimed deps token [] = pure 0
dispatch_claimed deps token (row ∷ rest) = do
  dispatched ← publish_each deps token (row ∷ rest)
  mark_outbox_dispatched dispatched token
  pure (length dispatched)

unfoldable pub dispatch_once : DispatcherDeps → Action ℕ
unfolding dispatch_claimed
dispatch_once deps = do
  (token, claimed) ← transaction (claim_pending_outbox deps.batch_size deps.lease)
  dispatch_claimed deps token claimed

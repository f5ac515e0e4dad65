-- ===== src/Dispatch/Undispatched.antt =====
-- src/modules/outbox/outbox-dispatcher.ts: publishing makes no row dispatched by itself.
use institutional_tokenizati.Base.{
  ◌≢◌, ◌+◌, ◌∙◌, Bool, find_row, find_row-update_rows, option_map, touch, ℕ, ◌≡◌, refl, ap, inl,
  inr, Option, none, some, List, [], ◌∷◌, ◌==◌, Bool-cases,
}
use institutional_tokenizati.Db.{Store, OutboxRow, OutboxStatus}
use institutional_tokenizati.Db.Within.{
  Within, IsPreorder, Within-pure, Within-bind, Within-throw, Within-modify, within_rules,
}
use institutional_tokenizati.Repo.Outbox.{reschedule_outbox, write_rescheduled, holds_claim}
use institutional_tokenizati.Dispatch.Defs.{
  DispatcherDeps, publish_payload, publish, publish_or_reschedule, publish_each, Job,
}

abbrev pub has_row_id : ℕ → OutboxRow → Bool
has_row_id id row = row.id == id

-- A row of the outbox that is not dispatched does not become so.
pub record KeepsUndispatched (s t : Store) : Type 0 where
  pub kept :
      (id : ℕ) (r : OutboxRow)
      → find_row (has_row_id id) s.outbox ≡ some r
      → r.status ≢ OutboxStatus.dispatched
      → (q : OutboxRow) × (find_row (has_row_id id) t.outbox ≡ some q)
        × (q.status ≢ OutboxStatus.dispatched)

pub KeepsUndispatched-IsPreorder : IsPreorder KeepsUndispatched
KeepsUndispatched-IsPreorder = record {
  same = λ s. record { kept = λ id r f n. (r, f, n) };
  join =
      λ s t u h k. record { kept = λ id r f n. let (q, g, m) = h.kept id r f n in k.kept id q g m };
}

rescheduled_open :
    (test : OutboxRow → Bool) (at : ℕ) (r : OutboxRow)
    → r.status ≢ OutboxStatus.dispatched
    → (touch test (write_rescheduled at) r).status ≢ OutboxStatus.dispatched
unfolding write_rescheduled
rescheduled_open test at r n = elim (Bool-cases (test r)) [
  | inl h ↦ rw h (λ e. cc)
  | inr h ↦ rw h n
]

rescheduled_id : (at : ℕ) (r : OutboxRow) → (write_rescheduled at r).id ≡ r.id
unfolding write_rescheduled
rescheduled_id at r = refl

reschedule_outbox-KeepsUndispatched :
    (id token after : ℕ) → Within KeepsUndispatched (reschedule_outbox id token after)
unfolding reschedule_outbox
reschedule_outbox-KeepsUndispatched id token after =
    Within-modify KeepsUndispatched-IsPreorder _ (λ s. record {
      kept = λ i r f n. (
        touch (holds_claim id token) (write_rescheduled (s.now + after)) r,
        find_row-update_rows (has_row_id i) (holds_claim id token)
              (write_rescheduled (s.now + after)) s.outbox
              (λ a. ap (λ k. k == i) (rescheduled_id (s.now + after) a))
            ∙ ap (option_map (touch (holds_claim id token) (write_rescheduled (s.now + after)))) f,
        rescheduled_open (holds_claim id token) (s.now + after) r n,
      );
    })

module _ (deps : DispatcherDeps) (token : ℕ)
    (queue : (job : Job) → Within KeepsUndispatched (deps.queue_add job)) where
  publish_payload-KeepsUndispatched :
      (row : OutboxRow) (p : Option ℕ) → Within KeepsUndispatched (publish_payload deps row p)
  unfolding publish_payload
  publish_payload-KeepsUndispatched row none = Within-throw KeepsUndispatched-IsPreorder _
  publish_payload-KeepsUndispatched row (some operation_id) = queue _

  publish-KeepsUndispatched : (row : OutboxRow) → Within KeepsUndispatched (publish deps row)
  unfolding publish
  publish-KeepsUndispatched row = publish_payload-KeepsUndispatched row _

  publish_or_reschedule-KeepsUndispatched :
      (row : OutboxRow) → Within KeepsUndispatched (publish_or_reschedule deps token row)
  unfolding publish_or_reschedule
  publish_or_reschedule-KeepsUndispatched row =
      search
        (
          within_rules, KeepsUndispatched-IsPreorder, publish-KeepsUndispatched,
          reschedule_outbox-KeepsUndispatched,
        )
        depth 20

  pub publish_each-KeepsUndispatched :
      (rows : List OutboxRow) → Within KeepsUndispatched (publish_each deps token rows)
  unfolding publish_each
  publish_each-KeepsUndispatched [] = Within-pure KeepsUndispatched-IsPreorder _
  publish_each-KeepsUndispatched (row ∷ rest) =
      Within-bind KeepsUndispatched-IsPreorder _ _ (publish_or_reschedule-KeepsUndispatched row)
        (λ done.
          Within-bind KeepsUndispatched-IsPreorder _ _ (publish_each-KeepsUndispatched rest)
            (λ others. Within-pure KeepsUndispatched-IsPreorder _))

-- ===== src/Dispatch/Published.antt =====
-- src/modules/outbox/outbox-dispatcher.ts: a row is only marked once its job was accepted.
use mathlib.Core.Path.{subst}
use institutional_tokenizati.Base.{
  IsRow, newest, older, ◌≢◌, ◌∙◌, sym, Bool, find_row, find_row_sound, find_row-update_rows,
  option_map, touch, ℕ, ◌≡◌, refl, ap, ◌⊎◌, inl, inr, true, Option, none, some, List, [], ◌∷◌,
  arith, any, ◌==◌, ==_iff, Bool-cases,
}
use institutional_tokenizati.Db.{
  Store, OutboxRow, OutboxStatus, Result, ok, err, Done, pure, throw, try_catch, modify, recover,
  continue, ◌>>=◌,
}
use institutional_tokenizati.Db.Atomic.{>>=-ok, >>=-eq-ok}
use institutional_tokenizati.Db.Within.{Within}
use institutional_tokenizati.Repo.Outbox.{
  reschedule_outbox, holds_claim, mark_outbox_dispatched, write_dispatched,
}
use institutional_tokenizati.Dispatch.Defs.{
  DispatcherDeps, publish_payload, publish, publish_or_reschedule, publish_each, dispatch_claimed,
  Job,
}
use institutional_tokenizati.Dispatch.Undispatched.{
  has_row_id, KeepsUndispatched, publish_each-KeepsUndispatched,
}

-- The queue accepted the job of one of the rows, for the operation that the row names, at some store
-- on the way; the row has this identifier.
pub record IsAccepted (deps : DispatcherDeps) (rows : List OutboxRow) (id : ℕ) : Type 0 where
  pub row : OutboxRow
  pub operation_id : ℕ
  pub claimed : IsRow row rows
  pub same : row.id ≡ id
  pub of_operation : row.payload_operation_id ≡ some operation_id
  pub accepted :
      (t : Store) × (u : Store) × (deps.queue_add
          (record {
            operation_id = operation_id;
            outbox_id = row.id;
            correlation_id = row.correlation_id;
          })
          t
        ≡ (ok tt, u))

published :
    (deps : DispatcherDeps) (row : OutboxRow) (s : Store)
    → (publish deps row s).0 ≡ ok tt
    → IsAccepted deps (row ∷ []) row.id
unfolding publish publish_payload throw
published deps row s e = go row.payload_operation_id refl e
  where
    go :
        (p : Option ℕ)
        → row.payload_operation_id ≡ p
        → (publish_payload deps row p s).0 ≡ ok tt
        → IsAccepted deps (row ∷ []) row.id
    go none names k = cc
    go (some operation_id) names k = record {
      row = row;
      operation_id = operation_id;
      claimed = newest;
      same = refl;
      of_operation = names;
      accepted = (
        s,
        _,
        ap
            (λ r. (
              r,
              (deps.queue_add
                  (record {
                    operation_id = operation_id;
                    outbox_id = row.id;
                    correlation_id = row.correlation_id;
                  })
                  s).1,
            ))
            k,
      );
    }

-- What one turn marks
marked :
    (deps : DispatcherDeps) (token : ℕ) (row : OutboxRow) (s : Store) (ids : List ℕ)
    → (publish_or_reschedule deps token row s).0 ≡ ok ids
    → (ids ≡ []) ⊎ ((ids ≡ row.id ∷ []) × IsAccepted deps (row ∷ []) row.id)
unfolding publish_or_reschedule reschedule_outbox try_catch modify pure ◌>>=◌
marked deps token row s ids = go (publish deps row s) (λ h. published deps row s h)
  where
    go :
        (r : Result Done × Store)
        → (r.0 ≡ ok tt → IsAccepted deps (row ∷ []) row.id)
        → (recover
            (λ e s'.
              continue (reschedule_outbox row.id token deps.retry_after_ms s') (λ _ t. (ok [], t)))
            (continue r (λ _ t. (ok (row.id ∷ []), t)))).0
          ≡ ok ids
        → (ids ≡ []) ⊎ ((ids ≡ row.id ∷ []) × IsAccepted deps (row ∷ []) row.id)
    go (ok a, t) k e = inr (ground (arith, e), k refl)
    go (err x, t) k e = inl (ground (arith, e))

-- A claim of fewer rows is one of more rows.
among :
    (deps : DispatcherDeps) (rows more : List OutboxRow) (id : ℕ)
    → ((row : OutboxRow) → IsRow row rows → IsRow row more)
    → IsAccepted deps rows id
    → IsAccepted deps more id
among deps rows more id h a = record {
  row = a.row;
  operation_id = a.operation_id;
  claimed = h a.row a.claimed;
  same = a.same;
  of_operation = a.of_operation;
  accepted = a.accepted;
}

first_only : (row q : OutboxRow) (rest : List OutboxRow) → IsRow q (row ∷ []) → IsRow q (row ∷ rest)
first_only row q rest newest = newest
first_only row q rest (older h) = elim h [ ]

published_rows :
    (deps : DispatcherDeps) (token : ℕ) (rows : List OutboxRow) (s : Store) (ids : List ℕ) (id : ℕ)
    → (publish_each deps token rows s).0 ≡ ok ids
    → any (λ i. i == id) ids ≡ true
    → IsAccepted deps rows id
unfolding publish_each pure
published_rows deps token [] s ids id e h = ground (arith, e, h)
published_rows deps token (row ∷ rest) s ids id e h =
    let (done, t, i, e1) = >>=-ok (publish_or_reschedule deps token row) _ s ids e in
    let (others, u, j, e2) = >>=-ok (publish_each deps token rest) _ t ids e1 in
    let later : any (λ k. k == id) others ≡ true → IsAccepted deps (row ∷ rest) id = λ q.
      among deps rest (row ∷ rest) id (λ k p. older p)
        (published_rows deps token rest t others id (ap (λ r. r.0) j) q) in
    elim (marked deps token row s done (ap (λ r. r.0) i)) [
      | inl none_marked ↦ later (ground (arith, none_marked, e2, h))
      | inr (one, a) ↦ elim (Bool-cases (row.id == id)) [
        | inl same ↦
            subst (IsAccepted deps (row ∷ rest)) ((==_iff row.id id).0 same)
              (among deps (row ∷ []) (row ∷ rest) row.id (λ k p. first_only row k rest p) a)
        | inr other ↦ later (ground (arith, one, e2, h, other))
      ]
    ]

module _ (deps : DispatcherDeps) (token : ℕ)
    (queue : (job : Job) → Within KeepsUndispatched (deps.queue_add job)) where
  held_marked :
      (id : ℕ) (r : OutboxRow) (ids : List ℕ)
      → r.id ≡ id
      → any (λ i. holds_claim i token r) ids ≡ true
      → any (λ i. i == id) ids ≡ true
  held_marked id r [] e h = h
  held_marked id r (i ∷ ids) e h =
      ground (arith, e, h, ==_iff r.id i, ==_iff i id, held_marked id r ids e)

  -- What marking makes dispatched was to be marked.
  newly_marked :
      (id : ℕ) (u : Store) (ids : List ℕ) (r q : OutboxRow)
      → find_row (has_row_id id) u.outbox ≡ some r
      → r.status ≢ OutboxStatus.dispatched
      → find_row (has_row_id id) (mark_outbox_dispatched ids token u).1.outbox ≡ some q
      → q.status ≡ OutboxStatus.dispatched
      → any (λ i. i == id) ids ≡ true
  unfolding mark_outbox_dispatched write_dispatched modify
  newly_marked id u ids r q f n g d =
      let test : OutboxRow → Bool = λ row. any (λ i. holds_claim i token row) ids in
      let after =
        find_row-update_rows (has_row_id id) test write_dispatched u.outbox (λ a. refl)
        ∙ ap (option_map (touch test write_dispatched)) f in
      elim (Bool-cases (test r)) [
        | inl h ↦ held_marked id r ids ((==_iff r.id id).0 (find_row_sound _ u.outbox r f)) h
        | inr h ↦ absurd (n (ground (arith, g, after, h, d)))
      ]

  -- When a dispatcher has worked through the rows that it claimed, each row of the outbox that has
  -- become dispatched is a claimed row whose job, with the operation that the row names, the queue
  -- accepted before: a row whose publication failed is not marked. The queue's own calls are to make
  -- no row dispatched.
  pub marked_rows-IsAccepted :
      (rows : List OutboxRow) (s : Store) (n id : ℕ) (r q : OutboxRow)
      → (dispatch_claimed deps token rows s).0 ≡ ok n
      → find_row (has_row_id id) s.outbox ≡ some r
      → r.status ≢ OutboxStatus.dispatched
      → find_row (has_row_id id) (dispatch_claimed deps token rows s).1.outbox ≡ some q
      → q.status ≡ OutboxStatus.dispatched
      → IsAccepted deps rows id
  unfolding dispatch_claimed pure ◌>>=◌ mark_outbox_dispatched modify
  marked_rows-IsAccepted [] s n id r q e f open_row g d =
      absurd (open_row (ground (arith, f, g, d)))
  marked_rows-IsAccepted (row ∷ rest) s n id r q e f open_row g d =
      let (ids, u, i, all) = >>=-eq-ok (publish_each deps token (row ∷ rest)) _ s n e in
      let (x, at, still_open) =
        ((publish_each-KeepsUndispatched deps token queue (row ∷ rest)).at s).kept id r f
          open_row in
      let here : find_row (has_row_id id) u.outbox ≡ some x =
        ap (λ y. find_row (has_row_id id) y.1.outbox) (sym i) ∙ at in
      published_rows deps token (row ∷ rest) s ids id (ap (λ y. y.0) i) (
        newly_marked id u ids x q here still_open
          (ap (λ y. find_row (has_row_id id) y.1.outbox) (sym all) ∙ g) d)

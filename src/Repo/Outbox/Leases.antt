-- ===== src/Repo/Outbox/Leases.antt =====
-- src/db/repositories/outbox-repository.ts: a row under a lease belongs to one dispatcher.
use institutional_tokenizati.Base.{
  ℕ, zero, suc, ◌+◌, ◌<◌, ◌≡◌, ◌≢◌, refl, sym, ap, ◌∙◌, Bool, true, false, ◌&&◌, ◌||◌, Option, none,
  some, List, [], ◌∷◌, arith, ◌==◌, ==_iff, any, find_row, find_row-update_rows, update_rows,
  select_rows, map, option_eq,
}
use institutional_tokenizati.Db.{Store, OutboxRow, ok, modify, ◌>>=◌}
use institutional_tokenizati.Repo.Outbox.{
  is_due, take, insert_by_due, sort_by_due, write_claim, in_rows, claim_pending_outbox, holds_claim,
  write_dispatched, mark_outbox_dispatched, write_rescheduled, reschedule_outbox,
}

abbrev pub with_id : ℕ → OutboxRow → Bool
with_id id r = r.id == id

any_insert :
    (p : OutboxRow → Bool) (r : OutboxRow) (rows : List OutboxRow)
    → any p (insert_by_due r rows) ≡ (p r || any p rows)
unfolding insert_by_due
any_insert p r [] = refl
any_insert p r (q ∷ rows) = ground (arith, any_insert p r rows)

any_sort : (p : OutboxRow → Bool) (rows : List OutboxRow) → any p (sort_by_due rows) ≡ any p rows
unfolding sort_by_due
any_sort p [] = refl
any_sort p (r ∷ rows) = any_insert p r (sort_by_due rows) ∙ ap (λ b. p r || b) (any_sort p rows)

any-take :
    (p : OutboxRow → Bool) (n : ℕ) (rows : List OutboxRow)
    → any p rows ≡ false
    → any p (take n rows) ≡ false
unfolding take
any-take p zero rows h = refl
any-take p (suc n) [] h = refl
any-take p (suc n) (r ∷ rows) h = ground (arith, any-take p n rows)

any_select :
    (p q : OutboxRow → Bool) (rows : List OutboxRow)
    → any (λ r. q r && p r) rows ≡ false
    → any p (select_rows q rows) ≡ false
unfolding select_rows
any_select p q [] h = refl
any_select p q (r ∷ rows) h = ground (arith, any_select p q rows)

-- A row that was just claimed is not due before its lease ends.
fresh_claim :
    (token expires now : ℕ) (r : OutboxRow)
    → now < expires
    → is_due now (write_claim token expires r) ≡ false
unfolding is_due write_claim
fresh_claim token expires now r h = ground arith

-- No row with an identifier that was claimed is due while the lease runs.
none_due :
    (claimed : List OutboxRow) (token expires now id : ℕ) (rows : List OutboxRow)
    → now < expires
    → any (with_id id) claimed ≡ true
    → any
        (λ r. is_due now r && with_id id r)
        (update_rows (in_rows claimed) (write_claim token expires) rows)
      ≡ false
unfolding update_rows
none_due claimed token expires now id [] h m = refl
none_due claimed token expires now id (r ∷ rows) h m = ground (
  arith,
  fresh_claim token expires now r h,
  same r,
  none_due claimed token expires now id rows h m,
)
  where
    same : (r : OutboxRow) → (r.id == id) ≡ true → in_rows claimed r ≡ true
    same r e = ap (λ i. any (λ c. c.id == i) claimed) ((==_iff r.id id).0 e) ∙ m

any-map :
    (p : OutboxRow → Bool) (f : OutboxRow → OutboxRow) (rows : List OutboxRow)
    → ((r : OutboxRow) → p (f r) ≡ p r)
    → any p (map f rows) ≡ any p rows
any-map p f [] h = refl
any-map p f (r ∷ rows) h = ground (arith, h r, any-map p f rows h)

-- The rows that a claim takes, before it writes them
abbrev pub candidates : ℕ → Store → List OutboxRow
candidates limit s = take limit (sort_by_due (select_rows (is_due s.now) s.outbox))

claimed_rows :
    (limit lease : ℕ) (s t : Store) (token : ℕ) (rows : List OutboxRow)
    → claim_pending_outbox limit lease s ≡ (ok (token, rows), t)
    → (rows ≡ map (write_claim token (s.now + lease)) (candidates limit s))
      × (t.outbox
          ≡ update_rows (in_rows (candidates limit s)) (write_claim token (s.now + lease)) s.outbox)
unfolding claim_pending_outbox ◌>>=◌
claimed_rows limit lease s t token rows h = ground arith

no_candidate :
    (limit id : ℕ) (s : Store)
    → any (λ r. is_due s.now r && with_id id r) s.outbox ≡ false
    → any (with_id id) (candidates limit s) ≡ false
no_candidate limit id s h =
    any-take (with_id id) limit _
      (any_sort (with_id id) _ ∙ any_select (with_id id) (is_due s.now) s.outbox h)

-- Two dispatchers never hold a row at the same time: what one claim returned, a later claim does
-- not return while the lease of the first runs, by the clock of the database, if nothing else
-- wrote the outbox in between.
pub leased_rows_not_claimed :
    (limit lease other longer : ℕ) (s t u v : Store) (token token' : ℕ)
    (rows rows' : List OutboxRow) (id : ℕ)
    → claim_pending_outbox limit lease s ≡ (ok (token, rows), t)
    → u.outbox ≡ t.outbox
    → u.now < s.now + lease
    → claim_pending_outbox other longer u ≡ (ok (token', rows'), v)
    → any (with_id id) rows ≡ true
    → any (with_id id) rows' ≡ false
unfolding write_claim
leased_rows_not_claimed limit lease other longer s t u v token token' rows rows' id first same runs
      second held =
    let (got, left) = claimed_rows limit lease s t token rows first in
    let (gets', _) = claimed_rows other longer u v token' rows' second in
    let mine =
      sym
        (any-map (with_id id) (write_claim token (s.now + lease)) (candidates limit s) (λ r. refl))
      ∙ (ap (any (with_id id)) (sym got) ∙ held) in
    let none_left =
      none_due (candidates limit s) token (s.now + lease) u.now id s.outbox runs mine in
    let theirs =
      no_candidate other id u
        (ap (any (λ r. is_due u.now r && with_id id r)) (same ∙ left) ∙ none_left) in
    ap (any (with_id id)) gets'
    ∙ (any-map (with_id id) (write_claim token' (u.now + longer)) (candidates other u) (λ r. refl)
        ∙ theirs)

not_held :
    (token : ℕ) (r : OutboxRow) (ids : List ℕ)
    → r.claim_token ≢ some token
    → any (λ id. holds_claim id token r) ids ≡ false
not_held token r [] h = refl
not_held token r (id ∷ ids) h =
    ground (arith, token_differs r.claim_token h, not_held token r ids h)
  where
    token_differs : (o : Option ℕ) → o ≢ some token → option_eq ◌==◌ o (some token) ≡ false
    token_differs none k = refl
    token_differs (some x) k = ground arith

-- A dispatcher whose claim has moved on changes nothing: a row that is held under another token,
-- or under none, is as it was after it is marked as dispatched or rescheduled with the old one.
stale_token_ignored :
    (s : Store) (r : OutboxRow) (id token retry_after : ℕ) (ids : List ℕ)
    → find_row (with_id id) s.outbox ≡ some r
    → r.claim_token ≢ some token
    → (find_row (with_id id) (mark_outbox_dispatched ids token s).1.outbox ≡ some r)
      × (find_row (with_id id) (reschedule_outbox id token retry_after s).1.outbox ≡ some r)
unfolding mark_outbox_dispatched reschedule_outbox write_dispatched write_rescheduled modify
stale_token_ignored s r id token retry_after ids found stale = (
  find_row-update_rows (with_id id) (λ row. any (λ i. holds_claim i token row) ids) write_dispatched
        s.outbox (λ a. refl)
      ∙ ground (arith, found, not_held token r ids stale),
  find_row-update_rows (with_id id) (holds_claim id token) (write_rescheduled (s.now + retry_after))
        s.outbox (λ a. refl)
      ∙ ground (arith, found, not_held token r (id ∷ []) stale),
)

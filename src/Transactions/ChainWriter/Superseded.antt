-- ===== src/Transactions/ChainWriter/Superseded.antt =====
-- src/modules/transactions/chain-writer.ts: the rows that superseding an attempt leaves.
use institutional_tokenizati.Base.{
  find_row, ==_refl, ℕ, suc, ◌<◌, ◌≡◌, refl, ◌∙◌, some, List, [], ◌∷◌, arith, update_rows,
  count_rows, count_rows-update_rows,
}
use institutional_tokenizati.Db.{Store, Attempt, ReplacementReason, attempt_status_eq, ok, ◌>>=◌}
use institutional_tokenizati.Repo.Attempts.{
  InsertAttemptInput, prepared_row, insert_prepared_attempt, is_not_replaced, write_replaced,
  write_link, has_id, update_attempts, retire_attempt_for_replacement, link_attempt_replacement,
}
use institutional_tokenizati.Transactions.ChainWriter.Interface.{ChainWriteHooks}
use institutional_tokenizati.Transactions.ChainWriter.Writes.{supersede}

pub supersede_row :
    (hooks : ChainWriteHooks) (previous : Attempt) (input : InsertAttemptInput)
    (reason : ReplacementReason) (s : Store) (a : Attempt)
    → (supersede hooks previous input reason s).0 ≡ ok a
    → a ≡ prepared_row s.next_id s.now input
unfolding supersede retire_attempt_for_replacement update_attempts insert_prepared_attempt
    link_attempt_replacement ◌>>=◌
supersede_row hooks previous input reason s a h = ground arith

-- The rows of a replacement, before its hook runs
abbrev pub superseded_rows : Attempt → InsertAttemptInput → ReplacementReason → Store → List Attempt
superseded_rows previous input reason s =
    update_rows (has_id previous.id) (write_link s.next_id s.clock) (
      prepared_row s.next_id s.now input
      ∷ update_rows (is_not_replaced previous.id) (write_replaced reason s.clock) s.attempts)

pub supersede_store :
    (hooks : ChainWriteHooks) (previous : Attempt) (input : InsertAttemptInput)
    (reason : ReplacementReason) (s t : Store) (a : Attempt)
    → supersede hooks previous input reason s ≡ (ok a, t)
    → (u : Store) × (u.attempts ≡ superseded_rows previous input reason s)
      × (t ≡ (hooks.on_prepared a u).1)
unfolding supersede retire_attempt_for_replacement update_attempts insert_prepared_attempt
    link_attempt_replacement ◌>>=◌
supersede_store hooks previous input reason s t a h = (
  record s { attempts = superseded_rows previous input reason s; next_id = suc s.next_id },
  refl,
  ground arith,
)

pub row_found :
    (previous : Attempt) (input : InsertAttemptInput) (reason : ReplacementReason) (s : Store)
    → previous.id < s.next_id
    → find_row (has_id s.next_id) (superseded_rows previous input reason s)
      ≡ some (prepared_row s.next_id s.now input)
unfolding find_row update_rows prepared_row
row_found previous input reason s h = ground (arith, ==_refl s.next_id)

retired_count :
    (id at : ℕ) (reason : ReplacementReason) (rows : List Attempt)
    → count_rows
        (is_not_replaced id)
        (update_rows (is_not_replaced id) (write_replaced reason at) rows)
      ≡ 0
unfolding count_rows update_rows write_replaced attempt_status_eq
retired_count id at reason [] = refl
retired_count id at reason (a ∷ rows) = ground (arith, retired_count id at reason rows)

pub superseded_count :
    (previous : Attempt) (input : InsertAttemptInput) (reason : ReplacementReason) (s : Store)
    → previous.id < s.next_id
    → count_rows (is_not_replaced previous.id) (superseded_rows previous input reason s) ≡ 0
unfolding count_rows update_rows write_link prepared_row
superseded_count previous input reason s h =
    count_rows-update_rows (is_not_replaced previous.id) (has_id previous.id)
      (write_link s.next_id s.clock)
      (prepared_row s.next_id s.now input
        ∷ update_rows (is_not_replaced previous.id) (write_replaced reason s.clock) s.attempts)
      (λ a _. refl)
    ∙ ground (arith, retired_count previous.id s.clock reason s.attempts)

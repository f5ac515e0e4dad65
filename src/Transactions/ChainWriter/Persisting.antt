-- ===== src/Transactions/ChainWriter/Persisting.antt =====
-- src/modules/transactions/chain-writer.ts: the transaction that makes the signed bytes durable.
use institutional_tokenizati.Base.{
  ℕ, ◌≡◌, refl, sym, ◌∙◌, Option, none, some, List, Text, to_lower, arith, find_row, find_row_sound,
  find_row-update_rows, update_rows, option_map, touch,
}
use institutional_tokenizati.Db.{
  Store, Attempt, Action, Done, Result, ok, err, transaction, ◌>>=◌, commit, continue,
}
use institutional_tokenizati.Db.Within.{Within, Within-modify, Within-bind}
use institutional_tokenizati.Repo.Attempts.{
  has_id, update_attempts, write_signed, persist_signed_attempt,
}
use institutional_tokenizati.Repo.Signers.{mark_signer_request_signed}
use institutional_tokenizati.Transactions.ChainWriter.Interface.{ChainWriteHooks}
use institutional_tokenizati.Transactions.ChainWriter.Signature.{store_signature}
use institutional_tokenizati.Transactions.ChainWriter.Steady.{
  Stores, Logged, IsSteady, Logged-IsPreorder, IsSteady-IsPreorder, leaves_attempts,
}
use institutional_tokenizati.Transactions.ChainWriter.Sends.{SteadyHooks}

written_row :
    (id : ℕ) (bytes hash : Text) (at : ℕ) (rows : List Attempt) (o : Option Attempt)
    → find_row (has_id id) rows ≡ o
    → (x : Attempt) → option_map (touch (has_id id) (write_signed bytes hash at)) o ≡ some x
    → x.signed_raw_transaction ≡ some (to_lower bytes)
unfolding write_signed
written_row id bytes hash at rows none e x h = ground arith
written_row id bytes hash at rows (some a) e x h =
    ground (arith, find_row_sound (has_id id) rows a e)

-- Rows that hold the bytes once the write is made
written-Stores :
    (id : ℕ) (bytes hash : Text) (s : Store)
    → Stores id bytes (record s {
      attempts = update_rows (has_id id) (write_signed bytes hash s.clock) s.attempts;
    })
unfolding write_signed
written-Stores id bytes hash s = record {
  holds = λ x f. written_row id bytes hash s.clock s.attempts _ refl x (
      sym (
        find_row-update_rows (has_id id) (has_id id) (write_signed bytes hash s.clock) s.attempts
          (λ a. refl))
      ∙ f);
}

-- What a write or a transaction leaves: the bytes are in the row when it returns.
record Persists {A : Type 0} (id : ℕ) (bytes : Text) (s : Store) (r : Result A × Store)
    : Type 0 where
  logged : Logged s r.1
  stores : (a : A) → r.0 ≡ ok a → Stores id bytes r.1

persist-Persists :
    (id : ℕ) (bytes hash : Text) (s : Store)
    → Persists id bytes s (persist_signed_attempt id bytes hash s)
unfolding persist_signed_attempt update_attempts ◌>>=◌
persist-Persists id bytes hash s = record {
  logged = record { sent = ground arith };
  stores = λ _ h. ground (arith, written-Stores id bytes hash s);
}

mark_signer_request_signed-IsSteady : (id : ℕ) → Within IsSteady (mark_signer_request_signed id)
unfolding mark_signer_request_signed
mark_signer_request_signed-IsSteady id =
    Within-modify IsSteady-IsPreorder _ (λ s. leaves_attempts s _ refl refl)

Persists-bind :
    {A B : Type 0} (id : ℕ) (bytes : Text) (m : Action A) (f : A → Action B) (s : Store)
    → Persists id bytes s (m s)
    → ((a : A) → Within IsSteady (f a))
    → Persists id bytes s ((m >>= f) s)
unfolding ◌>>=◌
Persists-bind id bytes m f s p w = go (m s) p
  where
    go : (r : Result _ × Store) → Persists id bytes s r → Persists id bytes s (continue r f)
    go (ok a, t) q = record {
      logged = Logged-IsPreorder.join s t _ q.logged (record { sent = ((w a).at t).sent });
      stores = λ b h. ((w a).at t).bytes id bytes (q.stores a refl);
    }
    go (err e, t) q = record { logged = q.logged; stores = λ b h. ground arith }

module _ {A : Type 0} (id : ℕ) (bytes : Text) (m : Action A) (s : Store) where
  Persists-transaction : Persists id bytes s (m s) → Persists id bytes s (transaction m s)
  unfolding transaction
  Persists-transaction p = go (m s) p
    where
      go : (r : Result A × Store) → Persists id bytes s r → Persists id bytes s (commit s r)
      go (ok a, t) q = q
      go (err e, t) q = record { logged = Logged-IsPreorder.same s; stores = λ b h. ground arith }

store_signature-Persists :
    (hooks : ChainWriteHooks)
    → SteadyHooks hooks
    → (attempt : Attempt) (signer_request_id : ℕ) (bytes hash : Text) (s : Store)
    → Persists attempt.id bytes s (store_signature hooks attempt signer_request_id bytes hash s)
unfolding store_signature
store_signature-Persists hooks steady attempt signer_request_id bytes hash s =
    Persists-transaction attempt.id bytes _ s (
      Persists-bind attempt.id bytes _ _ s (persist-Persists attempt.id bytes hash s) (λ _.
        Within-bind IsSteady-IsPreorder _ _ (mark_signer_request_signed-IsSteady signer_request_id)
          (λ _. steady.on_signed attempt)))

-- Whatever needs the bytes in the row may follow the transaction.
pub store_signature_then :
    {B : Type 0} (hooks : ChainWriteHooks)
    → SteadyHooks hooks
    → (attempt : Attempt) (signer_request_id : ℕ) (bytes hash : Text) (f : Done → Action B)
      (s : Store)
    → ((t : Store) → Stores attempt.id bytes t → Logged t (f tt t).1)
    → Logged s ((store_signature hooks attempt signer_request_id bytes hash >>= f) s).1
unfolding ◌>>=◌
store_signature_then hooks steady attempt signer_request_id bytes hash f s k =
    go _ (store_signature-Persists hooks steady attempt signer_request_id bytes hash s)
  where
    go : (r : Result Done × Store) → Persists attempt.id bytes s r → Logged s (continue r f).1
    go (ok a, t) q = Logged-IsPreorder.join s t _ q.logged (k t (q.stores a refl))
    go (err e, t) q = q.logged

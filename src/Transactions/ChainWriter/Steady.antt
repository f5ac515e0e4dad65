-- ===== src/Transactions/ChainWriter/Steady.antt =====
-- src/modules/transactions/chain-writer.ts: what the steps before a send leave as it was.
use mathlib.Core.Path.{subst}
use institutional_tokenizati.Base.{
  ℕ, ◌≡◌, ◌≢◌, refl, sym, ap, ◌∙◌, ◌⊎◌, inl, inr, Bool, Option, none, some, List, [], ◌∷◌, Text,
  to_lower, arith, ◌==◌, find_row, update_rows, find_row-update_rows, option_map, touch,
}
use institutional_tokenizati.Db.{
  Store, Attempt, Dispatch, AttemptStatus, FailureCode, replaced, Action, ◌>>=◌,
}
use institutional_tokenizati.Db.Within.{Within, IsPreorder}
use institutional_tokenizati.Repo.Attempts.{
  has_id, update_attempts, write_status, update_attempt_status,
}

-- The node was handed bytes that an attempt on record had, and the attempt was not replaced.
pub record IsDurable (d : Dispatch) : Type 0 where
  pub attempt : Attempt
  pub on_record : find_row (has_id attempt.id) d.rows ≡ some attempt
  pub stored : attempt.signed_raw_transaction ≡ some (to_lower d.bytes)
  pub live : attempt.status ≢ replaced

unfoldable pub AllDurable : List Dispatch → Type 0
AllDurable [] = Unit {0}
AllDurable (d ∷ ds) = IsDurable d × AllDurable ds

-- The row of an attempt, where there is one, holds the bytes.
pub record Stores (id : ℕ) (bytes : Text) (s : Store) : Type 0 where
  pub holds :
      (a : Attempt)
      → find_row (has_id id) s.attempts ≡ some a
      → a.signed_raw_transaction ≡ some (to_lower bytes)

-- Nothing but durable bytes is handed to the node.
pub record Logged (s t : Store) : Type 0 where
  pub sent : AllDurable s.sent → AllDurable t.sent

-- Besides, no stored bytes change.
pub record IsSteady (s t : Store) : Type 0 where
  pub sent : AllDurable s.sent → AllDurable t.sent
  pub bytes : (id : ℕ) (b : Text) → Stores id b s → Stores id b t

pub Logged-IsPreorder : IsPreorder Logged
Logged-IsPreorder = record {
  same = λ s. record { sent = λ h. h };
  join = λ s t u h k. record { sent = λ d. k.sent (h.sent d) };
}

pub IsSteady-IsPreorder : IsPreorder IsSteady
IsSteady-IsPreorder = record {
  same = λ s. record { sent = λ h. h; bytes = λ id b h. h };
  join = λ s t u h k. record {
    sent = λ d. k.sent (h.sent d);
    bytes = λ id b p. k.bytes id b (h.bytes id b p);
  };
}

pub Within-Logged : {A : Type 0} (m : Action A) → Within IsSteady m → Within Logged m
Within-Logged m h = record { at = λ s. record { sent = (h.at s).sent } }

-- A step that touches neither the attempts nor what was sent
pub leaves_attempts : (s t : Store) → t.attempts ≡ s.attempts → t.sent ≡ s.sent → IsSteady s t
leaves_attempts s t a e = record {
  sent = λ h. subst AllDurable (sym e) h;
  bytes = λ id b h. record { holds = λ x f. h.holds x (ap (find_row (has_id id)) (sym a) ∙ f) };
}

updated_store :
    (test : Attempt → Bool) (write : ℕ → Attempt → Attempt) (s : Store)
    → (((update_attempts test write s).1 ≡ s)
        ⊎ ((update_attempts test write s).1
            ≡ record s { attempts = update_rows test (write s.clock) s.attempts }))
unfolding update_attempts ◌>>=◌
updated_store test write s = ground arith

-- A write that changes no identifier and no stored bytes
pub update_attempts-IsSteady :
    (test : Attempt → Bool) (write : ℕ → Attempt → Attempt)
    → ((at : ℕ) (a : Attempt) → (write at a).id ≡ a.id)
    → ((at : ℕ) (a : Attempt) → (write at a).signed_raw_transaction ≡ a.signed_raw_transaction)
    → Within IsSteady (update_attempts test write)
update_attempts-IsSteady test write ids keeps = record {
  at = λ s. go s (update_attempts test write s).1 (updated_store test write s);
}
  where
    kept :
        (s : Store) (id : ℕ) (b : Text) (o : Option Attempt)
        → find_row (has_id id) s.attempts ≡ o
        → Stores id b s
        → (x : Attempt) → option_map (touch test (write s.clock)) o ≡ some x
        → x.signed_raw_transaction ≡ some (to_lower b)
    kept s id b none e h x f = ground arith
    kept s id b (some a) e h x f = ground (arith, h.holds a e, keeps s.clock a)

    go :
        (s t : Store)
        → ((t ≡ s) ⊎ (t ≡ record s { attempts = update_rows test (write s.clock) s.attempts }))
        → IsSteady s t
    go s t (inl e) = leaves_attempts s t (ap (λ x. x.attempts) e) (ap (λ x. x.sent) e)
    go s t (inr e) = record {
      sent = λ h. subst AllDurable (ap (λ x. x.sent) (sym e)) h;
      bytes = λ id b h. record {
        holds = λ x f. kept s id b _ refl h x (
            sym (
              find_row-update_rows (has_id id) test (write s.clock) s.attempts
                (λ a. ap (λ i. i == id) (ids s.clock a)))
            ∙ (ap (λ q. find_row (has_id id) q.attempts) (sym e) ∙ f));
      };
    }

pub update_attempt_status-IsSteady :
    (id : ℕ) (status : AttemptStatus) (code : Option FailureCode) (increment : Bool)
    → Within IsSteady (update_attempt_status id status code increment)
unfolding update_attempt_status write_status
update_attempt_status-IsSteady id status code increment =
    update_attempts-IsSteady (has_id id) (write_status status code increment) (λ at a. refl)
      (λ at a. refl)

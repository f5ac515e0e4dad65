-- ===== src/Recovery/Ends.antt =====
-- src/modules/transactions/recovery-service.ts: the calls of `abandonUnbroadcast` and
-- `resolveInFlight` come to an end.
use institutional_tokenizati.Base.{
  ℕ, suc, ◌≡◌, ◌≢◌, refl, sym, ap, ◌∙◌, false, not, Option, none, some, Text, arith, find_row,
  option_eq, ◌==◌, is_none, option_map, Option-cases, Bool-cases, inl, inr,
}
use institutional_tokenizati.Db.{Store, Operation, Attempt, Action, ok, pure, gets, ◌>>=◌}
use institutional_tokenizati.Db.Atomic.{>>=-eq-ok}
use institutional_tokenizati.Repo.Attempts.{find_latest_attempt_for_operation}
use institutional_tokenizati.Recovery.Defs.{
  RecoveryDeps, has_bytes, in_flight_part, signed_part, abandon_attempt,
}
use institutional_tokenizati.Recovery.InFlight.{
  failed_if, is_noop, resolve_signed, abandon_or, resolve_or, abandon_unbroadcast,
  resolve_in_flight, recovery_fuel,
}

-- Stored bytes come with a hash, as `persistSignedAttempt` writes them.
abbrev pub HashedBytes : ℕ → Store → Type 0
HashedBytes operation_id s =
    (a : Attempt)
    → find_row (λ x. option_eq ◌==◌ x.operation_id (some operation_id)) s.attempts ≡ some a
    → a.transaction_hash ≡ none
    → a.signed_raw_transaction ≡ none

some_after :
    {A B : Type 0} (m : Action A) (f : A → B) (s : Store)
    → ((m >>= λ a. pure (some (f a))) s).0 ≢ ok none
unfolding pure
some_after m f s e =
    let (a, t, i, k) = >>=-eq-ok m (λ a. pure (some (f a))) s none e in
    absurd (ground (arith, ap (λ r. r.0) (sym k) ∙ e))

mapped_none : {A B : Type 0} (f : A → B) (o : Option A) → option_map f o ≡ none → o ≡ none
mapped_none f none e = refl
mapped_none f (some a) e = cc

mapped_after :
    {A B : Type 0} (m : Action (Option A)) (f : A → B) (s : Store)
    → (m s).0 ≢ ok none
    → ((m >>= λ a. pure (option_map f a)) s).0 ≢ ok none
unfolding pure
mapped_after m f s h e =
    let (a, t, i, k) = >>=-eq-ok m (λ a. pure (option_map f a)) s none e in
    h (ap (λ r. r.0) i ∙ ap ok (mapped_none f a (ground (arith, ap (λ r. r.0) (sym k) ∙ e))))

abbrev latest : ℕ → Store → Option Attempt
latest operation_id s = find_row (λ x. option_eq ◌==◌ x.operation_id (some operation_id)) s.attempts

-- Where no attempt can be resolved, none has bytes.
nothing_stored :
    (o : Option Attempt)
    → ((a : Attempt) → o ≡ some a → a.transaction_hash ≡ none → a.signed_raw_transaction ≡ none)
    → in_flight_part o ≡ none
    → has_bytes o ≡ false
nothing_stored none h e = refl
nothing_stored (some a) h e = parts a.signed_raw_transaction a.transaction_hash (h a refl) e
  where
    parts :
        (b t : Option Text)
        → (t ≡ none → b ≡ none)
        → signed_part a b t ≡ none
        → not (is_none b) ≡ false
    parts none t k q = refl
    parts (some b) none k q = ground (arith, k refl)
    parts (some b) (some t) k q = ground (arith, q)

module _ (deps : RecoveryDeps) (operation : Operation) where
  abandoned_ends :
      (fuel : ℕ) (s : Store)
      → has_bytes (latest operation.id s) ≡ false
      → (abandon_unbroadcast deps (suc fuel) operation s).0 ≢ ok none
  unfolding abandon_unbroadcast abandon_or find_latest_attempt_for_operation gets ◌>>=◌
  abandoned_ends fuel s h =
      rw h (some_after (abandon_attempt deps operation (latest operation.id s)) (λ d. d) s)

  resolved_ends :
      (fuel : ℕ) (s : Store)
      → HashedBytes operation.id s
      → (resolve_in_flight deps (suc (suc fuel)) operation s).0 ≢ ok none
  unfolding resolve_in_flight resolve_or find_latest_attempt_for_operation gets ◌>>=◌
  resolved_ends fuel s h = elim (Option-cases (in_flight_part (latest operation.id s))) [
    | inl n ↦ rw n (
        mapped_after (abandon_unbroadcast deps (suc fuel) operation) failed_if s
          (abandoned_ends fuel s (nothing_stored _ h n)))
    | inr ((a, bytes, hash), e) ↦
        rw e (some_after (resolve_signed deps operation a bytes hash) (λ r. r) s)
  ]

  -- Where stored bytes come with a hash, three calls of the two functions are enough: neither of them
  -- runs out of fuel, whatever the chain answers.
  pub recovery_ends :
      (s : Store)
      → HashedBytes operation.id s
      → ((resolve_in_flight deps recovery_fuel operation s).0 ≢ ok none)
        × ((abandon_unbroadcast deps recovery_fuel operation s).0 ≢ ok none)
  unfolding abandon_unbroadcast abandon_or find_latest_attempt_for_operation gets ◌>>=◌
  recovery_ends s h = (
    resolved_ends 1 s h,
    elim (Bool-cases (has_bytes (latest operation.id s))) [
      | inl stored ↦ rw stored (
          mapped_after (resolve_in_flight deps 2 operation) (λ r. not (is_noop r)) s
            (resolved_ends 0 s h))
      | inr empty ↦
          rw empty (some_after (abandon_attempt deps operation (latest operation.id s)) (λ d. d) s)
    ],
  )

-- ===== src/Executor/Unmoved.antt =====
-- src/db/repositories: the statements that leave the operations as they were.
use institutional_tokenizati.Base.{ℕ, ◌≡◌, refl, Bool, Option, Text}
use institutional_tokenizati.Domain.Roles.{Actor}
use institutional_tokenizati.Db.{
  Store, Attempt, AttemptStatus, SignerRequestState, FailureCode, ReplacementReason, AuditAction,
  modify, fresh_id,
}
use institutional_tokenizati.Db.Within.{
  Within, Within-modify, Within-bind, Within-pure, Within-gets, Within-or_throw, Within-throw_if,
  within_rules,
}
use institutional_tokenizati.Repo.Attempts.{
  InsertAttemptInput, ReceiptColumns, update_attempts, insert_prepared_attempt,
  persist_signed_attempt, update_attempt_status, record_receipt, clear_attempt_inclusion,
  retire_attempt_for_replacement, link_attempt_replacement,
}
use institutional_tokenizati.Repo.Nonces.{reserve_nonce}
use institutional_tokenizati.Repo.Signers.{
  mark_signer_request_signed, mark_signer_request_rejected, record_signer_request,
  expire_lapsed_signer_request,
}
use institutional_tokenizati.Repo.Observations.{
  ObservationInput, record_observation, invalidate_attempt_observations,
}
use institutional_tokenizati.Repo.Reference.{record_audit_event}
use institutional_tokenizati.Transactions.ChainWriter.{note_dispatch}
use institutional_tokenizati.Executor.Lifecycle.{SameOperations, SameOperations-IsPreorder}

-- A write to another table
pub elsewhere :
    (f : Store → Store)
    → ((s : Store) → (f s).operations ≡ s.operations)
    → Within SameOperations (modify f)
elsewhere f h = Within-modify SameOperations-IsPreorder f (λ s. record { same = h s })

pub fresh_id-SameOperations : Within SameOperations fresh_id
unfolding fresh_id
fresh_id-SameOperations = record { at = λ s. record { same = refl } }

pub update_attempts-SameOperations :
    (test : Attempt → Bool) (write : ℕ → Attempt → Attempt)
    → Within SameOperations (update_attempts test write)
unfolding update_attempts
update_attempts-SameOperations test write =
    Within-bind SameOperations-IsPreorder _ _ (Within-gets SameOperations-IsPreorder _) (λ written.
      Within-bind SameOperations-IsPreorder _ _ (Within-gets SameOperations-IsPreorder _) (λ rows.
        Within-bind SameOperations-IsPreorder _ _ (Within-throw_if SameOperations-IsPreorder _ _)
          (λ _. elsewhere _ (λ s. refl))))

pub insert_prepared_attempt-SameOperations :
    (input : InsertAttemptInput) → Within SameOperations (insert_prepared_attempt input)
unfolding insert_prepared_attempt
insert_prepared_attempt-SameOperations input =
    Within-bind SameOperations-IsPreorder _ _ (Within-gets SameOperations-IsPreorder _) (λ taken.
      Within-bind SameOperations-IsPreorder _ _ (Within-throw_if SameOperations-IsPreorder _ _)
        (λ _. Within-bind SameOperations-IsPreorder _ _ fresh_id-SameOperations (λ id.
          Within-bind SameOperations-IsPreorder _ _ (Within-gets SameOperations-IsPreorder _)
            (λ row.
              Within-bind SameOperations-IsPreorder _ _ (elsewhere _ (λ s. refl))
                (λ _. Within-pure SameOperations-IsPreorder _)))))

pub persist_signed_attempt-SameOperations :
    (id : ℕ) (raw hash : Text) → Within SameOperations (persist_signed_attempt id raw hash)
unfolding persist_signed_attempt
persist_signed_attempt-SameOperations id raw hash =
    search (within_rules, SameOperations-IsPreorder, update_attempts-SameOperations) depth 20

pub update_attempt_status-SameOperations :
    (id : ℕ) (status : AttemptStatus) (code : Option FailureCode) (increment : Bool)
    → Within SameOperations (update_attempt_status id status code increment)
unfolding update_attempt_status
update_attempt_status-SameOperations id status code increment = update_attempts-SameOperations _ _

pub record_receipt-SameOperations :
    (id : ℕ) (columns : ReceiptColumns) → Within SameOperations (record_receipt id columns)
unfolding record_receipt
record_receipt-SameOperations id columns = update_attempts-SameOperations _ _

pub clear_attempt_inclusion-SameOperations :
    (id : ℕ) → Within SameOperations (clear_attempt_inclusion id)
unfolding clear_attempt_inclusion
clear_attempt_inclusion-SameOperations id = update_attempts-SameOperations _ _

pub retire_attempt_for_replacement-SameOperations :
    (id : ℕ) (reason : ReplacementReason)
    → Within SameOperations (retire_attempt_for_replacement id reason)
unfolding retire_attempt_for_replacement
retire_attempt_for_replacement-SameOperations id reason =
    search (within_rules, SameOperations-IsPreorder, update_attempts-SameOperations) depth 20

pub link_attempt_replacement-SameOperations :
    (id replacement : ℕ) → Within SameOperations (link_attempt_replacement id replacement)
unfolding link_attempt_replacement
link_attempt_replacement-SameOperations id replacement = update_attempts-SameOperations _ _

pub mark_signer_request_signed-SameOperations :
    (id : ℕ) → Within SameOperations (mark_signer_request_signed id)
unfolding mark_signer_request_signed
mark_signer_request_signed-SameOperations id = elsewhere _ (λ s. refl)

pub mark_signer_request_rejected-SameOperations :
    (id : ℕ) (code : FailureCode) → Within SameOperations (mark_signer_request_rejected id code)
unfolding mark_signer_request_rejected
mark_signer_request_rejected-SameOperations id code = elsewhere _ (λ s. refl)

pub record_signer_request-SameOperations :
    (attempt_id : ℕ) (operation_id : Option ℕ) (request : ℕ) (status : SignerRequestState)
    (print : Text)
    → Within SameOperations (record_signer_request attempt_id operation_id request status print)
unfolding record_signer_request
record_signer_request-SameOperations attempt_id operation_id request status print =
    Within-bind SameOperations-IsPreorder _ _ fresh_id-SameOperations (λ id.
      Within-bind SameOperations-IsPreorder _ _ (Within-gets SameOperations-IsPreorder _) (λ at.
        Within-bind SameOperations-IsPreorder _ _ (elsewhere _ (λ s. refl)) (λ _.
          Within-bind SameOperations-IsPreorder _ _ (Within-gets SameOperations-IsPreorder _)
            (λ stored. Within-or_throw SameOperations-IsPreorder stored _))))

pub expire_lapsed_signer_request-SameOperations :
    (id timeout : ℕ) → Within SameOperations (expire_lapsed_signer_request id timeout)
unfolding expire_lapsed_signer_request
expire_lapsed_signer_request-SameOperations id timeout =
    Within-bind SameOperations-IsPreorder _ _ (Within-gets SameOperations-IsPreorder _) (λ rows.
      Within-bind SameOperations-IsPreorder _ _ (elsewhere _ (λ s. refl))
        (λ _. Within-pure SameOperations-IsPreorder _))

pub reserve_nonce-SameOperations :
    (chain_id : ℕ) (signer : Text) (count : ℕ)
    → Within SameOperations (reserve_nonce chain_id signer count)
unfolding reserve_nonce
reserve_nonce-SameOperations chain_id signer count =
    Within-bind SameOperations-IsPreorder _ _ (elsewhere _ (λ s. refl)) (λ _.
      Within-bind SameOperations-IsPreorder _ _ (Within-gets SameOperations-IsPreorder _) (λ row.
        Within-bind SameOperations-IsPreorder _ _ (Within-or_throw SameOperations-IsPreorder row _)
          (λ lane.
            Within-bind SameOperations-IsPreorder _ _
              (Within-throw_if SameOperations-IsPreorder _ _)
              (λ _.
                Within-bind SameOperations-IsPreorder _ _ (elsewhere _ (λ s. refl))
                  (λ _. Within-pure SameOperations-IsPreorder _)))))

pub note_dispatch-SameOperations : (bytes : Text) → Within SameOperations (note_dispatch bytes)
unfolding note_dispatch
note_dispatch-SameOperations bytes = elsewhere _ (λ s. refl)

pub record_observation-SameOperations :
    (input : ObservationInput) → Within SameOperations (record_observation input)
unfolding record_observation
record_observation-SameOperations input = elsewhere _ (λ s. refl)

pub invalidate_attempt_observations-SameOperations :
    (id : ℕ) → Within SameOperations (invalidate_attempt_observations id)
unfolding invalidate_attempt_observations
invalidate_attempt_observations-SameOperations id =
    Within-bind SameOperations-IsPreorder _ _ (Within-gets SameOperations-IsPreorder _) (λ rows.
      Within-bind SameOperations-IsPreorder _ _ (elsewhere _ (λ s. refl))
        (λ _. Within-pure SameOperations-IsPreorder _))

pub record_audit_event-SameOperations :
    (actor : Actor) (action : AuditAction) (resource : ℕ) (operation : Option ℕ)
    → Within SameOperations (record_audit_event actor action resource operation)
unfolding record_audit_event
record_audit_event-SameOperations actor action resource operation = elsewhere _ (λ s. refl)

pub ruleset unmoved_rules = (
  insert_prepared_attempt-SameOperations, persist_signed_attempt-SameOperations,
  update_attempt_status-SameOperations, record_receipt-SameOperations,
  clear_attempt_inclusion-SameOperations, retire_attempt_for_replacement-SameOperations,
  link_attempt_replacement-SameOperations, mark_signer_request_signed-SameOperations,
  mark_signer_request_rejected-SameOperations, record_signer_request-SameOperations,
  expire_lapsed_signer_request-SameOperations, reserve_nonce-SameOperations,
  note_dispatch-SameOperations, record_observation-SameOperations,
  invalidate_attempt_observations-SameOperations, record_audit_event-SameOperations,
)

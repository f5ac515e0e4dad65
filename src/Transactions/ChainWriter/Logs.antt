-- ===== src/Transactions/ChainWriter/Logs.antt =====
-- src/db/repositories: the steps of the chain writer that hand nothing to the node.
use mathlib.Core.Path.{subst, sym}
use institutional_tokenizati.Base.{ℕ, ◌≡◌, refl, Option, Text}
use institutional_tokenizati.Db.{
  Store, SignerRequestState, FailureCode, ReplacementReason, modify, fresh_id,
}
use institutional_tokenizati.Db.Within.{
  Within, Within-modify, Within-bind, Within-pure, Within-gets, Within-or_throw, Within-throw_if,
}
use institutional_tokenizati.Repo.Attempts.{
  has_id, is_not_replaced, InsertAttemptInput, insert_prepared_attempt,
  retire_attempt_for_replacement, link_attempt_replacement, write_replaced, write_link,
}
use institutional_tokenizati.Repo.Nonces.{reserve_nonce}
use institutional_tokenizati.Repo.Signers.{
  mark_signer_request_rejected, record_signer_request, expire_lapsed_signer_request,
}
use institutional_tokenizati.Transactions.ChainWriter.Steady.{
  Logged, AllDurable, Logged-IsPreorder, Within-Logged, update_attempts-IsSteady,
}

-- A write to a table that is not the attempts
other_table : (f : Store → Store) → ((s : Store) → (f s).sent ≡ s.sent) → Within Logged (modify f)
other_table f h =
    Within-modify Logged-IsPreorder f (λ s. record { sent = λ d. subst AllDurable (sym (h s)) d })

pub mark_signer_request_rejected-Logged :
    (id : ℕ) (code : FailureCode) → Within Logged (mark_signer_request_rejected id code)
unfolding mark_signer_request_rejected
mark_signer_request_rejected-Logged id code = other_table _ (λ s. refl)

pub fresh_id-Logged : Within Logged fresh_id
unfolding fresh_id
fresh_id-Logged = record { at = λ s. record { sent = λ d. d } }

pub record_signer_request-Logged :
    (attempt_id : ℕ) (operation_id : Option ℕ) (provider_request_id : ℕ)
    (status : SignerRequestState) (fingerprint : Text)
    → Within Logged
        (record_signer_request attempt_id operation_id provider_request_id status fingerprint)
unfolding record_signer_request
record_signer_request-Logged attempt_id operation_id provider_request_id status fingerprint =
    Within-bind Logged-IsPreorder _ _ fresh_id-Logged (λ id.
      Within-bind Logged-IsPreorder _ _ (Within-gets Logged-IsPreorder _) (λ at.
        Within-bind Logged-IsPreorder _ _ (other_table _ (λ s. refl)) (λ _.
          Within-bind Logged-IsPreorder _ _ (Within-gets Logged-IsPreorder _)
            (λ stored. Within-or_throw Logged-IsPreorder stored _))))

pub expire_lapsed_signer_request-Logged :
    (id timeout : ℕ) → Within Logged (expire_lapsed_signer_request id timeout)
unfolding expire_lapsed_signer_request
expire_lapsed_signer_request-Logged id timeout =
    Within-bind Logged-IsPreorder _ _ (Within-gets Logged-IsPreorder _) (λ rows.
      Within-bind Logged-IsPreorder _ _ (other_table _ (λ s. refl))
        (λ _. Within-pure Logged-IsPreorder _))

pub reserve_nonce-Logged :
    (chain_id : ℕ) (signer : Text) (count : ℕ) → Within Logged (reserve_nonce chain_id signer count)
unfolding reserve_nonce
reserve_nonce-Logged chain_id signer count =
    Within-bind Logged-IsPreorder _ _ (other_table _ (λ s. refl)) (λ _.
      Within-bind Logged-IsPreorder _ _ (Within-gets Logged-IsPreorder _) (λ row.
        Within-bind Logged-IsPreorder _ _ (Within-or_throw Logged-IsPreorder row _) (λ lane.
          Within-bind Logged-IsPreorder _ _ (Within-throw_if Logged-IsPreorder _ _) (λ _.
            Within-bind Logged-IsPreorder _ _ (other_table _ (λ s. refl))
              (λ _. Within-pure Logged-IsPreorder _)))))

pub insert_prepared_attempt-Logged :
    (input : InsertAttemptInput) → Within Logged (insert_prepared_attempt input)
unfolding insert_prepared_attempt
insert_prepared_attempt-Logged input =
    Within-bind Logged-IsPreorder _ _ (Within-gets Logged-IsPreorder _) (λ taken.
      Within-bind Logged-IsPreorder _ _ (Within-throw_if Logged-IsPreorder _ _) (λ _.
        Within-bind Logged-IsPreorder _ _ fresh_id-Logged (λ id.
          Within-bind Logged-IsPreorder _ _ (Within-gets Logged-IsPreorder _) (λ row.
            Within-bind Logged-IsPreorder _ _ (other_table _ (λ s. refl))
              (λ _. Within-pure Logged-IsPreorder _)))))

pub retire_attempt_for_replacement-Logged :
    (id : ℕ) (reason : ReplacementReason) → Within Logged (retire_attempt_for_replacement id reason)
unfolding retire_attempt_for_replacement write_replaced
retire_attempt_for_replacement-Logged id reason =
    Within-bind Logged-IsPreorder _ _ (Within-gets Logged-IsPreorder _) (λ rows.
      Within-bind Logged-IsPreorder _ _
        (Within-Logged _ (
          update_attempts-IsSteady (is_not_replaced id) (write_replaced reason) (λ at a. refl)
            (λ at a. refl)))
        (λ _. Within-pure Logged-IsPreorder _))

pub link_attempt_replacement-Logged :
    (id replacement : ℕ) → Within Logged (link_attempt_replacement id replacement)
unfolding link_attempt_replacement write_link
link_attempt_replacement-Logged id replacement =
    Within-Logged _
      (update_attempts-IsSteady (has_id id) (write_link replacement) (λ at a. refl) (λ at a. refl))

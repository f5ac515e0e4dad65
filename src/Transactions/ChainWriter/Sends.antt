-- ===== src/Transactions/ChainWriter/Sends.antt =====
-- src/modules/transactions/chain-writer.ts: a send of bytes that the attempt's row holds.
use mathlib.Core.Path.{subst}
use institutional_tokenizati.Base.{
  ℕ, ◌≡◌, refl, sym, ap, ◌∙◌, ◌⊎◌, inl, inr, true, false, Option, none, some, ◌∷◌, Text, arith,
  find_row, find_row_sound, ==_iff, Bool-cases, if◌then◌else◌,
}
use institutional_tokenizati.Db.{
  Store, Attempt, FailureCode, replaced, Action, Result, ok, err, attempt_status_eq,
  attempt_status_eq_iff, ◌>>=◌, continue,
}
use institutional_tokenizati.Db.Within.{
  Within, Within-bind, Within-pure, Within-try_catch, within_rules,
}
use institutional_tokenizati.Repo.Attempts.{has_id, find_attempt_by_id}
use institutional_tokenizati.Transactions.Verifier.{UnsignedTransactionRequest}
use institutional_tokenizati.Transactions.ChainWriter.Interface.{
  Deps, Ports, ChainWriteHooks, NodeReply, accepted, errored,
}
use institutional_tokenizati.Transactions.ChainWriter.Sending.{
  BroadcastErrorClass, already_known, deterministic_rejection, ambiguous, fail_attempt,
  mark_submitted, on_broadcast_error, after_send, note_dispatch, send, is_superseded, broadcast,
}
use institutional_tokenizati.Transactions.ChainWriter.Signature.{
  refusal_to_broadcast, commit_broadcasting, release_signed,
}
use institutional_tokenizati.Transactions.ChainWriter.Steady.{
  IsDurable, AllDurable, Stores, Logged, IsSteady, Logged-IsPreorder, IsSteady-IsPreorder,
  Within-Logged, update_attempt_status-IsSteady,
}

-- The hooks change no stored bytes and hand nothing else to the node.
pub record SteadyHooks (hooks : ChainWriteHooks) : Type 0 where
  pub on_prepared : (a : Attempt) → Within IsSteady (hooks.on_prepared a)
  pub on_signed : (a : Attempt) → Within IsSteady (hooks.on_signed a)
  pub assert_broadcast_allowed : Within IsSteady hooks.assert_broadcast_allowed
  pub on_broadcasting : (a : Attempt) → Within IsSteady (hooks.on_broadcasting a)
  pub on_submitted : (a : Attempt) (h : Text) → Within IsSteady (hooks.on_submitted a h)
  pub on_broadcast_unknown : (a : Attempt) → Within IsSteady (hooks.on_broadcast_unknown a)
  pub on_failed : (a : Attempt) (c : FailureCode) → Within IsSteady (hooks.on_failed a c)

-- While a call of the gateway or the signer runs, other workers hand over durable bytes only.
pub record LoggedPorts (ports : Ports) : Type 0 where
  pub get_signer_address : Within Logged ports.get_signer_address
  pub get_chain_identity : Within Logged ports.get_chain_identity
  pub simulate : (a : Text) (c : _) → Within Logged (ports.simulate a c)
  pub get_fee_estimate : Within Logged ports.get_fee_estimate
  pub get_transaction_count : (a : Text) → Within Logged (ports.get_transaction_count a)
  pub request_signature :
      (r : UnsignedTransactionRequest) → Within Logged (ports.request_signature r)
  pub fetch_signature : (id : ℕ) → Within Logged (ports.fetch_signature id)
  pub broadcast_raw_transaction : (b : Text) → Within Logged (ports.broadcast_raw_transaction b)

module _ (deps : Deps) (hooks : ChainWriteHooks) (ports : LoggedPorts deps.ports)
    (steady : SteadyHooks hooks) where
  pub fail_attempt-IsSteady :
      (attempt : Attempt) (code : FailureCode) → Within IsSteady (fail_attempt hooks attempt code)
  unfolding fail_attempt
  fail_attempt-IsSteady attempt code =
      search (within_rules, IsSteady-IsPreorder, update_attempt_status-IsSteady, steady.on_failed)
        depth 20

  mark_submitted-IsSteady :
      (attempt : Attempt) (hash : Text) → Within IsSteady (mark_submitted hooks attempt hash)
  unfolding mark_submitted
  mark_submitted-IsSteady attempt hash =
      search
        (within_rules, IsSteady-IsPreorder, update_attempt_status-IsSteady, steady.on_submitted)
        depth 20

  on_broadcast_error-IsSteady :
      (attempt : Attempt) (hash : Text) (class : BroadcastErrorClass)
      → Within IsSteady (on_broadcast_error hooks attempt hash class)
  unfolding on_broadcast_error
  on_broadcast_error-IsSteady attempt hash already_known = mark_submitted-IsSteady attempt hash
  on_broadcast_error-IsSteady attempt hash deterministic_rejection =
      search (within_rules, IsSteady-IsPreorder, fail_attempt-IsSteady) depth 20
  on_broadcast_error-IsSteady attempt hash ambiguous =
      search
        (
          within_rules, IsSteady-IsPreorder, update_attempt_status-IsSteady,
          steady.on_broadcast_unknown,
        )
        depth 20

  after_send-IsSteady :
      (attempt : Attempt) (hash : Text) (reply : NodeReply)
      → Within IsSteady (after_send hooks attempt hash reply)
  unfolding after_send
  after_send-IsSteady attempt hash accepted = mark_submitted-IsSteady attempt hash
  after_send-IsSteady attempt hash (errored m) = on_broadcast_error-IsSteady attempt hash _

  -- What follows a dispatch
  reply-Logged :
      (attempt : Attempt) (bytes hash : Text)
      → Within Logged (deps.ports.broadcast_raw_transaction bytes >>= after_send hooks attempt hash)
  reply-Logged attempt bytes hash =
      Within-bind Logged-IsPreorder _ _ (ports.broadcast_raw_transaction bytes)
        (λ reply. Within-Logged _ (after_send-IsSteady attempt hash reply))

  -- The store that notes a dispatch
  abbrev noted : Text → Store → Store
  noted bytes s = record s { sent = record { bytes = bytes; rows = s.attempts } ∷ s.sent }

  broadcast_store :
      (attempt : Attempt) (bytes hash : Text) (s : Store)
      → (broadcast deps hooks attempt bytes hash s).1 ≡ (
          if is_superseded (find_row (has_id attempt.id) s.attempts)
          then s
          else ((deps.ports.broadcast_raw_transaction bytes >>= after_send hooks attempt hash)
              (noted bytes s)).1)
  unfolding broadcast find_attempt_by_id send note_dispatch ◌>>=◌
  broadcast_store attempt bytes hash s = ground arith

  broadcast_to :
      (attempt : Attempt) (bytes hash : Text) (s : Store) (o : Option Attempt)
      → find_row (has_id attempt.id) s.attempts ≡ o
      → Stores attempt.id bytes s
      → AllDurable s.sent
      → AllDurable
          (if is_superseded o
            then s
            else ((deps.ports.broadcast_raw_transaction bytes >>= after_send hooks attempt hash)
                (noted bytes s)).1).sent
  unfolding is_superseded AllDurable
  broadcast_to attempt bytes hash s none e stores durable = durable
  broadcast_to attempt bytes hash s (some c) e stores durable =
      go (Bool-cases (attempt_status_eq c.status replaced))
    where
      same : c.id ≡ attempt.id
      same = (==_iff c.id attempt.id).0 (find_row_sound (has_id attempt.id) s.attempts c e)

      go :
          ((attempt_status_eq c.status replaced ≡ true)
            ⊎ (attempt_status_eq c.status replaced ≡ false))
          → AllDurable
              (if attempt_status_eq c.status replaced
                then s
                else ((deps.ports.broadcast_raw_transaction bytes >>= after_send hooks attempt hash)
                    (noted bytes s)).1).sent
      go (inl b) = rw b durable
      go (inr b) =
          let entry : IsDurable (record { bytes = bytes; rows = s.attempts }) = record {
            attempt = c;
            on_record = ap (λ i. find_row (has_id i) s.attempts) same ∙ e;
            stored = stores.holds c e;
            live = λ q. ground (arith, attempt_status_eq_iff c.status replaced, q);
          } in
          let after =
            ((reply-Logged attempt bytes hash).at (noted bytes s)).sent (entry, durable) in
          rw b after

  -- A broadcast of bytes that the attempt's row holds
  pub broadcast_logs :
      (attempt : Attempt) (bytes hash : Text) (s : Store)
      → Stores attempt.id bytes s
      → Logged s (broadcast deps hooks attempt bytes hash s).1
  broadcast_logs attempt bytes hash s stores = record {
    sent = λ durable.
        subst (λ t. AllDurable t.sent) (sym (broadcast_store attempt bytes hash s))
          (broadcast_to attempt bytes hash s _ refl stores durable);
  }

  commit_broadcasting-IsSteady :
      (attempt : Attempt) → Within IsSteady (commit_broadcasting hooks attempt)
  unfolding commit_broadcasting
  commit_broadcasting-IsSteady attempt =
      search
        (within_rules, IsSteady-IsPreorder, update_attempt_status-IsSteady, steady.on_broadcasting)
        depth 20

  pub refusal_to_broadcast-IsSteady : Within IsSteady (refusal_to_broadcast hooks)
  unfolding refusal_to_broadcast
  refusal_to_broadcast-IsSteady =
      Within-try_catch IsSteady-IsPreorder _ _
        (Within-bind IsSteady-IsPreorder _ _ steady.assert_broadcast_allowed
          (λ _. Within-pure IsSteady-IsPreorder none))
        (λ e. Within-pure IsSteady-IsPreorder _)

  -- A step that keeps the bytes, and then one that needs them
  pub then_logs :
      {A B : Type 0} (id : ℕ) (bytes : Text) (m : Action A) (f : A → Action B) (s : Store)
      → Within IsSteady m
      → Stores id bytes s
      → ((a : A) (t : Store) → Stores id bytes t → Logged t (f a t).1)
      → Logged s ((m >>= f) s).1
  unfolding ◌>>=◌
  then_logs id bytes m f s w stores k = go (m s) (w.at s)
    where
      go : (r : Result _ × Store) → IsSteady s r.1 → Logged s (continue r f).1
      go (ok a, t) h =
          Logged-IsPreorder.join s t (f a t).1 (record { sent = h.sent })
            (k a t (h.bytes id bytes stores))
      go (err e, t) h = record { sent = h.sent }

  pub release_logs :
      (attempt : Attempt) (bytes hash : Text) (refusal : Option FailureCode) (s : Store)
      → Stores attempt.id bytes s
      → Logged s (release_signed deps hooks attempt bytes hash refusal s).1
  unfolding release_signed
  release_logs attempt bytes hash (some code) s stores =
      let w : Within Logged (release_signed deps hooks attempt bytes hash (some code)) =
        search (within_rules, Logged-IsPreorder, Within-Logged, fail_attempt-IsSteady) depth 20 in
      w.at s
  release_logs attempt bytes hash none s stores =
      then_logs attempt.id bytes _ _ s (commit_broadcasting-IsSteady attempt) stores
        (λ a t h. broadcast_logs attempt bytes hash t h)

-- ===== src/Transactions/Confirmation/Justified.antt =====
-- src/modules/transactions/confirmation.ts: every outcome rests on what a poll saw, and the wait is
-- bounded.
use institutional_tokenizati.Base.{
  ℕ, zero, suc, ◌+◌, ◌≤◌, ◌<◌, ◌≡◌, ◌⊎◌, inl, inr, refl, ap, ◌∙◌, true, false, none, some, arith,
  Option-cases,
}
use native.Mathlib.Decide.{dec_le}
use institutional_tokenizati.Transactions.Confirmation.Defs.{
  TransactionReceiptView, ConfirmationPolicy, ConfirmationOutcome, finalized, reverted, orphaned,
  included, pending, Poll, Polls, is_final, is_canonical, wait_for_receipt, judge, observe,
  after_wait, await_confirmation,
}

-- What a poll before the deadline saw of a receipt on the canonical chain
pub record Sees (poll : Poll) (deadline : ℕ) (receipt : TransactionReceiptView) : Type 0 where
  pub before : poll.clock < deadline
  pub receipt_read : poll.receipt ≡ some receipt
  pub canonical : is_canonical poll receipt ≡ true

-- The poll just before this turn, which was before the deadline, read the receipt.
abbrev pub Shown : Polls → ℕ → ℕ → TransactionReceiptView → Type 0
Shown polls deadline turn receipt =
    (last : ℕ) × (suc last ≡ turn)
    × ((polls last).clock < deadline)
    × ((polls last).receipt ≡ some receipt)

-- A poll before the deadline saw that the receipt, read by the poll before, is gone, or it read the
-- receipt in a block that is not canonical.
abbrev pub Lost : Polls → ℕ → ℕ → TransactionReceiptView → Type 0
Lost polls deadline turn receipt =
    ((polls turn).clock < deadline)
    × ((((polls turn).receipt ≡ none) × Shown polls deadline turn receipt)
        ⊎ (((polls turn).receipt ≡ some receipt) × (is_canonical (polls turn) receipt ≡ false)))

-- What each outcome rests on
pub Rests : Polls → ConfirmationPolicy → ℕ → ConfirmationOutcome → Type 0
Rests polls policy deadline (finalized r) =
    (turn : ℕ) × Sees (polls turn) deadline r
    × (r.is_reverted ≡ false)
    × (is_final (polls turn) r.block_number policy ≡ true)
Rests polls policy deadline (reverted r) =
    (turn : ℕ) × Sees (polls turn) deadline r × (r.is_reverted ≡ true)
Rests polls policy deadline (orphaned r) = (turn : ℕ) × Lost polls deadline turn r
Rests polls policy deadline (included r) =
    (turn : ℕ) × (deadline ≤ (polls turn).clock) × Shown polls deadline turn r
Rests polls policy deadline pending =
    (turn : ℕ) × (deadline ≤ (polls turn).clock) × ((k : ℕ) → k < turn → (polls k).receipt ≡ none)

module _ (polls : Polls) (policy : ConfirmationPolicy) (deadline : ℕ) where
  judged :
      (turn : ℕ) (r : TransactionReceiptView)
      → (polls turn).clock < deadline
      → (polls turn).receipt ≡ some r
      → (out : ConfirmationOutcome) → judge (polls turn) policy r ≡ some out
      → Rests polls policy deadline out
  unfolding judge Rests
  judged turn r c e (finalized q) h =
      (turn, ground (arith, c, e, h), ground (arith, h), ground (arith, h))
  judged turn r c e (reverted q) h = (turn, ground (arith, c, e, h), ground (arith, h))
  judged turn r c e (orphaned q) h = (turn, (c, inr (ground (arith, c, e, h))))
  judged turn r c e (included q) h = ground (arith, h)
  judged turn r c e pending h = ground (arith, h)

  not_there :
      (turn last : ℕ)
      → deadline ≤ (polls last).clock
      → turn ≤ last
      → (polls turn).clock < deadline
      → turn < last
  not_there turn last late t b = elim (dec_le last turn) [
    | yes p ↦
        let same : last ≡ turn = omega arith in
        let moved : (polls last).clock ≡ (polls turn).clock = ap (λ k. (polls k).clock) same in
        absurd (omega arith)
    | no p ↦ omega arith
  ]

  -- The second loop from a turn that is not after the deadline's
  abbrev Ends : ℕ → ℕ → TransactionReceiptView → Type 0
  Ends fuel turn r =
      (out : ConfirmationOutcome) × (observe polls policy deadline fuel turn r ≡ some out)
      × Rests polls policy deadline out

  judged-Ends :
      (fuel turn : ℕ) (r c : TransactionReceiptView)
      → (polls turn).clock < deadline
      → (polls turn).receipt ≡ some c
      → Ends fuel (suc turn) c
      → ((judge (polls turn) policy c ≡ none)
          ⊎ ((out : ConfirmationOutcome) × (judge (polls turn) policy c ≡ some out)))
      → Ends (suc fuel) turn r
  unfolding observe
  judged-Ends fuel turn r c b e next (inl j) =
      let (out, o, rests) = next in (out, ground (arith, b, e, j, o), rests)
  judged-Ends fuel turn r c b e next (inr (out, j)) =
      (out, ground (arith, b, e, j), judged turn c b e out j)

  observe-Ends :
      (fuel turn last : ℕ) (r : TransactionReceiptView)
      → deadline ≤ (polls last).clock
      → turn ≤ last
      → last < turn + fuel
      → Shown polls deadline turn r
      → Ends fuel turn r
  unfolding observe Rests
  observe-Ends zero turn last r late t f shown = absurd (omega arith)
  observe-Ends (suc fuel) turn last r late t f shown = elim (dec_le deadline (polls turn).clock) [
    | yes p ↦ (included r, ground (arith, p), (turn, p, shown))
    | no p ↦
        let b : (polls turn).clock < deadline = omega arith in
        let before : turn < last = not_there turn last late t b in
        elim (Option-cases (polls turn).receipt) [
          | inl e ↦ (orphaned r, ground (arith, b, e), (turn, (b, inl (e, shown))))
          | inr (c, e) ↦
              let next =
                observe-Ends fuel (suc turn) last c late (omega arith) (omega arith)
                  (turn, refl, b, e) in
              judged-Ends fuel turn r c b e next (Option-cases (judge (polls turn) policy c))
        ]
  ]

  -- How the first loop ends, when no receipt was there before `turn`
  data Wait (fuel turn last : ℕ) : Type 0 where
    found :
        (r : TransactionReceiptView) (next : ℕ)
        → wait_for_receipt polls deadline fuel turn ≡ some (some (r, next))
        → next ≤ last
        → Shown polls deadline next r
        → Wait fuel turn last
    timed_out :
        wait_for_receipt polls deadline fuel turn ≡ some none
        → Rests polls policy deadline pending
        → Wait fuel turn last

  none_up_to :
      (turn : ℕ)
      → ((k : ℕ) → k < turn → (polls k).receipt ≡ none)
      → (polls turn).receipt ≡ none
      → (k : ℕ) → k < suc turn
      → (polls k).receipt ≡ none
  none_up_to turn before e k h = elim (dec_le turn k) [
    | yes p ↦ let same : k ≡ turn = omega arith in ap (λ i. (polls i).receipt) same ∙ e
    | no p ↦ before k (omega arith)
  ]

  waits_on :
      (fuel turn last : ℕ)
      → (polls turn).clock < deadline
      → (polls turn).receipt ≡ none
      → Wait fuel (suc turn) last
      → Wait (suc fuel) turn last
  unfolding wait_for_receipt
  waits_on fuel turn last b e (found r next w n shown) =
      found r next (ground (arith, b, e, w)) n shown
  waits_on fuel turn last b e (timed_out w rests) = timed_out (ground (arith, b, e, w)) rests

  Wait-ends :
      (fuel turn last : ℕ)
      → deadline ≤ (polls last).clock
      → turn ≤ last
      → last < turn + fuel
      → ((k : ℕ) → k < turn → (polls k).receipt ≡ none)
      → Wait fuel turn last
  unfolding wait_for_receipt Rests
  Wait-ends zero turn last late t f before = absurd (omega arith)
  Wait-ends (suc fuel) turn last late t f before = elim (dec_le deadline (polls turn).clock) [
    | yes p ↦ timed_out (ground (arith, p)) (turn, p, before)
    | no p ↦
        let b : (polls turn).clock < deadline = omega arith in
        let earlier : turn < last = not_there turn last late t b in
        elim (Option-cases (polls turn).receipt) [
          | inl e ↦ waits_on fuel turn last b e (
              Wait-ends fuel (suc turn) last late (omega arith) (omega arith)
                (none_up_to turn before e))
          | inr (c, e) ↦ found c (suc turn) (ground (arith, b, e)) (omega arith) (turn, refl, b, e)
        ]
  ]

  after_wait_ends :
      (fuel last : ℕ)
      → deadline ≤ (polls last).clock
      → last < fuel
      → Wait fuel 0 last
      → (out : ConfirmationOutcome) × (after_wait polls policy deadline fuel
            (wait_for_receipt polls deadline fuel 0)
          ≡ some out)
        × Rests polls policy deadline out
  unfolding after_wait
  after_wait_ends fuel last late f (timed_out w rests) = (pending, ground (arith, w), rests)
  after_wait_ends fuel last late f (found r next w n shown) =
      let (out, o, rests) = observe-Ends fuel next last r late n (omega arith) shown in
      (out, ground (arith, w, o), rests)

-- When the clock has reached the deadline at some turn, fuel above that turn is enough: the wait
-- ends with an outcome, and the outcome rests on what was polled. A finalized or reverted receipt
-- was read before the deadline in a block that was canonical then; a finalized one was not reverted
-- and its block was final. An orphaned one was read just before it vanished, or was read in a block
-- that was not canonical. An included one was read by the last poll before the deadline passed.
-- Pending means that the deadline has passed and no poll before saw a receipt.
pub await_confirmation_ends :
    (polls : Polls) (policy : ConfirmationPolicy) (start last fuel : ℕ)
    → start + policy.timeout_ms ≤ (polls last).clock
    → last < fuel
    → (out : ConfirmationOutcome) × (await_confirmation polls policy start fuel ≡ some out)
      × Rests polls policy (start + policy.timeout_ms) out
unfolding await_confirmation
await_confirmation_ends polls policy start last fuel late f =
    let deadline = start + policy.timeout_ms in
    after_wait_ends polls policy deadline fuel last late f (
      Wait-ends polls policy deadline fuel 0 last late (omega arith) (omega arith)
        (λ k h. absurd (omega arith)))

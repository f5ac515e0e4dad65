-- ===== src/Transactions/Confirmation/Defs.antt =====
-- src/modules/transactions/confirmation.ts. The two polling loops run on fuel, one unit for each
-- poll.
use institutional_tokenizati.Base.{
  ℕ, zero, suc, ◌+◌, Bool, not, Option, none, some, List, Text, text_eq, to_lower, ltb, leb,
  option_map, option_eq, if◌then◌else◌,
}

-- TransactionReceiptView. The logs are only handed back to the gateway, which decodes them.
pub record TransactionReceiptView : Type 0 where
  pub transaction_hash : Text
  pub is_reverted : Bool
  pub block_number : ℕ
  pub block_hash : Text
  pub gas_used : ℕ
  pub contract_address : Option Text
  pub logs : List Text

pub record ConfirmationPolicy : Type 0 where
  pub confirmations : ℕ
  pub finality_is_latest : Bool  -- finalityTag is 'latest'
  pub timeout_ms : ℕ

pub data ConfirmationOutcome : Type 0 where
  finalized reverted orphaned included : TransactionReceiptView → ConfirmationOutcome
  pending : ConfirmationOutcome

-- What one turn of a loop sees: `Date.now()` at its test, and what the gateway answers in it.
pub record Poll : Type 0 where
  pub clock : ℕ
  pub receipt : Option TransactionReceiptView
  pub block_hash_at : ℕ → Option Text
  pub finalized_block_number : Option ℕ
  pub latest_block_number : ℕ

-- `isFinal`. `latest - blockNumber + 1 >= confirmations` is on integers.
unfoldable pub is_final : Poll → ℕ → ConfirmationPolicy → Bool
is_final poll block_number policy =
    let deep = leb (policy.confirmations + block_number) (poll.latest_block_number + 1) in
    if policy.finality_is_latest
    then deep
    else elim poll.finalized_block_number [ some block ↦ leb block_number block | none ↦ deep ]

-- The block that carries the receipt is on the chain that the node follows.
unfoldable pub is_canonical : Poll → TransactionReceiptView → Bool
is_canonical poll receipt =
    option_eq text_eq (option_map to_lower (poll.block_hash_at receipt.block_number))
      (some (to_lower receipt.block_hash))

-- What the program polls, turn after turn
abbrev pub Polls : Type 0
Polls = ℕ → Poll

-- The first loop: the first receipt with the turn after it, or none at the deadline. The outer
-- `none` is for no fuel.
unfoldable pub wait_for_receipt : Polls → ℕ → ℕ → ℕ → Option (Option (TransactionReceiptView × ℕ))
wait_for_receipt polls deadline zero turn = none
wait_for_receipt polls deadline (suc fuel) turn =
    let later = wait_for_receipt polls deadline fuel (suc turn) in
    if not (ltb (polls turn).clock deadline)
    then some none
    else elim (polls turn).receipt [ some receipt ↦ some (some (receipt, suc turn)) | none ↦ later ]

-- One turn of the second loop, once it has read a receipt: an outcome, or go on
unfoldable pub judge :
    Poll → ConfirmationPolicy → TransactionReceiptView → Option ConfirmationOutcome
unfolding is_canonical is_final
judge poll policy current =
    if not (is_canonical poll current)
    then some (orphaned current)
    else if current.is_reverted
    then some (reverted current)
    else if is_final poll current.block_number policy
    then some (finalized current)
    else none

-- The second loop
unfoldable pub observe :
    Polls → ConfirmationPolicy → ℕ → ℕ → ℕ → TransactionReceiptView → Option ConfirmationOutcome
unfolding judge
observe polls policy deadline zero turn observed = none
observe polls policy deadline (suc fuel) turn observed =
    if not (ltb (polls turn).clock deadline)
    then some (included observed)
    else elim (polls turn).receipt [
      | none ↦ some (orphaned observed)
      | some current ↦ elim (judge (polls turn) policy current) [
        | some outcome ↦ some outcome
        | none ↦ observe polls policy deadline fuel (suc turn) current
      ]
    ]

unfoldable pub after_wait :
    Polls
    → ConfirmationPolicy
    → ℕ
    → ℕ
    → Option (Option (TransactionReceiptView × ℕ))
    → Option ConfirmationOutcome
unfolding observe
after_wait polls policy deadline fuel none = none
after_wait polls policy deadline fuel (some none) = some pending
after_wait polls policy deadline fuel (some (some (receipt, turn))) =
    observe polls policy deadline fuel turn receipt

-- `awaitConfirmation`, started at `start`
unfoldable pub await_confirmation : Polls → ConfirmationPolicy → ℕ → ℕ → Option ConfirmationOutcome
unfolding after_wait wait_for_receipt
await_confirmation polls policy start fuel =
    let deadline = start + policy.timeout_ms in
    after_wait polls policy deadline fuel (wait_for_receipt polls deadline fuel 0)

-- ===== src/Handlers/Target.antt =====
-- src/modules/operations/handlers/mint-handler.ts: what `resolveTarget` found on record.
use institutional_tokenizati.Base.{
  Option-cases, inl, inr, ℕ, ◌≡◌, sym, ap, ◌∙◌, Option, none, some, Text, arith, find_row, ◌==◌,
}
use institutional_tokenizati.Domain.Errors.{Fault}
use institutional_tokenizati.Db.{
  Store, Operation, Asset, Wallet, ok, pure, gets, or_throw, throw, ◌>>=◌,
}
use institutional_tokenizati.Db.Atomic.{
  IsReadOnly, IsReadOnly-pure, IsReadOnly-gets, atomic_rules, >>=-ok,
}
use institutional_tokenizati.Repo.Reference.{find_asset_by_id, find_wallet_by_id}
use institutional_tokenizati.Handlers.Mint.{
  MintTarget, wallet_of, target_of_parts, contract_of, resolve_mint_target,
}

-- The target is the operation's own amount and reference, to the wallet and the contract on record.
pub record IsTarget (operation : Operation) (s : Store) (target : MintTarget) : Type 0 where
  pub of_wallet :
      (id : ℕ) × (operation.wallet_id ≡ some id)
      × (find_row (λ w. w.id == id) s.wallets ≡ some target.wallet)
  pub of_asset : find_row (λ a. a.id == operation.asset_id) s.assets ≡ some target.asset
  pub at_contract : target.asset.contract_address ≡ some target.contract_address
  pub of_amount : operation.amount ≡ some target.amount
  pub of_reference : operation.operation_reference ≡ some target.operation_reference

wallet_of-IsReadOnly : (operation : Operation) → IsReadOnly (wallet_of operation)
unfolding wallet_of find_wallet_by_id
wallet_of-IsReadOnly operation =
    elim operation.wallet_id
      as (λ w. IsReadOnly (elim w [ none ↦ pure none | some id ↦ find_wallet_by_id id ])) [
        | none ↦ IsReadOnly-pure none
        | some id ↦ IsReadOnly-gets _
      ]

wallet_of_found :
    (operation : Operation) (s t : Store) (w : Option Wallet) (wallet : Wallet)
    → wallet_of operation s ≡ (ok w, t)
    → w ≡ some wallet
    → (id : ℕ) × (operation.wallet_id ≡ some id)
      × (find_row (λ x. x.id == id) s.wallets ≡ some wallet)
unfolding wallet_of find_wallet_by_id gets pure
wallet_of_found operation s t w wallet e h = elim (Option-cases operation.wallet_id) [
  | inl n ↦ absurd (ground (arith, n, e, h))
  | inr (id, f) ↦ (id, f, ground (arith, f, e, h))
]

all_parts :
    (a : Option Asset) (c : Option Text) (w : Option Wallet) (n : Option ℕ) (r : Option Text)
    (t : MintTarget)
    → target_of_parts a c w n r ≡ some t
    → (a ≡ some t.asset)
      × (c ≡ some t.contract_address)
      × (w ≡ some t.wallet)
      × (n ≡ some t.amount)
      × (r ≡ some t.operation_reference)
unfolding target_of_parts
all_parts a c w n r t h = ground arith

target_of_parts-IsTarget :
    (operation : Operation) (w : Option Wallet) (s : Store) (t : MintTarget)
    → target_of_parts
        (find_row (λ x. x.id == operation.asset_id) s.assets)
        (contract_of (find_row (λ x. x.id == operation.asset_id) s.assets))
        w
        operation.amount
        operation.operation_reference
      ≡ some t
    → (w ≡ some t.wallet
        → (id : ℕ) × (operation.wallet_id ≡ some id)
          × (find_row (λ x. x.id == id) s.wallets ≡ some t.wallet))
    → IsTarget operation s t
target_of_parts-IsTarget operation w s t h looked_up =
    let (a, c, v, n, r) = all_parts _ _ w _ _ t h in
    record {
      of_wallet = looked_up v;
      of_asset = a;
      at_contract = sym (ap contract_of a) ∙ c;
      of_amount = n;
      of_reference = r;
    }

returned_part :
    {A : Type 0} (o : Option A) (e : Fault) (s : Store) (a : A)
    → (or_throw o e s).0 ≡ ok a
    → o ≡ some a
unfolding or_throw throw pure
returned_part none e s a h = cc
returned_part (some x) e s a h = ground (arith, h)

pub resolve_mint_target-IsReadOnly :
    (operation : Operation) → IsReadOnly (resolve_mint_target operation)
unfolding resolve_mint_target find_asset_by_id
resolve_mint_target-IsReadOnly operation = search (atomic_rules, wallet_of-IsReadOnly) depth 20

pub resolved :
    (operation : Operation) (s : Store) (target : MintTarget)
    → (resolve_mint_target operation s).0 ≡ ok target
    → IsTarget operation s target
unfolding resolve_mint_target find_asset_by_id gets ◌>>=◌
resolved operation s target e =
    let (w, t, i, e1) = >>=-ok (wallet_of operation) _ s target e in
    target_of_parts-IsTarget operation w s target (returned_part _ _ t target e1)
      (wallet_of_found operation s t w target.wallet i)

-- ===== src/Transactions/Nonces.antt =====
-- src/db/repositories/transaction-repository.ts: what `reserveNonce` promises of a signer's lane.
use institutional_tokenizati.Base.{
  ℕ, zero, suc, ◌+◌, ◌≤◌, ◌<◌, ◌≡◌, refl, ap, Option, none, some, List, [], ◌∷◌, arith, Text,
  text_eq_refl, to_lower, find_row, update_rows, option_map, length,
}
use native.Mathlib.Decide.{dec_le}
use institutional_tokenizati.Domain.Errors.{app_error, nonce_divergence}
use institutional_tokenizati.Db.{Store, NonceLane, Action, Result, ok, err, pure, ◌>>=◌}
use institutional_tokenizati.Repo.Nonces.{is_lane, open_lane, take_nonce, reserve_nonce}

-- The next nonce of a lane, where it is open
abbrev pub next_of : ℕ → Text → Store → Option ℕ
next_of chain_id signer s =
    option_map (λ l. l.next_nonce) (find_row (is_lane chain_id (to_lower signer)) s.nonces)

take_finds :
    (chain_id n : ℕ) (address : Text) (lanes : List NonceLane) (l : NonceLane)
    → find_row (is_lane chain_id address) lanes ≡ some l
    → option_map
        (λ q. q.next_nonce)
        (find_row (is_lane chain_id address) (take_nonce chain_id address n lanes))
      ≡ some (n + 1)
unfolding find_row take_nonce update_rows
take_finds chain_id n address [] l h = ground arith
take_finds chain_id n address (x ∷ xs) l h = ground (arith, take_finds chain_id n address xs l)

module _ (chain_id : ℕ) (signer : Text) (chain_nonce : ℕ) (s : Store) where
  -- On an open lane: the chain's count may lag behind, and then the next nonce is taken; a count
  -- ahead of the lane is refused, and nothing is taken.
  pub reserve_open_lane :
      (n : ℕ)
      → next_of chain_id signer s ≡ some n
      → (chain_nonce ≤ n
          → ((reserve_nonce chain_id signer chain_nonce s).0 ≡ ok n)
            × (next_of chain_id signer (reserve_nonce chain_id signer chain_nonce s).1
                ≡ some (n + 1)))
        × (n < chain_nonce
            → reserve_nonce chain_id signer chain_nonce s ≡ (err (app_error nonce_divergence), s))
  unfolding reserve_nonce open_lane ◌>>=◌
  reserve_open_lane n h = go _ refl
    where
      go :
          (o : Option NonceLane)
          → find_row (is_lane chain_id (to_lower signer)) s.nonces ≡ o
          → (chain_nonce ≤ n
              → ((reserve_nonce chain_id signer chain_nonce s).0 ≡ ok n)
                × (next_of chain_id signer (reserve_nonce chain_id signer chain_nonce s).1
                    ≡ some (n + 1)))
            × (n < chain_nonce
                → reserve_nonce chain_id signer chain_nonce s
                  ≡ (err (app_error nonce_divergence), s))
      go none e = ground arith
      go (some l) e = (
        λ p. ground (arith, take_finds chain_id n (to_lower signer) s.nonces l e),
        λ p. ground arith,
      )

  -- A first reservation opens the lane at the chain's count.
  pub reserve_new_lane :
      next_of chain_id signer s ≡ none
      → ((reserve_nonce chain_id signer chain_nonce s).0 ≡ ok chain_nonce)
        × (next_of chain_id signer (reserve_nonce chain_id signer chain_nonce s).1
            ≡ some (chain_nonce + 1))
  unfolding reserve_nonce open_lane take_nonce find_row update_rows ◌>>=◌
  reserve_new_lane h = ground (arith, text_eq_refl (to_lower signer))

-- Reservations one after another on a lane, each with the count that the chain gave its caller
unfoldable pub reserve_many : ℕ → Text → List ℕ → Action (List ℕ)
reserve_many chain_id signer [] = pure []
reserve_many chain_id signer (c ∷ cs) = do
  n ← reserve_nonce chain_id signer c
  ns ← reserve_many chain_id signer cs
  pure (n ∷ ns)

-- `k` consecutive numbers from `n`
pub count_from : ℕ → ℕ → List ℕ
count_from n zero = []
count_from n (suc k) = n ∷ count_from (n + 1) k

reserve_many_step :
    (chain_id : ℕ) (signer : Text) (c : ℕ) (cs : List ℕ) (s : Store) (ns : List ℕ)
    → (reserve_many chain_id signer (c ∷ cs) s).0 ≡ ok ns
    → (n : ℕ) × (ms : List ℕ) × ((reserve_nonce chain_id signer c s).0 ≡ ok n)
      × ((reserve_many chain_id signer cs (reserve_nonce chain_id signer c s).1).0 ≡ ok ms)
      × (ns ≡ n ∷ ms)
unfolding reserve_many ◌>>=◌
reserve_many_step chain_id signer c cs s ns h = go _ refl
  where
    last :
        (n : ℕ)
        → (reserve_nonce chain_id signer c s).0 ≡ ok n
        → (x : Result (List ℕ))
        → (reserve_many chain_id signer cs (reserve_nonce chain_id signer c s).1).0 ≡ x
        → (n : ℕ) × (ms : List ℕ) × ((reserve_nonce chain_id signer c s).0 ≡ ok n)
          × ((reserve_many chain_id signer cs (reserve_nonce chain_id signer c s).1).0 ≡ ok ms)
          × (ns ≡ n ∷ ms)
    last n e (ok ms) k = (n, ms, e, k, ground arith)
    last n e (err x) k = ground arith

    go :
        (x : Result ℕ)
        → (reserve_nonce chain_id signer c s).0 ≡ x
        → (n : ℕ) × (ms : List ℕ) × ((reserve_nonce chain_id signer c s).0 ≡ ok n)
          × ((reserve_many chain_id signer cs (reserve_nonce chain_id signer c s).1).0 ≡ ok ms)
          × (ns ≡ n ∷ ms)
    go (ok n) e = last n e _ refl
    go (err x) e = ground arith

reserve_many_nil :
    (chain_id : ℕ) (signer : Text) (s : Store) → (reserve_many chain_id signer [] s).0 ≡ ok []
unfolding reserve_many ◌>>=◌
reserve_many_nil chain_id signer s = refl

-- However many workers reserve on an open lane, and whatever counts the chain gave them: the
-- nonces that they get are consecutive, so no two are the same and none is skipped.
pub reserved_nonces_consecutive :
    (chain_id : ℕ) (signer : Text) (cs : List ℕ) (s : Store) (n : ℕ) (ns : List ℕ)
    → next_of chain_id signer s ≡ some n
    → (reserve_many chain_id signer cs s).0 ≡ ok ns
    → ns ≡ count_from n (length cs)
unfolding count_from
reserved_nonces_consecutive chain_id signer [] s n ns o h =
    cc (h, reserve_many_nil chain_id signer s)
reserved_nonces_consecutive chain_id signer (c ∷ cs) s n ns o h =
    let (m, ms, e, k, eq) = reserve_many_step chain_id signer c cs s ns h in
    let (lag, ahead) = reserve_open_lane chain_id signer c s n o in
    elim (dec_le c n) [
      | yes p ↦
          let same : m ≡ n = cc (e, (lag p).0) in
          let ih = reserved_nonces_consecutive chain_id signer cs _ (n + 1) ms (lag p).1 k in
          cc (eq, same, ih)
      | no p ↦ absurd (cc (e, ap (λ x. x.0) (ahead (omega arith))))
    ]

-- ===== src/Base/Table.antt =====
-- A database table as the list of its rows, newest first: `SELECT ... LIMIT 1`, `UPDATE ... WHERE`
-- and `DELETE ... WHERE` over a test of a row.
use Prim.Native.Nat.{ℕ, ◌+◌}
use mathlib.Core.Path.{◌≡◌, refl, subst}
use mathlib.Core.Bool.{Bool, true, false}
use mathlib.Core.Option.{Option, none, some}
use mathlib.Core.List.{List, [], ◌∷◌}
use native.Mathlib.Omega.{arith}
use mathlib.Core.Logic.{inl, inr}
use institutional_tokenizati.Base.Tests.{if◌then◌else◌, option_map, Bool-cases}

module _ {A : Type 0} where
  -- the value is a row of the table
  pub data IsRow (a : A) : List A → Type 0 where
    newest : {xs : List A} → IsRow a (a ∷ xs)
    older : {x : A} {xs : List A} → IsRow a xs → IsRow a (x ∷ xs)

  -- the newest row that passes the test
  unfoldable pub find_row : (A → Bool) → List A → Option A
  find_row p [] = none
  find_row p (x ∷ xs) = if p x then some x else find_row p xs

  unfoldable pub update_rows : (A → Bool) → (A → A) → List A → List A
  update_rows p f [] = []
  update_rows p f (x ∷ xs) = (if p x then f x else x) ∷ update_rows p f xs

  -- the rows that pass the test, in the order of the list
  unfoldable pub select_rows : (A → Bool) → List A → List A
  select_rows p [] = []
  select_rows p (x ∷ xs) = let rest = select_rows p xs in if p x then x ∷ rest else rest

  -- how many rows pass the test: also what `RETURNING` counts of an update
  unfoldable pub count_rows : (A → Bool) → List A → ℕ
  count_rows p [] = 0
  count_rows p (x ∷ xs) = (if p x then 1 else 0) + count_rows p xs

  -- what an update makes of one row
  abbrev pub touch : (A → Bool) → (A → A) → A → A
  touch q f a = if q a then f a else a

  pub find_row-update_rows :
      (p q : A → Bool) (f : A → A) (xs : List A)
      → ((a : A) → p (f a) ≡ p a)
      → find_row p (update_rows q f xs) ≡ option_map (touch q f) (find_row p xs)
  unfolding find_row update_rows
  find_row-update_rows p q f [] h = refl
  find_row-update_rows p q f (x ∷ xs) h = ground (arith, h x, find_row-update_rows p q f xs h)

  pub find_row_sound : (p : A → Bool) (xs : List A) (a : A) → find_row p xs ≡ some a → p a ≡ true
  unfolding find_row
  find_row_sound p [] a h = ground arith
  find_row_sound p (x ∷ xs) a h = ground (arith, find_row_sound p xs a)

  pub find_row-IsRow : (p : A → Bool) (xs : List A) (a : A) → find_row p xs ≡ some a → IsRow a xs
  unfolding find_row
  find_row-IsRow p [] a h = cc
  find_row-IsRow p (x ∷ xs) a h = elim (Bool-cases (p x)) [
    | inl hit ↦ subst (λ y. IsRow y (x ∷ xs)) (ground (arith, h, hit)) newest
    | inr miss ↦ older (find_row-IsRow p xs a (ground (arith, h, miss)))
  ]

  -- a finer test that the found row passes finds the same row
  pub find_row_refined :
      (p q : A → Bool) (xs : List A) (a : A)
      → ((x : A) → q x ≡ true → p x ≡ true)
      → q a ≡ true
      → find_row p xs ≡ some a
      → find_row q xs ≡ some a
  unfolding find_row
  find_row_refined p q [] a finer k h = ground arith
  find_row_refined p q (x ∷ xs) a finer k h =
      ground (arith, finer x, find_row_refined p q xs a finer k)

  pub find_row-cons_hit :
      (p : A → Bool) (x : A) (xs : List A) → p x ≡ true → find_row p (x ∷ xs) ≡ some x
  unfolding find_row
  find_row-cons_hit p x xs h = ground arith

  pub find_row-cons_miss :
      (p : A → Bool) (x : A) (xs : List A) → p x ≡ false → find_row p (x ∷ xs) ≡ find_row p xs
  unfolding find_row
  find_row-cons_miss p x xs h = ground arith

  -- an update that changes no test leaves the count
  pub count_rows-update_rows :
      (p q : A → Bool) (f : A → A) (xs : List A)
      → ((a : A) → q a ≡ true → p (f a) ≡ p a)
      → count_rows p (update_rows q f xs) ≡ count_rows p xs
  unfolding count_rows update_rows
  count_rows-update_rows p q f [] h = refl
  count_rows-update_rows p q f (x ∷ xs) h = ground (arith, h x, count_rows-update_rows p q f xs h)

-- ===== src/Db/Atomic.antt =====
-- Actions that only read, and actions that leave the store as it was when they throw.
use institutional_tokenizati.Base.{
  ◌≡◌, refl, sym, ◌∙◌, ap, Bool, true, false, Option, none, some, if◌then◌else◌,
}
use institutional_tokenizati.Domain.Errors.{Fault}
use institutional_tokenizati.Db.Rows.{Store}
use institutional_tokenizati.Db.Monad.{
  Result, ok, err, Action, Done, pure, throw, gets, or_throw, transaction, throw_if, ◌>>=◌, commit,
  continue,
}

pub record IsReadOnly {A : Type 0} (m : Action A) : Type 0 where
  pub at : (s : Store) → (m s).1 ≡ s

pub record IsAtomic {A : Type 0} (m : Action A) : Type 0 where
  pub at : (s : Store) (e : Fault) → (m s).0 ≡ err e → (m s).1 ≡ s

module _ {A : Type 0} where
  pub IsReadOnly-pure : (a : A) → IsReadOnly (pure a)
  unfolding pure
  IsReadOnly-pure a = record { at = λ s. refl }

  pub IsReadOnly-throw : (e : Fault) → IsReadOnly (throw {A = A} e)
  unfolding throw
  IsReadOnly-throw e = record { at = λ s. refl }

  pub IsReadOnly-gets : (f : Store → A) → IsReadOnly (gets f)
  unfolding gets
  IsReadOnly-gets f = record { at = λ s. refl }

  pub IsReadOnly-or_throw : (o : Option A) (e : Fault) → IsReadOnly (or_throw o e)
  unfolding or_throw
  IsReadOnly-or_throw none e = record { at = λ s. refl }
  IsReadOnly-or_throw (some a) e = record { at = λ s. refl }

  pub IsReadOnly-if :
      (b : Bool) (m n : Action A) → IsReadOnly m → IsReadOnly n → IsReadOnly (if b then m else n)
  IsReadOnly-if true m n h k = h
  IsReadOnly-if false m n h k = k

  pub IsAtomic-read : (m : Action A) → IsReadOnly m → IsAtomic m
  IsAtomic-read m h = record { at = λ s e k. h.at s }

  commit_atomic :
      (s : Store) (r : Result A × Store) (e : Fault) → (commit s r).0 ≡ err e → (commit s r).1 ≡ s
  commit_atomic s (ok a, t) e h = cc
  commit_atomic s (err x, t) e h = refl

  pub IsAtomic-transaction : (m : Action A) → IsAtomic (transaction m)
  unfolding transaction
  IsAtomic-transaction m = record { at = λ s. commit_atomic s (m s) }

pub IsReadOnly-throw_if : (b : Bool) (e : Fault) → IsReadOnly (throw_if b e)
unfolding throw_if
IsReadOnly-throw_if true e = record { at = λ s. refl }
IsReadOnly-throw_if false e = record { at = λ s. refl }

module _ {A B : Type 0} where
  continue_atomic :
      (s : Store) (r : Result A × Store) (f : A → Action B) (e : Fault)
      → r.1 ≡ s
      → ((a : A) → IsAtomic (f a))
      → (continue r f).0 ≡ err e
      → (continue r f).1 ≡ s
  continue_atomic s (ok a, t) f e p h k = (h a).at t e k ∙ p
  continue_atomic s (err x, t) f e p h k = p

  pub IsAtomic-bind :
      (m : Action A) (f : A → Action B)
      → IsReadOnly m
      → ((a : A) → IsAtomic (f a))
      → IsAtomic (m >>= f)
  unfolding ◌>>=◌
  IsAtomic-bind m f h k = record { at = λ s e. continue_atomic s (m s) f e (h.at s) k }

  continue_read :
      (s : Store) (r : Result A × Store) (f : A → Action B)
      → r.1 ≡ s
      → ((a : A) → IsReadOnly (f a))
      → (continue r f).1 ≡ s
  continue_read s (ok a, t) f p h = (h a).at t ∙ p
  continue_read s (err x, t) f p h = p

  pub IsReadOnly-bind :
      (m : Action A) (f : A → Action B)
      → IsReadOnly m
      → ((a : A) → IsReadOnly (f a))
      → IsReadOnly (m >>= f)
  unfolding ◌>>=◌
  IsReadOnly-bind m f h k = record { at = λ s. continue_read s (m s) f (h.at s) k }

  -- A chain that returns: its first part returned, and the rest went on from there.
  pub >>=-eq-ok :
      (m : Action A) (f : A → Action B) (s : Store) (b : B)
      → ((m >>= f) s).0 ≡ ok b
      → (a : A) × (t : Store) × (m s ≡ (ok a, t)) × ((m >>= f) s ≡ f a t)
  unfolding ◌>>=◌
  >>=-eq-ok m f s b h = go (m s) refl h
    where
      go :
          (r : Result A × Store)
          → m s ≡ r
          → (continue r f).0 ≡ ok b
          → (a : A) × (t : Store) × (m s ≡ (ok a, t)) × (continue (m s) f ≡ f a t)
      go (ok a, t) e k = (a, t, e, ap (λ r. continue r f) e)
      go (err x, t) e k = cc

  -- What its parts returned.
  pub >>=-ok :
      (m : Action A) (f : A → Action B) (s : Store) (b : B)
      → ((m >>= f) s).0 ≡ ok b
      → (a : A) × (t : Store) × (m s ≡ (ok a, t)) × ((f a t).0 ≡ ok b)
  >>=-ok m f s b h = let (a, t, e, k) = >>=-eq-ok m f s b h in (a, t, e, ap (λ r. r.0) (sym k) ∙ h)

-- A chain that returns got past its guard, in the same store.
module _ {B : Type 0} where
  pub throw_if_ok :
      (b : Bool) (e : Fault) (f : Done → Action B) (s : Store) (r : B)
      → ((throw_if b e >>= f) s).0 ≡ ok r
      → (b ≡ false) × ((f tt s).0 ≡ ok r)
  unfolding throw_if throw pure ◌>>=◌
  throw_if_ok true e f s r h = cc
  throw_if_ok false e f s r h = (refl, h)

  pub or_throw_ok :
      {A : Type 0} (o : Option A) (e : Fault) (f : A → Action B) (s : Store) (r : B)
      → ((or_throw o e >>= f) s).0 ≡ ok r
      → (a : A) × (o ≡ some a) × ((f a s).0 ≡ ok r)
  unfolding or_throw throw pure ◌>>=◌
  or_throw_ok none e f s r h = cc
  or_throw_ok (some a) e f s r h = (a, refl, h)

pub ruleset atomic_rules = (
  IsReadOnly-pure, IsReadOnly-throw, IsReadOnly-gets, IsReadOnly-or_throw, IsReadOnly-if,
  IsReadOnly-throw_if, IsReadOnly-bind, IsAtomic-transaction, IsAtomic-bind,
)

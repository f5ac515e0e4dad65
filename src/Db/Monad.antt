-- ===== src/Db/Monad.antt =====
-- What runs against the store: an asynchronous function that may throw. A throw keeps what was
-- committed before it; `transaction` undoes what ran inside it.
use institutional_tokenizati.Base.{ℕ, suc, Bool, true, false, Option, none, some}
use institutional_tokenizati.Domain.Errors.{Fault}
use institutional_tokenizati.Db.Rows.{Store}

pub data Result (A : Type 0) : Type 0 where
  ok : A → Result A
  err : Fault → Result A

abbrev pub Action : Type 0 → Type 0
Action A = Store → Result A × Store

abbrev pub Done : Type 0
Done = Unit {0}

module _ {A : Type 0} where
  unfoldable pub pure : A → Action A
  pure a s = (ok a, s)

  unfoldable pub throw : Fault → Action A
  throw e s = (err e, s)

  unfoldable pub gets : (Store → A) → Action A
  gets f s = (ok (f s), s)

  -- `o ?? throw`
  unfoldable pub or_throw : Option A → Fault → Action A
  unfolding throw pure
  or_throw none e = throw e
  or_throw (some a) e = pure a

  -- how `db.transaction(...)` ends: a throw rolls back
  abbrev pub commit : Store → Result A × Store → Result A × Store
  commit s (ok a, s') = (ok a, s')
  commit s (err e, s') = (err e, s)

  unfoldable pub transaction : Action A → Action A
  transaction m s = commit s (m s)

  -- `try { m } catch (error) { handler(error) }`
  abbrev pub recover : (Fault → Action A) → Result A × Store → Result A × Store
  recover handler (ok a, s') = (ok a, s')
  recover handler (err e, s') = handler e s'

  unfoldable pub try_catch : Action A → (Fault → Action A) → Action A
  try_catch m handler s = recover handler (m s)

unfoldable pub modify : (Store → Store) → Action Done
modify f s = (ok tt, f s)

unfoldable pub throw_if : Bool → Fault → Action Done
unfolding throw pure
throw_if true e = throw e
throw_if false e = pure tt

-- `gen_random_uuid()` and `randomUUID()`: an identifier that was not given out before
unfoldable pub fresh_id : Action ℕ
fresh_id s = (ok s.next_id, record s { next_id = suc s.next_id })

abbrev pub continue : {A B : Type 0} → Result A × Store → (A → Action B) → Result B × Store
continue (ok a, s) f = f a s
continue (err e, s) f = (err e, s)

infixl 5 ◌>>=◌ ◌>>◌
unfoldable pub ◌>>=◌ : {A B : Type 0} → Action A → (A → Action B) → Action B
unfolding pure throw gets or_throw transaction try_catch modify throw_if fresh_id
◌>>=◌ m f s = continue (m s) f

abbrev pub ◌>>◌ : {A B : Type 0} → Action A → Action B → Action B
m >> k = m >>= λ _. k

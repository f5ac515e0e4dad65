-- ===== src/Db/Within.antt =====
-- Relations between the stores before and after an action, one rule for each way to build an
-- action. The relation must hold of a store and itself, and compose.
use institutional_tokenizati.Base.{Bool, true, false, Option, none, some, if◌then◌else◌}
use institutional_tokenizati.Domain.Errors.{Fault}
use institutional_tokenizati.Db.Rows.{Store}
use institutional_tokenizati.Db.Monad.{
  Result, ok, err, Action, pure, throw, gets, or_throw, transaction, try_catch, modify, throw_if,
  ◌>>=◌, commit, recover, continue,
}

pub record IsPreorder (R : Store → Store → Type 0) : Type 0 where
  pub same : (s : Store) → R s s
  pub join : (s t u : Store) → R s t → R t u → R s u

-- Whether `m` returns or throws, the store that it leaves is related to the one it found.
pub record Within {A : Type 0} (R : Store → Store → Type 0) (m : Action A) : Type 0 where
  pub at : (s : Store) → R s (m s).1

module _ {R : Store → Store → Type 0} (o : IsPreorder R) where
  module _ {A : Type 0} where
    pub Within-pure : (a : A) → Within R (pure a)
    unfolding pure
    Within-pure a = record { at = λ s. o.same s }

    pub Within-throw : (e : Fault) → Within R (throw {A = A} e)
    unfolding throw
    Within-throw e = record { at = λ s. o.same s }

    pub Within-gets : (f : Store → A) → Within R (gets f)
    unfolding gets
    Within-gets f = record { at = λ s. o.same s }

    pub Within-or_throw : (a : Option A) (e : Fault) → Within R (or_throw a e)
    unfolding or_throw
    Within-or_throw none e = record { at = λ s. o.same s }
    Within-or_throw (some a) e = record { at = λ s. o.same s }

    commit_rel : (s : Store) (r : Result A × Store) → R s r.1 → R s (commit s r).1
    commit_rel s (ok a, t) h = h
    commit_rel s (err e, t) h = o.same s

    pub Within-transaction : (m : Action A) → Within R m → Within R (transaction m)
    unfolding transaction
    Within-transaction m h = record { at = λ s. commit_rel s (m s) (h.at s) }

    recover_rel :
        (s : Store) (handler : Fault → Action A) (r : Result A × Store)
        → R s r.1
        → ((e : Fault) → Within R (handler e))
        → R s (recover handler r).1
    recover_rel s handler (ok a, t) h k = h
    recover_rel s handler (err e, t) h k = o.join s t (handler e t).1 h ((k e).at t)

    pub Within-try_catch :
        (m : Action A) (handler : Fault → Action A)
        → Within R m
        → ((e : Fault) → Within R (handler e))
        → Within R (try_catch m handler)
    unfolding try_catch
    Within-try_catch m handler h k = record { at = λ s. recover_rel s handler (m s) (h.at s) k }

    pub Within-if :
        (b : Bool) (m n : Action A) → Within R m → Within R n → Within R (if b then m else n)
    Within-if true m n h k = h
    Within-if false m n h k = k

  pub Within-throw_if : (b : Bool) (e : Fault) → Within R (throw_if b e)
  unfolding throw_if
  Within-throw_if true e = record { at = λ s. o.same s }
  Within-throw_if false e = record { at = λ s. o.same s }

  module _ {A B : Type 0} where
    bind_rel :
        (s : Store) (r : Result A × Store) (f : A → Action B)
        → R s r.1
        → ((a : A) → Within R (f a))
        → R s (continue r f).1
    bind_rel s (ok a, t) f h k = o.join s t (f a t).1 h ((k a).at t)
    bind_rel s (err e, t) f h k = h

    pub Within-bind :
        (m : Action A) (f : A → Action B)
        → Within R m
        → ((a : A) → Within R (f a))
        → Within R (m >>= f)
    unfolding ◌>>=◌
    Within-bind m f h k = record { at = λ s. bind_rel s (m s) f (h.at s) k }

  pub Within-modify : (f : Store → Store) → ((s : Store) → R s (f s)) → Within R (modify f)
  unfolding modify
  Within-modify f h = record { at = h }

pub ruleset within_rules = (
  Within-pure, Within-throw, Within-gets, Within-or_throw, Within-transaction, Within-try_catch,
  Within-if, Within-throw_if, Within-bind,
)

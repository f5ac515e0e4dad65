-- ===== src/Executor/Outcomes.antt =====
-- src/modules/operations/operation-executor.ts: what a result of the executor says of the store.
use institutional_tokenizati.Base.{
  ℕ, ◌≡◌, ◌≢◌, ap, ◌∙◌, true, false, none, some, arith, find_row, ◌⊎◌, inl, inr,
}
use institutional_tokenizati.Domain.OperationState.{
  OperationState, ready, preparing, broadcasting, state_eq, state_eq_iff, includes_state,
  can_transition_operation, is_terminal_operation_state,
}
use institutional_tokenizati.Domain.OperationState.Graph.{
  Run, is_past_signing, never_signs_again, terminal_absorbs,
}
use institutional_tokenizati.Db.{
  Store, Operation, FailureCode, ok, transaction, ◌>>=◌, continue, try_catch,
}
use institutional_tokenizati.Repo.Operations.{
  claim, advanced, find_operation_by_id, claim_ready_operation, claim_locked,
}
use institutional_tokenizati.Repo.Operations.Laws.{
  moved, transition_runs, advanced_state, find_observed, moved_row,
}
use institutional_tokenizati.Executor.Interface.{ExecutorDeps, ExecutionResult}
use institutional_tokenizati.Executor.Settlement.{unfailable_states, fail_locked, fail_operation}
use institutional_tokenizati.Executor.Pipeline.{run_claimed, execute_operation}
use institutional_tokenizati.Executor.Lifecycle.{Follows, has_operation_id}

claim_refused :
    (operation_id worker_id : ℕ) (s : Store) (o : Operation)
    → find_row (has_operation_id operation_id) s.operations ≡ some o
    → state_eq o.state ready ≡ false
    → transaction (claim_ready_operation operation_id worker_id) s ≡ (ok none, s)
unfolding claim_ready_operation find_operation_by_id claim_locked transaction ◌>>=◌
claim_refused operation_id worker_id s o h k = ground arith

skipped_as :
    (deps : ExecutorDeps) (operation_id : ℕ) (s : Store) (o : Operation)
    → find_row (has_operation_id operation_id) s.operations ≡ some o
    → run_claimed deps operation_id none s ≡ (ok (ExecutionResult.skipped (some o.state)), s)
unfolding run_claimed find_operation_by_id ◌>>=◌
skipped_as deps operation_id s o h = ground arith

unready_skipped :
    (deps : ExecutorDeps) (operation_id worker_id : ℕ) (s : Store) (o : Operation)
    → find_row (has_operation_id operation_id) s.operations ≡ some o
    → o.state ≢ ready
    → execute_operation deps operation_id worker_id s
      ≡ (ok (ExecutionResult.skipped (some o.state)), s)
unfolding execute_operation run_claimed find_operation_by_id ◌>>=◌
unready_skipped deps operation_id worker_id s o h k =
    let n : state_eq o.state ready ≡ false = ground (arith, state_eq_iff o.state ready) in
    ap (λ r. continue r (run_claimed deps operation_id))
      (claim_refused operation_id worker_id s o h n)
    ∙ skipped_as deps operation_id s o h

-- The operation is there, past its signature and not cancelled.
abbrev pub IsPastSigning : ℕ → Store → Type 0
IsPastSigning id s =
    (p : Operation) × (find_row (has_operation_id id) s.operations ≡ some p)
    × (is_past_signing p.state ≡ true)

pub stays_past : (id : ℕ) (s t : Store) → IsPastSigning id s → Follows s t → IsPastSigning id t
stays_past id s t (o, h, k) f =
    let (p, e, later) = f.keeps id o h in (p, e, never_signs_again k later.run)

claim_taken :
    (operation_id worker_id : ℕ) (s : Store) (o : Operation)
    → find_row (has_operation_id operation_id) s.operations ≡ some o
    → o.state ≡ ready
    → transaction (claim_ready_operation operation_id worker_id) s ≡ (
      ok (some (advanced preparing (claim worker_id) s.clock o)),
      moved o preparing (claim worker_id) s,
    )
unfolding claim_ready_operation find_operation_by_id claim_locked transaction ◌>>=◌
    can_transition_operation
claim_taken operation_id worker_id s o h k = ground (
  arith,
  h,
  k,
  state_eq_iff o.state ready,
  transition_runs o preparing (claim worker_id) s o,
  find_observed o operation_id s h,
)

taken_runs :
    (deps : ExecutorDeps) (operation_id worker_id : ℕ) (s t : Store) (claimed : Operation)
    → transaction (claim_ready_operation operation_id worker_id) s ≡ (ok (some claimed), t)
    → execute_operation deps operation_id worker_id s
      ≡ run_claimed deps operation_id (some claimed) t
unfolding execute_operation ◌>>=◌
taken_runs deps operation_id worker_id s t claimed e =
    ap (λ r. continue r (run_claimed deps operation_id)) e

later_skipped :
    (deps : ExecutorDeps) (operation_id other : ℕ) (v u : Store)
    → IsPastSigning operation_id v
    → Follows v u
    → (p : Operation) × (find_row (has_operation_id operation_id) u.operations ≡ some p)
      × (execute_operation deps operation_id other u
          ≡ (ok (ExecutionResult.skipped (some p.state)), u))
later_skipped deps operation_id other v u past moves =
    let (p, e, k) = stays_past operation_id v u past moves in
    (p, e, unready_skipped deps operation_id other u p e (λ r. ground (arith, r, k)))

-- A READY operation is executed by the first of its deliveries only. That one claims it, so that it
-- is PREPARING, and goes on with it. A second delivery meanwhile changes nothing at all and reports
-- PREPARING, and so does one at any store in which the operation is not READY, with the state that
-- it finds there. When the first has run and bytes may have been sent, a second delivery is
-- skipped in this way whatever moves along the table come between.
pub duplicate_delivery_skipped :
    (deps : ExecutorDeps) (operation_id worker_id other : ℕ) (s : Store) (o : Operation)
    → find_row (has_operation_id operation_id) s.operations ≡ some o
    → o.state ≡ ready
    → (claimed : Operation) × (t : Store) × (claimed.state ≡ preparing)
      × (find_row (has_operation_id operation_id) t.operations ≡ some claimed)
      × (execute_operation deps operation_id worker_id s
          ≡ run_claimed deps operation_id (some claimed) t)
      × (execute_operation deps operation_id other t
          ≡ (ok (ExecutionResult.skipped (some preparing)), t))
      × ((u : Store) (p : Operation)
          → find_row (has_operation_id operation_id) u.operations ≡ some p
          → p.state ≢ ready
          → execute_operation deps operation_id other u
            ≡ (ok (ExecutionResult.skipped (some p.state)), u))
      × ((u : Store)
          → IsPastSigning operation_id (execute_operation deps operation_id worker_id s).1
          → Follows (execute_operation deps operation_id worker_id s).1 u
          → (p : Operation) × (find_row (has_operation_id operation_id) u.operations ≡ some p)
            × (execute_operation deps operation_id other u
                ≡ (ok (ExecutionResult.skipped (some p.state)), u)))
duplicate_delivery_skipped deps operation_id worker_id other s o h k =
    let claimed = advanced preparing (claim worker_id) s.clock o in
    let t = moved o preparing (claim worker_id) s in
    let state : claimed.state ≡ preparing =
      (advanced_state preparing (claim worker_id) s.clock o).0 in
    let row = moved_row o preparing (claim worker_id) operation_id s h in
    (
      claimed,
      t,
      state,
      row,
      taken_runs deps operation_id worker_id s t claimed
          (claim_taken operation_id worker_id s o h k),
      unready_skipped deps operation_id other t claimed row (λ e. ground (arith, e, state))
          ∙ ap (λ x. (ok (ExecutionResult.skipped (some x)), t)) state,
      λ u p f n. unready_skipped deps operation_id other u p f n,
      λ u past moves. later_skipped deps operation_id other _ u past moves,
    )

spared :
    (state : OperationState)
    → (is_past_signing state ≡ true) ⊎ (is_terminal_operation_state state ≡ true)
    → includes_state unfailable_states state ≡ true
unfolding is_terminal_operation_state includes_state state_eq
spared state h = ground arith

spared_after :
    (was now : OperationState)
    → (was ≡ broadcasting) ⊎ (is_terminal_operation_state was ≡ true)
    → Run was now
    → includes_state unfailable_states now ≡ true
spared_after was now (inl e) run = spared now (inl (never_signs_again (ap is_past_signing e) run))
spared_after was now (inr e) run =
    spared now (inr (ap is_terminal_operation_state (terminal_absorbs e run) ∙ e))

-- The bookkeeping of a failure leaves an operation alone whose lifecycle has been BROADCASTING, so
-- that its bytes may have been sent, or was settled, wherever it is now: the whole store stays as it
-- was.
pub failure_spares_in_flight :
    (deps : ExecutorDeps) (operation : Operation) (code : FailureCode) (s : Store) (o : Operation)
    (was : OperationState)
    → find_row (has_operation_id operation.id) s.operations ≡ some o
    → (was ≡ broadcasting) ⊎ (is_terminal_operation_state was ≡ true)
    → Run was o.state
    → fail_operation deps operation code s ≡ (ok tt, s)
unfolding fail_operation fail_locked find_operation_by_id transaction try_catch ◌>>=◌
failure_spares_in_flight deps operation code s o was h k run =
    ground (arith, spared_after was o.state k run)

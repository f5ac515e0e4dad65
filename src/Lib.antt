-- ===== src/Lib.antt =====
-- institutional-tokenization-orchestrator: the mint of a tokenised asset, from its approval by two
-- people to a transaction on an EVM chain that is signed, stored, sent and confirmed.
--
-- The parts, and the files that model them:
--   Base       numbers, texts and tables; no code of the program.
--   Domain     src/domain: the lifecycle of an operation (OperationState), approval requests and
--              their tally (ApprovalState), canonical JSON (Canonical), the proposal of a mint
--              (MintProposal), error codes (Errors), actors and roles (Roles, with
--              src/platform/auth/authorize.ts).
--   Db         src/db: the rows of the tables, the store, and actions on it. An action is an
--              asynchronous function that may throw; `transaction` is `db.transaction`, and undoes
--              what its body did when that throws. Db/Within and Db/Atomic are relations between
--              the stores before and after an action.
--   Repo       src/db/repositories: one function for each query, under the query's name in snake
--              case. Unique indexes and CHECK constraints that the code runs into are guards.
--   Mints      src/modules/operations/mint-service.ts: the proposal that is rebuilt.
--   Approvals  src/modules/approvals/approval-service.ts: `recordDecision`.
--   Idempotency  src/modules/idempotency/idempotency-service.ts: `execute`.
--   Transactions  src/modules/transactions and src/adapters/evm: nonces (Nonces), what a replacement
--              may change (Intent), the check of signed bytes (Verifier), the wait for a receipt
--              (Confirmation) and the chain writer (ChainWriter), whose `execute`, `replaceFees`,
--              `cancelNonce` and `resumeSignature` go through the same signature and broadcast.
--   Gateway    src/ports/evm-gateway.ts and src/ports/compliance-provider.ts: the chain and the
--              screening provider, as records of actions.
--   Executor   src/modules/operations/operation-executor.ts and operation-handler.ts: the handlers'
--              interface (Interface), the hooks given to the chain writer (Hooks), what follows a
--              receipt (Settlement), and the calls of the executor (Pipeline). The other files are
--              proofs: Lifecycle, Unmoved, Writing and Moves carry the refinement of the lifecycle
--              step by step through all that the executor calls; Durable is about the hooks.
--   Reconciliation  src/modules/transactions/reconciliation-service.ts.
--   Compliance  src/modules/compliance/compliance-service.ts, and
--              src/modules/operations/administrative-intent.ts (Intent).
--   Handlers   src/modules/operations/handlers: mints, deployments, eligibility writes.
--   Recovery   src/modules/transactions/recovery-service.ts.
--   Dispatch   src/modules/outbox/outbox-dispatcher.ts.
--   Replacements  src/modules/transactions/replacement-service.ts: stuck transactions (Stuck) and
--              blocked nonce lanes (Lane).
--   Tests      a concrete store, and the theorems applied to it.
--
-- How they interact: an approval makes an operation READY and enqueues a work item in one
-- transaction; the dispatcher publishes the item, and the executor claims the operation, asks the
-- handler of its type for the call, and passes it to the chain writer with hooks that advance the
-- operation. The chain writer reserves a nonce, records an attempt, asks the signer, checks and
-- stores the bytes, marks the attempt as broadcasting, and only then sends. The executor then waits
-- for the confirmation, has the handler reconcile the receipt, and settles the operation in one
-- transaction. The recovery sweep takes up operations that stand still, and the replacement sweep
-- transactions that do; both go through the executor and the chain writer. The gateway and the
-- signer are parameters of the chain writer, given as actions: they may throw, and they may change
-- the store, which stands for the other workers that run during a call. So do the hooks by which
-- the caller advances its operation. `sent` in the store is the model's record of what the node was
-- handed, with the attempts on record at that moment.
--
-- Conventions: identifiers are numbers, and `Host` gives the text of one; SHA-256 is a parameter of
-- `Host`, viem's functions are a parameter of the verifier. Addresses, hashes and calldata are texts
-- of UTF-16 code units; amounts and fees are natural numbers where the program keeps decimal text.
-- Tables are lists with the newest row first. Transactions run one after another, as the row locks
-- of the program order them; calls of other workers fall between them. There are two clocks,
-- PostgreSQL's and the application's, as the program writes both.
--
-- Fuel: the decimal digits of a number, the two polling loops of the confirmation and two functions
-- of the recovery that call each other run on fuel. A number has at most as many digits as its value
-- plus one. A loop takes one unit for each poll, and more units than polls up to the deadline are
-- enough: the executor gives one more than `Watch.turns`, a turn at which the clock has passed the
-- deadline. `abandonUnbroadcast` and `resolveInFlight` need three calls where stored bytes come with
-- a hash; on bytes without a hash the program would not stop.
--
-- Not modelled: the request of a mint (mint-service.ts, `requestMint`), the asset and wallet
-- services, the HTTP interface, the adapters of the chain, the signer and the screening provider,
-- the timers, and the wiring. Messages, metrics, logs, the LIMIT of a query and columns that no code
-- reads back are left out.

pub mod Base
pub mod Domain
pub mod Db
pub mod Repo
pub mod Mints
pub mod Approvals
pub mod Idempotency
pub mod Transactions
pub mod Gateway
pub mod Executor
pub mod Reconciliation
pub mod Compliance
pub mod Handlers
pub mod Recovery
pub mod Dispatch
pub mod Replacements
pub mod Tests

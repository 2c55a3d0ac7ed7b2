-- ===== src/Lib.antt =====
-- The verification library of ctech-wallet, a wallet of integer centavos in Go (api/): a ledger on
-- DynamoDB, holds for games, and money in and out by Pix.
--
-- The parts, and how they interact:
--   Domain     api/internal/domain/wallet: the rows (Domain/Model) and the pure rules: the deposit
--              range and the least withdrawal (Limits), the daily limits (Daily), what the Pix
--              dialogs offer (Rail: ComputeRailLimits), self-exclusion and game limits (Responsible).
--   Store      what the repositories stand on. Store/Tables has the tables as one record Db, and
--              each item of a TransactWriteItems call with its condition and its effect as the code
--              writes their expressions. Store/Dynamo has DynamoDB as a record of functions, with
--              its laws: a transaction is all or nothing, one that fails with an error other than a
--              condition may or may not have been applied, reads other than those of wallets, users
--              and withdrawals may be stale. IsPrompt adds that every call is answered. Store/Memory
--              is an instance. Store/Problem has the errors and the monad of the operations;
--              Store/Sound, Guarded and Lawful have the ledger's invariant and the transactions that
--              keep it.
--   Ledger     api/internal/repositories/wallet.go, the mutations: mutate, Credit, Debit,
--              FindMutation, ConfirmDepositCredit with checkReplay and resolveTxErr (settle).
--   Wallets    the same file: loadByMarkers, createWallets, EnsureWalletsOfType.
--   Payments   the same file and user.go: deposit and withdrawal rows and the daily counters.
--   Holds      api/internal/repositories/holds.go: CreateHold, ReleaseHoldAtomic, CashoutHoldsAtomic.
--   Service    api/internal/services: Withdraw (wallet.go) with reverse (reconcile.go) in
--              Service/Withdraw; ConfirmDeposit (wallet.go) in Service/Deposit, its refunds at the
--              rail in Service/Deposit/Saga, and the debit of a deposit that was sent back in
--              Service/Deposit/Reversal; payerNameMatches (payer_name.go) in Service/PayerName;
--              holds, releases, cash-outs, sandbox and billing movements in
--              Service/Games; maskedCPFMatches in Service/Payer. The rail, KYC, locks, SHA-256 and
--              the clock are fields of the record Env; calls of the rail that move money are logged
--              in the World.
--              Payments/Queues has the work queues of the jobs. InitiateDeposit is Service/Initiate;
--              the batch jobs of reconcile.go are Service/Reconcile, and one run of them, as
--              api/cmd/reconcile/main.go makes it, is Jobs.
--   Billing    the rail that moves the money: api/internal/billingclient/client.go in
--              Billing/Client and Billing/Signature, api/internal/rail/billing.go in Billing/Rail;
--              what the deposit flow makes of its answers is in Billing/Credits.
--              Its routes are a parameter with a state of their own.
--   Api        api/internal/api/v1/billing_events.go: the signed events in Api/Events; the checks
--              of a token (api/internal/middleware/scope.go) in Api/Access.
--   Erasure    the account-deletion purge: api/internal/repositories/erasure.go in Erasure,
--              CarriedSelfExclusion (api/internal/domain/wallet/erasure.go) in Erasure/Exclusion,
--              Blockers and Purge (api/internal/services/erasure.go) in Erasure/Blockers and
--              Erasure/Purge. It has tables of its own, so its state is a Vault around Db.
--   Export     the copy of a person's data, api/internal/services/data_export.go: Write, whole and
--              list. The zip is a parameter. The pages of a list are read on fuel, one step per page.
--   System     all of these as one system: a Request for each operation, a step that serves one,
--              with an environment of its own, and the states that steps reach. What the ledger
--              promises is a specification of its own, Store/Log: a log that is only appended to.
--   Prelude    signed integers with Go's int64 wrap-around, tables, Boolean tests.
--   Tests      a sample state, and the theorems applied there.
--
-- How the code corresponds: a Go function with several return statements is a chain of small
-- functions, one for what follows each call; `none` is nil; a nil pointer that the code would read
-- through is the error `panicked`. Arithmetic on int64 is written with its wrap-around, DynamoDB's own
-- arithmetic without. A call reads the clock and the identifier generator through one Moment. A state
-- has the rows as functions of their keys; the ledger is a list. Loops run over lists.
-- InitiateDeposit calls itself: it takes fuel, and one pass is enough where reads are current and no
-- other request writes in between (Service/Initiate/Ends). Text keys are the code's own; digests are a parameter. A deposit's txid is read from its
-- row, which is stored under it.
--
-- Not modelled: log lines, operator alerts and WebSocket broadcasts, which change no row; encoding of
-- rows; page reads; the HTTP layer but for the events and the scopes; the consumer of the erasure saga; the
-- README of the data export. Calls of two requests
-- interleave only at whole transactions: the laws of a stale read and of a refused condition stand
-- for what another request did.
pub mod Api
pub mod Billing
pub mod Domain
pub mod Erasure
pub mod Export
pub mod Holds
pub mod Jobs
pub mod Ledger
pub mod Payments
pub mod Prelude
pub mod Service
pub mod Store
pub mod System
pub mod Tests
pub mod Wallets

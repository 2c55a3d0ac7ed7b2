-- ===== src/Service/Reconcile/Quiet.antt =====
-- Which withdrawals a reconciliation may reverse: those of which the rail says that they failed, or
-- that it does not know them once its grace is over. For all others no money moves.
use ctech_wallet.Prelude.{String, ◌≡◌, ◌⊎◌, none, some, arith, true, List, [], ◌∷◌, inl, inr}
use ctech_wallet.Prelude.Int.{ℤ, pos, ◌-ℤ◌, ◌<ℤ◌, leb_ℤ_iff, ltb_ℤ_iff}
use ctech_wallet.Prelude.Lists.{All}
use ctech_wallet.Domain.Model.{Withdrawal, WithdrawStatus}
use ctech_wallet.Store.Problem.{Result, ok, err, bind_keeps}
use ctech_wallet.Store.Tables.{Db}
use ctech_wallet.Store.Dynamo.{IsDynamo}
use ctech_wallet.Store.Sound.{SameBooks, SameBooks-self}
use ctech_wallet.Store.Lawful.{transact-SameBooks}
use ctech_wallet.Payments.{update_withdrawal}
use ctech_wallet.Payments.Keeps.{update_withdrawal_state}
use ctech_wallet.Payments.Queues.{Indexes, list_processing_withdrawals}
use ctech_wallet.Service.{
  World, Env, TransferResult, TransferStatus, transfer_done, transfer_not_found, transfer_failed,
  transfer_processing, other_transfer, on_db, timed, read_clock,
}
use ctech_wallet.Service.Reconcile.{
  Tally, started, reconcile_batch, too_young_to_reverse, count_resolved, resolve, payout_queried,
  reconcile_one, reconcile_each, reconcile_withdrawals,
}

-- The instant that a row was created at: its time with fractions of a second, or else without.
abbrev pub WasCreated : Env → Withdrawal → ℤ → Type 0
WasCreated env row at =
    (env.calendar.parse_nano row.created_at ≡ some at)
    ⊎ ((env.calendar.parse_nano row.created_at ≡ none)
        × (env.calendar.parse row.created_at ≡ some at))

-- A withdrawal that is younger than the rail's grace.
abbrev pub IsInGrace : Env → Withdrawal → ℤ → Type 0
IsInGrace env row now =
    (at : ℤ) × WasCreated env row at × (now -ℤ at <ℤ env.payout_grace) × (pos 0 <ℤ env.payout_grace)

-- An answer of the rail on which no money goes back: it is neither that the payout failed, nor that
-- it is unknown once its grace is over.
abbrev pub Spares : Env → Withdrawal → ℤ → TransferStatus → Type 0
Spares env row now transfer_failed = ⊥
Spares env row now transfer_not_found = IsInGrace env row now
Spares env row now _ = Unit

abbrev pub SparesAnswer : Env → Withdrawal → World → Result TransferResult → Type 0
SparesAnswer env row w (err e) = Unit
SparesAnswer env row w (ok res) = Spares env row (env.clock w).now res.status

-- Asked at any time about the payout of a withdrawal, the rail answers so.
abbrev pub IsSpared : Env → Withdrawal → Type 0
IsSpared env row =
    (w : World) → SparesAnswer env row w (env.query_payout (env.inter_idem_key row.withdrawal_id) w)

grace_young :
    (env : Env) (row : Withdrawal) (now : ℤ)
    → IsInGrace env row now
    → too_young_to_reverse env row env.payout_grace now ≡ true
unfolding too_young_to_reverse
grace_young env row now (at, inl created, within, some_grace) =
    rw created
      (ground (arith, leb_ℤ_iff env.payout_grace (pos 0), ltb_ℤ_iff (now -ℤ at) env.payout_grace))
grace_young env row now (at, inr (unread, created), within, some_grace) =
    rw (unread, created)
      (ground (arith, leb_ℤ_iff env.payout_grace (pos 0), ltb_ℤ_iff (now -ℤ at) env.payout_grace))

module _ (env : Env) (law : IsDynamo env.dynamo) (before : Db) where
  abbrev Quiet : World → Type 0
  Quiet w = SameBooks w.db before

  count_resolved-Quiet :
      (n : Tally) (r : Result Unit) (w : World) → Quiet w → Quiet (count_resolved n r w).1
  unfolding count_resolved
  count_resolved-Quiet n (err e) w h = h
  count_resolved-Quiet n (ok u) w h = h

  module _ (row : Withdrawal) (n : Tally) where
    resolve-Quiet :
        (e2e : String) (s : TransferStatus) (w : World)
        → Spares env row (env.clock w).now s
        → Quiet w
        → Quiet (resolve env n row e2e s w).1
    unfolding resolve timed on_db read_clock
    resolve-Quiet e2e transfer_done w spared h =
        let t = env.clock w in
        let id = row.withdrawal_id in
        let done = WithdrawStatus.completed in
        let write = update_withdrawal env.dynamo t id done (some e2e) w.db in
        count_resolved-Quiet n write.0 (record w { db = write.1 })
          (rw (update_withdrawal_state env.dynamo t id done (some e2e) w.db)
            (transact-SameBooks env.dynamo law _ w.db before (tt, tt) h))
    resolve-Quiet e2e transfer_not_found w spared h =
        rw (grace_young env row (env.clock w).now spared) h
    resolve-Quiet e2e transfer_failed w spared h = absurd spared
    resolve-Quiet e2e transfer_processing w spared h = h
    resolve-Quiet e2e other_transfer w spared h = h

    payout_queried-Quiet :
        (r : Result TransferResult) (w : World)
        → SparesAnswer env row w r
        → Quiet w
        → Quiet (payout_queried env n row r w).1
    unfolding payout_queried
    payout_queried-Quiet (err e) w spared h = h
    payout_queried-Quiet (ok res) w spared h = resolve-Quiet res.e2e_id res.status w spared h

    reconcile_one-Quiet :
        (w : World) → IsSpared env row → Quiet w → Quiet (reconcile_one env n row w).1
    unfolding reconcile_one
    reconcile_one-Quiet w spared h = payout_queried-Quiet _ w (spared w) h

  reconcile_each-Quiet :
      (n : Tally) (rows : List Withdrawal)
      → All (IsSpared env) rows
      → (w : World) → Quiet w
      → Quiet (reconcile_each env n rows w).1
  unfolding reconcile_each
  reconcile_each-Quiet n [] spared w h = h
  reconcile_each-Quiet n (row ∷ rows) (spared, others) w h =
      let kept = reconcile_one-Quiet row n w spared h in
      bind_keeps (λ x. Quiet x) (reconcile_one env n row) _ w kept
        (λ n' e. reconcile_each-Quiet n' rows others _ kept)

-- A run of the reconciliation moves no money, and books nothing, where the rail, asked about the
-- withdrawals of the queue, says of none that its payout failed, nor that it does not know it while
-- the withdrawal is as old as the rail's grace: wallets, ledger and guards stay as they were, whatever
-- else the rail and DynamoDB answer.
pub reconcile_withdrawals-SameBooks :
    (env : Env) (q : Indexes) (w : World)
    → IsDynamo env.dynamo
    → ((rows : List Withdrawal)
        → (list_processing_withdrawals q reconcile_batch w.db).0 ≡ ok rows
        → All (IsSpared env) rows)
    → SameBooks (reconcile_withdrawals env q w).1.db w.db
unfolding reconcile_withdrawals on_db list_processing_withdrawals
reconcile_withdrawals-SameBooks env q w law spared =
    bind_keeps (λ x. SameBooks x.db w.db) (on_db (list_processing_withdrawals q reconcile_batch)) _
      w (SameBooks-self w.db)
      (λ rows e.
        reconcile_each-Quiet env law w.db started rows (spared rows e) w (SameBooks-self w.db))

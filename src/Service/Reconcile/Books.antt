-- ===== src/Service/Reconcile/Books.antt =====
-- The batch jobs keep the ledger's invariant, and the sweeps of deposits ask the rail for refunds
-- only.
use ctech_wallet.Prelude.{String, ◌≡◌, ◌∙◌, ap, ℕ, List}
use ctech_wallet.Prelude.Int.{IsMagnitude, ◌-ℤ◌}
use ctech_wallet.Prelude.Lists.{All}
use ctech_wallet.Domain.Model.{Withdrawal, WithdrawStatus}
use ctech_wallet.Store.Problem.{ok, bind_keeps}
use ctech_wallet.Store.Tables.{Db}
use ctech_wallet.Store.Dynamo.{IsDynamo}
use ctech_wallet.Store.Lawful.{Invariant, Invariant-Closed, pair-Closed}
use ctech_wallet.Store.Amounts.{IsTidy, IsTidy-Closed}
use ctech_wallet.Payments.{get_withdrawal}
use ctech_wallet.Payments.Queues.{
  Indexes, list_processing_withdrawals, list_pending_deposits_older_than,
  list_refundable_deposits_older_than, scan_stale_holds,
}
use ctech_wallet.Payments.Queues.Keeps.{list_pending_state, list_refundable_state, scan_stale_state}
use ctech_wallet.Service.{World, Env, on_db, read_clock}
use ctech_wallet.Service.Keeps.{Keeps, ClosedWorld, OfDb-ClosedWorld, on_db-Keeps}
use ctech_wallet.Service.Deposit.SagaKeeps.{KeptByRefunds}
use ctech_wallet.Service.Deposit.Books.{AnswersSoundly}
use ctech_wallet.Service.Reconcile.{
  started, reconcile_batch, sweep_age_threshold, reconcile_withdrawals, reverse_withdrawal,
  sweep_pending_deposits, sweep_deposit_refunds, sweep_stale_holds, stale_hold_ceiling,
}
use ctech_wallet.Service.Reconcile.Keeps.{
  reconcile_each-Keeps, reverse_found-Keeps, sweep_each-Keeps,
}

-- An index gives rows of withdrawals that stand in the table, or did: their amounts never change.
abbrev pub IsTidyIndex : Indexes → Type 0
IsTidyIndex q =
    (s : WithdrawStatus) (n : ℕ) (db : Db) (rows : List Withdrawal)
    → IsTidy db
    → q.withdrawals_by_status s n db ≡ ok rows
    → All (λ row. IsMagnitude row.amount) rows

module _ (env : Env) (q : Indexes) (R : World → Type 0) where
  module _ (law : IsDynamo env.dynamo) (closed : ClosedWorld env R)
      (tidy : (w : World) → R w → IsTidy w.db) (index : IsTidyIndex q) where
    pub reconcile_withdrawals-Keeps : Keeps R (reconcile_withdrawals env q)
    unfolding reconcile_withdrawals on_db list_processing_withdrawals
    reconcile_withdrawals-Keeps w h =
        bind_keeps R (on_db (list_processing_withdrawals q reconcile_batch)) _ w h (λ rows e.
          reconcile_each-Keeps env R closed started rows
            (index WithdrawStatus.processing reconcile_batch w.db rows (tidy w h) e) w h)

    pub reverse_withdrawal-Keeps : (id : String) → Keeps R (reverse_withdrawal env id)
    unfolding reverse_withdrawal on_db get_withdrawal
    reverse_withdrawal-Keeps id w h =
        bind_keeps R (on_db (get_withdrawal env.dynamo id)) _ w h (λ o e.
          reverse_found-Keeps env R closed id o
            (λ row same. (tidy w h).withdrawals id row (law.withdrawal_current id w.db o e ∙ same))
            w h)

  module _ (closed : ClosedWorld env R) (logs : KeptByRefunds R)
      (answers : AnswersSoundly env) where
    pub sweep_pending_deposits-Keeps : Keeps R (sweep_pending_deposits env q)
    unfolding sweep_pending_deposits read_clock
    sweep_pending_deposits-Keeps w h =
        let cutoff = (env.clock w).now -ℤ sweep_age_threshold in
        let list = list_pending_deposits_older_than q env.calendar cutoff reconcile_batch in
        let kept =
          on_db-Keeps env R closed list
            (λ P k db p. rw (list_pending_state q env.calendar cutoff reconcile_batch db) p) w h in
        bind_keeps R (on_db list) _ w kept
          (λ rows e. sweep_each-Keeps env R closed logs answers 0 rows _ kept)

    pub sweep_deposit_refunds-Keeps : Keeps R (sweep_deposit_refunds env q)
    unfolding sweep_deposit_refunds read_clock
    sweep_deposit_refunds-Keeps w h =
        let cutoff = (env.clock w).now -ℤ sweep_age_threshold in
        let list = list_refundable_deposits_older_than q env.calendar cutoff reconcile_batch in
        let kept =
          on_db-Keeps env R closed list
            (λ P k db p. rw (list_refundable_state q env.calendar cutoff reconcile_batch db) p) w
            h in
        bind_keeps R (on_db list) _ w kept
          (λ rows e. sweep_each-Keeps env R closed logs answers 0 rows _ kept)

-- The sweep of holds only counts: no hold is released or cashed out.
pub sweep_stale_holds_state :
    (env : Env) (q : Indexes) (w : World) → (sweep_stale_holds env q w).1 ≡ w
unfolding sweep_stale_holds on_db read_clock
sweep_stale_holds_state env q w =
    let list =
      scan_stale_holds q env.calendar ((env.clock w).now -ℤ stale_hold_ceiling) reconcile_batch in
    let same : (on_db list w).1 ≡ w =
      ap (λ db. record w { db = db }) (scan_stale_state q env.calendar _ reconcile_batch w.db) in
    bind_keeps (λ s. s ≡ w) (on_db list) _ w same (λ r e. same)

module _ (env : Env) (q : Indexes) (w : World) where
  -- Where the rows of withdrawals and the answers of the rail have int64 amounts of at least zero, each
  -- batch job keeps the ledger's invariant, whatever DynamoDB, the indexes, the lock and the rail
  -- answer: the reconciliation and the single reversal of withdrawals, and both sweeps of deposits.
  pub batch_jobs-Invariant :
      IsDynamo env.dynamo
      → IsTidyIndex q
      → AnswersSoundly env
      → Invariant w.db
      → IsTidy w.db
      → Invariant (reconcile_withdrawals env q w).1.db
        × ((id : String) → Invariant (reverse_withdrawal env id w).1.db)
        × Invariant (sweep_pending_deposits env q w).1.db
        × Invariant (sweep_deposit_refunds env q w).1.db
  batch_jobs-Invariant law index answers inv tidy =
      let P = λ (db : Db). Invariant db × IsTidy db in
      let R = λ (x : World). P x.db in
      let kept = λ (x : World) (h : R x). h.1 in
      let closed = OfDb-ClosedWorld env P (
        pair-Closed env.dynamo Invariant IsTidy (Invariant-Closed env.dynamo law)
          (IsTidy-Closed env.dynamo law)) in
      let logs : KeptByRefunds R = λ c x stable h. h in
      (
        (reconcile_withdrawals-Keeps env q R law closed kept index w (inv, tidy)).0,
        (λ id. (reverse_withdrawal-Keeps env q R law closed kept index id w (inv, tidy)).0),
        (sweep_pending_deposits-Keeps env q R closed logs answers w (inv, tidy)).0,
        (sweep_deposit_refunds-Keeps env q R closed logs answers w (inv, tidy)).0,
      )

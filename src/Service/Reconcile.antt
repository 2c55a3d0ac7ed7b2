-- ===== src/Service/Reconcile.antt =====
-- api/internal/services/reconcile.go: the batch jobs. Withdrawals whose payout has no answer yet,
-- deposits that no webhook confirmed, and refunds to try again.
pub mod Keeps
pub mod Books
pub mod Quiet
pub mod Returns
use ctech_wallet.Prelude.{
  String, Bool, true, false, ◌&&◌, ℕ, ◌+◌, Option, none, some, List, [], ◌∷◌, if◌then◌else◌,
}
use ctech_wallet.Prelude.Int.{ℤ, pos, ◌-ℤ◌, ltb_ℤ, leb_ℤ}
use ctech_wallet.Prelude.Lists.{length}
use ctech_wallet.Domain.Model.{PixDeposit, Withdrawal, WithdrawStatus}
use ctech_wallet.Store.Problem.{outage, Result, ok, err, ◌>>=◌, ◌>>◌, pure, raise, reads, attempt}
use ctech_wallet.Store.Tables.{is_reversed}
use ctech_wallet.Payments.{get_withdrawal, update_withdrawal}
use ctech_wallet.Payments.Queues.{
  Indexes, list_processing_withdrawals, list_pending_deposits_older_than,
  list_refundable_deposits_older_than, scan_stale_holds,
}
use ctech_wallet.Service.{
  World, Env, TransferResult, TransferStatus, transfer_done, transfer_not_found, transfer_failed,
  on_db, timed, read_clock, acquire_wallet,
}
use ctech_wallet.Service.Withdraw.Reverse.{reverse}
use ctech_wallet.Service.Deposit.{confirm_deposit}

abbrev pub reconcile_batch : ℕ
reconcile_batch = 100

-- Ten minutes in nanoseconds.
abbrev pub sweep_age_threshold : ℤ
sweep_age_threshold = pos 600000000000

-- A day in nanoseconds.
abbrev pub stale_hold_ceiling : ℤ
stale_hold_ceiling = pos 86400000000000

-- The counts that a run of ReconcileWithdrawals answers.
pub record Tally : Type 0 where
  pub resolved : ℕ
  pub reversed : ℕ
  pub alarmed : ℕ

abbrev pub started : Tally
started = record { resolved = 0; reversed = 0; alarmed = 0 }

abbrev pub younger_than : ℤ → ℤ → Option ℤ → Option ℤ → Bool
younger_than grace now (some at) other = ltb_ℤ (now -ℤ at) grace
younger_than grace now none (some at) = ltb_ℤ (now -ℤ at) grace
younger_than grace now none none = false

unfoldable pub count_resolved : Tally → Result Unit → World → Result Tally × World
count_resolved n (err e) = pure n
count_resolved n (ok u) = pure (record n { resolved = n.resolved + 1 })

unfoldable pub count_reversed : Tally → Bool → World → Result Tally × World
count_reversed n true = pure (record n { reversed = n.reversed + 1 })
count_reversed n false = pure (record n { alarmed = n.alarmed + 1 })

unfoldable pub reversal_answer : String → Bool → World → Result Unit × World
reversal_answer id true = pure tt
reversal_answer id false = raise (outage "withdrawal reversal failed")

unfoldable pub count_swept : ℕ → Result Unit → ℕ
count_swept n (err e) = n
count_swept n (ok u) = n + 1

module _ (env : Env) where
  -- tooYoungToReverse, at an instant.
  unfoldable pub too_young_to_reverse : Withdrawal → ℤ → ℤ → Bool
  too_young_to_reverse row grace now =
      if leb_ℤ grace (pos 0)
      then false
      else younger_than grace now (env.calendar.parse_nano row.created_at)
          (env.calendar.parse row.created_at)

  unfoldable pub reverse_locked : Tally → Withdrawal → Result Bool → World → Result Tally × World
  unfolding count_reversed
  reverse_locked n row (err e) = pure (record n { alarmed = n.alarmed + 1 })
  reverse_locked n row (ok false) = pure (record n { alarmed = n.alarmed + 1 })
  reverse_locked n row (ok true) = do back ← reverse env row; count_reversed n back

  unfoldable pub reverse_failed : Tally → Withdrawal → World → Result Tally × World
  unfolding reverse_locked
  reverse_failed n row = do
    got ← attempt (reads (env.acquire row.wallet_id))
    reverse_locked n row got

  unfoldable pub resolve :
      Tally → Withdrawal → String → TransferStatus → World → Result Tally × World
  unfolding count_resolved reverse_failed too_young_to_reverse
  resolve n row e2e transfer_done = do
    written ← attempt (
        timed env (λ t.
          update_withdrawal env.dynamo t row.withdrawal_id WithdrawStatus.completed (some e2e)))
    count_resolved n written
  resolve n row e2e transfer_not_found = do
    t ← read_clock env
    if too_young_to_reverse row env.payout_grace t.now then pure n else reverse_failed n row
  resolve n row e2e transfer_failed = reverse_failed n row
  resolve n row e2e _ = pure n

  unfoldable pub payout_queried :
      Tally → Withdrawal → Result TransferResult → World → Result Tally × World
  unfolding resolve
  payout_queried n row (err e) = pure n
  payout_queried n row (ok res) = resolve n row res.e2e_id res.status

  unfoldable pub reconcile_one : Tally → Withdrawal → World → Result Tally × World
  unfolding payout_queried
  reconcile_one n row = do
    res ← attempt (reads (env.query_payout (env.inter_idem_key row.withdrawal_id)))
    payout_queried n row res

  unfoldable pub reconcile_each : Tally → List Withdrawal → World → Result Tally × World
  unfolding reconcile_one
  reconcile_each n [] = pure n
  reconcile_each n (row ∷ rows) = do n' ← reconcile_one n row; reconcile_each n' rows

  -- ReconcileWithdrawals
  unfoldable pub reconcile_withdrawals : Indexes → World → Result Tally × World
  unfolding reconcile_each list_processing_withdrawals
  reconcile_withdrawals q = do
    rows ← on_db (list_processing_withdrawals q reconcile_batch)
    reconcile_each started rows

  unfoldable pub reverse_found : String → Option Withdrawal → World → Result Unit × World
  unfolding reversal_answer
  reverse_found id none = raise (outage "withdrawal not found")
  reverse_found id (some row) =
      if is_reversed row.status
      then pure tt
      else (do acquire_wallet env row.wallet_id; back ← reverse env row; reversal_answer id back)

  -- ReverseWithdrawal
  unfoldable pub reverse_withdrawal : String → World → Result Unit × World
  unfolding reverse_found
  reverse_withdrawal id = do row ← on_db (get_withdrawal env.dynamo id); reverse_found id row

  -- The loop of both sweeps of deposits.
  unfoldable pub sweep_each : ℕ → List PixDeposit → World → Result ℕ × World
  unfolding count_swept
  sweep_each n [] = pure n
  sweep_each n (d ∷ ds) = do
    swept ← attempt (confirm_deposit env d.txid "" "")
    sweep_each (count_swept n swept) ds

  -- SweepPendingDeposits
  unfoldable pub sweep_pending_deposits : Indexes → World → Result ℕ × World
  unfolding sweep_each list_pending_deposits_older_than
  sweep_pending_deposits q = do
    t ← read_clock env
    rows ← on_db (
        list_pending_deposits_older_than q env.calendar (t.now -ℤ sweep_age_threshold)
          reconcile_batch)
    sweep_each 0 rows

  -- SweepDepositRefunds
  unfoldable pub sweep_deposit_refunds : Indexes → World → Result ℕ × World
  unfolding sweep_each list_refundable_deposits_older_than
  sweep_deposit_refunds q = do
    t ← read_clock env
    rows ← on_db (
        list_refundable_deposits_older_than q env.calendar (t.now -ℤ sweep_age_threshold)
          reconcile_batch)
    sweep_each 0 rows

  -- SweepStaleHolds: an alarm for each, and nothing else.
  unfoldable pub sweep_stale_holds : Indexes → World → Result ℕ × World
  unfolding scan_stale_holds
  sweep_stale_holds q = do
    t ← read_clock env
    holds ← on_db (scan_stale_holds q env.calendar (t.now -ℤ stale_hold_ceiling) reconcile_batch)
    pure (length holds)

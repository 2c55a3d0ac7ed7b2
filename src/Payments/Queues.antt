-- ===== src/Payments/Queues.antt =====
-- api/internal/repositories/wallet.go: the work queues of the batch jobs, over the status indexes.
pub mod Keeps
use ctech_wallet.Prelude.{
  Bool, true, false, ℕ, ◌+◌, ◌-◌, Option, none, some, List, [], ◌∷◌, ◌++◌, String, if◌then◌else◌,
  leb, ◌==◌,
}
use ctech_wallet.Prelude.Int.{ℤ, ltb_ℤ}
use ctech_wallet.Prelude.Lists.{length}
use ctech_wallet.Domain.Model.{
  PixDeposit, DepositStatus, Withdrawal, WithdrawStatus, Hold, HoldStatus,
}
use ctech_wallet.Domain.Calendar.{Calendar}
use ctech_wallet.Store.Problem.{Result, ◌>>=◌, pure, reads}
use ctech_wallet.Store.Tables.{Db}

-- QueryGSI on the status indexes, its rows decoded: a page of at most so many rows.
pub record Indexes : Type 0 where
  pub deposits_by_status : DepositStatus → ℕ → Db → Result (List PixDeposit)
  pub withdrawals_by_status : WithdrawStatus → ℕ → Db → Result (List Withdrawal)
  pub holds_by_status : HoldStatus → ℕ → Db → Result (List Hold)

-- created.Before(cutoff); a malformed time is passed over.
abbrev pub created_before : ℤ → Option ℤ → Bool
created_before cutoff none = false
created_before cutoff (some created) = ltb_ℤ created cutoff

module _ (c : Calendar) (cutoff : ℤ) where
  unfoldable pub older : List PixDeposit → List PixDeposit
  older [] = []
  older (d ∷ ds) =
      let rest = older ds in
      if created_before cutoff (c.parse_nano d.created_at) then d ∷ rest else rest

  unfoldable pub older_holds : List Hold → List Hold
  older_holds [] = []
  older_holds (h ∷ hs) =
      let rest = older_holds hs in
      if created_before cutoff (c.parse_nano h.created_at) then h ∷ rest else rest

unfoldable pub holds_of : String → List Hold → List Hold
holds_of wallet_id [] = []
holds_of wallet_id (h ∷ hs) =
    let rest = holds_of wallet_id hs in if h.wallet_id == wallet_id then h ∷ rest else rest

abbrev pub refundable_statuses : List DepositStatus
refundable_statuses =
    DepositStatus.refund_pending ∷ DepositStatus.refund_failed ∷ DepositStatus.rejected_cpf ∷ []

module _ (q : Indexes) where
  -- ListProcessingWithdrawals
  unfoldable pub list_processing_withdrawals : ℕ → Db → Result (List Withdrawal) × Db
  list_processing_withdrawals limit =
      reads (q.withdrawals_by_status WithdrawStatus.processing limit)

  -- ListOpenHoldsForWallet
  unfoldable pub list_open_holds_for_wallet : String → ℕ → Db → Result (List Hold) × Db
  unfolding holds_of
  list_open_holds_for_wallet wallet_id limit = do
    rows ← reads (q.holds_by_status HoldStatus.held limit)
    pure (holds_of wallet_id rows)

  module _ (c : Calendar) (cutoff : ℤ) where
    -- ListPendingDepositsOlderThan
    unfoldable pub list_pending_deposits_older_than : ℕ → Db → Result (List PixDeposit) × Db
    unfolding older
    list_pending_deposits_older_than limit = do
      rows ← reads (q.deposits_by_status DepositStatus.pending limit)
      pure (older c cutoff rows)

    -- One page for each status, while there is room.
    unfoldable pub list_by_statuses :
        ℕ → List DepositStatus → List PixDeposit → Db → Result (List PixDeposit) × Db
    unfolding older
    list_by_statuses limit [] out = pure out
    list_by_statuses limit (s ∷ ss) out = if leb limit (length out) then pure out else (do
      rows ← reads (q.deposits_by_status s (limit - length out))
      list_by_statuses limit ss (out ++ older c cutoff rows))

    -- ScanStaleHolds
    unfoldable pub scan_stale_holds : ℕ → Db → Result (List Hold) × Db
    unfolding older_holds
    scan_stale_holds limit = do
      rows ← reads (q.holds_by_status HoldStatus.held limit)
      pure (older_holds c cutoff rows)

    -- ListRefundableDepositsOlderThan
    unfoldable pub list_refundable_deposits_older_than : ℕ → Db → Result (List PixDeposit) × Db
    unfolding list_by_statuses
    list_refundable_deposits_older_than limit = list_by_statuses limit refundable_statuses []

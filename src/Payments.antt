-- ===== src/Payments.antt =====
-- api/internal/repositories/wallet.go and user.go: the rows of Pix deposits and withdrawals, and
-- the daily counters of a user.
pub mod Keeps
pub mod Reversal
pub mod Queues
use ctech_wallet.Prelude.{
  String, Bool, true, false, Option, none, some, List, [], ◌∷◌, if◌then◌else◌,
}
use ctech_wallet.Domain.Model.{
  PixDeposit, DepositStatus, Withdrawal, WithdrawStatus, RealDailyCounters,
}
use ctech_wallet.Store.Problem.{
  deposit_exists, withdrawal_exists, condition_failed, outage, Error, Result, ◌>>=◌, pure, raise,
  reads,
}
use ctech_wallet.Store.Tables.{
  Db, TxItem, put_deposit, put_withdrawal, move_deposit, set_deposit_status, set_deposit_payer,
  reverse_withdrawal, set_withdrawal, bump_daily, is_reversed,
}
use ctech_wallet.Store.Dynamo.{Dynamo, Written, done, refused, broken, Moment}
use ctech_wallet.Ledger.{transact_write}

-- BumpRealDailyCounters: the item of a counter change.
unfoldable pub bump_real_daily_counters :
    String → Option RealDailyCounters → RealDailyCounters → TxItem
bump_real_daily_counters user prev next = bump_daily user prev next

-- WithdrawalPutTx
unfoldable pub withdrawal_put_tx : Withdrawal → TxItem
withdrawal_put_tx w = put_withdrawal w

-- The error of a write that must not be refused.
unfoldable pub must : Error → Written → Db → Result Unit × Db
must e done = pure tt
must e refused = raise e
must e (broken message) = raise (outage message)

unfoldable pub transitioned : Written → Db → Result Bool × Db
transitioned done = pure true
transitioned refused = pure false
transitioned (broken message) = raise (outage message)

module _ (d : Dynamo) where
  unfoldable pub put_deposit_if_absent : PixDeposit → Db → Result Unit × Db
  unfolding must
  put_deposit_if_absent dep = do w ← transact_write d (put_deposit dep ∷ []); must deposit_exists w

  unfoldable pub get_deposit : String → Db → Result (Option PixDeposit) × Db
  get_deposit txid = reads (d.get_deposit txid)

  unfoldable pub update_deposit_status : String → DepositStatus → String → Db → Result Unit × Db
  unfolding must
  update_deposit_status txid status e2e = do
    w ← transact_write d (set_deposit_status txid status e2e ∷ [])
    must condition_failed w

  unfoldable pub update_deposit_payer : String → String → String → Db → Result Unit × Db
  unfolding must
  update_deposit_payer txid cpf name = do
    w ← transact_write d (set_deposit_payer txid cpf name ∷ [])
    must condition_failed w

  -- TransitionDepositStatus
  unfoldable pub transition_deposit_status :
      String → DepositStatus → DepositStatus → String → Db → Result Bool × Db
  unfolding transitioned
  transition_deposit_status txid from to e2e = do
    w ← transact_write d (move_deposit txid from to e2e ∷ [])
    transitioned w

  unfoldable pub put_withdrawal_if_absent : Withdrawal → Db → Result Unit × Db
  unfolding must
  put_withdrawal_if_absent row = do
    w ← transact_write d (put_withdrawal row ∷ [])
    must withdrawal_exists w

  unfoldable pub get_withdrawal : String → Db → Result (Option Withdrawal) × Db
  get_withdrawal id = reads (d.get_withdrawal id)

  -- UpdateWithdrawal, with the attributes that its callers write.
  unfoldable pub update_withdrawal :
      Moment → String → WithdrawStatus → Option String → Db → Result Unit × Db
  unfolding must
  update_withdrawal t id status e2e = do
    w ← transact_write d (set_withdrawal id status e2e t.now_str ∷ [])
    must condition_failed w

  unfoldable pub reversed_anyway : Moment → String → Option Withdrawal → Db → Result Unit × Db
  unfolding update_withdrawal
  reversed_anyway t id none = update_withdrawal t id WithdrawStatus.reversed none
  reversed_anyway t id (some w) =
      if is_reversed w.status then pure tt else update_withdrawal t id WithdrawStatus.reversed none

  unfoldable pub reversal_written : Moment → String → Written → Db → Result Unit × Db
  unfolding reversed_anyway
  reversal_written t id done = pure tt
  reversal_written t id (broken message) = raise (outage message)
  reversal_written t id refused = do w ← get_withdrawal id; reversed_anyway t id w

  -- MarkWithdrawalReversed
  unfoldable pub mark_withdrawal_reversed : Moment → String → List TxItem → Db → Result Unit × Db
  unfolding reversal_written
  mark_withdrawal_reversed t id extra = do
    w ← transact_write d (reverse_withdrawal id t.now_str ∷ extra)
    reversal_written t id w

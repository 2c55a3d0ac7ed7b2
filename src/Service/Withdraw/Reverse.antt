-- ===== src/Service/Withdraw/Reverse.antt =====
-- api/internal/services/reconcile.go (reverse, releaseWithdrawalSlot): the money of a failed payout
-- goes back, and then the day's slot.
use ctech_wallet.Prelude.{
  Bool, true, false, not, Option, none, some, List, [], ◌∷◌, if◌then◌else◌, ◌==◌,
}
use ctech_wallet.Prelude.Int.{ℤ, pos, int64, ◌-ℤ◌, max_ℤ}
use ctech_wallet.Domain.Model.{
  LedgerEntry, EntryType, Withdrawal, WithdrawStatus, RealDailyCounters, User,
}
use ctech_wallet.Store.Problem.{Result, ok, err, ◌>>=◌, pure, attempt}
use ctech_wallet.Store.Tables.{TxItem}
use ctech_wallet.Ledger.{Mutation, credit}
use ctech_wallet.Payments.{bump_real_daily_counters, update_withdrawal, mark_withdrawal_reversed}
use ctech_wallet.Service.{World, Env, timed, get_user, counters_of}
use ctech_wallet.Service.Digest.{req_hash, prefixed}

module _ (env : Env) (row : Withdrawal) where
  unfoldable pub slot_counters : RealDailyCounters → RealDailyCounters
  slot_counters prev = record prev {
    withdraw_count = max_ℤ (pos 0) (int64 (prev.withdraw_count -ℤ pos 1));
    withdraw_sum = max_ℤ (pos 0) (int64 (prev.withdraw_sum -ℤ row.amount));
  }

  unfoldable pub slot_of_day : RealDailyCounters → Option ℤ → List TxItem
  unfolding slot_counters bump_real_daily_counters
  slot_of_day prev none = []
  slot_of_day prev (some created) =
      if not (prev.day_key == env.calendar.day_key created)
      then []
      else bump_real_daily_counters row.user_id (some prev) (slot_counters prev) ∷ []

  unfoldable pub slot_items : Option RealDailyCounters → List TxItem
  unfolding slot_of_day
  slot_items none = []
  slot_items (some prev) = slot_of_day prev (env.calendar.parse_nano row.created_at)

  -- releaseWithdrawalSlot; its caller passes over its error.
  unfoldable pub release_withdrawal_slot : Result (Option User) → List TxItem
  unfolding slot_items
  release_withdrawal_slot (err e) = []
  release_withdrawal_slot (ok u) = slot_items (counters_of u)

  unfoldable pub reversal_mutation : Mutation
  unfolding req_hash prefixed
  reversal_mutation = record {
    wallet_id = row.wallet_id;
    amount = row.amount;
    entry_type = EntryType.reversal;
    ref = prefixed "reverse:" row.withdrawal_id;
    description = "";
    idempotency_key = prefixed "reverse#" row.withdrawal_id;
    req_hash = req_hash env (prefixed "reverse:" row.withdrawal_id) row.amount;
    extra = λ e. [];
  }

  unfoldable pub reversal_credited : Result (LedgerEntry × Bool) → World → Result Bool × World
  reversal_credited (err e) = do
    done ← attempt (
        timed env
          (λ t. update_withdrawal env.dynamo t row.withdrawal_id WithdrawStatus.refund_fail none))
    pure false
  reversal_credited (ok r) = do
    u ← attempt (get_user env row.user_id)
    done ← attempt (
        timed env (λ t.
          mark_withdrawal_reversed env.dynamo t row.withdrawal_id (release_withdrawal_slot u)))
    pure true

  -- Whether the money went back.
  unfoldable pub reverse : World → Result Bool × World
  unfolding reversal_credited reversal_mutation
  reverse = do
    r ← attempt (timed env (λ t. credit env.dynamo t reversal_mutation []))
    reversal_credited r

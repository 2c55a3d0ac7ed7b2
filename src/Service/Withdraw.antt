-- ===== src/Service/Withdraw.antt =====
-- api/internal/services/wallet.go (Withdraw) and reconcile.go (reverse): money out by Pix. The
-- debit, the withdrawal row and the daily counters are one transaction, then the rail pays.
pub mod Reverse
pub mod Keeps
pub mod Books
pub mod Safety
use ctech_wallet.Prelude.{
  String, Bool, true, false, not, ◌&&◌, Option, none, some, List, [], ◌∷◌, if◌then◌else◌, ◌==◌,
}
use ctech_wallet.Prelude.Int.{ℤ, pos, int64, ◌+ℤ◌, eqb_ℤ}
use ctech_wallet.Domain.Model.{
  Wallet, LedgerEntry, EntryType, Withdrawal, WithdrawStatus, RealDailyCounters, kyc_verified,
}
use ctech_wallet.Domain.Limits.{withdrawal_amount_ok}
use ctech_wallet.Domain.Daily.{effective_daily_limits, for_day, check_daily_withdraw}
use ctech_wallet.Store.Problem.{
  wallet_busy, kyc_not_verified, idempotency_conflict, pix_key_not_found, bad_request,
  internal_server, problem, key_not_found, panicked, Result, ok, err, ◌>>=◌, ◌>>◌, pure, raise,
  reads, attempt,
}
use ctech_wallet.Store.Dynamo.{Moment}
use ctech_wallet.Store.Tables.{TxItem}
use ctech_wallet.Ledger.{Mutation, debit}
use ctech_wallet.Wallets.{ensure_real_wallet}
use ctech_wallet.Payments.{
  bump_real_daily_counters, withdrawal_put_tx, get_withdrawal, update_withdrawal,
}
use ctech_wallet.Service.{
  World, Env, Kyc, TransferResult, TransferStatus, transfer_processing, transfer_failed, RailCall,
  paid, on_db, log_call, timed, read_clock, acquire_wallet, get_user, counters_of, current_counters,
  breach_problem,
}
use ctech_wallet.Service.Digest.{req_hash, withdrawal_id}
use ctech_wallet.Service.Withdraw.Reverse.{reverse}

-- The counters after a withdrawal.
unfoldable pub withdraw_counters : RealDailyCounters → String → ℤ → RealDailyCounters
withdraw_counters cur day amount =
    let c = for_day cur day in
    record c {
      withdraw_count = int64 (c.withdraw_count +ℤ pos 1);
      withdraw_sum = int64 (c.withdraw_sum +ℤ amount);
    }

module _ (env : Env) (user : String) (amount : ℤ) (key : String) where
  unfoldable pub withdrawal_row : Moment → Wallet → String → Withdrawal
  withdrawal_row t w cpf = record {
    withdrawal_id = withdrawal_id user key;
    wallet_id = w.wallet_id;
    user_id = user;
    amount = amount;
    pix_key = cpf;
    status = WithdrawStatus.processing;
    e2e_id = "";
    idempotency_key = key;
    created_at = t.now_str;
    updated_at = t.now_str;
  }

  unfoldable pub withdraw_mutation : Wallet → String → Mutation
  unfolding req_hash
  withdraw_mutation w cpf = record {
    wallet_id = w.wallet_id;
    amount = amount;
    entry_type = EntryType.withdraw;
    ref = withdrawal_id user key;
    description = "Saque via PIX";
    idempotency_key = withdrawal_id user key;
    req_hash = req_hash env cpf amount;
    extra = λ e. [];
  }

  -- The answer of the payout, by its status.
  unfoldable pub payout_settled :
      Withdrawal → String → TransferStatus → World → Result Withdrawal × World
  payout_settled row e2e transfer_processing = pure row
  payout_settled row e2e transfer_failed = do
    done ← reverse env row
    raise (problem (internal_server "saque recusado pelo banco; o valor foi devolvido à carteira"))
  payout_settled row e2e _ = do
    done ←
        timed env (λ t.
          update_withdrawal env.dynamo t row.withdrawal_id WithdrawStatus.completed (some e2e))
    pure (record row { status = WithdrawStatus.completed; e2e_id = e2e })

  unfoldable pub payout_answered :
      Withdrawal → Result TransferResult → World → Result Withdrawal × World
  unfolding payout_settled
  payout_answered row (err key_not_found) = do
    done ← reverse env row
    raise (problem pix_key_not_found)
  payout_answered row (err e) = pure row
  payout_answered row (ok res) = payout_settled row res.e2e_id res.status

  unfoldable pub existing_or_busy : Option Withdrawal → World → Result Withdrawal × World
  existing_or_busy none = raise (problem wallet_busy)
  existing_or_busy (some row) = pure row

  -- After the debit: a replay never pays again.
  unfoldable pub pay_out : Withdrawal → LedgerEntry × Bool → World → Result Withdrawal × World
  unfolding existing_or_busy payout_answered
  pay_out row (e, true) = do
    existing ← on_db (get_withdrawal env.dynamo row.withdrawal_id)
    existing_or_busy existing
  pay_out row (e, false) = do
    let pay_key = env.inter_idem_key row.withdrawal_id
    res ←
        attempt (log_call (paid row.pix_key amount pay_key) (env.payout row.pix_key amount pay_key))
    payout_answered row res

  unfoldable pub debit_items : Moment → Wallet → String → Option RealDailyCounters → ℤ → List TxItem
  unfolding withdrawal_row withdraw_counters bump_real_daily_counters withdrawal_put_tx
  debit_items t w cpf prev now =
      let next = withdraw_counters (current_counters prev) (env.calendar.day_key now) amount in
      withdrawal_put_tx (withdrawal_row t w cpf) ∷ bump_real_daily_counters user prev next ∷ []

  unfoldable pub debit_then_pay :
      Wallet → String → Option RealDailyCounters → ℤ → Moment → World → Result Withdrawal × World
  unfolding withdrawal_row debit_items withdraw_mutation pay_out
  debit_then_pay w cpf prev now t = do
    r ←
        timed env
          (λ t2. debit env.dynamo t2 (withdraw_mutation w cpf) (debit_items t w cpf prev now))
    pay_out (withdrawal_row t w cpf) r

  unfoldable pub spend :
      Wallet → Option RealDailyCounters → ℤ → Kyc → World → Result Withdrawal × World
  unfolding debit_then_pay
  spend w prev now kyc =
      if kyc.cpf == ""
      then raise (problem kyc_not_verified)
      else (do t ← read_clock env; debit_then_pay w kyc.cpf prev now t)

  unfoldable pub limited : Wallet → Option RealDailyCounters → World → Result Withdrawal × World
  unfolding spend
  limited w prev = do
    t ← read_clock env
    breach_problem (
        check_daily_withdraw env.calendar (effective_daily_limits (some w)) (current_counters prev)
          amount t.now)
    kyc ← reads (env.kyc_get user)
    spend w prev t.now kyc

  unfoldable pub checked : Wallet → World → Result Withdrawal × World
  unfolding limited
  checked w =
      if not (withdrawal_amount_ok amount (some w) (eqb_ℤ amount w.balance) false)
      then raise (problem (bad_request "valor abaixo do mínimo de saque"))
      else (do u ← get_user env user; limited w (counters_of u))

  unfoldable pub fresh_or : Wallet → Option Wallet → Wallet
  fresh_or w none = w
  fresh_or w (some fresh) = fresh

  unfoldable pub withdraw_or_replay : Wallet → Option Withdrawal → World → Result Withdrawal × World
  unfolding checked fresh_or
  withdraw_or_replay w (some row) =
      if row.user_id == user && eqb_ℤ row.amount amount
      then pure row
      else raise (problem idempotency_conflict)
  withdraw_or_replay w none = do
    fresh ← on_db (reads (env.dynamo.get_wallet w.wallet_id))
    checked (fresh_or w fresh)

  -- The code reads the identifier of a missing wallet through a nil pointer.
  unfoldable pub withdraw_from : Option Wallet → World → Result Withdrawal × World
  unfolding withdraw_or_replay
  withdraw_from none = raise panicked
  withdraw_from (some w) = do
    acquire_wallet env w.wallet_id
    existing ← on_db (get_withdrawal env.dynamo (withdrawal_id user key))
    withdraw_or_replay w existing

  unfoldable pub withdraw : String → World → Result Withdrawal × World
  unfolding withdraw_from
  withdraw kyc_level =
      if not (kyc_level == kyc_verified)
      then raise (problem kyc_not_verified)
      else (do w ← timed env (λ t. ensure_real_wallet env.dynamo t user); withdraw_from w)

-- ===== src/Service/Deposit.antt =====
-- api/internal/services/wallet.go (ConfirmDeposit and what it calls): a paid Pix charge is credited
-- once its payer is the owner of the account, and otherwise sent back.
pub mod Saga
pub mod Reversal
pub mod SagaKeeps
pub mod ReversalKeeps
pub mod Keeps
pub mod Books
use ctech_wallet.Prelude.{
  String, Bool, true, false, not, ◌&&◌, ◌||◌, Option, none, some, List, [], ◌∷◌, if◌then◌else◌,
  ◌==◌,
}
use ctech_wallet.Prelude.Int.{ℤ, int64, ◌+ℤ◌, eqb_ℤ}
use ctech_wallet.Domain.Model.{
  Wallet, EntryType, PixDeposit, DepositStatus, RealDailyCounters, LedgerEntry,
}
use ctech_wallet.Domain.Daily.{DailyBreach, effective_daily_limits, for_day, check_daily_deposit}
use ctech_wallet.Store.Problem.{
  internal_server, problem, Result, ok, err, ◌>>=◌, ◌>>◌, pure, raise, reads, attempt,
}
use ctech_wallet.Store.Tables.{TxItem}
use ctech_wallet.Ledger.{Mutation, debit, confirm_deposit_credit, find_mutation}
use ctech_wallet.Payments.{
  bump_real_daily_counters, get_deposit, update_deposit_status, update_deposit_payer,
}
use ctech_wallet.Service.{
  World, Env, Kyc, Charge, ChargeStatus, completed, Payment, Refund, returned, on_db, log_call,
  timed, read_clock, acquire_wallet, get_user, counters_of, current_counters,
}
use ctech_wallet.Service.Digest.{req_hash, prefixed}
use ctech_wallet.Service.Payer.{masked_cpf_matches}
use ctech_wallet.Service.PayerName.{payer_name_matches}
use ctech_wallet.Service.Deposit.Reversal.{process_refunds}
use ctech_wallet.Service.Deposit.Saga.{
  any_completed, reject_mismatch, refund_mismatch, refund_excess,
}

abbrev pub is_paid : ChargeStatus → Bool
is_paid completed = true
is_paid _ = false

-- What the checks on the payer say.
pub data Verdict : Type 0 where
  quarantine send_back accept : Verdict

module _ (env : Env) where
  -- The counters after a deposit.
  unfoldable pub deposit_counters : RealDailyCounters → String → ℤ → RealDailyCounters
  deposit_counters cur day amount =
      let c = for_day cur day in record c { deposit_sum = int64 (c.deposit_sum +ℤ amount) }

  unfoldable pub deposit_mutation : PixDeposit → Charge → Mutation
  unfolding req_hash prefixed
  deposit_mutation dep charge = record {
    wallet_id = dep.wallet_id;
    amount = charge.amount;
    entry_type = EntryType.deposit;
    ref = dep.txid;
    description = "";
    idempotency_key = prefixed "deposit#" dep.txid;
    req_hash = req_hash env dep.txid charge.amount;
    extra = λ e. [];
  }

  unfoldable pub credit_items : PixDeposit → Charge → Option RealDailyCounters → ℤ → List TxItem
  unfolding deposit_counters bump_real_daily_counters
  credit_items dep charge prev now =
      let next =
        deposit_counters (current_counters prev) (env.calendar.day_key now) charge.amount in
      bump_real_daily_counters dep.user_id prev next ∷ []

  unfoldable pub credit_within :
      PixDeposit
      → Charge
      → Option RealDailyCounters
      → ℤ
      → Option DailyBreach
      → World
      → Result Unit × World
  unfolding deposit_mutation credit_items
  credit_within dep charge prev now (some breach) = reject_mismatch env dep charge
  credit_within dep charge prev now none = do
    r ← timed env (λ t.
        confirm_deposit_credit env.dynamo t (deposit_mutation dep charge) dep.txid charge.e2e_id
          (credit_items dep charge prev now))
    pure tt

  unfoldable pub credit_checked :
      PixDeposit → Charge → Option RealDailyCounters → Option Wallet → World → Result Unit × World
  unfolding credit_within
  credit_checked dep charge prev w = do
    t ← read_clock env
    credit_within dep charge prev t.now (
        check_daily_deposit env.calendar (effective_daily_limits w) (current_counters prev)
          charge.amount t.now)

  unfoldable pub credit_deposit : PixDeposit → Charge → World → Result Unit × World
  unfolding credit_checked
  credit_deposit dep charge = do
    acquire_wallet env dep.wallet_id
    u ← get_user env dep.user_id
    w ← on_db (reads (env.dynamo.get_wallet dep.wallet_id))
    credit_checked dep charge (counters_of u) w

  unfoldable pub verdict : PixDeposit → Charge → Kyc → Verdict
  unfolding payer_name_matches
  verdict dep charge kyc =
      if dep.payer_cpf == ""
      then quarantine
      else if not (masked_cpf_matches dep.payer_cpf kyc.cpf)
      then send_back
      else if not (charge.payer_name == "")
          && not (payer_name_matches env charge.payer_name kyc.legal_name)
      then send_back
      else if not (eqb_ℤ charge.amount dep.amount_expected)
      then send_back
      else accept

  unfoldable pub judged : PixDeposit → Charge → Verdict → World → Result Unit × World
  unfolding credit_deposit
  judged dep charge quarantine =
      raise (problem (internal_server "depósito pago aguardando verificação do pagador"))
  judged dep charge send_back = reject_mismatch env dep charge
  judged dep charge accept = credit_deposit dep charge

  -- The payer that the charge names, where the webhook named none.
  unfoldable pub with_charge_payer : PixDeposit → Charge → World → Result PixDeposit × World
  with_charge_payer dep charge =
      if dep.payer_cpf == "" && not (charge.payer_cpf == "")
      then (do
        on_db (update_deposit_payer env.dynamo dep.txid charge.payer_cpf dep.payer_name)
        pure (record dep { payer_cpf = charge.payer_cpf }))
      else pure dep

  unfoldable pub judge : PixDeposit → Charge → World → Result Unit × World
  unfolding with_charge_payer judged verdict
  judge dep charge = do
    kyc ← reads (env.kyc_get dep.user_id)
    known ← with_charge_payer dep charge
    judged known charge (verdict known charge kyc)

  unfoldable pub unless_erased : PixDeposit → Charge → Bool → World → Result Unit × World
  unfolding judge
  unless_erased dep charge true = reject_mismatch env dep charge
  unless_erased dep charge false = judge dep charge

  unfoldable pub gated :
      PixDeposit → Charge → Option (String → World → Result Bool) → World → Result Unit × World
  unfolding unless_erased judge
  gated dep charge none = judge dep charge
  gated dep charge (some erased) = do
    gone ← reads (erased dep.user_id)
    unless_erased dep charge gone

  unfoldable pub confirm_pending : PixDeposit → Charge → World → Result Unit × World
  unfolding gated
  confirm_pending dep charge =
      if not (is_paid charge.status)
      then pure tt
      else if any_completed charge.refunds
      then on_db (update_deposit_status env.dynamo dep.txid DepositStatus.refunded charge.e2e_id)
      else gated dep charge env.erased

  unfoldable pub repair_refunded :
      PixDeposit → Charge → Option LedgerEntry → World → Result Unit × World
  unfolding process_refunds
  repair_refunded dep charge none = pure tt
  repair_refunded dep charge (some prior) = process_refunds env dep charge.refunds

  unfoldable pub by_status : PixDeposit → Charge → DepositStatus → World → Result Unit × World
  unfolding process_refunds refund_mismatch repair_refunded confirm_pending req_hash prefixed
  by_status dep charge DepositStatus.confirmed = process_refunds env dep charge.refunds
  by_status dep charge DepositStatus.refund_pending = refund_mismatch env dep charge
  by_status dep charge DepositStatus.refund_failed = refund_mismatch env dep charge
  by_status dep charge DepositStatus.rejected_cpf = refund_mismatch env dep charge
  by_status dep charge DepositStatus.refunded = do
    prior ← on_db (
        find_mutation env.dynamo (prefixed "deposit#" dep.txid)
          (req_hash env dep.txid charge.amount))
    repair_refunded dep charge prior
  by_status dep charge DepositStatus.pending = confirm_pending dep charge
  by_status dep charge DepositStatus.expired = pure tt

  -- The payer that the webhook names, kept on first sight.
  unfoldable pub with_payer : PixDeposit → String → String → World → Result PixDeposit × World
  with_payer dep cpf name =
      if not (cpf == "") && not (cpf == dep.payer_cpf)
      then (do
        on_db (update_deposit_payer env.dynamo dep.txid cpf name)
        pure (record dep { payer_cpf = cpf; payer_name = name }))
      else pure dep

  unfoldable pub confirm_found : String → String → Option PixDeposit → World → Result Unit × World
  unfolding with_payer by_status refund_excess
  confirm_found cpf name none = pure tt
  confirm_found cpf name (some dep) = do
    known ← with_payer dep cpf name
    charge ← reads (env.query_deposit known.txid)
    refund_excess env known.txid charge.payments
    by_status known charge known.status

  -- ConfirmDeposit; its sweep flag is only logged, and its txid is the one of the row found under it.
  unfoldable pub confirm_deposit : String → String → String → World → Result Unit × World
  unfolding confirm_found
  confirm_deposit txid cpf name = do
    dep ← on_db (get_deposit env.dynamo txid)
    confirm_found cpf name dep

-- ===== src/Service/Withdraw/Books.antt =====
-- A withdrawal keeps the books, whatever the services answer.
use ctech_wallet.Prelude.{
  String, ◌≡◌, refl, Bool, true, false, ◌==◌, ◌&&◌, Option, none, some, Bool-cases, inl, inr,
}
use ctech_wallet.Prelude.Int.{IsMagnitude, ℤ, eqb_ℤ}
use ctech_wallet.Domain.Model.{Wallet, LedgerEntry, Withdrawal, RealDailyCounters, kyc_verified}
use ctech_wallet.Domain.Limits.{withdrawal_amount_ok}
use ctech_wallet.Domain.Daily.{check_daily_withdraw, effective_daily_limits}
use ctech_wallet.Store.Problem.{bind_keeps, reads}
use ctech_wallet.Store.Dynamo.{Moment, IsDynamo}
use ctech_wallet.Store.Lawful.{Invariant, Invariant-Closed}
use ctech_wallet.Ledger.{debit}
use ctech_wallet.Wallets.{ensure_real_wallet}
use ctech_wallet.Payments.{get_withdrawal, bump_real_daily_counters, withdrawal_put_tx}
use ctech_wallet.Service.{
  World, Env, Kyc, paid, on_db, timed, get_user, log_call, acquire_wallet, breach_problem,
  current_counters, counters_of, read_clock,
}
use ctech_wallet.Service.Keeps.{
  Keeps, ClosedWorld, IgnoresCalls, OfDb-ClosedWorld, acquire_wallet-Keeps, get_user-Keeps,
  breach_problem-Keeps, timed-Keeps,
}
use ctech_wallet.Service.Repository.{debit_keeps, ensure_real_wallet_keeps}
use ctech_wallet.Service.Digest.{withdrawal_id}
use ctech_wallet.Service.Withdraw.{
  withdrawal_row, withdraw_mutation, pay_out, existing_or_busy, debit_items, debit_then_pay, spend,
  limited, checked, fresh_or, withdraw_or_replay, withdraw_from, withdraw,
}
use ctech_wallet.Service.Withdraw.Keeps.{payout_answered-Keeps}

module _ (env : Env) (user : String) (amount : ℤ) (key : String) (mag : IsMagnitude amount)
    (R : World → Type 0) (closed : ClosedWorld env R) (ignores : IgnoresCalls R) where
  existing_or_busy-Keeps :
      (o : Option Withdrawal) → Keeps R (existing_or_busy env user amount key o)
  unfolding existing_or_busy
  existing_or_busy-Keeps none w h = h
  existing_or_busy-Keeps (some row) w h = h

  pay_out-Keeps :
      (row : Withdrawal) (e : LedgerEntry) (replayed : Bool)
      → row.amount ≡ amount
      → Keeps R (pay_out env user amount key row (e, replayed))
  unfolding pay_out on_db get_withdrawal log_call
  pay_out-Keeps row e true same w h =
      bind_keeps R (on_db (get_withdrawal env.dynamo row.withdrawal_id)) _ w h
        (λ o eq. existing_or_busy-Keeps o w h)
  pay_out-Keeps row e false same w h =
      let pay_key = env.inter_idem_key row.withdrawal_id in
      let call = paid row.pix_key amount pay_key in
      let asked = log_call call (env.payout row.pix_key amount pay_key) w in
      payout_answered-Keeps env R closed user amount key mag row asked.0 same asked.1
        (ignores call w h)

  debit_then_pay-Keeps :
      (w : Wallet) (cpf : String) (prev : Option RealDailyCounters) (now : ℤ) (t : Moment)
      → Keeps R (debit_then_pay env user amount key w cpf prev now t)
  unfolding debit_then_pay withdrawal_row withdraw_mutation debit_items withdrawal_put_tx
      bump_real_daily_counters
  debit_then_pay-Keeps w cpf prev now t world h =
      let m = withdraw_mutation env user amount key w cpf in
      let items = debit_items env user amount key t w cpf prev now in
      let f = λ (t2 : Moment). debit env.dynamo t2 m items in
      let kept =
        timed-Keeps env R closed f
          (λ t2 P closed. debit_keeps env.dynamo P closed t2 m items mag (mag, (tt, tt)) (λ e. tt))
          world h in
      bind_keeps R (timed env f) _ world kept
        (λ r eq. pay_out-Keeps (withdrawal_row env user amount key t w cpf) r.0 r.1 refl _ kept)

  spend-Keeps :
      (w : Wallet) (prev : Option RealDailyCounters) (now : ℤ) (kyc : Kyc)
      → Keeps R (spend env user amount key w prev now kyc)
  unfolding spend read_clock
  spend-Keeps w prev now kyc world h = elim (Bool-cases (kyc.cpf == "")) [
    | inl empty ↦ rw empty h
    | inr named ↦ rw named (debit_then_pay-Keeps w kyc.cpf prev now (env.clock world) world h)
  ]

  limited-Keeps :
      (w : Wallet) (prev : Option RealDailyCounters) → Keeps R (limited env user amount key w prev)
  unfolding limited read_clock
  limited-Keeps w prev world h =
      let t = env.clock world in
      let breach =
        check_daily_withdraw env.calendar (effective_daily_limits (some w)) (current_counters prev)
          amount t.now in
      let kept = breach_problem-Keeps R breach world h in
      bind_keeps R (breach_problem breach) _ world kept (λ u eq.
        bind_keeps R (reads (env.kyc_get user)) _ (breach_problem breach world).1 kept
          (λ kyc eq2. spend-Keeps w prev t.now kyc (breach_problem breach world).1 kept))

  checked-Keeps : (w : Wallet) → Keeps R (checked env user amount key w)
  unfolding checked
  checked-Keeps w world h =
      let passes = withdrawal_amount_ok amount (some w) (eqb_ℤ amount w.balance) false in
      let kept = get_user-Keeps R env user world h in
      elim (Bool-cases passes) [
        | inl good ↦ rw good (
            bind_keeps R (get_user env user) _ world kept
              (λ u eq. limited-Keeps w (counters_of u) (get_user env user world).1 kept))
        | inr bad ↦ rw bad h
      ]

  withdraw_or_replay-Keeps :
      (w : Wallet) (o : Option Withdrawal) → Keeps R (withdraw_or_replay env user amount key w o)
  unfolding withdraw_or_replay on_db
  withdraw_or_replay-Keeps w (some row) world h =
      elim (Bool-cases (row.user_id == user && eqb_ℤ row.amount amount)) [
        | inl same ↦ rw same h
        | inr other ↦ rw other h
      ]
  withdraw_or_replay-Keeps w none world h =
      bind_keeps R (on_db (reads (env.dynamo.get_wallet w.wallet_id))) _ world h
        (λ fresh eq. checked-Keeps (fresh_or env user amount key w fresh) world h)

  withdraw_from-Keeps : (o : Option Wallet) → Keeps R (withdraw_from env user amount key o)
  unfolding withdraw_from on_db get_withdrawal
  withdraw_from-Keeps none world h = h
  withdraw_from-Keeps (some w) world h =
      let kept = acquire_wallet-Keeps R env w.wallet_id world h in
      let locked = acquire_wallet env w.wallet_id world in
      bind_keeps R (acquire_wallet env w.wallet_id) _ world kept (λ u eq.
        bind_keeps R (on_db (get_withdrawal env.dynamo (withdrawal_id user key))) _ locked.1 kept
          (λ o eq2. withdraw_or_replay-Keeps w o locked.1 kept))

  pub withdraw-Keeps : (kyc_level : String) → Keeps R (withdraw env user amount key kyc_level)
  unfolding withdraw
  withdraw-Keeps kyc_level world h = elim (Bool-cases (kyc_level == kyc_verified)) [
    | inl good ↦
        let ensure = timed env (λ t. ensure_real_wallet env.dynamo t user) in
        let kept =
          timed-Keeps env R closed (λ t. ensure_real_wallet env.dynamo t user)
            (λ t P closed. ensure_real_wallet_keeps env.dynamo P closed t user) world h in
        rw good (bind_keeps R ensure _ world kept (λ o eq. withdraw_from-Keeps o _ kept))
    | inr bad ↦ rw bad h
  ]

-- A withdrawal of an int64 amount of at least zero keeps the ledger's invariant, whatever DynamoDB,
-- the lock, the KYC service and the rail answer.
pub withdraw-Invariant :
    (env : Env) (user : String) (amount : ℤ) (key kyc_level : String) (w : World)
    → IsDynamo env.dynamo
    → IsMagnitude amount
    → Invariant w.db
    → Invariant (withdraw env user amount key kyc_level w).1.db
withdraw-Invariant env user amount key kyc_level w law mag inv =
    withdraw-Keeps env user amount key mag (λ x. Invariant x.db)
      (OfDb-ClosedWorld env Invariant (Invariant-Closed env.dynamo law)) (λ c x h. h) kyc_level w
      inv

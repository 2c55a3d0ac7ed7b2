-- ===== src/Service/Withdraw/Keeps.antt =====
-- A withdrawal keeps every property of the database that lawful transactions keep, whatever the
-- services answer.
use ctech_wallet.Prelude.{String, ◌≡◌, Bool, ◌==◌, Option, none, some, [], Bool-cases, inl, inr}
use ctech_wallet.Prelude.Int.{IsMagnitude, ℤ}
use ctech_wallet.Prelude.Lists.{All}
use ctech_wallet.Domain.Model.{LedgerEntry, Withdrawal, WithdrawStatus, RealDailyCounters, User}
use ctech_wallet.Store.Problem.{
  bind_keeps, Result, ok, err, problem, deposit_exists, withdrawal_exists, key_not_found,
  condition_failed, panicked, outage,
}
use ctech_wallet.Store.Sound.{IsSide}
use ctech_wallet.Ledger.{credit}
use ctech_wallet.Payments.{update_withdrawal, bump_real_daily_counters}
use ctech_wallet.Payments.Keeps.{update_withdrawal_keeps, mark_withdrawal_reversed_keeps}
use ctech_wallet.Service.{
  World, Env, TransferResult, TransferStatus, transfer_processing, transfer_failed, timed, get_user,
}
use ctech_wallet.Service.Keeps.{Keeps, ClosedWorld, get_user-Keeps, timed-Keeps}
use ctech_wallet.Service.Repository.{credit_keeps}
use ctech_wallet.Service.Withdraw.Reverse.{
  slot_of_day, slot_items, release_withdrawal_slot, reversal_mutation, reversal_credited, reverse,
}
use ctech_wallet.Service.Withdraw.{payout_settled, payout_answered}

module _ (env : Env) where
  slot_of_day-IsSide :
      (row : Withdrawal) (prev : RealDailyCounters) (o : Option ℤ)
      → All IsSide (slot_of_day env row prev o)
  unfolding slot_of_day bump_real_daily_counters
  slot_of_day-IsSide row prev none = tt
  slot_of_day-IsSide row prev (some created) =
      elim (Bool-cases (prev.day_key == env.calendar.day_key created)) [
        | inl same ↦ rw same (tt, tt)
        | inr other ↦ rw other tt
      ]

  slot_items-IsSide :
      (row : Withdrawal) (o : Option RealDailyCounters) → All IsSide (slot_items env row o)
  unfolding slot_items
  slot_items-IsSide row none = tt
  slot_items-IsSide row (some prev) = slot_of_day-IsSide row prev _

  slot-IsSide :
      (row : Withdrawal) (r : Result (Option User)) → All IsSide (release_withdrawal_slot env row r)
  unfolding release_withdrawal_slot
  slot-IsSide row (err e) = tt
  slot-IsSide row (ok u) = slot_items-IsSide row _

  module _ (R : World → Type 0) (closed : ClosedWorld env R) where
    reversal_credited-Keeps :
        (row : Withdrawal) (r : Result (LedgerEntry × Bool)) → Keeps R (reversal_credited env row r)
    unfolding reversal_credited
    reversal_credited-Keeps row (err e) w h =
        timed-Keeps env R closed _
          (λ t P closed.
            update_withdrawal_keeps env.dynamo P closed t row.withdrawal_id
              WithdrawStatus.refund_fail none)
          w h
    reversal_credited-Keeps row (ok r) w h =
        timed-Keeps env R closed _
          (λ t P closed db.
            mark_withdrawal_reversed_keeps env.dynamo P closed t row.withdrawal_id
              (release_withdrawal_slot env row (get_user env row.user_id w).0) db
              (slot-IsSide row (get_user env row.user_id w).0))
          (get_user env row.user_id w).1 (get_user-Keeps R env row.user_id w h)

    pub reverse-Keeps : (row : Withdrawal) → IsMagnitude row.amount → Keeps R (reverse env row)
    unfolding reverse reversal_mutation
    reverse-Keeps row mag w h =
        let m = reversal_mutation env row in
        let credited = timed env (λ t. credit env.dynamo t m []) w in
        reversal_credited-Keeps row credited.0 credited.1 (
          timed-Keeps env R closed (λ t. credit env.dynamo t m [])
            (λ t P closed. credit_keeps env.dynamo P closed t m [] mag tt (λ e. tt)) w h)

    module _ (user : String) (amount : ℤ) (key : String) (mag : IsMagnitude amount) where
      pub payout_settled-Keeps :
          (row : Withdrawal) (e2e : String) (s : TransferStatus)
          → row.amount ≡ amount
          → Keeps R (payout_settled env user amount key row e2e s)
      unfolding payout_settled
      payout_settled-Keeps row e2e transfer_processing same w h = h
      payout_settled-Keeps row e2e transfer_failed same w h =
          bind_keeps R (reverse env row) _ w (reverse-Keeps row (rw same mag) w h)
            (λ a e. reverse-Keeps row (rw same mag) w h)
      payout_settled-Keeps row e2e _ same w h =
          let m = timed env (λ t.
            update_withdrawal env.dynamo t row.withdrawal_id WithdrawStatus.completed (some e2e)) in
          let kept =
            timed-Keeps env R closed _
              (λ t P closed.
                update_withdrawal_keeps env.dynamo P closed t row.withdrawal_id
                  WithdrawStatus.completed (some e2e))
              w h in
          bind_keeps R m _ w kept (λ a e. kept)

      pub payout_answered-Keeps :
          (row : Withdrawal) (res : Result TransferResult)
          → row.amount ≡ amount
          → Keeps R (payout_answered env user amount key row res)
      unfolding payout_answered
      payout_answered-Keeps row (err key_not_found) same w h =
          bind_keeps R (reverse env row) _ w (reverse-Keeps row (rw same mag) w h)
            (λ a e. reverse-Keeps row (rw same mag) w h)
      payout_answered-Keeps row (err (problem p)) same w h = h
      payout_answered-Keeps row (err deposit_exists) same w h = h
      payout_answered-Keeps row (err withdrawal_exists) same w h = h
      payout_answered-Keeps row (err condition_failed) same w h = h
      payout_answered-Keeps row (err panicked) same w h = h
      payout_answered-Keeps row (err (outage m)) same w h = h
      payout_answered-Keeps row (ok res) same w h =
          payout_settled-Keeps row res.e2e_id res.status same w h

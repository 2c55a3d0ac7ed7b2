-- ===== src/Service/Reconcile/Keeps.antt =====
-- The batch jobs keep every property of the world that lawful transactions and refunds keep.
use ctech_wallet.Prelude.{
  String, ◌≡◌, refl, Bool, true, false, ℕ, Bool-cases, inl, inr, Option, none, some, List, [], ◌∷◌,
}
use ctech_wallet.Prelude.Int.{IsMagnitude}
use ctech_wallet.Prelude.Lists.{All}
use ctech_wallet.Domain.Model.{PixDeposit, Withdrawal, WithdrawStatus}
use ctech_wallet.Store.Problem.{Result, ok, err, bind_keeps}
use ctech_wallet.Store.Tables.{is_reversed}
use ctech_wallet.Payments.{update_withdrawal}
use ctech_wallet.Payments.Keeps.{update_withdrawal_keeps}
use ctech_wallet.Service.{
  World, Env, TransferResult, TransferStatus, transfer_done, transfer_not_found, transfer_failed,
  transfer_processing, other_transfer, timed, read_clock, acquire_wallet,
}
use ctech_wallet.Service.Keeps.{Keeps, ClosedWorld, timed-Keeps, acquire_wallet-Keeps}
use ctech_wallet.Service.Withdraw.Reverse.{reverse}
use ctech_wallet.Service.Withdraw.Keeps.{reverse-Keeps}
use ctech_wallet.Service.Deposit.{confirm_deposit}
use ctech_wallet.Service.Deposit.SagaKeeps.{KeptByRefunds}
use ctech_wallet.Service.Deposit.Keeps.{confirm_deposit-Keeps}
use ctech_wallet.Service.Deposit.Books.{AnswersSoundly}
use ctech_wallet.Service.Reconcile.{
  Tally, too_young_to_reverse, count_resolved, count_reversed, reverse_locked, reverse_failed,
  resolve, payout_queried, reconcile_one, reconcile_each, reversal_answer, reverse_found,
  count_swept, sweep_each,
}

module _ (env : Env) (R : World → Type 0) (closed : ClosedWorld env R) where
  count_resolved-Keeps : (n : Tally) (r : Result Unit) → Keeps R (count_resolved n r)
  unfolding count_resolved
  count_resolved-Keeps n (err e) w h = h
  count_resolved-Keeps n (ok u) w h = h

  count_reversed-Keeps : (n : Tally) (back : Bool) → Keeps R (count_reversed n back)
  unfolding count_reversed
  count_reversed-Keeps n true w h = h
  count_reversed-Keeps n false w h = h

  module _ (row : Withdrawal) (mag : IsMagnitude row.amount) where
    reverse_locked-Keeps : (n : Tally) (r : Result Bool) → Keeps R (reverse_locked env n row r)
    unfolding reverse_locked
    reverse_locked-Keeps n (err e) w h = h
    reverse_locked-Keeps n (ok false) w h = h
    reverse_locked-Keeps n (ok true) w h =
        let kept = reverse-Keeps env R closed row mag w h in
        bind_keeps R (reverse env row) _ w kept (λ back e. count_reversed-Keeps n back _ kept)

    reverse_failed-Keeps : (n : Tally) → Keeps R (reverse_failed env n row)
    unfolding reverse_failed
    reverse_failed-Keeps n w h = reverse_locked-Keeps n (env.acquire row.wallet_id w) w h

    resolve-Keeps :
        (n : Tally) (e2e : String) (s : TransferStatus) → Keeps R (resolve env n row e2e s)
    unfolding resolve read_clock
    resolve-Keeps n e2e transfer_done w h =
        let write = timed env (λ t.
          update_withdrawal env.dynamo t row.withdrawal_id WithdrawStatus.completed (some e2e)) in
        count_resolved-Keeps n (write w).0 (write w).1 (
          timed-Keeps env R closed _
            (λ t P closed.
              update_withdrawal_keeps env.dynamo P closed t row.withdrawal_id
                WithdrawStatus.completed (some e2e))
            w h)
    resolve-Keeps n e2e transfer_not_found w h =
        elim (Bool-cases (too_young_to_reverse env row env.payout_grace (env.clock w).now)) [
          | inl young ↦ rw young h
          | inr old ↦ rw old (reverse_failed-Keeps n w h)
        ]
    resolve-Keeps n e2e transfer_failed w h = reverse_failed-Keeps n w h
    resolve-Keeps n e2e transfer_processing w h = h
    resolve-Keeps n e2e other_transfer w h = h

    payout_queried-Keeps :
        (n : Tally) (r : Result TransferResult) → Keeps R (payout_queried env n row r)
    unfolding payout_queried
    payout_queried-Keeps n (err e) w h = h
    payout_queried-Keeps n (ok res) w h = resolve-Keeps n res.e2e_id res.status w h

    pub reconcile_one-Keeps : (n : Tally) → Keeps R (reconcile_one env n row)
    unfolding reconcile_one
    reconcile_one-Keeps n w h = payout_queried-Keeps n _ w h

  pub reconcile_each-Keeps :
      (n : Tally) (rows : List Withdrawal)
      → All (λ row. IsMagnitude row.amount) rows
      → Keeps R (reconcile_each env n rows)
  unfolding reconcile_each
  reconcile_each-Keeps n [] mags w h = h
  reconcile_each-Keeps n (row ∷ rows) mags w h =
      let kept = reconcile_one-Keeps row mags.0 n w h in
      bind_keeps R (reconcile_one env n row) _ w kept
        (λ n' e. reconcile_each-Keeps n' rows mags.1 _ kept)

  reversal_answer-Keeps : (id : String) (back : Bool) → Keeps R (reversal_answer id back)
  unfolding reversal_answer
  reversal_answer-Keeps id true w h = h
  reversal_answer-Keeps id false w h = h

  pub reverse_found-Keeps :
      (id : String) (o : Option Withdrawal)
      → ((row : Withdrawal) → o ≡ some row → IsMagnitude row.amount)
      → Keeps R (reverse_found env id o)
  unfolding reverse_found
  reverse_found-Keeps id none mag w h = h
  reverse_found-Keeps id (some row) mag w h =
      let kept = acquire_wallet-Keeps R env row.wallet_id w h in
      let locked = (acquire_wallet env row.wallet_id w).1 in
      let back = reverse-Keeps env R closed row (mag row refl) locked kept in
      elim (Bool-cases (is_reversed row.status)) [
        | inl over ↦ rw over h
        | inr due ↦ rw due (
            bind_keeps R (acquire_wallet env row.wallet_id) _ w kept (λ u e.
              bind_keeps R (reverse env row) _ locked back
                (λ b e2. reversal_answer-Keeps id b _ back)))
      ]

  module _ (logs : KeptByRefunds R) (answers : AnswersSoundly env) where
    pub sweep_each-Keeps : (n : ℕ) (ds : List PixDeposit) → Keeps R (sweep_each env n ds)
    unfolding sweep_each
    sweep_each-Keeps n [] w h = h
    sweep_each-Keeps n (d ∷ ds) w h =
        let confirm = confirm_deposit env d.txid "" "" in
        sweep_each-Keeps (count_swept n (confirm w).0) ds (confirm w).1
          (confirm_deposit-Keeps env R closed logs answers d.txid "" "" w h)

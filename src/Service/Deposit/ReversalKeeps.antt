-- ===== src/Service/Deposit/ReversalKeeps.antt =====
-- The reversal of a credited deposit keeps every property that lawful transactions keep.
use ctech_wallet.Prelude.Int.{IsMagnitude}
use ctech_wallet.Prelude.{String, inl, inr, Bool, Bool-cases, List, [], ◌∷◌}
use ctech_wallet.Prelude.Lists.{All}
use ctech_wallet.Domain.Model.{PixDeposit, DepositStatus, LedgerEntry}
use ctech_wallet.Store.Problem.{Result, ok, err, bind_keeps}
use ctech_wallet.Store.Dynamo.{Moment}
use ctech_wallet.Ledger.{debit}
use ctech_wallet.Payments.{update_deposit_status}
use ctech_wallet.Payments.Keeps.{update_deposit_status_keeps}
use ctech_wallet.Service.{World, Env, Refund, on_db, timed, acquire_wallet}
use ctech_wallet.Service.Keeps.{Keeps, ClosedWorld, on_db-Keeps, timed-Keeps, acquire_wallet-Keeps}
use ctech_wallet.Service.Repository.{debit_keeps}
use ctech_wallet.Service.Deposit.Reversal.{
  refund_mutation, refund_debited, debit_refund, reverse_deposit, process_refunds,
}

module _ (env : Env) (R : World → Type 0) (closed : ClosedWorld env R) where
  pub status_write-Keeps :
      (txid : String) (s : DepositStatus) (e2e : String)
      → Keeps R (on_db (update_deposit_status env.dynamo txid s e2e))
  status_write-Keeps txid s e2e =
      on_db-Keeps env R closed (update_deposit_status env.dynamo txid s e2e)
        (λ P closed. update_deposit_status_keeps env.dynamo P closed txid s e2e)

  refund_debited-Keeps :
      (dep : PixDeposit) (r : Result (LedgerEntry × Bool)) → Keeps R (refund_debited env dep r)
  unfolding refund_debited
  refund_debited-Keeps dep (err e) w h =
      status_write-Keeps dep.txid DepositStatus.refund_failed dep.e2e_id w h
  refund_debited-Keeps dep (ok r) w h =
      status_write-Keeps dep.txid DepositStatus.refunded dep.e2e_id w h

  debit_refund-Keeps :
      (dep : PixDeposit) (r : Refund) → IsMagnitude r.amount → Keeps R (debit_refund env dep r)
  unfolding debit_refund refund_mutation
  debit_refund-Keeps dep r mag w h =
      let m = refund_mutation env dep r in
      let f = λ (t : Moment). debit env.dynamo t m [] in
      let kept =
        timed-Keeps env R closed f
          (λ t P closed. debit_keeps env.dynamo P closed t m [] mag tt (λ e. tt)) w h in
      refund_debited-Keeps dep (timed env f w).0 (timed env f w).1 kept

  reverse_deposit-Keeps :
      (dep : PixDeposit) (r : Refund) → IsMagnitude r.amount → Keeps R (reverse_deposit env dep r)
  unfolding reverse_deposit
  reverse_deposit-Keeps dep r mag w h =
      let kept = acquire_wallet-Keeps R env dep.wallet_id w h in
      bind_keeps R (acquire_wallet env dep.wallet_id) _ w kept
        (λ u e. debit_refund-Keeps dep r mag _ kept)

  pub process_refunds-Keeps :
      (dep : PixDeposit) (rs : List Refund)
      → All (λ r. IsMagnitude r.amount) rs
      → Keeps R (process_refunds env dep rs)
  unfolding process_refunds
  process_refunds-Keeps dep [] mags w h = h
  process_refunds-Keeps dep (r ∷ rs) mags w h =
      let kept = reverse_deposit-Keeps dep r mags.0 w h in
      elim (Bool-cases r.is_completed) [
        | inl complete ↦ rw complete (
            bind_keeps R (reverse_deposit env dep r) _ w kept
              (λ u e. process_refunds-Keeps dep rs mags.1 _ kept))
        | inr not_yet ↦ rw not_yet (process_refunds-Keeps dep rs mags.1 w h)
      ]

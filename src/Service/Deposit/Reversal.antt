-- ===== src/Service/Deposit/Reversal.antt =====
-- api/internal/services/wallet.go: a credited deposit that the rail reports as sent back is debited.
use ctech_wallet.Prelude.{Bool, not, List, [], ◌∷◌, if◌then◌else◌}
use ctech_wallet.Domain.Model.{EntryType, PixDeposit, DepositStatus, LedgerEntry}
use ctech_wallet.Store.Problem.{
  internal_server, problem, Result, ok, err, ◌>>=◌, ◌>>◌, pure, raise, attempt,
}
use ctech_wallet.Ledger.{Mutation, debit}
use ctech_wallet.Payments.{update_deposit_status}
use ctech_wallet.Service.{World, Env, Refund, on_db, timed, acquire_wallet}
use ctech_wallet.Service.Digest.{req_hash, prefixed}

module _ (env : Env) where
  unfoldable pub refund_mutation : PixDeposit → Refund → Mutation
  unfolding req_hash prefixed
  refund_mutation dep r =
      let key = prefixed "deposit-refund#" r.rtr_id in
      record {
        wallet_id = dep.wallet_id;
        amount = r.amount;
        entry_type = EntryType.deposit_refund;
        ref = dep.txid;
        description = "";
        idempotency_key = key;
        req_hash = req_hash env key r.amount;
        extra = λ e. [];
      }

  unfoldable pub refund_debited :
      PixDeposit → Result (LedgerEntry × Bool) → World → Result Unit × World
  refund_debited dep (err e) = do
    done ←
        attempt
          (on_db (update_deposit_status env.dynamo dep.txid DepositStatus.refund_failed dep.e2e_id))
    raise (problem (internal_server "estorno de depósito falhou; reconciliação manual necessária"))
  refund_debited dep (ok r) =
      on_db (update_deposit_status env.dynamo dep.txid DepositStatus.refunded dep.e2e_id)

  unfoldable pub debit_refund : PixDeposit → Refund → World → Result Unit × World
  unfolding refund_mutation refund_debited
  debit_refund dep r = do
    d ← attempt (timed env (λ t. debit env.dynamo t (refund_mutation dep r) []))
    refund_debited dep d

  unfoldable pub reverse_deposit : PixDeposit → Refund → World → Result Unit × World
  unfolding debit_refund
  reverse_deposit dep r = do acquire_wallet env dep.wallet_id; debit_refund dep r

  -- processDepositRefund
  unfoldable pub process_refunds : PixDeposit → List Refund → World → Result Unit × World
  unfolding reverse_deposit
  process_refunds dep [] = pure tt
  process_refunds dep (r ∷ rs) =
      if not r.is_completed
      then process_refunds dep rs
      else (do reverse_deposit dep r; process_refunds dep rs)

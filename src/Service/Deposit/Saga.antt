-- ===== src/Service/Deposit/Saga.antt =====
-- api/internal/services/wallet.go: the refund saga of a deposit, from a durable state and with a
-- stable key at the rail.
use ctech_wallet.Prelude.{
  String, Bool, true, false, not, ◌||◌, Option, none, some, List, [], ◌∷◌, if◌then◌else◌,
}
use ctech_wallet.Domain.Model.{PixDeposit, DepositStatus}
use ctech_wallet.Store.Problem.{
  internal_server, problem, Result, ok, err, ◌>>=◌, ◌>>◌, pure, raise, attempt,
}
use ctech_wallet.Store.Tables.{same_deposit_status}
use ctech_wallet.Payments.{get_deposit, transition_deposit_status}
use ctech_wallet.Service.{
  World, Env, Charge, Payment, Refund, TransferResult, returned, on_db, log_call,
}
use ctech_wallet.Service.Digest.{prefixed}

-- refunded and refundedPayment: some refund is completed.
unfoldable pub any_completed : List Refund → Bool
any_completed [] = false
any_completed (r ∷ rs) = r.is_completed || any_completed rs

module _ (env : Env) where
  unfoldable pub transition :
      PixDeposit → DepositStatus → DepositStatus → String → World → Result Bool × World
  transition dep from to e2e = on_db (transition_deposit_status env.dynamo dep.txid from to e2e)

  unfoldable pub read_deposit : String → World → Result (Option PixDeposit) × World
  read_deposit txid = on_db (get_deposit env.dynamo txid)

  unfoldable pub marked_elsewhere : Option PixDeposit → World → Result Unit × World
  marked_elsewhere none =
      raise
        (problem (internal_server "estorno concluído no provedor aguardando reconciliação local"))
  marked_elsewhere (some row) =
      if not (same_deposit_status row.status DepositStatus.refunded)
      then raise
          (problem (internal_server "estorno concluído no provedor aguardando reconciliação local"))
      else pure tt

  unfoldable pub marked : PixDeposit → Bool → World → Result Unit × World
  unfolding marked_elsewhere read_deposit
  marked dep true = pure tt
  marked dep false = do row ← read_deposit dep.txid; marked_elsewhere row

  -- markDepositRefunded
  unfoldable pub mark_refunded : PixDeposit → World → Result Unit × World
  unfolding marked transition
  mark_refunded dep = do
    changed ← transition dep DepositStatus.refund_pending DepositStatus.refunded dep.e2e_id
    marked dep changed

  unfoldable pub failed_elsewhere : Option PixDeposit → World → Result Unit × World
  failed_elsewhere none =
      raise (problem (internal_server "estorno do depósito falhou; nova tentativa agendada"))
  failed_elsewhere (some row) =
      if same_deposit_status row.status DepositStatus.refunded
      then pure tt
      else raise (problem (internal_server "estorno do depósito falhou; nova tentativa agendada"))

  unfoldable pub failure_noted : PixDeposit → Result Bool → World → Result Unit × World
  unfolding failed_elsewhere read_deposit
  failure_noted dep (err e) =
      raise (problem (internal_server "estorno do depósito falhou; estado será reconciliado"))
  failure_noted dep (ok true) =
      raise (problem (internal_server "estorno do depósito falhou; nova tentativa agendada"))
  failure_noted dep (ok false) = do row ← read_deposit dep.txid; failed_elsewhere row

  unfoldable pub refund_answered :
      PixDeposit → Charge → Result TransferResult → World → Result Unit × World
  unfolding failure_noted mark_refunded transition
  refund_answered dep charge (ok r) = mark_refunded dep
  refund_answered dep charge (err e) = do
    changed ←
        attempt
          (transition dep DepositStatus.refund_pending DepositStatus.refund_failed charge.e2e_id)
    failure_noted dep changed

  -- The part of refundMismatch from the durable state on.
  unfoldable pub ask_refund : PixDeposit → Charge → World → Result Unit × World
  unfolding refund_answered mark_refunded prefixed
  ask_refund dep charge = if any_completed charge.refunds then mark_refunded dep else (do
    r ← attempt (
        log_call (returned dep.txid charge.e2e_id charge.amount (prefixed "refund#" dep.txid))
          (env.refund_deposit dep.txid charge.e2e_id charge.amount (prefixed "refund#" dep.txid)))
    refund_answered dep charge r)

  unfoldable pub resumed_elsewhere :
      PixDeposit → Charge → Option PixDeposit → World → Result Unit × World
  unfolding ask_refund
  resumed_elsewhere dep charge none = pure tt
  resumed_elsewhere dep charge (some row) =
      if same_deposit_status row.status DepositStatus.refunded
      then pure tt
      else if not (same_deposit_status row.status DepositStatus.refund_pending)
      then raise (problem (internal_server "estado de estorno de depósito inconsistente"))
      else ask_refund dep charge

  unfoldable pub resumed : PixDeposit → Charge → Bool → World → Result Unit × World
  unfolding resumed_elsewhere read_deposit ask_refund
  resumed dep charge true = ask_refund dep charge
  resumed dep charge false = do row ← read_deposit dep.txid; resumed_elsewhere dep charge row

  unfoldable pub refund_mismatch : PixDeposit → Charge → World → Result Unit × World
  unfolding resumed transition ask_refund
  refund_mismatch dep charge =
      if same_deposit_status dep.status DepositStatus.refund_pending
      then ask_refund dep charge
      else (do
        changed ← transition dep dep.status DepositStatus.refund_pending charge.e2e_id
        resumed dep charge changed)

  unfoldable pub rejected_elsewhere : Charge → Option PixDeposit → World → Result Unit × World
  unfolding refund_mismatch
  rejected_elsewhere charge none = pure tt
  rejected_elsewhere charge (some row) =
      if same_deposit_status row.status DepositStatus.refunded
      then pure tt
      else refund_mismatch row charge

  unfoldable pub rejected : PixDeposit → Charge → Bool → World → Result Unit × World
  unfolding rejected_elsewhere read_deposit refund_mismatch
  rejected dep charge true =
      refund_mismatch (record dep { status = DepositStatus.refund_pending }) charge
  rejected dep charge false = do row ← read_deposit dep.txid; rejected_elsewhere charge row

  unfoldable pub reject_mismatch : PixDeposit → Charge → World → Result Unit × World
  unfolding rejected transition
  reject_mismatch dep charge = do
    changed ← transition dep DepositStatus.pending DepositStatus.refund_pending charge.e2e_id
    rejected dep charge changed

  unfoldable pub excess_answered : Result TransferResult → World → Result Unit × World
  excess_answered (err e) = raise (
      problem
        (internal_server "estorno de pagamento excedente falhou; reconciliação manual necessária"))
  excess_answered (ok r) = pure tt

  unfoldable pub refund_one : String → Payment → World → Result Unit × World
  unfolding excess_answered prefixed
  refund_one txid p = do
    r ← attempt (
        log_call (returned txid p.e2e_id p.amount (prefixed "excess#" p.e2e_id))
          (env.refund_deposit txid p.e2e_id p.amount (prefixed "excess#" p.e2e_id)))
    excess_answered r

  unfoldable pub refund_each : String → List Payment → World → Result Unit × World
  unfolding refund_one
  refund_each txid [] = pure tt
  refund_each txid (p ∷ ps) =
      if any_completed p.refunds
      then refund_each txid ps
      else (do refund_one txid p; refund_each txid ps)

  -- refundExcessPayments: every payment but the first goes back.
  unfoldable pub refund_excess : String → List Payment → World → Result Unit × World
  unfolding refund_each
  refund_excess txid [] = pure tt
  refund_excess txid (p ∷ ps) = refund_each txid ps

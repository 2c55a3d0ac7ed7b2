-- ===== src/Service/Deposit/Keeps.antt =====
-- ConfirmDeposit keeps every property that lawful transactions and its refunds at the rail keep.
use ctech_wallet.Prelude.{
  String, ◌≡◌, inl, inr, Bool, true, false, not, ◌==◌, ◌&&◌, Bool-cases, Option, none, some,
}
use ctech_wallet.Prelude.Int.{IsMagnitude, ℤ}
use ctech_wallet.Prelude.Lists.{All}
use ctech_wallet.Domain.Model.{Wallet, PixDeposit, DepositStatus, RealDailyCounters, LedgerEntry}
use ctech_wallet.Domain.Daily.{DailyBreach, effective_daily_limits, check_daily_deposit}
use ctech_wallet.Store.Problem.{Result, ok, reads, bind_keeps}
use ctech_wallet.Store.Dynamo.{Moment}
use ctech_wallet.Ledger.{confirm_deposit_credit, find_mutation}
use ctech_wallet.Payments.{get_deposit, update_deposit_payer, bump_real_daily_counters}
use ctech_wallet.Payments.Keeps.{update_deposit_payer_keeps}
use ctech_wallet.Service.{
  World, Env, Charge, on_db, timed, read_clock, acquire_wallet, get_user, counters_of,
  current_counters,
}
use ctech_wallet.Service.Keeps.{
  Keeps, ClosedWorld, on_db-Keeps, timed-Keeps, acquire_wallet-Keeps, get_user-Keeps,
}
use ctech_wallet.Service.Repository.{confirm_deposit_credit_keeps, find_mutation_keeps}
use ctech_wallet.Service.Digest.{req_hash, prefixed}
use ctech_wallet.Service.Deposit.ReversalKeeps.{status_write-Keeps, process_refunds-Keeps}
use ctech_wallet.Service.Deposit.{
  is_paid, Verdict, quarantine, send_back, accept, deposit_mutation, credit_items, credit_within,
  credit_checked, credit_deposit, verdict, judged, with_charge_payer, judge, unless_erased, gated,
  confirm_pending, repair_refunded, by_status, with_payer, confirm_found, confirm_deposit,
}
use ctech_wallet.Service.Deposit.Saga.{any_completed, refund_excess}
use ctech_wallet.Service.Deposit.SagaKeeps.{
  transition-Keeps, KeptByRefunds, reject_mismatch-Keeps, refund_mismatch-Keeps,
  refund_excess-Keeps,
}

-- The amounts that the rail reports are int64 numbers of at least zero.
abbrev pub IsSoundCharge : Charge → Type 0
IsSoundCharge charge = IsMagnitude charge.amount × All (λ r. IsMagnitude r.amount) charge.refunds

module _ (env : Env) (R : World → Type 0) (closed : ClosedWorld env R)
    (logs : KeptByRefunds R) where
  payer_write-Keeps :
      (txid cpf name : String) → Keeps R (on_db (update_deposit_payer env.dynamo txid cpf name))
  payer_write-Keeps txid cpf name =
      on_db-Keeps env R closed (update_deposit_payer env.dynamo txid cpf name)
        (λ P closed. update_deposit_payer_keeps env.dynamo P closed txid cpf name)

  module _ (dep : PixDeposit) (charge : Charge) (sound : IsSoundCharge charge) where
    credit_within-Keeps :
        (prev : Option RealDailyCounters) (now : ℤ) (o : Option DailyBreach)
        → Keeps R (credit_within env dep charge prev now o)
    unfolding credit_within deposit_mutation credit_items bump_real_daily_counters
    credit_within-Keeps prev now (some b) w h =
        reject_mismatch-Keeps env R (transition-Keeps env R closed) logs dep charge w h
    credit_within-Keeps prev now none w h =
        let m = deposit_mutation env dep charge in
        let items = credit_items env dep charge prev now in
        let f =
          λ (t : Moment). confirm_deposit_credit env.dynamo t m dep.txid charge.e2e_id items in
        let kept =
          timed-Keeps env R closed f
            (λ t P closed.
              confirm_deposit_credit_keeps env.dynamo P closed t m items sound.0 (tt, tt) (λ e. tt)
                dep.txid charge.e2e_id)
            w h in
        bind_keeps R (timed env f) _ w kept (λ r e. kept)

    credit_checked-Keeps :
        (prev : Option RealDailyCounters) (wallet : Option Wallet)
        → Keeps R (credit_checked env dep charge prev wallet)
    unfolding credit_checked read_clock
    credit_checked-Keeps prev wallet w h =
        let now = (env.clock w).now in
        credit_within-Keeps prev now
          (check_daily_deposit env.calendar (effective_daily_limits wallet) (current_counters prev)
            charge.amount now)
          w h

    credit_deposit-Keeps : Keeps R (credit_deposit env dep charge)
    unfolding credit_deposit on_db
    credit_deposit-Keeps w h =
        let kept = acquire_wallet-Keeps R env dep.wallet_id w h in
        let locked = (acquire_wallet env dep.wallet_id w).1 in
        let kept2 = get_user-Keeps R env dep.user_id locked kept in
        bind_keeps R (acquire_wallet env dep.wallet_id) _ w kept (λ u e.
          bind_keeps R (get_user env dep.user_id) _ locked kept2 (λ row e2.
            bind_keeps R (on_db (reads (env.dynamo.get_wallet dep.wallet_id))) _
              (get_user env dep.user_id locked).1 kept2
              (λ wallet e3. credit_checked-Keeps (counters_of row) wallet _ kept2)))

    judged-Keeps : (v : Verdict) → Keeps R (judged env dep charge v)
    unfolding judged
    judged-Keeps quarantine w h = h
    judged-Keeps send_back w h =
        reject_mismatch-Keeps env R (transition-Keeps env R closed) logs dep charge w h
    judged-Keeps accept w h = credit_deposit-Keeps w h

  module _ (charge : Charge) (sound : IsSoundCharge charge) where
    with_charge_payer-Keeps : (dep : PixDeposit) → Keeps R (with_charge_payer env dep charge)
    unfolding with_charge_payer
    with_charge_payer-Keeps dep w h =
        let write =
          on_db (update_deposit_payer env.dynamo dep.txid charge.payer_cpf dep.payer_name) in
        let kept = payer_write-Keeps dep.txid charge.payer_cpf dep.payer_name w h in
        elim (Bool-cases (dep.payer_cpf == "" && not (charge.payer_cpf == ""))) [
          | inl fresh ↦ rw fresh (bind_keeps R write _ w kept (λ u e. kept))
          | inr named ↦ rw named h
        ]

    judge-Keeps : (dep : PixDeposit) → Keeps R (judge env dep charge)
    unfolding judge
    judge-Keeps dep w h =
        let kept = with_charge_payer-Keeps dep w h in
        bind_keeps R (reads (env.kyc_get dep.user_id)) _ w h (λ kyc e.
          bind_keeps R (with_charge_payer env dep charge) _ w kept
            (λ known e2. judged-Keeps known charge sound (verdict env known charge kyc) _ kept))

    unless_erased-Keeps :
        (dep : PixDeposit) (gone : Bool) → Keeps R (unless_erased env dep charge gone)
    unfolding unless_erased
    unless_erased-Keeps dep true w h =
        reject_mismatch-Keeps env R (transition-Keeps env R closed) logs dep charge w h
    unless_erased-Keeps dep false w h = judge-Keeps dep w h

    gated-Keeps :
        (dep : PixDeposit) (gate : Option (String → World → Result Bool))
        → Keeps R (gated env dep charge gate)
    unfolding gated
    gated-Keeps dep none w h = judge-Keeps dep w h
    gated-Keeps dep (some erased) w h =
        bind_keeps R (reads (erased dep.user_id)) _ w h (λ gone e. unless_erased-Keeps dep gone w h)

    confirm_pending-Keeps : (dep : PixDeposit) → Keeps R (confirm_pending env dep charge)
    unfolding confirm_pending
    confirm_pending-Keeps dep w h = elim (Bool-cases (is_paid charge.status)) [
      | inl p ↦ elim (Bool-cases (any_completed charge.refunds)) [
        | inl back ↦
            rw (p, back)
              (status_write-Keeps env R closed dep.txid DepositStatus.refunded charge.e2e_id w h)
        | inr kept_by_us ↦ rw (p, kept_by_us) (gated-Keeps dep env.erased w h)
      ]
      | inr p ↦ rw p h
    ]

    repair_refunded-Keeps :
        (dep : PixDeposit) (o : Option LedgerEntry) → Keeps R (repair_refunded env dep charge o)
    unfolding repair_refunded
    repair_refunded-Keeps dep none w h = h
    repair_refunded-Keeps dep (some prior) w h =
        process_refunds-Keeps env R closed dep charge.refunds sound.1 w h

    by_status-Keeps : (dep : PixDeposit) (s : DepositStatus) → Keeps R (by_status env dep charge s)
    unfolding by_status
    by_status-Keeps dep DepositStatus.confirmed w h =
        process_refunds-Keeps env R closed dep charge.refunds sound.1 w h
    by_status-Keeps dep DepositStatus.refund_pending w h =
        refund_mismatch-Keeps env R (transition-Keeps env R closed) logs dep charge w h
    by_status-Keeps dep DepositStatus.refund_failed w h =
        refund_mismatch-Keeps env R (transition-Keeps env R closed) logs dep charge w h
    by_status-Keeps dep DepositStatus.rejected_cpf w h =
        refund_mismatch-Keeps env R (transition-Keeps env R closed) logs dep charge w h
    by_status-Keeps dep DepositStatus.refunded w h =
        let key = prefixed "deposit#" dep.txid in
        let hash = req_hash env dep.txid charge.amount in
        let find = on_db (find_mutation env.dynamo key hash) in
        let kept =
          on_db-Keeps env R closed (find_mutation env.dynamo key hash)
            (λ P closed. find_mutation_keeps env.dynamo P closed key hash) w h in
        bind_keeps R find _ w kept (λ prior e. repair_refunded-Keeps dep prior _ kept)
    by_status-Keeps dep DepositStatus.pending w h = confirm_pending-Keeps dep w h
    by_status-Keeps dep DepositStatus.expired w h = h

  with_payer-Keeps : (dep : PixDeposit) (cpf name : String) → Keeps R (with_payer env dep cpf name)
  unfolding with_payer
  with_payer-Keeps dep cpf name w h =
      let write = on_db (update_deposit_payer env.dynamo dep.txid cpf name) in
      let kept = payer_write-Keeps dep.txid cpf name w h in
      elim (Bool-cases (not (cpf == "") && not (cpf == dep.payer_cpf))) [
        | inl fresh ↦ rw fresh (bind_keeps R write _ w kept (λ u e. kept))
        | inr known ↦ rw known h
      ]

  module _
      (answers : (txid : String) (w : World) (c : Charge)
        → env.query_deposit txid w ≡ ok c
        → IsSoundCharge c) where
    confirm_found-Keeps :
        (cpf name : String) (o : Option PixDeposit) → Keeps R (confirm_found env cpf name o)
    unfolding confirm_found
    confirm_found-Keeps cpf name none w h = h
    confirm_found-Keeps cpf name (some dep) w h =
        let kept = with_payer-Keeps dep cpf name w h in
        let w1 = (with_payer env dep cpf name w).1 in
        bind_keeps R (with_payer env dep cpf name) _ w kept (λ known e.
          bind_keeps R (reads (env.query_deposit known.txid)) _ w1 kept (λ charge e2.
            let kept2 =
              refund_excess-Keeps env R (transition-Keeps env R closed) logs known.txid
                charge.payments w1 kept in
            bind_keeps R (refund_excess env known.txid charge.payments) _ w1 kept2 (λ u e3.
              by_status-Keeps charge (answers known.txid w1 charge e2) known known.status _ kept2)))

    pub confirm_deposit-Keeps :
        (txid cpf name : String) → Keeps R (confirm_deposit env txid cpf name)
    unfolding confirm_deposit on_db get_deposit
    confirm_deposit-Keeps txid cpf name w h =
        bind_keeps R (on_db (get_deposit env.dynamo txid)) _ w h
          (λ o e. confirm_found-Keeps cpf name o w h)

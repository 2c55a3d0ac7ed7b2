-- ===== src/Service/Deposit/SagaKeeps.antt =====
-- The refund saga keeps every property that lawful transactions and its own calls of the rail keep.
use ctech_wallet.Prelude.{
  String, ◌≡◌, refl, ◌⊎◌, inl, inr, Bool, true, false, Bool-cases, Option, none, some, List, [],
  ◌∷◌,
}
use ctech_wallet.Domain.Model.{PixDeposit, DepositStatus}
use ctech_wallet.Store.Problem.{Result, ok, err, bind_keeps}
use ctech_wallet.Store.Tables.{Db, same_deposit_status, move_deposit}
use ctech_wallet.Store.Dynamo.{IsDynamo}
use ctech_wallet.Store.Sound.{SameBooks}
use ctech_wallet.Store.Lawful.{transact-SameBooks}
use ctech_wallet.Payments.{get_deposit, transition_deposit_status}
use ctech_wallet.Payments.Keeps.{transition_deposit_status_keeps, transition_deposit_status_state}
use ctech_wallet.Service.{
  World, Env, Charge, Payment, TransferResult, RailCall, returned, on_db, log_call,
}
use ctech_wallet.Service.Keeps.{Keeps, ClosedWorld, on_db-Keeps}
use ctech_wallet.Service.Digest.{prefixed}
use ctech_wallet.Service.Deposit.Saga.{
  any_completed, transition, read_deposit, marked_elsewhere, marked, mark_refunded,
  failed_elsewhere, failure_noted, refund_answered, ask_refund, resumed_elsewhere, resumed,
  refund_mismatch, rejected_elsewhere, rejected, reject_mismatch, excess_answered, refund_one,
  refund_each, refund_excess,
}

-- A refund under the one key of its deposit, or of its excess payment.
abbrev pub IsStableRefund : RailCall → Type 0
IsStableRefund (returned txid e2e amount key) =
    (key ≡ prefixed "refund#" txid) ⊎ (key ≡ prefixed "excess#" e2e)
IsStableRefund _ = ⊥

abbrev pub KeptByRefunds : (World → Type 0) → Type 0
KeptByRefunds R =
    (c : RailCall) (w : World) → IsStableRefund c → R w → R (record w { calls = c ∷ w.calls })

-- Each step of a deposit from one status to another keeps a property.
abbrev pub KeptByTransitions : Env → (World → Type 0) → Type 0
KeptByTransitions env R =
    (dep : PixDeposit) (from to : DepositStatus) (e2e : String)
    → Keeps R (transition env dep from to e2e)

pub transition-Keeps :
    (env : Env) (R : World → Type 0) (closed : ClosedWorld env R) → KeptByTransitions env R
unfolding transition
transition-Keeps env R closed dep from to e2e =
    on_db-Keeps env R closed (transition_deposit_status env.dynamo dep.txid from to e2e)
      (λ P closed. transition_deposit_status_keeps env.dynamo P closed dep.txid from to e2e)

-- A step writes the one row of the deposit, so the books stay.
pub transition-SameBooks :
    (env : Env) (law : IsDynamo env.dynamo) (before : Db)
    → KeptByTransitions env (λ w. SameBooks w.db before)
unfolding transition on_db
transition-SameBooks env law before dep from to e2e w h =
    rw (transition_deposit_status_state env.dynamo dep.txid from to e2e w.db) (
      transact-SameBooks env.dynamo law (move_deposit dep.txid from to e2e ∷ []) w.db before
        (tt, tt) h)

module _ (env : Env) (R : World → Type 0) (steps : KeptByTransitions env R)
    (logs : KeptByRefunds R) where
  read_deposit-Keeps : (txid : String) → Keeps R (read_deposit env txid)
  unfolding read_deposit on_db get_deposit
  read_deposit-Keeps txid w h = h

  marked_elsewhere-Keeps : (o : Option PixDeposit) → Keeps R (marked_elsewhere env o)
  unfolding marked_elsewhere
  marked_elsewhere-Keeps none w h = h
  marked_elsewhere-Keeps (some row) w h =
      elim (Bool-cases (same_deposit_status row.status DepositStatus.refunded)) [
        | inl e ↦ rw e h
        | inr e ↦ rw e h
      ]

  marked-Keeps : (dep : PixDeposit) (changed : Bool) → Keeps R (marked env dep changed)
  unfolding marked
  marked-Keeps dep true w h = h
  marked-Keeps dep false w h =
      let kept = read_deposit-Keeps dep.txid w h in
      bind_keeps R (read_deposit env dep.txid) _ w kept (λ row e. marked_elsewhere-Keeps row _ kept)

  mark_refunded-Keeps : (dep : PixDeposit) → Keeps R (mark_refunded env dep)
  unfolding mark_refunded
  mark_refunded-Keeps dep w h =
      let step =
        transition env dep DepositStatus.refund_pending DepositStatus.refunded dep.e2e_id in
      let kept = steps dep _ _ _ w h in
      bind_keeps R step _ w kept (λ changed e. marked-Keeps dep changed _ kept)

  failed_elsewhere-Keeps : (o : Option PixDeposit) → Keeps R (failed_elsewhere env o)
  unfolding failed_elsewhere
  failed_elsewhere-Keeps none w h = h
  failed_elsewhere-Keeps (some row) w h =
      elim (Bool-cases (same_deposit_status row.status DepositStatus.refunded)) [
        | inl e ↦ rw e h
        | inr e ↦ rw e h
      ]

  failure_noted-Keeps : (dep : PixDeposit) (r : Result Bool) → Keeps R (failure_noted env dep r)
  unfolding failure_noted
  failure_noted-Keeps dep (err e) w h = h
  failure_noted-Keeps dep (ok true) w h = h
  failure_noted-Keeps dep (ok false) w h =
      let kept = read_deposit-Keeps dep.txid w h in
      bind_keeps R (read_deposit env dep.txid) _ w kept (λ row e. failed_elsewhere-Keeps row _ kept)

  refund_answered-Keeps :
      (dep : PixDeposit) (charge : Charge) (r : Result TransferResult)
      → Keeps R (refund_answered env dep charge r)
  unfolding refund_answered
  refund_answered-Keeps dep charge (ok r) w h = mark_refunded-Keeps dep w h
  refund_answered-Keeps dep charge (err e) w h =
      let step =
        transition env dep DepositStatus.refund_pending DepositStatus.refund_failed charge.e2e_id in
      failure_noted-Keeps dep (step w).0 (step w).1 (steps dep _ _ _ w h)

  ask_refund-Keeps : (dep : PixDeposit) (charge : Charge) → Keeps R (ask_refund env dep charge)
  unfolding ask_refund log_call
  ask_refund-Keeps dep charge w h =
      let key = prefixed "refund#" dep.txid in
      let call = returned dep.txid charge.e2e_id charge.amount key in
      elim (Bool-cases (any_completed charge.refunds)) [
        | inl done ↦ rw done (mark_refunded-Keeps dep w h)
        | inr due ↦ rw due (refund_answered-Keeps dep charge _ _ (logs call w (inl refl) h))
      ]

  resumed_elsewhere-Keeps :
      (dep : PixDeposit) (charge : Charge) (o : Option PixDeposit)
      → Keeps R (resumed_elsewhere env dep charge o)
  unfolding resumed_elsewhere
  resumed_elsewhere-Keeps dep charge none w h = h
  resumed_elsewhere-Keeps dep charge (some row) w h =
      elim (Bool-cases (same_deposit_status row.status DepositStatus.refunded)) [
        | inl e ↦ rw e h
        | inr e ↦ elim (Bool-cases (same_deposit_status row.status DepositStatus.refund_pending)) [
          | inl p ↦ rw (e, p) (ask_refund-Keeps dep charge w h)
          | inr p ↦ rw (e, p) h
        ]
      ]

  resumed-Keeps :
      (dep : PixDeposit) (charge : Charge) (changed : Bool)
      → Keeps R (resumed env dep charge changed)
  unfolding resumed
  resumed-Keeps dep charge true w h = ask_refund-Keeps dep charge w h
  resumed-Keeps dep charge false w h =
      let kept = read_deposit-Keeps dep.txid w h in
      bind_keeps R (read_deposit env dep.txid) _ w kept
        (λ row e. resumed_elsewhere-Keeps dep charge row _ kept)

  pub refund_mismatch-Keeps :
      (dep : PixDeposit) (charge : Charge) → Keeps R (refund_mismatch env dep charge)
  unfolding refund_mismatch
  refund_mismatch-Keeps dep charge w h =
      let step = transition env dep dep.status DepositStatus.refund_pending charge.e2e_id in
      let kept = steps dep dep.status DepositStatus.refund_pending charge.e2e_id w h in
      elim (Bool-cases (same_deposit_status dep.status DepositStatus.refund_pending)) [
        | inl e ↦ rw e (ask_refund-Keeps dep charge w h)
        | inr e ↦
            rw e
              (bind_keeps R step _ w kept (λ changed e2. resumed-Keeps dep charge changed _ kept))
      ]

  rejected_elsewhere-Keeps :
      (charge : Charge) (o : Option PixDeposit) → Keeps R (rejected_elsewhere env charge o)
  unfolding rejected_elsewhere
  rejected_elsewhere-Keeps charge none w h = h
  rejected_elsewhere-Keeps charge (some row) w h =
      elim (Bool-cases (same_deposit_status row.status DepositStatus.refunded)) [
        | inl e ↦ rw e h
        | inr e ↦ rw e (refund_mismatch-Keeps row charge w h)
      ]

  rejected-Keeps :
      (dep : PixDeposit) (charge : Charge) (changed : Bool)
      → Keeps R (rejected env dep charge changed)
  unfolding rejected
  rejected-Keeps dep charge true w h =
      refund_mismatch-Keeps (record dep { status = DepositStatus.refund_pending }) charge w h
  rejected-Keeps dep charge false w h =
      let kept = read_deposit-Keeps dep.txid w h in
      bind_keeps R (read_deposit env dep.txid) _ w kept
        (λ row e. rejected_elsewhere-Keeps charge row _ kept)

  pub reject_mismatch-Keeps :
      (dep : PixDeposit) (charge : Charge) → Keeps R (reject_mismatch env dep charge)
  unfolding reject_mismatch
  reject_mismatch-Keeps dep charge w h =
      let step =
        transition env dep DepositStatus.pending DepositStatus.refund_pending charge.e2e_id in
      let kept = steps dep _ _ _ w h in
      bind_keeps R step _ w kept (λ changed e. rejected-Keeps dep charge changed _ kept)

  excess_answered-Keeps : (r : Result TransferResult) → Keeps R (excess_answered env r)
  unfolding excess_answered
  excess_answered-Keeps (ok r) w h = h
  excess_answered-Keeps (err e) w h = h

  refund_one-Keeps : (txid : String) (p : Payment) → Keeps R (refund_one env txid p)
  unfolding refund_one log_call
  refund_one-Keeps txid p w h =
      let key = prefixed "excess#" p.e2e_id in
      excess_answered-Keeps _ _ (logs (returned txid p.e2e_id p.amount key) w (inr refl) h)

  refund_each-Keeps : (txid : String) (ps : List Payment) → Keeps R (refund_each env txid ps)
  unfolding refund_each
  refund_each-Keeps txid [] w h = h
  refund_each-Keeps txid (p ∷ ps) w h =
      let kept = refund_one-Keeps txid p w h in
      elim (Bool-cases (any_completed p.refunds)) [
        | inl done ↦ rw done (refund_each-Keeps txid ps w h)
        | inr due ↦ rw due (
            bind_keeps R (refund_one env txid p) _ w kept (λ u e. refund_each-Keeps txid ps _ kept))
      ]

  pub refund_excess-Keeps :
      (txid : String) (ps : List Payment) → Keeps R (refund_excess env txid ps)
  unfolding refund_excess
  refund_excess-Keeps txid [] w h = h
  refund_excess-Keeps txid (p ∷ ps) w h = refund_each-Keeps txid ps w h

-- ===== src/Billing/Payouts.antt =====
-- What a payout's state at Billing means for the money of a withdrawal.
use ctech_wallet.Prelude.{String, ◌≡◌, ◌↔◌, inl, inr, ◌==◌, Bool-cases, arith, eq_iff}
use ctech_wallet.Store.Problem.{Result, ok, err}
use ctech_wallet.Service.{
  TransferResult, TransferStatus, transfer_done, transfer_not_found, transfer_failed,
}
use ctech_wallet.Billing.{Reply, answered, missing, clash, failed, Routes}
use ctech_wallet.Billing.Client.{Payout, payout_by_reference}
use ctech_wallet.Billing.Rail.{payout_result, no_key_failed, payout_state, query_payout}

-- What an answer says of a payout's money.
abbrev pub Says : TransferStatus → Result TransferResult → Type 0
Says status (ok res) = res.status ≡ status
Says status (err e) = ⊥

abbrev pub IsMissing : {A : Type 0} → Reply A → Type 0
IsMissing missing = Unit {0}
IsMissing _ = ⊥

abbrev pub HasState : String → Reply Payout → Type 0
HasState state (answered p) = p.status ≡ state
HasState state _ = ⊥

module _ {S : Type 0} (r : Routes S) where
  payout_state_iff :
      (a : Reply Payout)
      → (Says transfer_done (payout_state r a) ↔ HasState "done" a)
        × (Says transfer_failed (payout_state r a) ↔ HasState "failed" a)
        × (Says transfer_not_found (payout_state r a) ↔ IsMissing a)
  unfolding payout_state no_key_failed payout_result
  payout_state_iff (answered p) = elim (Bool-cases (p.status == "done")) [
    | inl done ↦
        let same = (eq_iff p.status "done").0 done in
        rw same (ground (arith, eq_iff "done" "failed"))
    | inr not_done ↦ elim (Bool-cases (p.status == "failed")) [
      | inl over ↦ elim (Bool-cases (r.equal_fold p.failure_reason "key_not_found")) [
        | inl keyless ↦
            rw (not_done, over, keyless)
              (ground (arith, eq_iff p.status "done", eq_iff p.status "failed"))
        | inr refused ↦
            rw (not_done, over, refused)
              (ground (arith, eq_iff p.status "done", eq_iff p.status "failed"))
      ]
      | inr pending ↦
          rw (not_done, pending) (ground (arith, eq_iff p.status "done", eq_iff p.status "failed"))
    ]
  ]
  payout_state_iff missing = ground arith
  payout_state_iff clash = ground arith
  payout_state_iff (failed e) = ground arith

-- Asked for a payout, the rail says done exactly when Billing's payout is done, failed exactly when
-- Billing's payout is failed for whatever reason, and not found exactly when Billing knows no such
-- payout: a conflict, an outage and any other state never give the money of a withdrawal back.
pub query_payout_iff :
    {S : Type 0} (r : Routes S) (key : String) (s : S)
    → let a = (payout_by_reference r key s).0 in
      let said = (query_payout r key s).0 in
      (Says transfer_done said ↔ HasState "done" a)
      × (Says transfer_failed said ↔ HasState "failed" a)
      × (Says transfer_not_found said ↔ IsMissing a)
unfolding query_payout
query_payout_iff r key s = payout_state_iff r (payout_by_reference r key s).0

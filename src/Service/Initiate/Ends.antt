-- ===== src/Service/Initiate/Ends.antt =====
-- InitiateDeposit does not start again while nobody else writes and reads are current: its call of
-- itself is for a row that another request put.
use ctech_wallet.Prelude.{
  String, ◌≡◌, refl, true, ◌==◌, ℕ, suc, Option, none, some, [], ◌∷◌, Bool-cases, inl, inr,
}
use ctech_wallet.Prelude.Int.{ℤ, ltb_ℤ}
use ctech_wallet.Domain.Model.{Wallet, PixDeposit, max_inbound_amount}
use ctech_wallet.Domain.Limits.{deposit_amount_ok}
use ctech_wallet.Store.Problem.{Result, ok, bind_same}
use ctech_wallet.Store.Tables.{Db, put_deposit, condition, conditions, effects, distinct}
use ctech_wallet.Store.Dynamo.{IsPrompt}
use ctech_wallet.Ledger.{transact_write}
use ctech_wallet.Wallets.{ensure_real_wallet}
use ctech_wallet.Payments.{must, get_deposit, put_deposit_if_absent}
use ctech_wallet.Service.{World, Env, Charge, on_db, timed, read_clock, check_erasure}
use ctech_wallet.Service.Initiate.{
  own_txid, reserved, pending_row, reserve, refuse_daily_breach, reserve_or_replay, in_range,
  with_kyc, initiate_once, initiate_deposit,
}
use ctech_wallet.Service.Initiate.Keeps.{refuse_daily_breach-Keeps}

module _ (env : Env) (user : String) (amount : ℤ) (key : String) (prompt : IsPrompt env.dynamo)
    (a b : World → Result (PixDeposit × Charge) × World) where
  abbrev Free : World → Type 0
  Free w = w.db.deposits (own_txid env user amount key) ≡ none

  put_first :
      (dep : PixDeposit) (db : Db)
      → db.deposits dep.txid ≡ none
      → put_deposit_if_absent env.dynamo dep db ≡ (ok tt, effects (put_deposit dep ∷ []) db)
  unfolding put_deposit_if_absent transact_write must distinct conditions condition
  put_first dep db free =
      let c : conditions (put_deposit dep ∷ []) db ≡ true = rw free refl in
      rw (prompt.applied (put_deposit dep ∷ []) db refl c) refl

  reserve_same :
      (o : Option Wallet) (w : World)
      → Free w
      → reserve env user amount key a o w ≡ reserve env user amount key b o w
  unfolding reserve read_clock on_db pending_row reserved
  reserve_same none w free = refl
  reserve_same (some row) w free =
      rw (put_first (pending_row env user amount key (env.clock w) row) w.db free) refl

  reserve_or_replay_same :
      (o : Option Wallet) (d : Option PixDeposit) (w : World)
      → w.db.deposits (own_txid env user amount key) ≡ d
      → reserve_or_replay env user amount key a o d w
        ≡ reserve_or_replay env user amount key b o d w
  unfolding reserve_or_replay
  reserve_or_replay_same o (some dep) w current = refl
  reserve_or_replay_same o none w current =
      let free = refuse_daily_breach-Keeps env user amount key Free o w current in
      bind_same (refuse_daily_breach env user amount key o) _ _ w (λ u e. reserve_same o _ free)

  read_current :
      (d : Option PixDeposit) (w : World)
      → env.dynamo.get_deposit (own_txid env user amount key) w.db ≡ ok d
      → w.db.deposits (own_txid env user amount key) ≡ d
  read_current d w e = let read = prompt.deposit_read (own_txid env user amount key) w.db in cc

  in_range_same :
      (o : Option Wallet) (w : World)
      → in_range env user amount key a o w ≡ in_range env user amount key b o w
  unfolding in_range on_db get_deposit
  in_range_same o w = elim (Bool-cases (ltb_ℤ max_inbound_amount amount)) [
    | inl above ↦ rw above refl
    | inr below ↦ elim (Bool-cases (deposit_amount_ok amount o)) [
      | inl fits ↦
          rw (below, fits)
            (bind_same (on_db (get_deposit env.dynamo (own_txid env user amount key))) _ _ w
              (λ d e. reserve_or_replay_same o d w (read_current d w e)))
      | inr outside ↦ rw (below, outside) refl
    ]
  ]

  with_kyc_same :
      (kyc_level : String) (w : World)
      → with_kyc env user amount key a kyc_level w ≡ with_kyc env user amount key b kyc_level w
  unfolding with_kyc
  with_kyc_same kyc_level w = elim (Bool-cases (kyc_level == "")) [
    | inl missing ↦ rw missing refl
    | inr known ↦ rw known (
        bind_same (timed env (λ t. ensure_real_wallet env.dynamo t user)) _ _ w
          (λ o e. in_range_same o _))
  ]

  initiate_once_same :
      (kyc_level : String) (w : World)
      → initiate_once env user amount key a kyc_level w
        ≡ initiate_once env user amount key b kyc_level w
  unfolding initiate_once
  initiate_once_same kyc_level w =
      bind_same (check_erasure env user) _ _ w (λ u e. with_kyc_same kyc_level _)

-- Where DynamoDB answers every call, reads are current and no other request writes in between, one
-- pass is enough: more passes allowed give the same answer and the same state. So the call of the
-- code to itself ends.
pub initiate_deposit_one_pass :
    (env : Env) (user : String) (amount : ℤ) (key kyc_level : String) (n : ℕ) (w : World)
    → IsPrompt env.dynamo
    → initiate_deposit env user amount key (suc n) kyc_level w
      ≡ initiate_deposit env user amount key 1 kyc_level w
unfolding initiate_deposit
initiate_deposit_one_pass env user amount key kyc_level n w prompt =
    initiate_once_same env user amount key prompt _ _ kyc_level w

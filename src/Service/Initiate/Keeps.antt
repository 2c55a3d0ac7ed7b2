-- ===== src/Service/Initiate/Keeps.antt =====
-- What InitiateDeposit does to the world: rows of wallets and of the deposit, and at the end at most
-- one charge, for the request's own txid and amount.
use ctech_wallet.Prelude.{
  String, ◌≡◌, refl, Bool, true, false, not, ◌||◌, ◌==◌, ℕ, zero, suc, Option, none, some, ◌∷◌,
  Bool-cases, inl, inr, arith,
}
use ctech_wallet.Prelude.Int.{ℤ, pos, ◌≤ℤ◌, ltb_ℤ, eqb_ℤ, eqb_ℤ_iff, ltb_ℤ_iff}
use ctech_wallet.Domain.Model.{Wallet, PixDeposit, max_inbound_amount}
use ctech_wallet.Domain.Limits.{deposit_amount_ok}
use ctech_wallet.Domain.Limits.Bounds.{deposit_limits_bounds, deposit_amount_ok_iff}
use ctech_wallet.Store.Problem.{
  Result, ok, err, Result-cases, ◌>>=◌, problem, deposit_exists, withdrawal_exists, key_not_found,
  condition_failed, panicked, outage, bind_keeps,
}
use ctech_wallet.Wallets.{ensure_real_wallet}
use ctech_wallet.Payments.{get_deposit, put_deposit_if_absent}
use ctech_wallet.Payments.Keeps.{put_deposit_if_absent_keeps}
use ctech_wallet.Service.{
  World, Env, Charge, DepositRequest, opened, on_db, log_call, timed, read_clock, check_erasure,
  get_user,
}
use ctech_wallet.Service.Keeps.{
  Keeps, ClosedWorld, on_db-Keeps, timed-Keeps, check_erasure-Keeps, get_user-Keeps,
  breach_problem-Keeps,
}
use ctech_wallet.Service.Repository.{ensure_real_wallet_keeps}
use ctech_wallet.Service.Initiate.{
  own_txid, identified, requested, deposit_request, ask_charge, requeried, replayed,
  opening_answered, open_reserved, reserved, pending_row, reserve, refuse_daily_breach,
  reserve_or_replay, in_range, with_kyc, initiate_once, initiate_deposit,
}

module _ (env : Env) (user : String) (amount : ℤ) (key : String) where
  abbrev pub IsAllowed : Type 0
  IsAllowed = (pos 100 ≤ℤ amount) × (amount ≤ℤ max_inbound_amount)

  -- A request for the charge of this deposit.
  abbrev pub IsOwnRequest : DepositRequest → Type 0
  IsOwnRequest req =
      (req.user_id ≡ user) × (req.txid ≡ own_txid env user amount key) × (req.amount_cents ≡ amount)

  opening_answered_state :
      (dep : PixDeposit) (r : Result Charge) (w : World)
      → (opening_answered env user amount key dep r w).1 ≡ w
  unfolding opening_answered
  opening_answered_state dep (ok charge) w = refl
  opening_answered_state dep (err e) w = refl

  pub refuse_daily_breach-Keeps :
      (P : World → Type 0) (o : Option Wallet) → Keeps P (refuse_daily_breach env user amount key o)
  unfolding refuse_daily_breach read_clock
  refuse_daily_breach-Keeps P o w h =
      let kept = get_user-Keeps P env user w h in
      bind_keeps P (get_user env user) _ w kept
        (λ u e. breach_problem-Keeps P _ (get_user env user w).1 kept)

module _ (env : Env) (user : String) (amount : ℤ) (key : String) (P Q : World → Type 0)
    (closed : ClosedWorld env P) (weaken : (w : World) → P w → Q w)
    (asks : (req : DepositRequest) (w : World)
      → IsOwnRequest env user amount key req
      → IsAllowed env user amount key
      → P w
      → Q (record w { calls = opened req ∷ w.calls })) where
  -- From P before to Q after.
  abbrev Leads : {A : Type 0} → (World → Result A × World) → Type 0
  Leads m = (w : World) → P w → Q (m w).1

  -- A bind whose first part keeps P and whose second leads on.
  bind_leads :
      {A B : Type 0} (m : World → Result A × World) (f : A → World → Result B × World) (w : World)
      → P (m w).1
      → ((a : A) → (m w).0 ≡ ok a → Q (f a (m w).1).1)
      → Q ((m >>= f) w).1
  bind_leads m f w kept k = bind_keeps Q m f w (weaken _ kept) k

  requested_then :
      {B : Type 0} (f : DepositRequest → World → Result B × World) (w : World) (needs : Bool)
      (req : DepositRequest)
      → IsOwnRequest env user amount key req
      → P w
      → ((r : DepositRequest) → IsOwnRequest env user amount key r → Q (f r w).1)
      → Q ((requested env user amount key needs req >>= f) w).1
  unfolding requested identified
  requested_then f w false req own h k = k req own
  requested_then f w true req own h k = elim (Result-cases (env.kyc_get user w)) [
    | inl (e, failed) ↦ rw failed (weaken w h)
    | inr (who, known) ↦ rw known (k _ own)
  ]

  request_then :
      {B : Type 0} (cents : ℤ) (f : DepositRequest → World → Result B × World) (w : World)
      → cents ≡ amount
      → P w
      → ((r : DepositRequest) → IsOwnRequest env user amount key r → Q (f r w).1)
      → Q ((deposit_request env user amount key cents >>= f) w).1
  unfolding deposit_request
  request_then cents f w same h k = requested_then f w env.needs_identity _ (refl, refl, same) h k

  module _ (allowed : IsAllowed env user amount key) where
    requeried-Leads :
        (dep : PixDeposit) (r : Result Charge)
        → dep.amount_expected ≡ amount
        → Leads (requeried env user amount key dep r)
    unfolding requeried ask_charge log_call
    requeried-Leads dep (ok charge) same w h = weaken w h
    requeried-Leads dep (err e) same w h = request_then dep.amount_expected _ w same h (λ req own.
        let after = asks req w own allowed h in
        bind_keeps Q (ask_charge env user amount key req) _ w after (λ charge e2. after))

    replayed-Leads : (dep : PixDeposit) → Leads (replayed env user amount key dep)
    unfolding replayed
    replayed-Leads dep w h =
        let other = not (dep.user_id == user) || not (eqb_ℤ dep.amount_expected amount) in
        elim (Bool-cases other) [
          | inl conflict ↦ rw conflict (weaken w h)
          | inr same ↦ rw same (
              requeried-Leads dep (env.query_deposit (own_txid env user amount key) w)
                (ground (arith, eqb_ℤ_iff dep.amount_expected amount)) w h)
        ]

    open_reserved-Leads : (dep : PixDeposit) → Leads (open_reserved env user amount key dep)
    unfolding open_reserved ask_charge log_call
    open_reserved-Leads dep w h = request_then amount _ w refl h (λ req own.
        rw (opening_answered_state env user amount key dep (env.open_deposit req w) _)
          (asks req w own allowed h))

    module _ (again : World → Result (PixDeposit × Charge) × World) (more : Leads again) where
      reserved-Leads :
          (dep : PixDeposit) (r : Result Unit) → Leads (reserved env user amount key again dep r)
      unfolding reserved
      reserved-Leads dep (ok u) w h = open_reserved-Leads dep w h
      reserved-Leads dep (err deposit_exists) w h = more w h
      reserved-Leads dep (err withdrawal_exists) w h = weaken w h
      reserved-Leads dep (err key_not_found) w h = weaken w h
      reserved-Leads dep (err condition_failed) w h = weaken w h
      reserved-Leads dep (err panicked) w h = weaken w h
      reserved-Leads dep (err (problem p)) w h = weaken w h
      reserved-Leads dep (err (outage m)) w h = weaken w h

      reserve-Leads : (o : Option Wallet) → Leads (reserve env user amount key again o)
      unfolding reserve read_clock
      reserve-Leads none w h = weaken w h
      reserve-Leads (some row) w h =
          let dep = pending_row env user amount key (env.clock w) row in
          let put = on_db (put_deposit_if_absent env.dynamo dep) in
          reserved-Leads dep (put w).0 (put w).1 (
            on_db-Keeps env P closed (put_deposit_if_absent env.dynamo dep)
              (λ S closed. put_deposit_if_absent_keeps env.dynamo S closed dep) w h)

      reserve_or_replay-Leads :
          (o : Option Wallet) (d : Option PixDeposit)
          → Leads (reserve_or_replay env user amount key again o d)
      unfolding reserve_or_replay
      reserve_or_replay-Leads o (some dep) w h = replayed-Leads dep w h
      reserve_or_replay-Leads o none w h =
          let kept = refuse_daily_breach-Keeps env user amount key P o w h in
          bind_leads (refuse_daily_breach env user amount key o) _ w kept
            (λ u e. reserve-Leads o _ kept)

  in_range_allowed :
      (o : Option Wallet)
      → ltb_ℤ max_inbound_amount amount ≡ false
      → deposit_amount_ok amount o ≡ true
      → IsAllowed env user amount key
  in_range_allowed o below fits =
      let low = (deposit_amount_ok_iff amount o).0 fits in
      let least = deposit_limits_bounds o in ground (arith, ltb_ℤ_iff max_inbound_amount amount)

  module _ (again : World → Result (PixDeposit × Charge) × World) (more : Leads again) where
    in_range-Leads : (o : Option Wallet) → Leads (in_range env user amount key again o)
    unfolding in_range on_db get_deposit
    in_range-Leads o w h = elim (Bool-cases (ltb_ℤ max_inbound_amount amount)) [
      | inl above ↦ rw above (weaken w h)
      | inr below ↦ elim (Bool-cases (deposit_amount_ok amount o)) [
        | inl fits ↦
            rw (below, fits)
              (bind_leads (on_db (get_deposit env.dynamo (own_txid env user amount key))) _ w h
                (λ d e. reserve_or_replay-Leads (in_range_allowed o below fits) again more o d w h))
        | inr outside ↦ rw (below, outside) (weaken w h)
      ]
    ]

    with_kyc-Leads : (kyc_level : String) → Leads (with_kyc env user amount key again kyc_level)
    unfolding with_kyc
    with_kyc-Leads kyc_level w h = elim (Bool-cases (kyc_level == "")) [
      | inl missing ↦ rw missing (weaken w h)
      | inr known ↦
          let ensure = timed env (λ t. ensure_real_wallet env.dynamo t user) in
          let kept =
            timed-Keeps env P closed (λ t. ensure_real_wallet env.dynamo t user)
              (λ t S closed. ensure_real_wallet_keeps env.dynamo S closed t user) w h in
          rw known (bind_leads ensure _ w kept (λ o e. in_range-Leads o _ kept))
    ]

    initiate_once-Leads :
        (kyc_level : String) → Leads (initiate_once env user amount key again kyc_level)
    unfolding initiate_once
    initiate_once-Leads kyc_level w h =
        let kept = check_erasure-Keeps P env user w h in
        bind_leads (check_erasure env user) _ w kept (λ u e. with_kyc-Leads kyc_level _ kept)

  pub initiate_deposit-Leads :
      (n : ℕ) (kyc_level : String) → Leads (initiate_deposit env user amount key n kyc_level)
  unfolding initiate_deposit
  initiate_deposit-Leads zero kyc_level w h = weaken w h
  initiate_deposit-Leads (suc n) kyc_level w h =
      initiate_once-Leads (initiate_deposit env user amount key n kyc_level)
        (initiate_deposit-Leads n kyc_level) kyc_level w h

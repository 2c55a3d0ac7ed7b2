-- ===== src/Service/Initiate.antt =====
-- api/internal/services/wallet.go (InitiateDeposit, depositRequest, dailyDepositBreach): the row of
-- a deposit reserves its txid before the charge is opened at the rail.
pub mod Keeps
pub mod Once
pub mod Ends
use ctech_wallet.Prelude.{
  String, Bool, true, false, not, ◌||◌, ◌==◌, ℕ, zero, suc, ◌/◌, Option, none, some, List, [], ◌∷◌,
  if◌then◌else◌,
}
use ctech_wallet.Prelude.Int.{ℤ, pos, negsuc, ◌+ℤ◌, ltb_ℤ, eqb_ℤ}
use ctech_wallet.Domain.Model.{Wallet, PixDeposit, DepositStatus, max_inbound_amount}
use ctech_wallet.Domain.Limits.{deposit_limits, deposit_amount_ok}
use ctech_wallet.Domain.Daily.{effective_daily_limits, check_daily_deposit}
use ctech_wallet.Store.Problem.{
  kyc_not_verified, amount_above_limit, deposit_out_of_range, idempotency_conflict, internal_server,
  problem, deposit_exists, panicked, Result, ok, err, ◌>>=◌, ◌>>◌, pure, raise, reads, attempt,
}
use ctech_wallet.Store.Dynamo.{Moment}
use ctech_wallet.Wallets.{ensure_real_wallet}
use ctech_wallet.Payments.{get_deposit, put_deposit_if_absent}
use ctech_wallet.Service.{
  World, Env, Kyc, Charge, DepositRequest, opened, on_db, log_call, timed, read_clock,
  check_erasure, get_user, counters_of, current_counters, breach_problem,
}
use ctech_wallet.Service.Digest.{deposit_tx_id, prefixed}

-- Time.Unix of an instant in nanoseconds.
unfoldable pub unix : ℤ → ℤ
unix (pos n) = pos (n / 1000000000)
unix (negsuc n) = negsuc (n / 1000000000)

-- depositTTLMinutes, in nanoseconds.
abbrev pub deposit_ttl : ℤ
deposit_ttl = pos 3600000000000

module _ (env : Env) (user : String) (amount : ℤ) (key : String) where
  abbrev pub own_txid : String
  own_txid = deposit_tx_id env user key

  unfoldable pub identified : DepositRequest → Kyc → World → Result DepositRequest × World
  identified req k = pure (record req { tax_id = k.cpf; name = k.legal_name; email = k.email })

  -- Whether the rail asks for an identity.
  unfoldable pub requested : Bool → DepositRequest → World → Result DepositRequest × World
  unfolding identified
  requested false req = pure req
  requested true req = do k ← reads (env.kyc_get user); identified req k

  -- depositRequest
  unfoldable pub deposit_request : ℤ → World → Result DepositRequest × World
  unfolding requested
  deposit_request cents = requested env.needs_identity (record {
    user_id = user;
    tax_id = "";
    name = "";
    email = "";
    txid = own_txid;
    amount_cents = cents;
  })

  unfoldable pub ask_charge : DepositRequest → World → Result Charge × World
  ask_charge req = log_call (opened req) (env.open_deposit req)

  -- The charge of a row that stands: asked for, and opened again where the rail has no answer.
  unfoldable pub requeried :
      PixDeposit → Result Charge → World → Result (PixDeposit × Charge) × World
  unfolding deposit_request ask_charge
  requeried dep (ok charge) = pure (dep, charge)
  requeried dep (err e) = do
    req ← deposit_request dep.amount_expected
    charge ← ask_charge req
    pure (dep, charge)

  unfoldable pub replayed : PixDeposit → World → Result (PixDeposit × Charge) × World
  unfolding requeried
  replayed dep =
      if not (dep.user_id == user) || not (eqb_ℤ dep.amount_expected amount)
      then raise (problem idempotency_conflict)
      else (do charge ← attempt (reads (env.query_deposit own_txid)); requeried dep charge)

  unfoldable pub opening_answered :
      PixDeposit → Result Charge → World → Result (PixDeposit × Charge) × World
  opening_answered dep (ok charge) = pure (dep, charge)
  opening_answered dep (err e) =
      raise
        (problem (internal_server (prefixed "falha ao criar cobrança PIX: " (env.error_text e))))

  unfoldable pub open_reserved : PixDeposit → World → Result (PixDeposit × Charge) × World
  unfolding deposit_request ask_charge opening_answered
  open_reserved dep = do
    req ← deposit_request amount
    charge ← attempt (ask_charge req)
    opening_answered dep charge

  -- A row that another request put first: start again.
  unfoldable pub reserved :
      (World → Result (PixDeposit × Charge) × World)
      → PixDeposit
      → Result Unit
      → World
      → Result (PixDeposit × Charge) × World
  unfolding open_reserved
  reserved again dep (ok u) = open_reserved dep
  reserved again dep (err deposit_exists) = again
  reserved again dep (err e) = raise e

  unfoldable pub pending_row : Moment → Wallet → PixDeposit
  unfolding unix
  pending_row t w = record {
    txid = own_txid;
    wallet_id = w.wallet_id;
    user_id = user;
    amount_expected = amount;
    status = DepositStatus.pending;
    e2e_id = "";
    payer_cpf = "";
    payer_name = "";
    qr_code_payload = "";
    qr_code_image = "";
    created_at = t.now_str;
    ttl = unix (t.now +ℤ deposit_ttl);
  }

  -- The code reads the identifier of a missing wallet through a nil pointer.
  unfoldable pub reserve :
      (World → Result (PixDeposit × Charge) × World)
      → Option Wallet
      → World
      → Result (PixDeposit × Charge) × World
  unfolding pending_row reserved
  reserve again none = raise panicked
  reserve again (some w) = do
    t ← read_clock env
    put ← attempt (on_db (put_deposit_if_absent env.dynamo (pending_row t w)))
    reserved again (pending_row t w) put

  -- dailyDepositBreach, raised.
  unfoldable pub refuse_daily_breach : Option Wallet → World → Result Unit × World
  refuse_daily_breach w = do
    u ← get_user env user
    t ← read_clock env
    breach_problem (
        check_daily_deposit env.calendar (effective_daily_limits w)
          (current_counters (counters_of u)) amount t.now)

  unfoldable pub reserve_or_replay :
      (World → Result (PixDeposit × Charge) × World)
      → Option Wallet
      → Option PixDeposit
      → World
      → Result (PixDeposit × Charge) × World
  unfolding replayed reserve refuse_daily_breach
  reserve_or_replay again w (some dep) = replayed dep
  reserve_or_replay again w none = do refuse_daily_breach w; reserve again w

  unfoldable pub in_range :
      (World → Result (PixDeposit × Charge) × World)
      → Option Wallet
      → World
      → Result (PixDeposit × Charge) × World
  unfolding reserve_or_replay
  in_range again w =
      if ltb_ℤ max_inbound_amount amount
      then raise (problem (amount_above_limit max_inbound_amount))
      else if not (deposit_amount_ok amount w)
      then raise (problem (deposit_out_of_range (deposit_limits w).0 (deposit_limits w).1))
      else (do
        existing ← on_db (get_deposit env.dynamo own_txid)
        reserve_or_replay again w existing)

  unfoldable pub with_kyc :
      (World → Result (PixDeposit × Charge) × World)
      → String
      → World
      → Result (PixDeposit × Charge) × World
  unfolding in_range
  with_kyc again kyc_level =
      if kyc_level == ""
      then raise (problem kyc_not_verified)
      else (do w ← timed env (λ t. ensure_real_wallet env.dynamo t user); in_range again w)

  -- One pass of InitiateDeposit, with what it does when another request reserved first.
  unfoldable pub initiate_once :
      (World → Result (PixDeposit × Charge) × World)
      → String
      → World
      → Result (PixDeposit × Charge) × World
  unfolding with_kyc
  initiate_once again kyc_level = do check_erasure env user; with_kyc again kyc_level

  -- InitiateDeposit, which calls itself: so many passes at most. The error of the last reservation
  -- stands for going on.
  unfoldable pub initiate_deposit : ℕ → String → World → Result (PixDeposit × Charge) × World
  unfolding initiate_once
  initiate_deposit zero kyc_level = raise deposit_exists
  initiate_deposit (suc n) kyc_level = initiate_once (initiate_deposit n kyc_level) kyc_level

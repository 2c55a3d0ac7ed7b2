-- ===== src/Service.antt =====
-- api/internal/services: the business flows over the repositories. What the flows call outside the
-- database is one record of functions: the payment rail (api/internal/rail), the KYC and erasure
-- services, the lock, SHA-256, the clock. A call that moves money outside is logged in the world.
pub mod Keeps
pub mod Digest
pub mod Payer
pub mod Repository
pub mod Withdraw
pub mod Games
pub mod PayerName
pub mod Deposit
pub mod Reconcile
pub mod Initiate
use ctech_wallet.Prelude.{
  String, Bool, true, false, Option, none, some, List, [], ◌∷◌, if◌then◌else◌, ◌==◌,
}
use ctech_wallet.Prelude.Int.{ℤ, pos, ltb_ℤ}
use ctech_wallet.Domain.Model.{User, RealDailyCounters, SelfExclusion}
use ctech_wallet.Domain.Calendar.{Calendar}
use ctech_wallet.Domain.Daily.{BreachKind, DailyBreach}
use ctech_wallet.Store.Problem.{
  Problem, wallet_busy, account_erasure_pending, self_excluded, daily_deposit_limit,
  daily_withdraw_limit, Error, problem, Result, ok, err, ◌>>=◌, ◌>>◌, pure, raise, reads,
}
use ctech_wallet.Store.Tables.{Db}
use ctech_wallet.Store.Dynamo.{Dynamo, Moment}

-- rail/types.go. Other texts of a status are `other`.
pub data ChargeStatus : Type 0 where
  active completed removed other_charge : ChargeStatus

pub data TransferStatus : Type 0 where
  transfer_done transfer_not_found transfer_processing transfer_failed other_transfer :
      TransferStatus

pub record Refund : Type 0 where
  pub rtr_id : String
  pub amount : ℤ
  pub is_completed : Bool

pub record Payment : Type 0 where
  pub e2e_id : String
  pub amount : ℤ
  pub payer_cpf : String
  pub payer_name : String
  pub refunds : List Refund

pub record Charge : Type 0 where
  pub txid : String
  pub amount : ℤ
  pub qr_code : String
  pub status : ChargeStatus
  pub payer_name : String
  pub payer_cpf : String
  pub e2e_id : String
  pub refunds : List Refund
  pub payments : List Payment

pub record TransferResult : Type 0 where
  pub e2e_id : String
  pub status : TransferStatus

pub record DepositRequest : Type 0 where
  pub user_id : String
  pub tax_id : String
  pub name : String
  pub email : String
  pub txid : String
  pub amount_cents : ℤ

pub record Kyc : Type 0 where
  pub cpf : String
  pub legal_name : String
  pub email : String

-- The calls that move money, or ask for money, outside the wallet.
pub data RailCall : Type 0 where
  opened : DepositRequest → RailCall
  -- txid, end-to-end id, amount, idempotency key
  returned : String → String → ℤ → String → RailCall
  -- CPF, amount, idempotency key
  paid : String → ℤ → String → RailCall

pub record World : Type 0 where
  pub db : Db
  pub calls : List RailCall

-- A nil gate or checker of Go is `none`.
pub record Env : Type 0 where
  pub dynamo : Dynamo
  pub calendar : Calendar
  -- NowStr, time.Now and id.New, as they are when the world stands so.
  pub clock : World → Moment
  pub acquire : String → World → Result Bool
  pub erasure_gate : Option (String → World → Result Bool)
  pub erased : Option (String → World → Result Bool)
  pub kyc_get : String → World → Result Kyc
  pub open_deposit : DepositRequest → World → Result Charge
  pub query_deposit : String → World → Result Charge
  pub refund_deposit : String → String → ℤ → String → World → Result TransferResult
  pub payout : String → ℤ → String → World → Result TransferResult
  pub query_payout : String → World → Result TransferResult
  pub needs_identity : Bool
  pub payout_grace : ℤ
  -- hex(SHA-256), the UUID of a withdrawal, and the decimal text of a number.
  pub sha256_hex : String → String
  pub inter_idem_key : String → String
  pub decimal : ℤ → String
  -- The words of a name, in lower case and without accents and punctuation.
  pub name_words : String → List String
  -- Error() of a Go error.
  pub error_text : Error → String

module _ {A : Type 0} where
  unfoldable pub on_db : (Db → Result A × Db) → World → Result A × World
  on_db f w = let (r, db) = f w.db in (r, record w { db = db })

  unfoldable pub log_call : RailCall → (World → Result A) → World → Result A × World
  log_call c f w = (f w, record w { calls = c ∷ w.calls })

module _ (env : Env) where
  unfoldable pub timed : {A : Type 0} → (Moment → Db → Result A × Db) → World → Result A × World
  unfolding on_db
  timed f w = on_db (f (env.clock w)) w

  unfoldable pub read_clock : World → Result Moment × World
  read_clock w = (ok (env.clock w), w)

  unfoldable pub lock_answer : Bool → World → Result Unit × World
  lock_answer true = pure tt
  lock_answer false = raise (problem wallet_busy)

  -- acquireWallet
  unfoldable pub acquire_wallet : String → World → Result Unit × World
  unfolding lock_answer
  acquire_wallet id = do got ← reads (env.acquire id); lock_answer got

  unfoldable pub erasure_answer : Bool → World → Result Unit × World
  erasure_answer true = raise (problem account_erasure_pending)
  erasure_answer false = pure tt

  unfoldable pub gate_answer :
      Option (String → World → Result Bool) → String → World → Result Unit × World
  unfolding erasure_answer
  gate_answer none user = pure tt
  gate_answer (some gate) user = do blocked ← reads (gate user); erasure_answer blocked

  -- checkErasure
  unfoldable pub check_erasure : String → World → Result Unit × World
  unfolding gate_answer
  check_erasure user = gate_answer env.erasure_gate user

  unfoldable pub get_user : String → World → Result (Option User) × World
  unfolding on_db
  get_user user = on_db (reads (env.dynamo.get_user user))

-- The counters that stand on a user's row, and their values.
abbrev pub counters_of : Option User → Option RealDailyCounters
counters_of none = none
counters_of (some u) = u.real_daily_counters

unfoldable pub current_counters : Option RealDailyCounters → RealDailyCounters
current_counters none = record {
  day_key = "";
  deposit_sum = pos 0;
  withdraw_sum = pos 0;
  withdraw_count = pos 0;
}
current_counters (some c) = c

abbrev breach_of : BreachKind → ℤ → ℤ → ℤ → Problem
breach_of BreachKind.deposit_cap limit used resets_at = daily_deposit_limit limit used resets_at
breach_of kind limit used resets_at = daily_withdraw_limit kind limit used resets_at

-- breachProblem, raised unless it is nil.
unfoldable pub breach_problem : Option DailyBreach → World → Result Unit × World
breach_problem none = pure tt
breach_problem (some b) = raise (problem (breach_of b.kind b.limit b.used b.resets_at))

-- ===== src/System.antt =====
-- The wallet as one system: what its clients, Billing's events and the batch jobs ask of it
-- (api/internal/services, api/internal/api/v1, api/cmd/reconcile), one request after the other.
pub mod Books
use ctech_wallet.Prelude.{String, ℕ, List}
use ctech_wallet.Prelude.Int.{IsMagnitude, ℤ}
use ctech_wallet.Store.Dynamo.{IsDynamo}
use ctech_wallet.Payments.Queues.{Indexes}
use ctech_wallet.Service.{World, Env}
use ctech_wallet.Service.Withdraw.{withdraw}
use ctech_wallet.Service.Initiate.{initiate_deposit}
use ctech_wallet.Service.Deposit.{confirm_deposit}
use ctech_wallet.Service.Deposit.Books.{AnswersSoundly}
use ctech_wallet.Service.Games.{
  credit_sandbox, debit_sandbox, debit_real, hold_game, release_game_hold, cashout_game,
}
use ctech_wallet.Service.Games.Settle.{ReadsTidyHolds}
use ctech_wallet.Service.Reconcile.{reverse_withdrawal}
use ctech_wallet.Service.Reconcile.Books.{IsTidyIndex}
use ctech_wallet.Api.Events.{BillingEvents, Delivery, handle}
use ctech_wallet.Jobs.{run_jobs}

-- What is asked, with the user, the amount and the key first. A deposit carries its fuel.
pub data Request : Type 0 where
  asks_withdraw asks_deposit : String → ℤ → String → String → ℕ → Request
  confirms : String → String → String → Request
  credits_sandbox debits_sandbox debits_real : String → ℤ → String → String → String → Request
  -- the table, then the key
  holds_game : String → ℤ → String → String → Request
  releases_hold : String → String → Request
  -- the table, the holds, the key and the description
  cashes_out : String → ℤ → String → List String → String → String → Request
  reverses : String → Request
  wakes : BillingEvents → Delivery → Request
  runs_jobs : Request

module _ (env : Env) (q : Indexes) where
  -- The world after a request, whatever is answered.
  unfoldable pub serve : Request → World → World
  serve (asks_withdraw user amount key kyc_level n) w = (withdraw env user amount key kyc_level w).1
  serve (asks_deposit user amount key kyc_level n) w =
      (initiate_deposit env user amount key n kyc_level w).1
  serve (confirms txid cpf name) w = (confirm_deposit env txid cpf name w).1
  serve (credits_sandbox user amount key reason text) w =
      (credit_sandbox env user amount key reason text w).1
  serve (debits_sandbox user amount key reason text) w =
      (debit_sandbox env user amount key reason text w).1
  serve (debits_real user amount key reason text) w =
      (debit_real env user amount key reason text w).1
  serve (holds_game user amount table_ref key) w = (hold_game env user amount table_ref key w).1
  serve (releases_hold user id) w = (release_game_hold env user id w).1
  serve (cashes_out user amount table_ref ids key text) w =
      (cashout_game env user amount table_ref ids key text w).1
  serve (reverses id) w = (reverse_withdrawal env id w).1
  serve (wakes e d) w = (handle env q e d w).1
  serve runs_jobs w = (run_jobs env q w).1

-- The handlers take amounts above zero; int64 is their type.
abbrev pub IsAdmitted : Request → Type 0
IsAdmitted (asks_withdraw user amount key kyc_level n) = IsMagnitude amount
IsAdmitted (credits_sandbox user amount key reason text) = IsMagnitude amount
IsAdmitted (debits_sandbox user amount key reason text) = IsMagnitude amount
IsAdmitted (debits_real user amount key reason text) = IsMagnitude amount
IsAdmitted (holds_game user amount table_ref key) = IsMagnitude amount
IsAdmitted (cashes_out user amount table_ref ids key text) = IsMagnitude amount
IsAdmitted _ = Unit

-- What a request may meet: any answers of DynamoDB, the lock, the gates, the clock and the rail,
-- where the rail's amounts are int64 numbers of at least zero, and an index or a read of a hold
-- gives amounts that were written.
pub record IsSoundEnv (env : Env) (q : Indexes) : Type 0 where
  pub law : IsDynamo env.dynamo
  pub answers : AnswersSoundly env
  pub index : IsTidyIndex q
  pub holds : ReadsTidyHolds env

-- A request, served by an environment of its own.
pub data Step (w : World) : World → Type 0 where
  served :
      (env : Env) (q : Indexes) (r : Request)
      → IsSoundEnv env q
      → IsAdmitted r
      → Step w (serve env q r w)

pub data Reach (s : World) : World → Type 0 where
  here : Reach s s
  next : {t u : World} → Reach s t → Step t u → Reach s u

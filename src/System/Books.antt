-- ===== src/System/Books.antt =====
-- The books over any run of the system.
use ctech_wallet.Prelude.{String, refl, ◌≤◌, List, [], arith}
use ctech_wallet.Domain.Model.{LedgerEntry}
use ctech_wallet.Store.Tables.{Db}
use ctech_wallet.Store.Keys.{idem_pk}
use ctech_wallet.Store.Memory.{empty_db}
use ctech_wallet.Store.Sound.{Balanced, entries_total}
use ctech_wallet.Store.Guarded.{keyed}
use ctech_wallet.Store.Lawful.{Invariant, Closed, pair-Closed}
use ctech_wallet.Store.Amounts.{IsTidy, IsTidy-Closed}
use ctech_wallet.Store.Log.{same, Follows, Follows-Closed, allowed_one}
use ctech_wallet.Service.{World, Env}
use ctech_wallet.Service.Keeps.{ClosedWorld, OfDb-ClosedWorld}
use ctech_wallet.Service.Withdraw.Books.{withdraw-Keeps}
use ctech_wallet.Service.Initiate.Keeps.{initiate_deposit-Leads}
use ctech_wallet.Service.Deposit.Keeps.{confirm_deposit-Keeps}
use ctech_wallet.Service.Games.Keeps.{
  credit_sandbox-Keeps, debit_sandbox-Keeps, debit_real-Keeps, hold_game-Keeps,
}
use ctech_wallet.Service.Games.Settle.{release_game_hold-Keeps, cashout_game-Keeps}
use ctech_wallet.Service.Reconcile.Books.{reverse_withdrawal-Keeps}
use ctech_wallet.Api.Events.{handle-Keeps}
use ctech_wallet.Jobs.{run_jobs-Keeps}
use ctech_wallet.Payments.Queues.{Indexes}
use ctech_wallet.System.{
  Request, asks_withdraw, asks_deposit, confirms, credits_sandbox, debits_sandbox, debits_real,
  holds_game, releases_hold, cashes_out, reverses, wakes, runs_jobs, serve, IsAdmitted, IsSoundEnv,
  Step, served, Reach, here, next,
}

module _ (env : Env) (q : Indexes) (P : Db → Type 0) (sound : IsSoundEnv env q)
    (closed : Closed env.dynamo P) (tidy : (db : Db) → P db → IsTidy db) (w : World) where
  world : ClosedWorld env (λ x. P x.db)
  world = OfDb-ClosedWorld env P closed

  -- What lawful transactions keep, every request keeps.
  serve-Keeps : (r : Request) → IsAdmitted r → P w.db → P (serve env q r w).db
  unfolding serve
  serve-Keeps (asks_withdraw user amount key kyc n) mag h =
      withdraw-Keeps env user amount key mag (λ x. P x.db) world (λ c x k. k) kyc w h
  serve-Keeps (asks_deposit user amount key kyc n) a h =
      initiate_deposit-Leads env user amount key (λ x. P x.db) (λ x. P x.db) world (λ x k. k)
        (λ req x own allowed k. k) n kyc w h
  serve-Keeps (confirms txid cpf name) a h =
      confirm_deposit-Keeps env (λ x. P x.db) world (λ c x stable k. k) sound.answers txid cpf name
        w h
  serve-Keeps (credits_sandbox user amount key reason text) mag h =
      credit_sandbox-Keeps env (λ x. P x.db) world user amount key reason text mag w h
  serve-Keeps (debits_sandbox user amount key reason text) mag h =
      debit_sandbox-Keeps env (λ x. P x.db) world user amount key reason text mag w h
  serve-Keeps (debits_real user amount key reason text) mag h =
      debit_real-Keeps env (λ x. P x.db) world user amount key reason text mag w h
  serve-Keeps (holds_game user amount table_ref key) mag h =
      hold_game-Keeps env (λ x. P x.db) world user amount table_ref key mag w h
  serve-Keeps (releases_hold user id) a h =
      release_game_hold-Keeps env (λ x. P x.db) world (λ x k. tidy x.db k) sound.holds user id w h
  serve-Keeps (cashes_out user amount table_ref ids key text) mag h =
      cashout_game-Keeps env (λ x. P x.db) world user amount table_ref ids key text mag.0 w h
  serve-Keeps (reverses id) a h =
      reverse_withdrawal-Keeps env q (λ x. P x.db) sound.law world (λ x k. tidy x.db k) sound.index
        id w h
  serve-Keeps (wakes e d) a h =
      handle-Keeps env q e d (λ x. P x.db) sound.law world (λ c x stable k. k) (λ x k. tidy x.db k)
        sound.index sound.answers w h
  serve-Keeps runs_jobs a h =
      run_jobs-Keeps env q (λ x. P x.db) sound.law world (λ c x stable k. k) (λ x k. tidy x.db k)
        sound.index sound.answers w h

Step-Follows :
    (a : List LedgerEntry) (w u : World)
    → Step w u
    → Follows a w.db × IsTidy w.db
    → Follows a u.db × IsTidy u.db
Step-Follows a w _ (served env q r sound admitted) h =
    let both =
      pair-Closed env.dynamo (Follows a) IsTidy (Follows-Closed env.dynamo a sound.law)
        (IsTidy-Closed env.dynamo sound.law) in
    serve-Keeps env q (λ db. Follows a db × IsTidy db) sound both (λ db k. k.1) w r admitted h

module _ (s : World) (inv : Invariant s.db) (tidy : IsTidy s.db) where
  Reach-Tidily : (t : World) → Reach s t → Follows s.db.ledger t.db × IsTidy t.db
  Reach-Tidily _ here = ((inv, same), tidy)
  Reach-Tidily u (next {t} run step) = Step-Follows s.db.ledger t u step (Reach-Tidily t run)

  -- Every run of requests, from a state where the invariant holds and the amounts of holds and
  -- withdrawals are int64 numbers of at least zero, keeps the invariant, and grows the ledger as the
  -- specification lets a log grow: entries are only added, each under a key that its wallet has
  -- not booked, and none takes a wallet's sum below zero. The environment may change with each
  -- request, with any answers, of amounts of at least zero where it gives amounts.
  pub Reach-Follows : (t : World) → Reach s t → Follows s.db.ledger t.db
  Reach-Follows t run = (Reach-Tidily t run).0

-- The state before the first request.
abbrev pub first_world : World
first_world = record { db = empty_db; calls = [] }

empty-Invariant : Invariant empty_db
unfolding entries_total keyed
empty-Invariant = record { sound = λ w. refl; once = λ key w. ground arith; guarded = λ pk. tt }

empty-IsTidy : IsTidy empty_db
empty-IsTidy = record { holds = λ k v e. ground arith; withdrawals = λ k v e. ground arith }

-- In every state that requests reach from empty tables, each wallet's balance is the sum of its
-- ledger entries and at least zero, the entries of a wallet without a row sum to zero, and no wallet has two
-- entries under one key.
pub reachable_books :
    (t : World) (id key : String)
    → Reach first_world t
    → Balanced (t.db.wallets id) (entries_total id t.db.ledger) × (keyed key id t.db.ledger ≤ 1)
reachable_books t id key run =
    let inv = (Reach-Follows first_world empty-Invariant empty-IsTidy t run).0 in
    (inv.sound id, ground (arith, inv.once key id, allowed_one (t.db.guards (idem_pk key))))

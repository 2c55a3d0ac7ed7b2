-- ===== src/Service/Games/Keeps.antt =====
-- The machine-to-machine flows keep the books, whatever the services answer.
use ctech_wallet.Prelude.{
  String, ◌≡◌, refl, Bool, true, false, Bool-cases, inl, inr, Option, none, some, [],
}
use ctech_wallet.Prelude.Int.{IsMagnitude, ℤ}
use ctech_wallet.Domain.Model.{Wallet, LedgerEntry, EntryType, Hold, User}
use ctech_wallet.Domain.Responsible.{is_self_excluded}
use ctech_wallet.Store.Problem.{Result, bind_keeps}
use ctech_wallet.Store.Dynamo.{IsDynamo}
use ctech_wallet.Store.Lawful.{Invariant, Invariant-Closed}
use ctech_wallet.Ledger.{Mutation, credit, debit}
use ctech_wallet.Wallets.{ensure_real_wallet, ensure_sandbox_wallet}
use ctech_wallet.Holds.{create_hold}
use ctech_wallet.Service.{World, Env, timed, get_user, read_clock, acquire_wallet, check_erasure}
use ctech_wallet.Service.Digest.{hold_id, entry_key, req_hash}
use ctech_wallet.Service.Keeps.{
  Keeps, ClosedWorld, OfDb-ClosedWorld, acquire_wallet-Keeps, get_user-Keeps, check_erasure-Keeps,
  timed-Keeps,
}
use ctech_wallet.Service.Repository.{
  credit_keeps, debit_keeps, ensure_real_wallet_keeps, ensure_sandbox_wallet_keeps,
  create_hold_closed,
}
use ctech_wallet.Service.Games.{
  find_real_wallet, exclusion_answer, refuse_if_excluded, client_mutation, move, move_on,
  sandbox_op, credit_sandbox, debit_sandbox, debit_real, hold_game,
}
use ctech_wallet.Service.Games.Cashout.{find_real_wallet_state}

module _ (env : Env) (R : World → Type 0) (closed : ClosedWorld env R) where
  move-Keeps :
      (is_credit : Bool) (m : Mutation)
      → IsMagnitude m.amount
      → ((e : LedgerEntry) → m.extra e ≡ [])
      → Keeps R (move env is_credit m)
  unfolding move
  move-Keeps true m mag nothing =
      timed-Keeps env R closed (λ t. credit env.dynamo t m [])
        (λ t P closed. credit_keeps env.dynamo P closed t m [] mag tt (λ e. rw nothing tt))
  move-Keeps false m mag nothing =
      timed-Keeps env R closed (λ t. debit env.dynamo t m [])
        (λ t P closed. debit_keeps env.dynamo P closed t m [] mag tt (λ e. rw nothing tt))

  module _ (user : String) (amount : ℤ) (key reason description : String)
      (mag : IsMagnitude amount) where
    move_on-Keeps :
        (o : Option Wallet) (type : EntryType) (is_credit : Bool)
        → Keeps R (move_on env o user amount key reason description type is_credit)
    unfolding move_on client_mutation
    move_on-Keeps none type is_credit w h = h
    move_on-Keeps (some x) type is_credit w h =
        let m = client_mutation env x amount type user key reason description in
        let kept = acquire_wallet-Keeps R env x.wallet_id w h in
        let moved =
          move-Keeps is_credit m mag (λ e. refl) (acquire_wallet env x.wallet_id w).1 kept in
        bind_keeps R (acquire_wallet env x.wallet_id) _ w kept
          (λ u e. bind_keeps R (move env is_credit m) _ _ moved (λ r e2. moved))

    sandbox_op-Keeps :
        (type : EntryType) (is_credit : Bool)
        → Keeps R (sandbox_op env user amount key reason description type is_credit)
    unfolding sandbox_op
    sandbox_op-Keeps type is_credit w h =
        let ensure = timed env (λ t. ensure_sandbox_wallet env.dynamo t user) in
        let kept =
          timed-Keeps env R closed (λ t. ensure_sandbox_wallet env.dynamo t user)
            (λ t P closed. ensure_sandbox_wallet_keeps env.dynamo P closed t user) w h in
        bind_keeps R ensure _ w kept (λ o e. move_on-Keeps o type is_credit (ensure w).1 kept)

    pub credit_sandbox-Keeps : Keeps R (credit_sandbox env user amount key reason description)
    unfolding credit_sandbox
    credit_sandbox-Keeps w h =
        let kept = check_erasure-Keeps R env user w h in
        bind_keeps R (check_erasure env user) _ w kept
          (λ u e. sandbox_op-Keeps EntryType.game_credit true _ kept)

    pub debit_sandbox-Keeps : Keeps R (debit_sandbox env user amount key reason description)
    unfolding debit_sandbox
    debit_sandbox-Keeps w h =
        let kept = check_erasure-Keeps R env user w h in
        bind_keeps R (check_erasure env user) _ w kept
          (λ u e. sandbox_op-Keeps EntryType.game_debit false _ kept)

    pub debit_real-Keeps : Keeps R (debit_real env user amount key reason description)
    unfolding debit_real
    debit_real-Keeps w h =
        let kept = check_erasure-Keeps R env user w h in
        let s = (check_erasure env user w).1 in
        let ensure = timed env (λ t. ensure_real_wallet env.dynamo t user) in
        let kept2 =
          timed-Keeps env R closed (λ t. ensure_real_wallet env.dynamo t user)
            (λ t P closed. ensure_real_wallet_keeps env.dynamo P closed t user) s kept in
        bind_keeps R (check_erasure env user) _ w kept (λ u e.
          bind_keeps R ensure _ s kept2
            (λ o e2. move_on-Keeps o EntryType.billing_debit false (ensure s).1 kept2))

  exclusion_answer-Keeps : (u : Option User) (now : ℤ) → Keeps R (exclusion_answer env u now)
  unfolding exclusion_answer
  exclusion_answer-Keeps u now w h = elim (Bool-cases (is_self_excluded env.calendar u now)) [
    | inl out ↦ rw out h
    | inr free ↦ rw free h
  ]

  refuse_if_excluded-Keeps : (user : String) → Keeps R (refuse_if_excluded env user)
  unfolding refuse_if_excluded read_clock
  refuse_if_excluded-Keeps user w h =
      let kept = get_user-Keeps R env user w h in
      bind_keeps R (get_user env user) _ w kept
        (λ u e. exclusion_answer-Keeps u (env.clock (get_user env user w).1).now _ kept)

  abbrev open_hold :
      String → ℤ → String → String → Wallet → World → Result (Option Hold × Bool) × World
  open_hold user amount table_ref key game = timed env (λ t.
      create_hold env.dynamo t (hold_id user key) game.wallet_id user amount table_ref
        (entry_key EntryType.game_hold_debit user key) (req_hash env table_ref amount))

  pub hold_game-Keeps :
      (user : String) (amount : ℤ) (table_ref key : String)
      → IsMagnitude amount
      → Keeps R (hold_game env user amount table_ref key)
  unfolding hold_game
  hold_game-Keeps user amount table_ref key mag w h =
      let k1 = check_erasure-Keeps R env user w h in
      let w1 = (check_erasure env user w).1 in
      let find = find_real_wallet env user in
      let k2 : R (find w1).1 = rw find_real_wallet_state k1 in
      let k3 = refuse_if_excluded-Keeps user (find w1).1 k2 in
      let w3 = (refuse_if_excluded env user (find w1).1).1 in
      bind_keeps R (check_erasure env user) _ w k1 (λ u1 e1. bind_keeps R find _ w1 k2 (λ game e2.
        bind_keeps R (refuse_if_excluded env user) _ (find w1).1 k3 (λ u3 e3.
          let k4 = acquire_wallet-Keeps R env game.wallet_id w3 k3 in
          let w4 = (acquire_wallet env game.wallet_id w3).1 in
          let k5 =
            timed-Keeps env R closed _
              (λ t P closed.
                create_hold_closed env.dynamo P closed t (hold_id user key) game.wallet_id user
                  amount table_ref (entry_key EntryType.game_hold_debit user key)
                  (req_hash env table_ref amount) mag)
              w4 k4 in
          bind_keeps R (acquire_wallet env game.wallet_id) _ w3 k4 (λ u4 e4.
            bind_keeps R (open_hold user amount table_ref key game) _ w4 k5 (λ r e5. k5)))))

-- Crediting and debiting the sandbox wallet, debiting the real wallet and holding real money, by an
-- int64 amount of at least zero, keep the ledger's invariant, whatever DynamoDB, the lock and the
-- erasure gate answer.
pub client_flows-Invariant :
    (env : Env) (user : String) (amount : ℤ) (key reason description : String) (w : World)
    → IsDynamo env.dynamo
    → IsMagnitude amount
    → Invariant w.db
    → Invariant (credit_sandbox env user amount key reason description w).1.db
      × Invariant (debit_sandbox env user amount key reason description w).1.db
      × Invariant (debit_real env user amount key reason description w).1.db
      × Invariant (hold_game env user amount reason key w).1.db
client_flows-Invariant env user amount key reason description w law mag inv =
    let R = λ (x : World). Invariant x.db in
    let closed = OfDb-ClosedWorld env Invariant (Invariant-Closed env.dynamo law) in
    (
      credit_sandbox-Keeps env R closed user amount key reason description mag w inv,
      debit_sandbox-Keeps env R closed user amount key reason description mag w inv,
      debit_real-Keeps env R closed user amount key reason description mag w inv,
      hold_game-Keeps env R closed user amount reason key mag w inv,
    )

-- ===== src/Service/Games/Settle.antt =====
-- Releasing a hold and cashing out keep every property that lawful transactions keep.
use ctech_wallet.Prelude.{
  String, ◌≡◌, refl, ltb, ◌==◌, Bool-cases, inl, inr, Option, none, some, List, [],
}
use ctech_wallet.Prelude.Int.{IsMagnitude, ℤ, pos, ◌≤ℤ◌, ltb_ℤ}
use ctech_wallet.Prelude.Lists.{length}
use ctech_wallet.Domain.Model.{Wallet, EntryType, Hold, HoldStatus}
use ctech_wallet.Store.Problem.{ok, bind_keeps}
use ctech_wallet.Store.Tables.{Db, same_hold_status}
use ctech_wallet.Store.Dynamo.{Moment}
use ctech_wallet.Store.Amounts.{IsTidy}
use ctech_wallet.Wallets.{ensure_real_wallet}
use ctech_wallet.Holds.{release_hold, cashout_holds}
use ctech_wallet.Service.{World, Env, timed, acquire_wallet, on_db}
use ctech_wallet.Service.Digest.{req_hash, prefixed, entry_key, joined}
use ctech_wallet.Service.Keeps.{Keeps, ClosedWorld, acquire_wallet-Keeps, timed-Keeps}
use ctech_wallet.Service.Repository.{
  ensure_real_wallet_keeps, release_hold_closed, cashout_holds_closed,
}
use ctech_wallet.Service.Games.{
  find_real_wallet, get_hold, retarget, release_locked, release_to, release_found,
  release_game_hold, collect, consume_holds, settle_holds, cashout_locked, cashout_game,
}
use ctech_wallet.Service.Games.Cashout.{find_real_wallet_state}
use ctech_wallet.Service.Games.Collect.{collect_state}

-- A read of a hold gives a row that stands in the table, or did: its amount never changes.
abbrev pub ReadsTidyHolds : Env → Type 0
ReadsTidyHolds env =
    (id : String) (db : Db) (h : Hold)
    → IsTidy db
    → env.dynamo.get_hold id db ≡ ok (some h)
    → IsMagnitude h.amount

retarget-amount :
    (env : Env) (target : String) (h : Hold) → (retarget env target h).amount ≡ h.amount
unfolding retarget
retarget-amount env target h = elim (Bool-cases (h.wallet_id == target)) [
  | inl same ↦ rw same refl
  | inr other ↦ rw other refl
]

module _ (env : Env) (R : World → Type 0) (closed : ClosedWorld env R) where
  module _ (tidy : (w : World) → R w → IsTidy w.db) (reads : ReadsTidyHolds env) where
    release_locked-Keeps :
        (target id : String) (o : Option Hold)
        → ((h : Hold) → o ≡ some h → pos 0 ≤ℤ h.amount)
        → Keeps R (release_locked env target id o)
    unfolding release_locked
    release_locked-Keeps target id none sound w k = k
    release_locked-Keeps target id (some h) sound w k =
        let row = retarget env target h in
        let key = prefixed "game_hold_release#" id in
        let hash = req_hash env id h.amount in
        let release = timed env (λ t. release_hold env.dynamo t row key hash) in
        let kept =
          timed-Keeps env R closed (λ t. release_hold env.dynamo t row key hash)
            (λ t P closed.
              release_hold_closed env.dynamo P closed t row key hash
                (rw (retarget-amount env target h) (sound h refl)))
            w k in
        elim (Bool-cases (same_hold_status h.status HoldStatus.held)) [
          | inl held ↦ rw held (bind_keeps R release _ w kept (λ r e. kept))
          | inr over ↦ rw over k
        ]

    release_to-Keeps : (id : String) (o : Option Wallet) → Keeps R (release_to env id o)
    unfolding release_to get_hold on_db
    release_to-Keeps id none w k = k
    release_to-Keeps id (some x) w k =
        let kept = acquire_wallet-Keeps R env x.wallet_id w k in
        let locked = (acquire_wallet env x.wallet_id w).1 in
        bind_keeps R (acquire_wallet env x.wallet_id) _ w kept (λ u e.
          bind_keeps R (get_hold env id) _ locked kept (λ o e2.
            release_locked-Keeps x.wallet_id id o
              (λ h same. (reads id locked.db h (tidy locked kept) (rw (← same) e2)).0) locked kept))

    release_found-Keeps :
        (user id : String) (o : Option Hold) → Keeps R (release_found env user id o)
    unfolding release_found
    release_found-Keeps user id none w k = k
    release_found-Keeps user id (some h) w k =
        let ensure = timed env (λ t. ensure_real_wallet env.dynamo t user) in
        let kept =
          timed-Keeps env R closed (λ t. ensure_real_wallet env.dynamo t user)
            (λ t P closed. ensure_real_wallet_keeps env.dynamo P closed t user) w k in
        elim (Bool-cases (h.user_id == user)) [
          | inl own ↦ elim (Bool-cases (same_hold_status h.status HoldStatus.held)) [
            | inl held ↦
                rw (own, held) (bind_keeps R ensure _ w kept (λ o e. release_to-Keeps id o _ kept))
            | inr over ↦ rw (own, over) k
          ]
          | inr other ↦ rw other k
        ]

    pub release_game_hold-Keeps : (user id : String) → Keeps R (release_game_hold env user id)
    unfolding release_game_hold get_hold on_db
    release_game_hold-Keeps user id w k =
        bind_keeps R (get_hold env id) _ w k (λ o e. release_found-Keeps user id o w k)

  module _ (user : String) (amount : ℤ) (table_ref : String) (ids : List String)
      (key description : String) (nonneg : pos 0 ≤ℤ amount) where
    consume_holds-Keeps :
        (wallet_id : String) (holds : List Hold)
        → Keeps R (consume_holds env wallet_id user amount table_ref ids key description holds)
    unfolding consume_holds
    consume_holds-Keeps wallet_id holds w k =
        let cash_key = entry_key EntryType.game_cashout_credit user key in
        let hash = req_hash env (joined table_ref ids) amount in
        let f = λ (t : Moment).
          cashout_holds env.dynamo t wallet_id user amount table_ref holds cash_key hash
            description in
        let kept =
          timed-Keeps env R closed f
            (λ t P closed.
              cashout_holds_closed env.dynamo P closed t wallet_id user amount table_ref holds
                cash_key hash description nonneg)
            w k in
        bind_keeps R (timed env f) _ w kept (λ r e. kept)

    settle_holds-Keeps :
        (wallet_id : String) (r : List Hold × ℤ)
        → Keeps R (settle_holds env wallet_id user amount table_ref ids key description r)
    unfolding settle_holds
    settle_holds-Keeps wallet_id r w k = elim (Bool-cases (ltb_ℤ r.1 amount)) [
      | inl over ↦ rw over k
      | inr covered ↦ rw covered (consume_holds-Keeps wallet_id r.0 w k)
    ]

    cashout_locked-Keeps :
        (wallet_id : String)
        → Keeps R (cashout_locked env wallet_id user amount table_ref ids key description)
    unfolding cashout_locked
    cashout_locked-Keeps wallet_id w k = elim (Bool-cases (ltb 20 (length ids))) [
      | inl many ↦ rw many k
      | inr few ↦
          let loop = collect env user table_ref ids [] (pos 0) in
          let kept : R (loop w).1 = rw collect_state k in
          rw few (bind_keeps R loop _ w kept (λ r e. settle_holds-Keeps wallet_id r _ kept))
    ]

    pub cashout_game-Keeps : Keeps R (cashout_game env user amount table_ref ids key description)
    unfolding cashout_game
    cashout_game-Keeps w k =
        let find = find_real_wallet env user in
        let found : R (find w).1 = rw find_real_wallet_state k in
        bind_keeps R find _ w found (λ game e.
          let locked = acquire_wallet-Keeps R env game.wallet_id (find w).1 found in
          bind_keeps R (acquire_wallet env game.wallet_id) _ (find w).1 locked
            (λ u e2. cashout_locked-Keeps game.wallet_id _ locked))

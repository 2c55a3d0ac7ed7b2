-- ===== src/Service/Games/Cashout.antt =====
-- A cash-out never credits more than the holds it consumes.
use ctech_wallet.Prelude.{
  String, ◌≡◌, refl, sym, ap, ◌∙◌, ◌⊎◌, inl, inr, Bool-cases, ltb, suc, ◌≤◌, Option, none, some,
  List, [], ◌∷◌, arith,
}
use ctech_wallet.Prelude.Int.{ℤ, pos, ◌≤ℤ◌, ltb_ℤ, ltb_ℤ_iff, int_laws}
use ctech_wallet.Prelude.Lists.{All, length}
use ctech_wallet.Domain.Model.{Hold, Wallet, EntryType}
use ctech_wallet.Store.Problem.{reads, bind_keeps}
use ctech_wallet.Store.Tables.{Db}
use ctech_wallet.Prelude.Table.{Table}
use ctech_wallet.Store.Dynamo.{IsDynamo}
use ctech_wallet.Holds.{cashout_holds}
use ctech_wallet.Holds.Lifecycle.{StandsHeld, SettlesOwned, cashout_holds_once}
use ctech_wallet.Service.{World, Env, on_db, timed, acquire_wallet}
use ctech_wallet.Wallets.{load_wallets, load_by_markers}
use ctech_wallet.Wallets.Keeps.{load_by_markers_state}
use ctech_wallet.Service.Keeps.{acquire_wallet-Keeps}
use ctech_wallet.Service.Digest.{req_hash, entry_key, joined}
use ctech_wallet.Service.Games.{
  collect, consume_holds, settle_holds, cashout_locked, cashout_game, find_real_wallet,
  real_or_refused,
}
use ctech_wallet.Service.Games.Collect.{
  total, running_exact, IsHoldAmount, IsDistinct, Consumes, ReadsHolds, WereRead, collect_state,
  collect_ok,
}

module _ (env : Env) (law : IsDynamo env.dynamo) (user : String) (amount : ℤ) (table_ref : String)
    (ids : List String) (key description : String) (w : World)
    (reading : ReadsHolds env.dynamo w.db) where
  -- The database is as it was, or the named holds, all different and at most 20, are consumed, and
  -- their rows had at least the amount.
  abbrev pub CashesReserved : World → Type 0
  CashesReserved w' =
      (w'.db ≡ w.db)
      ⊎ ((rows : List Hold) × (now : String) × IsDistinct ids
          × (length ids ≤ 20)
          × Consumes user table_ref now w.db.holds w'.db.holds ids rows
          × (amount ≤ℤ total rows))

  read_amounts :
      (js : List String) (hs : List Hold)
      → WereRead env user table_ref w js hs
      → All IsHoldAmount hs × (length hs ≡ length js)
  read_amounts [] [] reads = (tt, refl)
  read_amounts (id ∷ js) (h ∷ hs) (read, reads) =
      let (rest, count) = read_amounts js hs reads in
      ((reading.sized id h read, rest), ap suc count)
  read_amounts [] (h ∷ hs) reads = absurd reads
  read_amounts (id ∷ js) [] reads = absurd reads

  -- The rows of holds that were read and are settled.
  consumed :
      (now : String) (after : Table Hold) (js : List String) (hs : List Hold)
      → WereRead env user table_ref w js hs
      → All (SettlesOwned user table_ref now w.db.holds after) hs
      → (rows : List Hold) × Consumes user table_ref now w.db.holds after js rows
        × (total rows ≡ total hs)
  consumed now after [] [] reads settled = ([], tt, refl)
  consumed now after (id ∷ js) (h ∷ hs) (read, reads) ((row, held, owner, table, done), settled) =
      let (rows, rest, sum) = consumed now after js hs reads settled in
      let own = reading.keyed id h read in
      let here : StandsHeld w.db.holds id row = rw (← own) held in
      (
        row ∷ rows,
        ((here, owner, table, rw (← own) done), rest),
        rw (reading.constant id h row read here.found, sum) refl,
      )
  consumed now after [] (h ∷ hs) reads settled = absurd reads
  consumed now after (id ∷ js) [] reads settled = absurd reads

  consume_holds_bounded :
      (wallet_id : String) (hs : List Hold)
      → WereRead env user table_ref w ids hs
      → IsDistinct ids
      → length ids ≤ 20
      → amount ≤ℤ total hs
      → CashesReserved
          (consume_holds env wallet_id user amount table_ref ids key description hs w).1
  unfolding consume_holds timed on_db
  consume_holds_bounded wallet_id hs reads differ few covered =
      let t = env.clock w in
      let cash_key = entry_key EntryType.game_cashout_credit user key in
      let hash = req_hash env (joined table_ref ids) amount in
      let run = timed env (λ t.
        cashout_holds env.dynamo t wallet_id user amount table_ref hs cash_key hash description) in
      let kept : CashesReserved (run w).1 =
        elim (cashout_holds_once env.dynamo t wallet_id user amount table_ref hs cash_key hash
          description w.db law) [
            | inl same ↦ inl same
            | inr settled ↦
                let (rows, used, sum) =
                  consumed t.now_str (run w).1.db.holds ids hs reads settled in
                inr (rows, t.now_str, differ, few, used, rw sum covered)
          ] in
      bind_keeps CashesReserved run _ w kept (λ r e. kept)

  settle_holds_bounded :
      (wallet_id : String) (r : List Hold × ℤ)
      → WereRead env user table_ref w ids r.0
      → IsDistinct ids
      → length ids ≤ 20
      → r.1 ≡ total r.0
      → CashesReserved (settle_holds env wallet_id user amount table_ref ids key description r w).1
  unfolding settle_holds
  settle_holds_bounded wallet_id r reads differ few sum = elim (Bool-cases (ltb_ℤ r.1 amount)) [
    | inl over ↦ rw over (inl refl)
    | inr covered ↦ rw covered (
        consume_holds_bounded wallet_id r.0 reads differ few
          (rw (sym sum) (ground (arith, ltb_ℤ_iff r.1 amount))))
  ]

  cashout_locked_bounded :
      (wallet_id : String)
      → CashesReserved (cashout_locked env wallet_id user amount table_ref ids key description w).1
  unfolding cashout_locked
  cashout_locked_bounded wallet_id = elim (Bool-cases (ltb 20 (length ids))) [
    | inl many ↦ rw many (inl refl)
    | inr few ↦
        let loop = collect env user table_ref ids [] (pos 0) in
        let state = collect_state env user table_ref ids [] (pos 0) w in
        rw few (
          bind_keeps CashesReserved loop _ w (inl (ap (λ (x : World). x.db) state)) (λ r e.
            let (_, reads, sum, differ, _) =
              collect_ok env user table_ref ids [] (pos 0) r w (loop w).1
                (ap (λ x. (x, (loop w).1)) e) in
            let (amounts, count) = read_amounts ids r.0 reads in
            let exact = running_exact (pos 0) r.0 (ground arith) (ground arith) amounts in
            rw state (
              settle_holds_bounded wallet_id r reads differ (ground arith)
                (sum ∙ exact ∙ grind int_laws))))
  ]

load_wallets_state :
    (env : Env) (user : String) (db : Db) → (load_wallets env.dynamo user db).1 ≡ db
unfolding load_wallets
load_wallets_state env user db =
    bind_keeps (λ s. s ≡ db) (load_by_markers env.dynamo user _) _ db
      (load_by_markers_state _ _ _ db) (λ by e. load_by_markers_state _ _ _ db)

load_state :
    (env : Env) (user : String) (w : World) → (on_db (load_wallets env.dynamo user) w).1 ≡ w
unfolding on_db
load_state env user w = ap (λ x. record w { db = x }) (load_wallets_state env user w.db)

real_or_refused_state :
    (env : Env) (ws : Option Wallet × Option Wallet × Option Wallet) (w : World)
    → (real_or_refused env ws w).1 ≡ w
unfolding real_or_refused
real_or_refused_state env (none, game, sandbox) w = refl
real_or_refused_state env (some x, game, sandbox) w = refl

acquire_wallet_state : (env : Env) (id : String) (w : World) → (acquire_wallet env id w).1 ≡ w
acquire_wallet_state env id w = acquire_wallet-Keeps (λ s. s ≡ w) env id w refl

pub find_real_wallet_state :
    (env : Env) (user : String) (w : World) → (find_real_wallet env user w).1 ≡ w
unfolding find_real_wallet
find_real_wallet_state env user w =
    bind_keeps (λ s. s ≡ w) (on_db (load_wallets env.dynamo user)) _ w (load_state env user w)
      (λ ws e. rw load_state (real_or_refused_state env ws w))

-- A cash-out, whatever DynamoDB answers, leaves the database as it was, or the holds that it names
-- are all different and at most 20, each stood held by the user at the table and is settled
-- afterwards, and the amount is at most the exact sum of their rows' amounts. A read of a hold gives
-- a row with its key and its amount, which is at least zero and at most a 20th of the greatest int64.
pub cashout_game_bounded :
    (env : Env) (user : String) (amount : ℤ) (table_ref : String) (ids : List String)
    (key description : String) (w : World)
    → IsDynamo env.dynamo
    → ReadsHolds env.dynamo w.db
    → let w' = (cashout_game env user amount table_ref ids key description w).1 in
      (w'.db ≡ w.db)
      ⊎ ((rows : List Hold) × (now : String) × IsDistinct ids
          × (length ids ≤ 20)
          × Consumes user table_ref now w.db.holds w'.db.holds ids rows
          × (amount ≤ℤ total rows))
unfolding cashout_game
cashout_game_bounded env user amount table_ref ids key description w law reading =
    let P = CashesReserved env law user amount table_ref ids key description w reading in
    let start : P w = inl refl in
    let find = find_real_wallet env user in
    bind_keeps P find _ w (rw find_real_wallet_state start) (λ game e. rw find_real_wallet_state (
      bind_keeps P (acquire_wallet env game.wallet_id) _ w (rw acquire_wallet_state start) (λ u e2.
        rw acquire_wallet_state (
          cashout_locked_bounded env law user amount table_ref ids key description w reading
            game.wallet_id))))

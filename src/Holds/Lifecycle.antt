-- ===== src/Holds/Lifecycle.antt =====
-- A hold is opened once and closed once: money moves for a hold only with its one transition.
use ctech_wallet.Prelude.{
  String, ◌≡◌, refl, ◌⊎◌, inl, inr, true, none, some, List, [], ◌∷◌, arith, eq_iff, Option-cases,
}
use ctech_wallet.Prelude.Int.{ℤ}
use ctech_wallet.Prelude.Lists.{All}
use ctech_wallet.Prelude.Table.{write, Table}
use ctech_wallet.Domain.Model.{Wallet, Hold, HoldStatus}
use ctech_wallet.Store.Tables.{
  Db, TxItem, move_hold, condition, conditions, effect, effects, same_hold_status, adjust,
  adjust-some,
}
use ctech_wallet.Store.Dynamo.{Dynamo, IsDynamo, Moment, transact_keeps}
use ctech_wallet.Holds.{
  movement_items, opened_hold, opening_items, create_hold, release_items, release_hold,
  settling_items, cashout_items, cashout_holds,
}
use ctech_wallet.Holds.Keeps.{create_hold_keeps, release_hold_keeps, cashout_holds_keeps}
use ctech_wallet.Ledger.{balance_tx, guard_tx}

-- A hold row with a later status.
abbrev pub closed : HoldStatus → String → Hold → Hold
closed status now row = record row { status = status; updated_at = now }

-- The row stands held.
pub record StandsHeld (holds : Table Hold) (id : String) (row : Hold) : Type 0 where
  pub found : holds id ≡ some row
  pub held : row.status ≡ HoldStatus.held

same_status_held :
    (s : HoldStatus) → same_hold_status s HoldStatus.held ≡ true → s ≡ HoldStatus.held
same_status_held HoldStatus.held h = refl
same_status_held HoldStatus.released h = ground arith
same_status_held HoldStatus.settled h = ground arith

-- The condition of a move out of held.
move_hold_held :
    (id : String) (to : HoldStatus) (now : String) (db : Db)
    → condition (move_hold id HoldStatus.held to now none) db ≡ true
    → (row : Hold) × StandsHeld db.holds id row
unfolding condition
move_hold_held id to now db c = elim (Option-cases (db.holds id)) [
  | inl e ↦ ground arith
  | inr (row, e) ↦ (row, record { found = e; held = same_status_held row.status (ground arith) })
]

-- The condition of a settlement also names the owner and the table.
move_hold_owned :
    (id user table : String) (to : HoldStatus) (now : String) (db : Db)
    → condition (move_hold id HoldStatus.held to now (some (user, table))) db ≡ true
    → (row : Hold) × StandsHeld db.holds id row × (row.user_id ≡ user) × (row.table_ref ≡ table)
unfolding condition
move_hold_owned id user table to now db c = elim (Option-cases (db.holds id)) [
  | inl e ↦ ground arith
  | inr (row, e) ↦ (
    row,
    record { found = e; held = same_status_held row.status (ground arith) },
    ground (arith, eq_iff row.user_id user),
    ground (arith, eq_iff row.table_ref table),
  )
]

-- The state is as it was, or a hold that stood held has moved on, alone.
abbrev pub ClosesHeld : String → HoldStatus → String → Db → Db → Type 0
ClosesHeld id status now db s =
    (s ≡ db)
    ⊎ ((row : Hold) × StandsHeld db.holds id row
        × (s.holds ≡ write id (closed status now row) db.holds))

-- The state is as it was, or the hold was absent, and one of the owner, the wallet, the table, the
-- amount and the key stands held under its identifier, alone.
abbrev pub StandsOpen : String → String → String → ℤ → String → String → String → Db → Db → Type 0
StandsOpen id wallet_id user_id amount table_ref key now db s =
    (s ≡ db)
    ⊎ ((db.holds id ≡ none)
        × (s.holds
            ≡ write id
                (record {
                  hold_id = id;
                  wallet_id = wallet_id;
                  user_id = user_id;
                  amount = amount;
                  table_ref = table_ref;
                  status = HoldStatus.held;
                  idempotency_key = key;
                  created_at = now;
                  updated_at = now;
                })
                db.holds))

-- The state is as it was, or a hold that was absent stands open.
abbrev OpensAbsent : Hold → Db → Db → Type 0
OpensAbsent h db s =
    (s ≡ db) ⊎ ((db.holds h.hold_id ≡ none) × (s.holds ≡ write h.hold_id h db.holds))

module _ (d : Dynamo) (t : Moment) (db : Db) where
  opening_applied :
      (id wallet_id user_id : String) (amount : ℤ) (table_ref key hash : String) (w : Wallet)
      → let items = opening_items d t id wallet_id user_id amount table_ref key hash w in
        conditions items db ≡ true
        → OpensAbsent
            (opened_hold d t id wallet_id user_id amount table_ref key hash)
            db
            (effects items db)
  unfolding opening_items conditions effects condition effect movement_items opened_hold balance_tx
      guard_tx
  opening_applied id wallet_id user_id amount table_ref key hash w c = inr (ground arith, refl)

  release_applied :
      (h : Hold) (key hash : String) (w : Wallet)
      → conditions (release_items d t h key hash w) db ≡ true
      → ClosesHeld h.hold_id HoldStatus.released t.now_str db
          (effects (release_items d t h key hash w) db)
  unfolding release_items conditions effects effect movement_items balance_tx guard_tx
  release_applied h key hash w c =
      let (row, held) = move_hold_held h.hold_id HoldStatus.released t.now_str db (ground arith) in
      inr (row, held, adjust-some h.hold_id _ db.holds held.found)

  -- A creation, whatever DynamoDB answers, leaves the state as it was, or the hold was absent and one
  -- with the given user, wallet, amount, table and key stands held under its identifier, and no other
  -- hold changes.
  pub create_hold_once :
      (id wallet_id user_id : String) (amount : ℤ) (table_ref key hash : String)
      → IsDynamo d
      → StandsOpen id wallet_id user_id amount table_ref key t.now_str db
          (create_hold d t id wallet_id user_id amount table_ref key hash db).1
  unfolding opened_hold
  create_hold_once id wallet_id user_id amount table_ref key hash law =
      let P = OpensAbsent (opened_hold d t id wallet_id user_id amount table_ref key hash) db in
      create_hold_keeps P d db (inl refl) t id wallet_id user_id amount table_ref key hash
        (λ w read.
          transact_keeps P d law
            (opening_items d t id wallet_id user_id amount table_ref key hash w) db (inl refl)
            (opening_applied id wallet_id user_id amount table_ref key hash w))

  -- A release, whatever DynamoDB answers, leaves the state as it was, or the hold stood held before
  -- and is released afterwards, and no other hold changes. So a hold pays back once, under whatever
  -- keys it is released.
  pub release_hold_once :
      (h : Hold) (key hash : String)
      → IsDynamo d
      → ClosesHeld h.hold_id HoldStatus.released t.now_str db (release_hold d t h key hash db).1
  release_hold_once h key hash law =
      let P = ClosesHeld h.hold_id HoldStatus.released t.now_str db in
      release_hold_keeps P d db (inl refl) t h key hash (λ w read.
        transact_keeps P d law (release_items d t h key hash w) db (inl refl)
          (release_applied h key hash w))

-- The row is as it was, or settled.
abbrev Settles : String → Table Hold → Table Hold → Type 0
Settles now before after =
    (id : String) (row : Hold)
    → before id ≡ some row
    → (after id ≡ some row) ⊎ (after id ≡ some (closed HoldStatus.settled now row))

settle_step :
    (id now : String) (before s : Table Hold)
    → Settles now before s
    → Settles now before (adjust id (closed HoldStatus.settled now) s)
unfolding write
settle_step id now before s near j row found = ground (arith, near j row found, eq_iff id j)

-- The hold of each item was held by its owner at the table, and is settled.
abbrev pub SettlesOwned : String → String → String → Table Hold → Table Hold → Hold → Type 0
SettlesOwned user table now before after h =
    (row : Hold) × StandsHeld before h.hold_id row
    × (row.user_id ≡ user)
    × (row.table_ref ≡ table)
    × (after h.hold_id ≡ some (closed HoldStatus.settled now row))

module _ (d : Dynamo) (t : Moment) (wallet_id user_id : String) (amount : ℤ) (table_ref : String)
    (holds : List Hold) (key hash description : String) where
  abbrev settling : List Hold → List TxItem
  settling hs = settling_items d t wallet_id user_id amount table_ref holds key hash description hs

  settled_stays :
      (hs : List Hold) (s : Db) (j : String) (row : Hold)
      → s.holds j ≡ some (closed HoldStatus.settled t.now_str row)
      → (effects (settling hs) s).holds j ≡ some (closed HoldStatus.settled t.now_str row)
  unfolding settling_items effects effect write
  settled_stays [] s j row e = e
  settled_stays (h ∷ hs) s j row e =
      settled_stays hs
        (effect
          (move_hold h.hold_id HoldStatus.held HoldStatus.settled t.now_str
            (some (user_id, table_ref)))
          s)
        j row (ground (arith, eq_iff h.hold_id j))

  settling_near :
      (hs : List Hold) (s : Db) (before : Table Hold)
      → Settles t.now_str before s.holds
      → Settles t.now_str before (effects (settling hs) s).holds
  unfolding settling_items effects effect
  settling_near [] s before near = near
  settling_near (h ∷ hs) s before near =
      settling_near hs _ before (settle_step h.hold_id t.now_str before s.holds near)

  settle_here :
      (id : String) (row : Hold) (s : Table Hold)
      → (s id ≡ some row) ⊎ (s id ≡ some (closed HoldStatus.settled t.now_str row))
      → adjust id (closed HoldStatus.settled t.now_str) s id
        ≡ some (closed HoldStatus.settled t.now_str row)
  unfolding write
  settle_here id row s h = ground (arith, eq_iff id id)

  settling_owned :
      (hs : List Hold) (db s : Db)
      → Settles t.now_str db.holds s.holds
      → conditions (settling hs) db ≡ true
      → All (SettlesOwned user_id table_ref t.now_str db.holds (effects (settling hs) s).holds) hs
  unfolding settling_items conditions effects effect
  settling_owned [] db s near c = tt
  settling_owned (h ∷ hs) db s near c =
      let item =
        move_hold h.hold_id HoldStatus.held HoldStatus.settled t.now_str
          (some (user_id, table_ref)) in
      let (row, held, owner, table) =
        move_hold_owned h.hold_id user_id table_ref HoldStatus.settled t.now_str db
          (ground arith) in
      (
        (
          row,
          held,
          owner,
          table,
          settled_stays hs (effect item s) h.hold_id row
              (settle_here h.hold_id row s.holds (near h.hold_id row held.found)),
        ),
        settling_owned hs db (effect item s) (settle_step h.hold_id t.now_str db.holds s.holds near)
            (ground arith),
      )

  -- The state is as it was, or every hold of the list was held by the user at the table.
  abbrev pub SettlesAll : Db → Db → Type 0
  SettlesAll db s = (s ≡ db) ⊎ All (SettlesOwned user_id table_ref t.now_str db.holds s.holds) holds

  cashout_applied :
      (w : Wallet) (db : Db)
      → let items =
          cashout_items d t wallet_id user_id amount table_ref holds key hash description w in
        conditions items db ≡ true → SettlesAll db (effects items db)
  unfolding cashout_items conditions effects effect movement_items balance_tx guard_tx
  cashout_applied w db c =
      inr (settling_owned holds db _ (λ id row found. inl found) (ground arith))

  -- A cash-out, whatever DynamoDB answers, leaves the state as it was, or every one of its holds
  -- stood held, by the given user at the given table, and is settled afterwards.
  pub cashout_holds_once :
      (db : Db)
      → IsDynamo d
      → SettlesAll db
          (cashout_holds d t wallet_id user_id amount table_ref holds key hash description db).1
  cashout_holds_once db law =
      cashout_holds_keeps (SettlesAll db) d db (inl refl) t wallet_id user_id amount table_ref holds
        key hash description
        (λ w read.
          transact_keeps (SettlesAll db) d law
            (cashout_items d t wallet_id user_id amount table_ref holds key hash description w) db
            (inl refl) (cashout_applied w db))

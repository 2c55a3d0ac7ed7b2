-- ===== src/Holds/Exact.antt =====
-- What opening and releasing a hold do to the balance when DynamoDB answers: a release undoes the
-- opening.
use ctech_wallet.Prelude.{String, ◌≡◌, refl, ◌≢◌, ◌∙◌, true, false, none, some, arith}
use ctech_wallet.Prelude.Int.{ℤ, pos, negsuc, ◌+ℤ◌, ◌-ℤ◌, ◌≤ℤ◌, leb_ℤ_iff, ltb_ℤ, int_laws}
use ctech_wallet.Prelude.Table.{write, write_self}
use ctech_wallet.Domain.Model.{Wallet, Hold, HoldStatus}
use ctech_wallet.Store.Problem.{ok}
use ctech_wallet.Store.Keys.{idem_pk, entry_sk}
use ctech_wallet.Store.Tables.{
  Db, adjust-some, condition, conditions, balance_condition, moved, effect, effects, distinct,
  find_entry, same_hold_status,
}
use ctech_wallet.Store.Dynamo.{Dynamo, IsPrompt, Moment, refused}
use ctech_wallet.Ledger.{new_entry, balance_tx, guard_tx, transact_write}
use ctech_wallet.Ledger.Replay.{check_replay_fresh}
use ctech_wallet.Ledger.Exact.{MovesBalance, moved_row, version_self}
use ctech_wallet.Holds.Lifecycle.{StandsHeld}
use ctech_wallet.Holds.{
  movement_items, opened_hold, opening_entry, opening_items, opening_settled, open_on,
  open_or_replay, create_hold, release_entry, release_items, release_unbooked, release_closed,
  release_lost, release_settled, release_on, release_or_replay, release_hold,
}

-- A key that booked nothing, a wallet and a free sort key.
pub record IsReady (t : Moment) (key wallet_id : String) (w : Wallet) (db : Db) : Type 0 where
  pub no_guard : db.guards (idem_pk key) ≡ none
  pub wallet_row : db.wallets wallet_id ≡ some w
  pub free_sk : find_entry wallet_id (entry_sk t.now_str t.entry_id) db.ledger ≡ none

not_held : (s : HoldStatus) → s ≢ HoldStatus.held → same_hold_status s HoldStatus.held ≡ false
not_held HoldStatus.held h = absurd (h refl)
not_held HoldStatus.released h = refl
not_held HoldStatus.settled h = refl

module _ (d : Dynamo) (prompt : IsPrompt d) (t : Moment) where
  module _ (id wallet_id user_id : String) (amount : ℤ) (table_ref key hash : String) (w : Wallet)
      (db : Db) where
    opening_conditions :
        IsReady t key wallet_id w db
        → db.holds id ≡ none
        → amount ≤ℤ w.balance
        → conditions (opening_items d t id wallet_id user_id amount table_ref key hash w) db ≡ true
    unfolding opening_items conditions condition movement_items opened_hold balance_tx guard_tx
        opening_entry new_entry balance_condition ltb_ℤ
    opening_conditions ready absent covered =
        rw
          (
            ready.wallet_row,
            ready.free_sk,
            ready.no_guard,
            absent,
            version_self w,
            (leb_ℤ_iff amount w.balance).1 covered,
          )
          refl

    opening_distinct :
        distinct (opening_items d t id wallet_id user_id amount table_ref key hash w) ≡ true
    unfolding opening_items movement_items balance_tx guard_tx distinct
    opening_distinct = refl

    opening_effects :
        IsReady t key wallet_id w db
        → let db' =
            effects (opening_items d t id wallet_id user_id amount table_ref key hash w) db in
          (db'.holds
            ≡ write id (opened_hold d t id wallet_id user_id amount table_ref key hash) db.holds)
          × MovesBalance wallet_id w (w.balance -ℤ amount) db db'
    unfolding opening_items movement_items opened_hold balance_tx guard_tx opening_entry new_entry
        effects effect moved ltb_ℤ
    opening_effects ready = (
      refl,
      moved_row wallet_id amount (negsuc 0) _ t.now_str w db
          (effects (opening_items d t id wallet_id user_id amount table_ref key hash w) db)
          (adjust-some wallet_id _ db.wallets ready.wallet_row) refl,
    )

    -- The first call for a hold that is absent, of no more than the balance, answers the open hold,
    -- writes it, and lowers the wallet's balance by the amount. DynamoDB answers every call.
    pub create_hold_opens :
        IsReady t key wallet_id w db
        → db.holds id ≡ none
        → amount ≤ℤ w.balance
        → let h = opened_hold d t id wallet_id user_id amount table_ref key hash in
          let (r, db') = create_hold d t id wallet_id user_id amount table_ref key hash db in
          (r ≡ ok (some h, false))
          × (db'.holds ≡ write id h db.holds)
          × MovesBalance wallet_id w (w.balance -ℤ amount) db db'
    unfolding create_hold open_or_replay open_on opening_settled transact_write
    create_hold_opens ready absent covered =
        rw (check_replay_fresh d prompt key hash db ready.no_guard) (
          rw (prompt.wallet_read wallet_id db) (
            rw ready.wallet_row (
              rw (prompt.applied _ db opening_distinct (opening_conditions ready absent covered))
                (refl, (opening_effects ready).0, (opening_effects ready).1))))

  module _ (h : Hold) (key hash : String) (w : Wallet) (db : Db) where
    release_conditions :
        IsReady t key h.wallet_id w db
        → (row : Hold) → StandsHeld db.holds h.hold_id row
        → conditions (release_items d t h key hash w) db ≡ true
    unfolding release_items conditions condition movement_items balance_tx guard_tx release_entry
        new_entry balance_condition ltb_ℤ
    release_conditions ready row held =
        rw (ready.wallet_row, ready.free_sk, ready.no_guard, held.found, held.held, version_self w)
          refl

    release_distinct : distinct (release_items d t h key hash w) ≡ true
    unfolding release_items movement_items balance_tx guard_tx distinct
    release_distinct = refl

    release_effects :
        IsReady t key h.wallet_id w db
        → MovesBalance h.wallet_id w
            (w.balance +ℤ h.amount)
            db
            (effects (release_items d t h key hash w) db)
    unfolding release_items movement_items balance_tx guard_tx release_entry new_entry effects
        effect moved ltb_ℤ
    release_effects ready =
        moved_row h.wallet_id h.amount (pos 1) _ t.now_str w db
          (effects (release_items d t h key hash w) db)
          (adjust-some h.wallet_id _ db.wallets ready.wallet_row) refl

    -- The first release of a hold that stands held answers it as released and raises the wallet's
    -- balance by the amount of the hold. DynamoDB answers every call.
    pub release_hold_pays :
        IsReady t key h.wallet_id w db
        → (row : Hold) → StandsHeld db.holds h.hold_id row
        → let (r, db') = release_hold d t h key hash db in
          (r ≡ ok (some (record h { status = HoldStatus.released }), false))
          × MovesBalance h.wallet_id w (w.balance +ℤ h.amount) db db'
    unfolding release_hold release_or_replay release_on release_settled transact_write
    release_hold_pays ready row held = rw (check_replay_fresh d prompt key hash db ready.no_guard) (
        rw (prompt.wallet_read h.wallet_id db) (
          rw ready.wallet_row (
            rw (prompt.applied _ db release_distinct (release_conditions ready row held))
              (refl, release_effects ready))))

    release_refused :
        IsReady t key h.wallet_id w db
        → (row : Hold) → db.holds h.hold_id ≡ some row
        → row.status ≢ HoldStatus.held
        → conditions (release_items d t h key hash w) db ≡ false
    unfolding release_items conditions condition movement_items balance_tx guard_tx release_entry
        new_entry balance_condition ltb_ℤ
    release_refused ready row found shut =
        rw
          (
            ready.wallet_row,
            ready.free_sk,
            ready.no_guard,
            found,
            not_held row.status shut,
            version_self w,
          )
          refl

    release_race :
        db.guards (idem_pk key) ≡ none
        → (row : Hold) → db.holds h.hold_id ≡ some row
        → row.status ≢ HoldStatus.held
        → release_settled d t h key hash refused db ≡ (ok (some row, true), db)
    unfolding release_settled release_lost release_unbooked release_closed
    release_race fresh row found shut =
        rw (check_replay_fresh d prompt key hash db fresh)
          (rw (prompt.hold_read h.hold_id db) (rw found (rw (not_held row.status shut) refl)))

    -- A release of a hold that is closed answers its row and changes nothing, though the key is
    -- new. DynamoDB answers every call.
    pub release_hold_closed :
        IsReady t key h.wallet_id w db
        → (row : Hold) → db.holds h.hold_id ≡ some row
        → row.status ≢ HoldStatus.held
        → release_hold d t h key hash db ≡ (ok (some row, true), db)
    unfolding release_hold release_or_replay release_on release_settled transact_write
    release_hold_closed ready row found shut =
        rw (check_replay_fresh d prompt key hash db ready.no_guard) (
          rw (prompt.wallet_read h.wallet_id db) (
            rw ready.wallet_row (
              rw (prompt.rejected _ db release_distinct (release_refused ready row found shut))
                (release_race ready.no_guard row found shut))))

-- Opening a hold and releasing it, later and under another key, leaves the wallet's balance as it
-- was before both. Nothing else need stand between the two calls than a free key and sort key, and
-- DynamoDB answers every call.
pub create_release_restores :
    (d : Dynamo) (t t2 : Moment) (id wallet_id user_id : String) (amount : ℤ)
    (table_ref key hash key2 hash2 : String) (w w2 : Wallet) (db : Db)
    → IsPrompt d
    → IsReady t key wallet_id w db
    → db.holds id ≡ none
    → amount ≤ℤ w.balance
    → let h = opened_hold d t id wallet_id user_id amount table_ref key hash in
      let db2 = (create_hold d t id wallet_id user_id amount table_ref key hash db).1 in
      IsReady t2 key2 wallet_id w2 db2
      → MovesBalance wallet_id w2 w.balance db2 (release_hold d t2 h key2 hash2 db2).1
unfolding opened_hold
create_release_restores d t t2 id wallet_id user_id amount table_ref key hash key2 hash2 w w2 db
      prompt ready absent covered ready2 =
    let h = opened_hold d t id wallet_id user_id amount table_ref key hash in
    let db2 = (create_hold d t id wallet_id user_id amount table_ref key hash db).1 in
    let (_, holds, (lowered, row, balance, _)) =
      create_hold_opens d prompt t id wallet_id user_id amount table_ref key hash w db ready absent
        covered in
    let held : StandsHeld db2.holds id h = record {
      found = rw holds (write_self id h db.holds);
      held = refl;
    } in
    let (_, (paid, row2, balance2, others)) =
      release_hold_pays d prompt t2 h key2 hash2 w2 db2 ready2 h held in
    let same : w2 ≡ lowered = grind (arith, row, ready2.wallet_row) in
    (paid, row2, balance2 ∙ grind (int_laws, balance, same), others)

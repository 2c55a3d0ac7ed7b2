-- ===== src/Holds/Keeps.antt =====
-- The one write of each operation on holds: a property of the state that it keeps is kept by the
-- operation.
use ctech_wallet.Prelude.{String, ◌≡◌, refl, Option, none, some, List, arith}
use ctech_wallet.Prelude.Int.{ℤ, negsuc}
use ctech_wallet.Domain.Model.{Wallet, LedgerEntry, Hold}
use ctech_wallet.Store.Problem.{Result, ok, err, bind_keeps, reads}
use ctech_wallet.Store.Tables.{Db, TxItem}
use ctech_wallet.Store.Dynamo.{Dynamo, Written, done, refused, broken, Moment}
use ctech_wallet.Ledger.{check_replay, transact_write}
use ctech_wallet.Ledger.Books.{check_replay_state, settle_state}
use ctech_wallet.Holds.{
  replayed_hold, opening_items, opening_lost, opening_settled, open_on, open_or_replay, create_hold,
  release_items, release_unbooked, release_closed, release_lost, release_settled, release_on,
  release_or_replay, release_hold, cashout_items, cashout_on, cashout_or_replay, cashout_holds,
}

-- What the write of an operation does to the state, for a wallet that was read.
abbrev pub Writes : (Db → Type 0) → Dynamo → String → (Wallet → List TxItem) → Db → Type 0
Writes P d wallet_id items db =
    (w : Wallet) → d.get_wallet wallet_id db ≡ ok (some w) → P (d.transact (items w) db).1

module _ (P : Db → Type 0) (d : Dynamo) (db : Db) (before : P db) where
  replayed_hold_keeps : (id : String) → P (replayed_hold d id db).1
  unfolding replayed_hold
  replayed_hold_keeps id = bind_keeps P (reads (d.get_hold id)) _ db before (λ h e. before)

  module _ (t : Moment) (id wallet_id user_id : String) (amount : ℤ) (table_ref key hash : String)
      (after : Writes P d wallet_id
        (opening_items d t id wallet_id user_id amount table_ref key hash)
        db) where
    opening_settled_state :
        (e : LedgerEntry) (w : Written) (s : Db)
        → (opening_settled d t id wallet_id user_id amount table_ref key hash e w s).1 ≡ s
    unfolding opening_settled opening_lost
    opening_settled_state e w s = ground (arith, settle_state d key hash (negsuc 0) e w s)

    open_on_keeps :
        (o : Option Wallet)
        → d.get_wallet wallet_id db ≡ ok o
        → P (open_on d t id wallet_id user_id amount table_ref key hash o db).1
    unfolding open_on transact_write
    open_on_keeps none read = before
    open_on_keeps (some w) read = rw opening_settled_state (after w read)

    open_or_replay_keeps :
        (o : Option LedgerEntry)
        → P (open_or_replay d t id wallet_id user_id amount table_ref key hash o db).1
    unfolding open_or_replay
    open_or_replay_keeps (some prior) = replayed_hold_keeps id
    open_or_replay_keeps none =
        bind_keeps P (reads (d.get_wallet wallet_id)) _ db before open_on_keeps

    pub create_hold_keeps : P (create_hold d t id wallet_id user_id amount table_ref key hash db).1
    unfolding create_hold
    create_hold_keeps =
        bind_keeps P (check_replay d key hash) _ db (rw check_replay_state before)
          (λ o e. rw check_replay_state (open_or_replay_keeps o))

  module _ (t : Moment) (h : Hold) (key hash : String)
      (after : Writes P d h.wallet_id (release_items d t h key hash) db) where
    release_unbooked_state : (s : Db) → (release_unbooked d t h key hash s).1 ≡ s
    unfolding release_unbooked release_closed
    release_unbooked_state s = ground arith

    release_lost_state :
        (r : Result (Option LedgerEntry)) (s : Db) → (release_lost d t h key hash r s).1 ≡ s
    unfolding release_lost replayed_hold
    release_lost_state (ok (some prior)) s = ground arith
    release_lost_state (ok none) s = release_unbooked_state s
    release_lost_state (err e) s = release_unbooked_state s

    release_settled_state : (w : Written) (s : Db) → (release_settled d t h key hash w s).1 ≡ s
    unfolding release_settled
    release_settled_state done s = refl
    release_settled_state refused s = release_lost_state (check_replay d key hash s).0 s
    release_settled_state (broken message) s = refl

    release_on_keeps :
        (o : Option Wallet)
        → d.get_wallet h.wallet_id db ≡ ok o
        → P (release_on d t h key hash o db).1
    unfolding release_on transact_write
    release_on_keeps none read = before
    release_on_keeps (some w) read = rw release_settled_state (after w read)

    release_or_replay_keeps : (o : Option LedgerEntry) → P (release_or_replay d t h key hash o db).1
    unfolding release_or_replay
    release_or_replay_keeps (some prior) = replayed_hold_keeps h.hold_id
    release_or_replay_keeps none =
        bind_keeps P (reads (d.get_wallet h.wallet_id)) _ db before release_on_keeps

    pub release_hold_keeps : P (release_hold d t h key hash db).1
    unfolding release_hold
    release_hold_keeps =
        bind_keeps P (check_replay d key hash) _ db (rw check_replay_state before)
          (λ o e. rw check_replay_state (release_or_replay_keeps o))

  module _ (t : Moment) (wallet_id user_id : String) (amount : ℤ) (table_ref : String)
      (holds : List Hold) (key hash description : String)
      (after : Writes P d wallet_id
        (cashout_items d t wallet_id user_id amount table_ref holds key hash description)
        db) where
    cashout_on_keeps :
        (o : Option Wallet)
        → d.get_wallet wallet_id db ≡ ok o
        → P (cashout_on d t wallet_id user_id amount table_ref holds key hash description o db).1
    unfolding cashout_on transact_write
    cashout_on_keeps none read = before
    cashout_on_keeps (some w) read = rw settle_state (after w read)

    cashout_or_replay_keeps :
        (o : Option LedgerEntry)
        → P
            (cashout_or_replay d t wallet_id user_id amount table_ref holds key hash description o
              db).1
    unfolding cashout_or_replay
    cashout_or_replay_keeps (some prior) = before
    cashout_or_replay_keeps none =
        bind_keeps P (reads (d.get_wallet wallet_id)) _ db before cashout_on_keeps

    pub cashout_holds_keeps :
        P (cashout_holds d t wallet_id user_id amount table_ref holds key hash description db).1
    unfolding cashout_holds
    cashout_holds_keeps =
        bind_keeps P (check_replay d key hash) _ db (rw check_replay_state before)
          (λ o e. rw check_replay_state (cashout_or_replay_keeps o))

-- ===== src/Holds/Books.antt =====
-- Opening, releasing and cashing out holds keep the books, whatever DynamoDB answers.
use ctech_wallet.Prelude.{String, ◌≡◌, refl, List, [], ◌∷◌, ◌++◌, arith}
use ctech_wallet.Prelude.Int.{IsMagnitude, ℤ, pos, negsuc, int64_in_range, ◌-ℤ◌, ◌≤ℤ◌, ltb_ℤ}
use ctech_wallet.Prelude.Lists.{All}
use ctech_wallet.Domain.Model.{Wallet, LedgerEntry, Hold, version_of}
use ctech_wallet.Store.Tables.{Db, TxItem}
use ctech_wallet.Store.Dynamo.{Dynamo, IsDynamo, Moment}
use ctech_wallet.Store.Sound.{IsSide, delta}
use ctech_wallet.Store.Lawful.{Lawful, movement, Invariant, transact-Invariant}
use ctech_wallet.Ledger.{balance_tx, guard_tx, new_entry}
use ctech_wallet.Holds.Keeps.{create_hold_keeps, release_hold_keeps, cashout_holds_keeps}
use ctech_wallet.Holds.{
  movement_items, opening_entry, opening_items, create_hold, release_entry, release_items,
  release_hold, cashout_entry, settling_items, cashout_items, cashout_holds,
}

-- The items of a movement whose entry records it.
movement_items-Lawful :
    (t : Moment) (amount sign : ℤ) (w : Wallet) (e : LedgerEntry) (hash : String)
    (rest : List TxItem)
    → pos 0 ≤ℤ amount
    → e.amount ≡ delta amount sign
    → All IsSide rest
    → Lawful (movement_items t amount sign w e hash ++ rest)
unfolding movement_items balance_tx guard_tx
movement_items-Lawful t amount sign w e hash rest nonneg booked side =
    movement e.wallet_id amount sign (version_of w.version) t.now_str e _ rest nonneg refl booked
      (refl, refl, refl) side

-- The items of a mutation on holds, as lawful transactions.
module _ (d : Dynamo) (t : Moment) where
  pub opening_items-Lawful :
      (id wallet_id user_id : String) (amount : ℤ) (table_ref key hash : String) (w : Wallet)
      → IsMagnitude amount
      → Lawful (opening_items d t id wallet_id user_id amount table_ref key hash w)
  unfolding opening_items opening_entry new_entry ltb_ℤ ◌-ℤ◌
  opening_items-Lawful id wallet_id user_id amount table_ref key hash w mag =
      movement_items-Lawful t amount (negsuc 0) w
        (opening_entry d t id wallet_id user_id amount table_ref key hash w) hash _ mag.0
        (int64_in_range _ (ground arith)) (mag, tt)

  pub release_items-Lawful :
      (h : Hold) (key hash : String) (w : Wallet)
      → pos 0 ≤ℤ h.amount
      → Lawful (release_items d t h key hash w)
  unfolding release_items release_entry new_entry ltb_ℤ
  release_items-Lawful h key hash w nonneg =
      movement_items-Lawful t h.amount (pos 1) w (release_entry d t h key hash w) hash _ nonneg refl
        (tt, tt)

  module _ (wallet_id user_id : String) (amount : ℤ) (table_ref : String) (holds : List Hold)
      (key hash description : String) where
    settling_items-IsSide :
        (hs : List Hold)
        → All IsSide
            (settling_items d t wallet_id user_id amount table_ref holds key hash description hs)
    unfolding settling_items
    settling_items-IsSide [] = tt
    settling_items-IsSide (h ∷ hs) = (tt, settling_items-IsSide hs)

    pub cashout_items-Lawful :
        (w : Wallet)
        → pos 0 ≤ℤ amount
        → Lawful (cashout_items d t wallet_id user_id amount table_ref holds key hash description w)
    unfolding cashout_items cashout_entry new_entry ltb_ℤ
    cashout_items-Lawful w nonneg =
        movement_items-Lawful t amount (pos 1) w
          (cashout_entry d t wallet_id user_id amount table_ref holds key hash description w) hash _
          nonneg refl (settling_items-IsSide holds)

-- Opening a hold of an int64 amount of at least zero keeps the ledger's invariant, whatever DynamoDB
-- answers.
pub create_hold-Invariant :
    (d : Dynamo) (t : Moment) (id wallet_id user_id : String) (amount : ℤ)
    (table_ref key hash : String) (db : Db)
    → IsDynamo d
    → IsMagnitude amount
    → Invariant db
    → Invariant (create_hold d t id wallet_id user_id amount table_ref key hash db).1
create_hold-Invariant d t id wallet_id user_id amount table_ref key hash db law mag inv =
    create_hold_keeps Invariant d db inv t id wallet_id user_id amount table_ref key hash (λ w read.
      transact-Invariant d _ db law
        (opening_items-Lawful d t id wallet_id user_id amount table_ref key hash w mag) inv)

-- Releasing a hold whose amount is at least zero keeps the ledger's invariant, whatever DynamoDB
-- answers.
pub release_hold-Invariant :
    (d : Dynamo) (t : Moment) (h : Hold) (key hash : String) (db : Db)
    → IsDynamo d
    → pos 0 ≤ℤ h.amount
    → Invariant db
    → Invariant (release_hold d t h key hash db).1
release_hold-Invariant d t h key hash db law nonneg inv =
    release_hold_keeps Invariant d db inv t h key hash
      (λ w read. transact-Invariant d _ db law (release_items-Lawful d t h key hash w nonneg) inv)

-- Cashing out an amount of at least zero against any holds keeps the ledger's invariant, whatever
-- DynamoDB answers.
pub cashout_holds-Invariant :
    (d : Dynamo) (t : Moment) (wallet_id user_id : String) (amount : ℤ) (table_ref : String)
    (holds : List Hold) (key hash description : String) (db : Db)
    → IsDynamo d
    → pos 0 ≤ℤ amount
    → Invariant db
    → Invariant
        (cashout_holds d t wallet_id user_id amount table_ref holds key hash description db).1
cashout_holds-Invariant d t wallet_id user_id amount table_ref holds key hash description db law
      nonneg inv =
    cashout_holds_keeps Invariant d db inv t wallet_id user_id amount table_ref holds key hash
      description
      (λ w read.
        transact-Invariant d _ db law
          (cashout_items-Lawful d t wallet_id user_id amount table_ref holds key hash description w
            nonneg)
          inv)

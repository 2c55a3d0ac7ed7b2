-- ===== src/Store/Dynamo.antt =====
-- DynamoDB, reached through gopkg.aoctech.app/api-commons/dynamo, as the repositories use it: a
-- parameter with the laws that the code relies on. `IsDynamo` is what DynamoDB documents and what
-- always holds; `IsPrompt` adds that nothing fails and no read is stale.
use ctech_wallet.Prelude.{String, ◌≡◌, ◌≢◌, ◌⊎◌, inl, inr, true, false, Option, some, List}
use ctech_wallet.Prelude.Int.{ℤ}
use ctech_wallet.Domain.Model.{WalletType, Wallet, LedgerEntry, PixDeposit, Withdrawal, Hold, User}
use ctech_wallet.Store.Problem.{Result, ok}
use ctech_wallet.Store.Tables.{Db, TxItem, Guard, Marker, conditions, effects, distinct, find_entry}

-- How a write ended: done, refused by a condition (IsConditionFailed), or with another error.
pub data Written : Type 0 where
  done refused : Written
  broken : String → Written

-- `transact` is TransactWriteItems, and UpdateItem as a list of one. The reads of wallets, users
-- and withdrawals are strongly consistent (getConsistent); the others are GetItem.
pub record Dynamo : Type 0 where
  pub transact : List TxItem → Db → Written × Db
  pub get_wallet : String → Db → Result (Option Wallet)
  pub get_marker : String → Db → Result (Option Marker)
  pub get_guard : String → Db → Result (Option Guard)
  pub get_entry : String → String → Db → Result (Option LedgerEntry)
  pub get_hold : String → Db → Result (Option Hold)
  pub get_deposit : String → Db → Result (Option PixDeposit)
  pub get_withdrawal : String → Db → Result (Option Withdrawal)
  pub get_user : String → Db → Result (Option User)

-- A transaction is all or nothing. One that ends with another error may still have been applied.
pub record IsDynamo (d : Dynamo) : Type 0 where
  pub atomic :
      (items : List TxItem) (db : Db)
      → (((d.transact items db).1 ≡ db) × ((d.transact items db).0 ≢ done))
        ⊎ ((conditions items db ≡ true)
            × ((d.transact items db).1 ≡ effects items db)
            × ((d.transact items db).0 ≢ refused))
  -- A consistent read that succeeds gives the current row.
  pub wallet_current :
      (k : String) (db : Db) (o : Option Wallet) → d.get_wallet k db ≡ ok o → db.wallets k ≡ o
  pub user_current :
      (k : String) (db : Db) (o : Option User) → d.get_user k db ≡ ok o → db.users k ≡ o
  pub withdrawal_current :
      (k : String) (db : Db) (o : Option Withdrawal)
      → d.get_withdrawal k db ≡ ok o
      → db.withdrawals k ≡ o
  -- Another read may miss a row. Guards and ledger rows never change: one that is seen is current.
  pub guard_seen :
      (k : String) (db : Db) (g : Guard) → d.get_guard k db ≡ ok (some g) → db.guards k ≡ some g
  pub entry_seen :
      (pk sk : String) (db : Db) (e : LedgerEntry)
      → d.get_entry pk sk db ≡ ok (some e)
      → find_entry pk sk db.ledger ≡ some e

-- The service answers every call, and reads are current. DynamoDB refuses a transaction that names
-- a row twice, so nothing is said of one.
pub record IsPrompt (d : Dynamo) : Type 0 where
  pub applied :
      (items : List TxItem) (db : Db)
      → distinct items ≡ true
      → conditions items db ≡ true
      → d.transact items db ≡ (done, effects items db)
  pub rejected :
      (items : List TxItem) (db : Db)
      → distinct items ≡ true
      → conditions items db ≡ false
      → d.transact items db ≡ (refused, db)
  pub wallet_read : (k : String) (db : Db) → d.get_wallet k db ≡ ok (db.wallets k)
  pub marker_read : (k : String) (db : Db) → d.get_marker k db ≡ ok (db.markers k)
  pub guard_read : (k : String) (db : Db) → d.get_guard k db ≡ ok (db.guards k)
  pub entry_read :
      (pk sk : String) (db : Db) → d.get_entry pk sk db ≡ ok (find_entry pk sk db.ledger)
  pub hold_read : (k : String) (db : Db) → d.get_hold k db ≡ ok (db.holds k)
  pub deposit_read : (k : String) (db : Db) → d.get_deposit k db ≡ ok (db.deposits k)
  pub withdrawal_read : (k : String) (db : Db) → d.get_withdrawal k db ≡ ok (db.withdrawals k)
  pub user_read : (k : String) (db : Db) → d.get_user k db ≡ ok (db.users k)

-- What the clock and the identifier generator give one call: NowStr, time.Now, id.New for a
-- ledger entry, and id.New for a new wallet of each type.
pub record Moment : Type 0 where
  pub now_str : String
  pub now : ℤ
  pub entry_id : String
  pub wallet_id : WalletType → String

-- Whatever a write does, a property that its effects keep is kept.
pub transact_keeps :
    (P : Db → Type 0) (d : Dynamo) (law : IsDynamo d) (items : List TxItem) (db : Db)
    → P db
    → (conditions items db ≡ true → P (effects items db))
    → P (d.transact items db).1
transact_keeps P d law items db before after = elim (law.atomic items db) [
  | inl (same, _) ↦ rw same before
  | inr (h, applied, _) ↦ rw applied (after h)
]

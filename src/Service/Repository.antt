-- ===== src/Service/Repository.antt =====
-- The repositories' operations as parts of a flow: each keeps every property of the database that
-- lawful transactions keep.
use ctech_wallet.Prelude.{String, refl, inl, inr, List, [], ◌∷◌}
use ctech_wallet.Prelude.Int.{IsMagnitude, ℤ, pos, ◌≤ℤ◌}
use ctech_wallet.Prelude.Lists.{All}
use ctech_wallet.Domain.Model.{WalletType, Hold, LedgerEntry}
use ctech_wallet.Store.Problem.{bind_keeps}
use ctech_wallet.Store.Tables.{Db, TxItem}
use ctech_wallet.Store.Dynamo.{Dynamo, Moment}
use ctech_wallet.Store.Sound.{IsSide}
use ctech_wallet.Store.Lawful.{Closed, wallets}
use ctech_wallet.Ledger.{Mutation, credit, debit, confirm_deposit_credit, find_mutation}
use ctech_wallet.Ledger.Books.{mutate_keeps, check_replay_state}
use ctech_wallet.Wallets.{
  load_by_markers, load_wallets, ensure_wallets, ensure_real_wallet, ensure_sandbox_wallet,
  new_items,
}
use ctech_wallet.Wallets.Keeps.{ensure_wallets_keeps, load_by_markers_state, new_items-IsNewWallet}
use ctech_wallet.Holds.{create_hold, release_hold, cashout_holds}
use ctech_wallet.Holds.Keeps.{create_hold_keeps, release_hold_keeps, cashout_holds_keeps}
use ctech_wallet.Holds.Books.{opening_items-Lawful, release_items-Lawful, cashout_items-Lawful}

module _ (d : Dynamo) (P : Db → Type 0) (closed : Closed d P) where
  ensure_types_keep :
      (t : Moment) (user : String) (types : List WalletType) (db : Db)
      → P db
      → P (ensure_wallets d t user types db).1
  ensure_types_keep t user types db h =
      ensure_wallets_keeps d P t user db h
        (λ ts. closed (new_items t user ts) db (wallets _ (new_items-IsNewWallet t user ts)) h)
        types

  pub ensure_real_wallet_keeps :
      (t : Moment) (user : String) (db : Db) → P db → P (ensure_real_wallet d t user db).1
  unfolding ensure_real_wallet
  ensure_real_wallet_keeps t user db h =
      let types = WalletType.real ∷ [] in
      bind_keeps P (ensure_wallets d t user types) _ db (ensure_types_keep t user types db h)
        (λ by e. ensure_types_keep t user types db h)

  pub ensure_sandbox_wallet_keeps :
      (t : Moment) (user : String) (db : Db) → P db → P (ensure_sandbox_wallet d t user db).1
  unfolding ensure_sandbox_wallet
  ensure_sandbox_wallet_keeps t user db h =
      let types = WalletType.sandbox ∷ [] in
      bind_keeps P (ensure_wallets d t user types) _ db (ensure_types_keep t user types db h)
        (λ by e. ensure_types_keep t user types db h)

  pub load_wallets_keeps : (user : String) (db : Db) → P db → P (load_wallets d user db).1
  unfolding load_wallets
  load_wallets_keeps user db h =
      bind_keeps P (load_by_markers d user _) _ db (rw load_by_markers_state h)
        (λ by e. rw load_by_markers_state h)

  pub find_mutation_keeps : (key hash : String) (db : Db) → P db → P (find_mutation d key hash db).1
  unfolding find_mutation
  find_mutation_keeps key hash db h = rw check_replay_state h

  module _ (t : Moment) (m : Mutation) (extra : List TxItem) (mag : IsMagnitude m.amount)
      (side : All IsSide extra) (side2 : (e : LedgerEntry) → All IsSide (m.extra e)) where
    pub credit_keeps : (db : Db) → P db → P (credit d t m extra db).1
    unfolding credit
    credit_keeps db h = mutate_keeps d t m _ extra P closed mag (inl refl) (side, side2) db h

    pub debit_keeps : (db : Db) → P db → P (debit d t m extra db).1
    unfolding debit
    debit_keeps db h = mutate_keeps d t m _ extra P closed mag (inr refl) (side, side2) db h

    pub confirm_deposit_credit_keeps :
        (txid e2e : String) (db : Db) → P db → P (confirm_deposit_credit d t m txid e2e extra db).1
    unfolding confirm_deposit_credit credit
    confirm_deposit_credit_keeps txid e2e db h =
        mutate_keeps d t m _ (_ ∷ extra) P closed mag (inl refl) ((tt, side), side2) db h

  pub create_hold_closed :
      (t : Moment) (id wallet_id user_id : String) (amount : ℤ) (table_ref key hash : String)
      → IsMagnitude amount
      → (db : Db) → P db
      → P (create_hold d t id wallet_id user_id amount table_ref key hash db).1
  create_hold_closed t id wallet_id user_id amount table_ref key hash mag db h =
      create_hold_keeps P d db h t id wallet_id user_id amount table_ref key hash (λ w read.
        closed _ db (opening_items-Lawful d t id wallet_id user_id amount table_ref key hash w mag)
          h)

  pub release_hold_closed :
      (t : Moment) (row : Hold) (key hash : String)
      → pos 0 ≤ℤ row.amount
      → (db : Db) → P db
      → P (release_hold d t row key hash db).1
  release_hold_closed t row key hash nonneg db h =
      release_hold_keeps P d db h t row key hash
        (λ w read. closed _ db (release_items-Lawful d t row key hash w nonneg) h)

  pub cashout_holds_closed :
      (t : Moment) (wallet_id user_id : String) (amount : ℤ) (table_ref : String)
      (holds : List Hold) (key hash description : String)
      → pos 0 ≤ℤ amount
      → (db : Db) → P db
      → P (cashout_holds d t wallet_id user_id amount table_ref holds key hash description db).1
  cashout_holds_closed t wallet_id user_id amount table_ref holds key hash description nonneg db h =
      cashout_holds_keeps P d db h t wallet_id user_id amount table_ref holds key hash description
        (λ w read.
          closed _ db
            (cashout_items-Lawful d t wallet_id user_id amount table_ref holds key hash description
              w nonneg)
            h)

-- ===== src/Wallets/Keeps.antt =====
-- Creating wallets keeps the books, and never replaces a wallet or its marker.
use ctech_wallet.Prelude.{String, ◌≡◌, refl, Option, none, some, List, [], ◌∷◌, true, arith, eq_iff}
use ctech_wallet.Prelude.Lists.{All}
use ctech_wallet.Prelude.Table.{write}
use ctech_wallet.Domain.Model.{WalletType, Wallet}
use ctech_wallet.Store.Keys.{marker_pk}
use ctech_wallet.Store.Problem.{bind_keeps, reads}
use ctech_wallet.Store.Tables.{Db, Marker, condition, conditions, effect, effects}
use ctech_wallet.Store.Dynamo.{
  Dynamo, IsDynamo, Written, done, refused, broken, Moment, transact_keeps,
}
use ctech_wallet.Store.Sound.{IsNewWallet}
use ctech_wallet.Store.Lawful.{Invariant, wallets, transact-Invariant}
use ctech_wallet.Ledger.{transact_write}
use ctech_wallet.Wallets.{
  ByType, no_wallets, missing, new_items, new_wallet, marked, load_from, load_by_markers, created,
  create_wallets, complete, ensure_wallets,
}

module _ (d : Dynamo) where
  marked_state :
      (type : WalletType) (by : ByType) (o : Option Marker) (db : Db)
      → (marked d type by o db).1 ≡ db
  unfolding marked
  marked_state type by none db = refl
  marked_state type by (some m) db = ground arith

  pub load_from_state :
      (user : String) (types : List WalletType) (by : ByType) (db : Db)
      → (load_from d user types by db).1 ≡ db
  unfolding load_from
  load_from_state user [] by db = refl
  load_from_state user (type ∷ types) by db =
      bind_keeps (λ s. s ≡ db) (reads (d.get_marker (marker_pk user type))) _ db refl
        (λ m e.
          bind_keeps (λ s. s ≡ db) (marked d type by m) (load_from d user types) db
            (marked_state type by m db)
            (λ by2 e2. rw marked_state (load_from_state user types by2 db)))

  pub load_by_markers_state :
      (user : String) (types : List WalletType) (db : Db) → (load_by_markers d user types db).1 ≡ db
  unfolding load_by_markers
  load_by_markers_state user types db = load_from_state user types no_wallets db

  module _ (P : Db → Type 0) (t : Moment) (user : String) (db : Db) (before : P db)
      (after : (types : List WalletType) → P (d.transact (new_items t user types) db).1) where
    created_state :
        (types : List WalletType) (w : Written) (s : Db) → (created d t user types w s).1 ≡ s
    unfolding created
    created_state types done s = refl
    created_state types refused s = load_by_markers_state user types s
    created_state types (broken message) s = refl

    create_wallets_keeps : (types : List WalletType) → P (create_wallets d t user types db).1
    unfolding create_wallets transact_write
    create_wallets_keeps types = rw created_state (after types)

    complete_keeps : (by : ByType) (types : List WalletType) → P (complete d t user by types db).1
    unfolding complete
    complete_keeps by [] = before
    complete_keeps by (type ∷ types) =
        bind_keeps P (create_wallets d t user (type ∷ types)) _ db
          (create_wallets_keeps (type ∷ types)) (λ made e. create_wallets_keeps (type ∷ types))

    pub ensure_wallets_keeps : (types : List WalletType) → P (ensure_wallets d t user types db).1
    unfolding ensure_wallets
    ensure_wallets_keeps types =
        bind_keeps P (load_by_markers d user types) _ db (rw load_by_markers_state before)
          (λ by e. rw load_by_markers_state (complete_keeps by (missing types by)))

pub new_items-IsNewWallet :
    (t : Moment) (user : String) (types : List WalletType)
    → All IsNewWallet (new_items t user types)
unfolding new_items new_wallet
new_items-IsNewWallet t user [] = tt
new_items-IsNewWallet t user (type ∷ types) = (refl, (tt, new_items-IsNewWallet t user types))

-- Whatever DynamoDB answers, looking up and creating wallets of any types keeps the ledger's
-- invariant.
pub ensure_wallets-Invariant :
    (d : Dynamo) (t : Moment) (user : String) (types : List WalletType) (db : Db)
    → IsDynamo d
    → Invariant db
    → Invariant (ensure_wallets d t user types db).1
ensure_wallets-Invariant d t user types db law inv =
    ensure_wallets_keeps d Invariant t user db inv
      (λ types.
        transact-Invariant d _ db law
          (wallets (new_items t user types) (new_items-IsNewWallet t user types)) inv)
      types

-- Every wallet and marker stands as it did.
pub record KeepsWallets (a b : Db) : Type 0 where
  pub wallets : (k : String) (w : Wallet) → a.wallets k ≡ some w → b.wallets k ≡ some w
  pub markers : (k : String) (m : Marker) → a.markers k ≡ some m → b.markers k ≡ some m

new_items_keep :
    (t : Moment) (user : String) (types : List WalletType) (db s : Db)
    → conditions (new_items t user types) db ≡ true
    → KeepsWallets db s
    → KeepsWallets db (effects (new_items t user types) s)
unfolding new_items conditions condition effects effect write
new_items_keep t user [] db s c keeps = keeps
new_items_keep t user (type ∷ types) db s c keeps =
    new_items_keep t user types db _ (ground arith) (record {
      wallets = λ k w found.
          ground (arith, keeps.wallets k w found, eq_iff (new_wallet t user type).wallet_id k);
      markers =
          λ k m found. ground (arith, keeps.markers k m found, eq_iff (marker_pk user type) k);
    })

-- Whatever DynamoDB answers, looking up and creating wallets leaves every wallet and every marker
-- that exists as it is.
pub ensure_wallets-KeepsWallets :
    (d : Dynamo) (t : Moment) (user : String) (types : List WalletType) (db : Db)
    → IsDynamo d
    → KeepsWallets db (ensure_wallets d t user types db).1
ensure_wallets-KeepsWallets d t user types db law =
    let same : KeepsWallets db db = record { wallets = λ k w h. h; markers = λ k m h. h } in
    ensure_wallets_keeps d (KeepsWallets db) t user db same
      (λ types.
        transact_keeps (KeepsWallets db) d law (new_items t user types) db same
          (λ c. new_items_keep t user types db db c same))
      types
